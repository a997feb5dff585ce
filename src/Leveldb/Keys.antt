-- ===== src/Leveldb/Keys.antt =====
-- Keys of the tables: when two are equal, and when one starts another.
use babyboy.Prelude.{
  refl, Bool, ◌≡◌, true, ◌<◌, length, not, false, ◌||◌, ◌^◌, ◌++◌, is_nil, some, ◌⊎◌, inr,
  Bool-cases, ◌∙◌, ◌&&◌, if◌then◌else◌, All, sym, inl, ap, ◌==◌, none, ◌∷◌, arith, [], ap₂, ==_iff,
}
use babyboy.Leveldb.Store.{Bytes, Entries, Store, starts_with, find}
use babyboy.Types.Hash.{
  string_gt-hash_string, string_eq, Hash, string_gt, hash_string, string_eq_refl,
  hash_string-length,
}

pub string_eq_sound : (xs ys : Bytes) → string_eq xs ys ≡ true → xs ≡ ys
unfolding string_eq
string_eq_sound [] [] e = refl
string_eq_sound [] (y ∷ ys) e = cc
string_eq_sound (x ∷ xs) [] e = cc
string_eq_sound (x ∷ xs) (y ∷ ys) e =
    ap₂ ◌∷◌ ((==_iff x y).0 (ground arith)) (string_eq_sound xs ys (ground arith))

string_eq-string_gt :
    (xs ys : Bytes)
    → length xs ≡ length ys
    → string_eq xs ys ≡ (not (string_gt xs ys) && not (string_gt ys xs))
unfolding string_eq string_gt
string_eq-string_gt [] [] n = refl
string_eq-string_gt [] (y ∷ ys) n = absurd (omega arith)
string_eq-string_gt (x ∷ xs) [] n = absurd (omega arith)
string_eq-string_gt (x ∷ xs) (y ∷ ys) n = ground (arith, string_eq-string_gt xs ys)

pub string_eq-hash_string :
    (a b : Hash) → a < 2 ^ 256 → b < 2 ^ 256 → string_eq (hash_string a) (hash_string b) ≡ (a == b)
string_eq-hash_string a b ha hb = ground (
  arith,
  string_eq-string_gt (hash_string a) (hash_string b)
      (hash_string-length a ∙ sym (hash_string-length b)),
  string_gt-hash_string a b ha hb,
  string_gt-hash_string b a hb ha,
)

pub string_eq-append :
    (xs ys us vs : Bytes)
    → length xs ≡ length ys
    → string_eq (xs ++ us) (ys ++ vs) ≡ (string_eq xs ys && string_eq us vs)
unfolding string_eq
string_eq-append [] [] us vs n = refl
string_eq-append [] (y ∷ ys) us vs n = absurd (omega arith)
string_eq-append (x ∷ xs) [] us vs n = absurd (omega arith)
string_eq-append (x ∷ xs) (y ∷ ys) us vs n = ground (arith, string_eq-append xs ys us vs)

pub starts_with_same : (xs ys : Bytes) → length xs ≡ length ys → starts_with xs ys ≡ string_eq xs ys
unfolding string_eq
starts_with_same [] [] n = refl
starts_with_same [] (y ∷ ys) n = absurd (omega arith)
starts_with_same (x ∷ xs) [] n = absurd (omega arith)
starts_with_same (x ∷ xs) (y ∷ ys) n = ground (arith, starts_with_same xs ys)

pub starts_with-append : (p k : Bytes) → starts_with p (p ++ k) ≡ true
starts_with-append [] k = refl
starts_with-append (x ∷ xs) k = ground (arith, starts_with-append xs k)

pub starts_with-longer : (p q k : Bytes) → starts_with (p ++ q) k ≡ true → starts_with p k ≡ true
starts_with-longer [] q k e = refl
starts_with-longer (x ∷ xs) q [] e = cc
starts_with-longer (x ∷ xs) q (y ∷ ys) e = ground (arith, starts_with-longer xs q ys)

pub starts_with-apart :
    (p q k : Bytes)
    → starts_with p q ≡ false
    → starts_with q p ≡ false
    → starts_with p (q ++ k) ≡ false
starts_with-apart [] q k e f = cc
starts_with-apart (x ∷ xs) [] k e f = cc
starts_with-apart (x ∷ xs) (y ∷ ys) k e f = ground (arith, starts_with-apart xs ys k)

pub string_eq-prefix : (p us vs : Bytes) → string_eq (p ++ us) (p ++ vs) ≡ string_eq us vs
string_eq-prefix p us vs =
    string_eq-append p p us vs refl ∙ ap (λ b. b && string_eq us vs) (string_eq_refl p)

module _ {V : Type 0} (S : Store V) where
  -- Is there a key with the prefix?
  abbrev pub occurs : S.Db → Bytes → Bool
  occurs d p = not (is_nil (S.scan d p))

  pub occurs_get :
      (d : S.Db) (p k : Bytes) (v : V)
      → starts_with p k ≡ true
      → S.get d k ≡ some v
      → occurs d p ≡ true
  occurs_get d p k v w g = held (S.scan d p) (S.find_scan d p k)
    where
      held :
          (es : Entries V)
          → find k es ≡ (if starts_with p k then S.get d k else none)
          → not (is_nil es) ≡ true
      held [] f = ground arith
      held (e ∷ es) f = refl

  pub occurs-entry :
      (d : S.Db) (p : Bytes)
      → (occurs d p ≡ false)
        ⊎ ((k : Bytes) × (v : V) × (starts_with p k ≡ true) × (S.get d k ≡ some v))
  occurs-entry d p = first (S.scan d p) (S.scan_get d p)
    where
      first :
          (es : Entries V)
          → All (λ e. (starts_with p e.0 ≡ true) × (S.get d e.0 ≡ some e.1)) es
          → (not (is_nil es) ≡ false)
            ⊎ ((k : Bytes) × (v : V) × (starts_with p k ≡ true) × (S.get d k ≡ some v))
      first [] a = inl refl
      first (e ∷ es) a = inr (e.0, e.1, a.0.0, a.0.1)

  -- Two stores with the same values under a prefix agree on whether it occurs.
  occurs_same :
      (d d' : S.Db) (p : Bytes)
      → ((k : Bytes) → starts_with p k ≡ true → S.get d k ≡ S.get d' k)
      → occurs d p ≡ occurs d' p
  occurs_same d d' p same = elim (occurs-entry d p) [
    | inr (k, v, w, g) ↦ occurs_get d p k v w g ∙ sym (occurs_get d' p k v w (sym (same k w) ∙ g))
    | inl f ↦ elim (occurs-entry d' p) [
      | inr (k, v, w, g) ↦ occurs_get d p k v w (same k w ∙ g) ∙ sym (occurs_get d' p k v w g)
      | inl f' ↦ f ∙ sym f'
    ]
  ]

  apart : (p k j : Bytes) → starts_with p k ≡ false → starts_with p j ≡ true → string_eq k j ≡ false
  apart p k j n w = elim (Bool-cases (string_eq k j)) [
    | inr f ↦ f
    | inl t ↦ absurd (cc (n, w, ap (starts_with p) (string_eq_sound k j t)))
  ]

  -- After a write a prefix occurs if the new key has it, or if it did before.
  pub occurs-put :
      (d : S.Db) (p k : Bytes) (v : V) → occurs (S.put d k v) p ≡ (starts_with p k || occurs d p)
  occurs-put d p k v = elim (Bool-cases (starts_with p k)) [
    | inl w ↦ rw w (
        occurs_get (S.put d k v) p k v w
          (S.get_put d k v k ∙ ap (λ b. if b then some v else S.get d k) (string_eq_refl k)))
    | inr n ↦ rw n (
        occurs_same (S.put d k v) d p
          (λ j w. S.get_put d k v j ∙ ap (λ b. if b then some v else S.get d j) (apart p k j n w)))
  ]

  -- A deletion of a key without the prefix does not change whether it occurs.
  pub occurs-delete :
      (d : S.Db) (p k : Bytes) → starts_with p k ≡ false → occurs (S.delete d k) p ≡ occurs d p
  occurs-delete d p k n =
      occurs_same (S.delete d k) d p
        (λ j w. S.get_delete d k j ∙ ap (λ b. if b then none else S.get d j) (apart p k j n w))
