-- ===== src/Transaction/Stable/Spends.antt =====
-- The outputs that the inputs of a message spend.
use babyboy.Prelude.{
  ℕ, ◌+◌, ◌≡◌, refl, subst, ◌∙◌, List, [], ◌∷◌, ◌++◌, Bool, true, false, not, ◌&&◌, none, some, ◌⊎◌,
  inl, inr, arith, elem, distinct, All, Bool-cases, Option-cases,
}
use babyboy.Types.Hash.{Hash, Address}
use babyboy.Types.Payment.{Input, Output, Utxo, new_utxo, Commission}
use babyboy.Types.Unit.{DagUnit, Author}
use babyboy.Transaction.Stable.Consumes.{keys, Consumes, Consumes-append, Consumes-one}
use babyboy.Transaction.Ledger.{Boydb, InputKind, unknown, own_key}
use babyboy.Transaction.Stable.{input_kind, pending_spent, spent, spend_inputs, settle_outputs}

pub All-split :
    {A : Type 0} (P : A → Type 0) (xs ys : List A) → All P (xs ++ ys) → All P xs × All P ys
All-split P [] ys a = (tt, a)
All-split P (x ∷ xs) ys a = ((a.0, (All-split P xs ys a.1).0), (All-split P xs ys a.1).1)

module _ (B : Boydb) where
  -- Between the two databases exactly the outputs `us` were spent: they have different keys, all
  -- existed, and of the others none came or went. The units are the same.
  pub record Spends (db : B.Db) (us : List Utxo) (db' : B.Db) : Type 0 where
    pub once : distinct (keys B us) ≡ true
    pub existed : All (λ u. B.is_exist_unspent_output db u ≡ true) us
    pub after :
        (v : Utxo)
        → B.is_exist_unspent_output db' v
          ≡ (not (elem (own_key B v) (keys B us)) && B.is_exist_unspent_output db v)
    pub units : (h : Hash) → B.get_unit_by_hash db' h ≡ B.get_unit_by_hash db h

  pub Spends-Consumes : (a b : B.Db) (us : List Utxo) → Spends a us b → Consumes B a us b
  Spends-Consumes a b us s = record { once = s.once; existed = s.existed; after = s.after }

  Consumes-Spends :
      (a b : B.Db) (us : List Utxo)
      → Consumes B a us b
      → ((h : Hash) → B.get_unit_by_hash b h ≡ B.get_unit_by_hash a h)
      → Spends a us b
  Consumes-Spends a b us c units = record {
    once = c.once;
    existed = c.existed;
    after = c.after;
    units = units;
  }

  pub Spends-append :
      (a b c : B.Db) (us vs : List Utxo) → Spends a us b → Spends b vs c → Spends a (us ++ vs) c
  Spends-append a b c us vs s t =
      Consumes-Spends a c (us ++ vs)
        (Consumes-append B a b c us vs (Spends-Consumes a b us s) (Spends-Consumes b c vs t))
        (λ h. t.units h ∙ s.units h)

  pub Spends-nil : (db : B.Db) → Spends db [] db
  Spends-nil db = record { once = refl; existed = tt; after = λ v. refl; units = λ h. refl }

  -- One output, deleted under its owner.
  pub Spends-one :
      (db : B.Db) (u : Utxo)
      → B.is_exist_unspent_output db u ≡ true
      → Spends db (u ∷ []) (B.del_unspent_output db u.output.address u)
  Spends-one db u e =
      Consumes-Spends db (B.del_unspent_output db u.output.address u) (u ∷ [])
        (Consumes-one B db u e) (λ h. B.unit_del db u.output.address u h)

  abbrev pub is_known : InputKind → Bool
  is_known unknown = false
  is_known _ = true

  -- The input has one of the three types, and spends an output of the address.
  abbrev pub IsOwned : Address → Input → Type 0
  IsOwned address x = (is_known (input_kind x.type_of) ≡ true) × (x.output.address ≡ address)

  -- The outputs that a list of inputs spends.
  abbrev pub resolve : B.Db → List Input → List Utxo
  resolve db [] = []
  resolve db (x ∷ xs) = elim (pending_spent B db x) [
    | none ↦ resolve db xs
    | some u ↦ u ∷ resolve db xs
  ]

  pub pending_spent-output :
      (db : B.Db) (x : Input) (u : Utxo)
      → is_known (input_kind x.type_of) ≡ true
      → pending_spent B db x ≡ some u
      → u.output.address ≡ x.output.address
  unfolding pending_spent new_utxo
  pending_spent-output db x u k e = ground arith

  pending_spent-units :
      (db db' : B.Db) (x : Input)
      → ((h : Hash) → B.get_unit_by_hash db' h ≡ B.get_unit_by_hash db h)
      → pending_spent B db' x ≡ pending_spent B db x
  unfolding pending_spent
  pending_spent-units db db' x same = ground (arith, same x.unit_hash)

  pub resolve-units :
      (db db' : B.Db) (xs : List Input)
      → ((h : Hash) → B.get_unit_by_hash db' h ≡ B.get_unit_by_hash db h)
      → resolve db' xs ≡ resolve db xs
  resolve-units db db' [] same = refl
  resolve-units db db' (x ∷ xs) same =
      ground (arith, pending_spent-units db db' x same, resolve-units db db' xs same)

  -- A message whose inputs are all spent.
  pub spend_inputs-Spends :
      (authors : List Author) (author : Author) (rest : List Author) (db db' : B.Db)
      (xs : List Input)
      → authors ≡ author ∷ rest
      → All (IsOwned author.address) xs
      → spend_inputs B authors db xs ≡ spent db'
      → Spends db (resolve db xs) db'
  unfolding spend_inputs
  spend_inputs-Spends authors author rest db db' [] a o e =
      subst (Spends db []) (ground arith) (Spends-nil db)
  spend_inputs-Spends authors author rest db db' (x ∷ xs) a o e =
      found (Option-cases (pending_spent B db x))
        (λ db1. spend_inputs-Spends authors author rest db1 db' xs a o.1)
    where
      found :
          (pending_spent B db x ≡ none) ⊎ ((u : Utxo) × (pending_spent B db x ≡ some u))
          → ((db1 : B.Db)
              → spend_inputs B authors db1 xs ≡ spent db'
              → Spends db1 (resolve db1 xs) db')
          → Spends db (resolve db (x ∷ xs)) db'
      found (inl p) ih = absurd (ground arith)
      found (inr (u, p)) ih = elim (Bool-cases (B.is_exist_unspent_output db u)) [
        | inr f ↦ absurd (ground arith)
        | inl t ↦
            subst (λ us. Spends db us db') (ground (arith, same_rest))
              (Spends-append db db1 db' (u ∷ []) (resolve db1 xs) (one t) (ih db1 (ground arith)))
      ]
        where
          db1 : B.Db
          db1 = B.del_unspent_output db author.address u

          owner : u.output.address ≡ author.address
          owner = pending_spent-output db x u o.0.0 p ∙ o.0.1

          one : B.is_exist_unspent_output db u ≡ true → Spends db (u ∷ []) db1
          one t =
              subst (λ z. Spends db (u ∷ []) (B.del_unspent_output db z u)) owner
                (Spends-one db u t)

          same_rest : resolve db1 xs ≡ resolve db xs
          same_rest = resolve-units db db1 xs (λ h. B.unit_del db author.address u h)

  pub settle_outputs-same :
      (unit : DagUnit) (i z : ℕ) (db : B.Db) (cs : List Commission) (os : List Output)
      → Spends db [] (settle_outputs B unit i z db cs os).0
  unfolding settle_outputs
  settle_outputs-same unit i z db cs [] = Spends-nil db
  settle_outputs-same unit i z db cs (o ∷ os) =
      Spends-append db (B.del_pending_unspent_output db u) _ [] [] first
        (settle_outputs-same unit i (z + 1) (B.del_pending_unspent_output db u) _ os)
    where
      u : Utxo
      u = new_utxo unit.hash i z (record { address = o.address; amount = o.amount }) ""

      first : Spends db [] (B.del_pending_unspent_output db u)
      first = record {
        once = refl;
        existed = tt;
        after = λ v. B.unspent_del_pending db u v;
        units = λ h. B.unit_del_pending db u h;
      }
