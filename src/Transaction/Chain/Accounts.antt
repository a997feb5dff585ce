-- ===== src/Transaction/Chain/Accounts.antt =====
-- What a series of changes did to the unspent outputs: some were spent, and some were paid.
use babyboy.Prelude.{
  ℕ, refl, List, [], ◌∷◌, ◌++◌, ◌≡◌, ◌≤◌, ◌+◌, ◌==◌, ◌||◌, ◌&&◌, not, true, false, Bool, All, elem,
  distinct, arith, if◌then◌else◌, map, ap, elem-append, Bool-cases, inl, inr, ==_iff, sym, ◌∙◌,
}
use babyboy.Types.Hash.{Hash}
use babyboy.Types.Payment.{Utxo, Commission}
use babyboy.Transaction.Ledger.{Boydb, pays, own_key}
use babyboy.Transaction.Stable.Consumes.{keys, keys-append}

abbrev pub times : ℕ → List ℕ → ℕ
times k [] = 0
times k (x ∷ xs) = (if x == k then 1 else 0) + times k xs

abbrev pub bit : Bool → ℕ
bit b = if b then 1 else 0

times-append : (k : ℕ) (xs ys : List ℕ) → times k (xs ++ ys) ≡ times k xs + times k ys
times-append k [] ys = omega arith
times-append k (x ∷ xs) ys = omega (arith, times-append k xs ys)

times-distinct : (k : ℕ) (xs : List ℕ) → distinct xs ≡ true → times k xs ≡ bit (elem k xs)
times-distinct k [] d = refl
times-distinct k (x ∷ xs) d = elim (Bool-cases (x == k)) [
  | inl e ↦ ground (arith, times-distinct k xs, ap (λ n. elem n xs) ((==_iff x k).0 e))
  | inr n ↦ ground (arith, times-distinct k xs)
]

module _ (B : Boydb) where
  abbrev pub paid_keys : List Commission → List Hash
  paid_keys cs = map (λ (c : Commission). B.utxo_key c.address c.utxo) cs

  -- Between the two databases `us` were spent and `cs` were paid. The keys balance: as often as
  -- one was spent, it existed or was paid before. And of the outputs that were not spent exactly
  -- those exist that existed before or were paid.
  pub record Settles (db : B.Db) (us : List Utxo) (cs : List Commission) (db' : B.Db) : Type 0 where
    pub balanced :
        (v : Utxo)
        → times (own_key B v) (keys B us) + bit (B.is_exist_unspent_output db' v)
          ≤ bit (B.is_exist_unspent_output db v) + times (own_key B v) (paid_keys cs)
    pub kept :
        (v : Utxo)
        → elem (own_key B v) (keys B us) ≡ false
        → B.is_exist_unspent_output db' v ≡ (B.is_exist_unspent_output db v || pays B.utxo_key cs v)

  paid_keys-append : (cs ds : List Commission) → paid_keys (cs ++ ds) ≡ paid_keys cs ++ paid_keys ds
  paid_keys-append [] ds = refl
  paid_keys-append (c ∷ cs) ds = ap (◌∷◌ (B.utxo_key c.address c.utxo)) (paid_keys-append cs ds)

  pub pays-append :
      (cs ds : List Commission) (v : Utxo)
      → pays B.utxo_key (cs ++ ds) v ≡ (pays B.utxo_key cs v || pays B.utxo_key ds v)
  pays-append [] ds v = refl
  pays-append (c ∷ cs) ds v = ground (arith, pays-append cs ds v)

  pub Settles-same :
      (db db' : B.Db)
      → ((v : Utxo) → B.is_exist_unspent_output db' v ≡ B.is_exist_unspent_output db v)
      → Settles db [] [] db'
  Settles-same db db' same = record {
    balanced = λ v. ground (arith, same v);
    kept = λ v _. ground (arith, same v);
  }

  pub Settles-append :
      (a b c : B.Db) (us vs : List Utxo) (cs ds : List Commission)
      → Settles a us cs b
      → Settles b vs ds c
      → Settles a (us ++ vs) (cs ++ ds) c
  Settles-append a b c us vs cs ds s t = record {
    balanced = λ v.
        rw (keys-append B us vs, paid_keys-append cs ds)
          (omega (
            arith,
            times-append (own_key B v) (keys B us) (keys B vs),
            times-append (own_key B v) (paid_keys cs) (paid_keys ds),
            s.balanced v,
            t.balanced v,
          ));
    kept = λ v n. ground (
      arith,
      ap (elem (own_key B v)) (keys-append B us vs),
      elem-append (own_key B v) (keys B us) (keys B vs),
      s.kept v,
      t.kept v,
      pays-append cs ds v,
    );
  }

  times-pays :
      (cs : List Commission) (v : Utxo)
      → bit (pays B.utxo_key cs v) ≤ times (own_key B v) (paid_keys cs)
  times-pays [] v = omega arith
  times-pays (c ∷ cs) v = ground (arith, times-pays cs v)

  -- A spent key is the key of an output that existed.
  existed_of_elem :
      (db : B.Db) (us : List Utxo) (v : Utxo)
      → All (λ u. B.is_exist_unspent_output db u ≡ true) us
      → elem (own_key B v) (keys B us) ≡ true
      → B.is_exist_unspent_output db v ≡ true
  existed_of_elem db [] v a e = cc
  existed_of_elem db (u ∷ us) v a e = elim (Bool-cases (own_key B u == own_key B v)) [
    | inl k ↦ sym (B.unspent_key db u v ((==_iff (own_key B u) (own_key B v)).0 k)) ∙ a.0
    | inr k ↦ existed_of_elem db us v a.1 (ground arith)
  ]

  -- One round: outputs that existed are spent, each once, and then some are paid.
  pub Settles-round :
      (db db' : B.Db) (us : List Utxo) (cs : List Commission)
      → distinct (keys B us) ≡ true
      → All (λ u. B.is_exist_unspent_output db u ≡ true) us
      → ((v : Utxo)
          → B.is_exist_unspent_output db' v ≡ (
              pays B.utxo_key cs v
              || (not (elem (own_key B v) (keys B us)) && B.is_exist_unspent_output db v)))
      → Settles db us cs db'
  Settles-round db db' us cs once existed after = record {
    balanced = λ v. ground (
      arith,
      after v,
      times-distinct (own_key B v) (keys B us) once,
      times-pays cs v,
      existed_of_elem db us v existed,
    );
    kept = λ v n. ground (arith, after v);
  }
