-- ===== src/Transaction/Stable/Consumes.antt =====
-- Which outputs a change of the database has spent: each once, and only outputs that existed.
use babyboy.Prelude.{
  ℕ, refl, ap, List, [], ◌≡◌, ◌++◌, All, distinct, map, ◌∷◌, true, ◌==◌, elem, not, arith, false,
  ◌&&◌, elem-append, All-append,
}
use babyboy.Types.Hash.{Hash}
use babyboy.Types.Payment.{Utxo}
use babyboy.Transaction.Ledger.{Boydb, own_key}

-- A test of all elements, as a fact about each.
elem-map :
    {A : Type 0} (k : ℕ) (key : A → ℕ) (xs : List A)
    → All (λ x. (key x == k) ≡ false) xs
    → elem k (map key xs) ≡ false
elem-map k key [] a = refl
elem-map k key (x ∷ xs) a = ground (arith, elem-map k key xs a.1)

distinct-append :
    (xs ys : List ℕ)
    → distinct xs ≡ true
    → distinct ys ≡ true
    → All (λ y. elem y xs ≡ false) ys
    → distinct (xs ++ ys) ≡ true
distinct-append [] ys dx dy a = dy
distinct-append (x ∷ xs) ys dx dy a =
    ground (arith, elem-append x xs ys, apart ys a, distinct-append xs ys, tails ys a)
  where
    apart : (zs : List ℕ) → All (λ y. elem y (x ∷ xs) ≡ false) zs → elem x zs ≡ false
    apart [] b = refl
    apart (z ∷ zs) b = ground (arith, apart zs b.1)

    tails : (zs : List ℕ) → All (λ y. elem y (x ∷ xs) ≡ false) zs → All (λ y. elem y xs ≡ false) zs
    tails [] b = tt
    tails (z ∷ zs) b = (ground arith, tails zs b.1)

module _ (B : Boydb) where
  abbrev pub keys : List Utxo → List Hash
  keys us = map (own_key B) us

  -- Between the two databases exactly the outputs `us` were spent: they have different keys, all
  -- existed, and of the others none came or went.
  pub record Consumes (db : B.Db) (us : List Utxo) (db' : B.Db) : Type 0 where
    pub once : distinct (keys us) ≡ true
    pub existed : All (λ u. B.is_exist_unspent_output db u ≡ true) us
    pub after :
        (v : Utxo)
        → B.is_exist_unspent_output db' v
          ≡ (not (elem (own_key B v) (keys us)) && B.is_exist_unspent_output db v)

  pub keys-append : (us vs : List Utxo) → keys (us ++ vs) ≡ keys us ++ keys vs
  keys-append [] vs = refl
  keys-append (u ∷ us) vs = ap (◌∷◌ (own_key B u)) (keys-append us vs)

  pub Consumes-append :
      (a b c : B.Db) (us vs : List Utxo)
      → Consumes a us b
      → Consumes b vs c
      → Consumes a (us ++ vs) c
  Consumes-append a b c us vs s t = record {
    once =
        rw (keys-append us vs)
          (distinct-append (keys us) (keys vs) s.once t.once (apart vs t.existed));
    existed =
        All-append (λ u. B.is_exist_unspent_output a u ≡ true) us vs s.existed
          (before vs t.existed);
    after = λ v.
        rw (keys-append us vs)
          (ground (arith, t.after v, s.after v, elem-append (own_key B v) (keys us) (keys vs)));
  }
    where
      before :
          (ws : List Utxo)
          → All (λ u. B.is_exist_unspent_output b u ≡ true) ws
          → All (λ u. B.is_exist_unspent_output a u ≡ true) ws
      before [] e = tt
      before (w ∷ ws) e = (ground (arith, s.after w), before ws e.1)

      apart :
          (ws : List Utxo)
          → All (λ u. B.is_exist_unspent_output b u ≡ true) ws
          → All (λ k. elem k (keys us) ≡ false) (keys ws)
      apart [] e = tt
      apart (w ∷ ws) e = (ground (arith, s.after w), apart ws e.1)

  pub Consumes-nil : (db : B.Db) → Consumes db [] db
  Consumes-nil db = record { once = refl; existed = tt; after = λ v. refl }

  -- A change that leaves the unspent outputs as they are.
  pub Consumes-same :
      (db db' : B.Db)
      → ((v : Utxo) → B.is_exist_unspent_output db' v ≡ B.is_exist_unspent_output db v)
      → Consumes db [] db'
  Consumes-same db db' same = record { once = refl; existed = tt; after = same }

  -- One output, deleted under its owner.
  pub Consumes-one :
      (db : B.Db) (u : Utxo)
      → B.is_exist_unspent_output db u ≡ true
      → Consumes db (u ∷ []) (B.del_unspent_output db u.output.address u)
  Consumes-one db u e = record {
    once = refl;
    existed = (e, tt);
    after = λ v. ground (arith, B.unspent_del db u.output.address u v);
  }

  -- Some outputs were spent, and nothing else came or went.
  abbrev pub Consumed : B.Db → B.Db → Type 0
  Consumed db db' = (us : List Utxo) × Consumes db us db'

  pub Consumed-trans : (a b c : B.Db) → Consumed a b → Consumed b c → Consumed a c
  Consumed-trans a b c s t = (s.0 ++ t.0, Consumes-append a b c s.0 t.0 s.1 t.1)
