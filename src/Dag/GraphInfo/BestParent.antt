-- ===== src/Dag/GraphInfo/BestParent.antt =====
-- GetBestParentUnit: the choice among the parents. A hash key is a 32-byte digest.
pub mod Order
use babyboy.Prelude.{
  refl, ℕ, ◌^◌, ◌<◌, ◌≡◌, Bool, true, false, ◌&&◌, ◌||◌, ◌==◌, ltb, arith, All, ◌⊎◌, elem, inl,
  Bool-cases, ◌∙◌, inr, subst, ==_iff, [], elem_of_All, sym, ap, All-elem,
}
use babyboy.Int64.{rank}
use babyboy.Types.Hash.{Hash, string_gt, string_gt-hash_string}
use babyboy.Types.Unit.{DagUnit, UnitJson, hash_key, string_key}
use babyboy.Dag.GraphInfo.{
  better, UnitTable, best_loop, List, get_unit_by_hash, ◌∷◌, get_best_parent_unit, GraphInfoGetter,
}

-- The first unit (`w`, `l`, `k`) has the greater witnessed level, or else the smaller level, or
-- else the smaller key.
precedes : ℕ → ℕ → ℕ → ℕ → ℕ → ℕ → Bool
precedes w l k w' l' k' = ltb w' w || ((w' == w && ltb l l') || (w' == w && (l' == l && ltb k k')))

precedes_trans :
    (w l k w' l' k' w'' l'' k'' : ℕ)
    → precedes w' l' k' w l k ≡ true
    → precedes w'' l'' k'' w l k ≡ false
    → precedes w'' l'' k'' w' l' k' ≡ false
unfolding precedes
precedes_trans w l k w' l' k' w'' l'' k'' p q = ground arith

-- The first unit comes before the second in the order of the choice.
unfoldable pub comes_before : (UnitJson → Hash) → DagUnit → DagUnit → Bool
unfolding precedes
comes_before digest b a =
    precedes (rank b.witnessed_level) (rank b.level) (hash_key digest b) (rank a.witnessed_level)
      (rank a.level) (hash_key digest a)

-- The levels of a unit are 64-bit patterns.
abbrev pub HasLevels : DagUnit → Type 0
HasLevels u = (u.level < 2 ^ 64) × (u.witnessed_level < 2 ^ 64)

-- The result of the choice among parents: the hash of one of them, which the getter keeps, and
-- before which no other comes.
abbrev pub IsBest :
    (UnitJson → Hash) → GraphInfoGetter → List Hash → Hash × GraphInfoGetter → Type 0
IsBest digest gig ps out =
    (b : Hash) × (elem b ps ≡ true)
    × (out ≡ (
      (get_unit_by_hash gig.db b).hash,
      record gig { best_parent = (get_unit_by_hash gig.db b).hash },
    ))
    × ((q : Hash)
        → (elem q ps && comes_before digest (get_unit_by_hash gig.db q) (get_unit_by_hash gig.db b))
          ≡ false)

-- A parent with levels in range whose `Hash` field is its key.
abbrev pub IsKeyed : (UnitJson → Hash) → UnitTable → Hash → Type 0
IsKeyed digest db q =
    HasLevels (get_unit_by_hash db q)
    × ((get_unit_by_hash db q).hash ≡ hash_key digest (get_unit_by_hash db q))

module _ (digest : UnitJson → Hash) (digest_bound : (j : UnitJson) → digest j < 2 ^ 256) where
  string_gt-string_key :
      (a b : DagUnit)
      → string_gt (string_key digest a) (string_key digest b)
        ≡ ltb (hash_key digest b) (hash_key digest a)
  unfolding string_key
  string_gt-string_key a b =
      string_gt-hash_string (hash_key digest a) (hash_key digest b) (bound a) (bound b)
    where
      bound : (u : DagUnit) → hash_key digest u < 2 ^ 256
      bound u = unfold hash_key in digest_bound _

  better_lem :
      (a b : DagUnit) → HasLevels a → HasLevels b → better digest a b ≡ comes_before digest b a
  unfolding better comes_before
  better_lem a b ha hb = ground (arith, string_gt-string_key a b)

  better_trans :
      (a b x : DagUnit)
      → HasLevels a
      → HasLevels b
      → HasLevels x
      → better digest a b ≡ true
      → better digest a x ≡ false
      → better digest b x ≡ false
  unfolding comes_before
  better_trans a b x ha hb hx p q = ground (
    arith,
    better_lem a b ha hb,
    better_lem a x ha hx,
    better_lem b x hb hx,
    precedes_trans (rank a.witnessed_level) (rank a.level) (hash_key digest a)
        (rank b.witnessed_level) (rank b.level) (hash_key digest b) (rank x.witnessed_level)
        (rank x.level) (hash_key digest x),
  )

  better_irrefl : (a : DagUnit) → HasLevels a → better digest a a ≡ false
  unfolding comes_before
  better_irrefl a h = ground (arith, better_lem a a h h)

  module _ (db : UnitTable) where
    best_loop-All :
        (P : DagUnit → Type 0) (ps : List Hash) (best : DagUnit)
        → P best
        → All (λ p. P (get_unit_by_hash db p)) ps
        → P (best_loop digest db ps best)
    unfolding best_loop
    best_loop-All P [] best h a = h
    best_loop-All P (p ∷ ps) best h a =
        elim (Bool-cases (better digest best (get_unit_by_hash db p))) [
          | inl e ↦ rw e (best_loop-All P ps (get_unit_by_hash db p) a.0 a.1)
          | inr e ↦ rw e (best_loop-All P ps best h a.1)
        ]

    -- What the start is not worse than, the result is not worse than.
    best_loop-keeps :
        (ps : List Hash) (best x : DagUnit)
        → HasLevels best
        → HasLevels x
        → All (λ p. HasLevels (get_unit_by_hash db p)) ps
        → better digest best x ≡ false
        → better digest (best_loop digest db ps best) x ≡ false
    unfolding best_loop
    best_loop-keeps [] best x h hx a b = b
    best_loop-keeps (p ∷ ps) best x h hx a b =
        elim (Bool-cases (better digest best (get_unit_by_hash db p))) [
          | inl e ↦ rw e (
              best_loop-keeps ps (get_unit_by_hash db p) x a.0 hx a.1
                (better_trans best (get_unit_by_hash db p) x h a.0 hx e b))
          | inr e ↦ rw e (best_loop-keeps ps best x h hx a.1 b)
        ]

    best_loop-max :
        (ps : List Hash) (best : DagUnit) (q : Hash)
        → HasLevels best
        → All (λ p. HasLevels (get_unit_by_hash db p)) ps
        → elem q ps ≡ true
        → better digest (best_loop digest db ps best) (get_unit_by_hash db q) ≡ false
    unfolding best_loop
    best_loop-max [] best q h a m = cc
    best_loop-max (p ∷ ps) best q h a m = elim (Bool-cases (p == q)) [
      | inl e ↦
          subst
            (λ z. better digest (best_loop digest db (p ∷ ps) best) (get_unit_by_hash db z) ≡ false)
            ((==_iff p q).0 e) here
      | inr ne ↦ elim (Bool-cases (better digest best (get_unit_by_hash db p))) [
        | inl e ↦ rw e (best_loop-max ps (get_unit_by_hash db p) q a.0 a.1 (ground arith))
        | inr e ↦ rw e (best_loop-max ps best q h a.1 (ground arith))
      ]
    ]
      where
        here : better digest (best_loop digest db (p ∷ ps) best) (get_unit_by_hash db p) ≡ false
        here = elim (Bool-cases (better digest best (get_unit_by_hash db p))) [
          | inl e ↦ rw e (
              best_loop-keeps ps (get_unit_by_hash db p) (get_unit_by_hash db p) a.0 a.0 a.1
                (better_irrefl (get_unit_by_hash db p) a.0))
          | inr e ↦ rw e (best_loop-keeps ps best (get_unit_by_hash db p) h a.0 a.1 e)
        ]

    best_loop-cases :
        (ps : List Hash) (best : DagUnit)
        → (best_loop digest db ps best ≡ best)
          ⊎ ((p : Hash) × (elem p ps ≡ true)
              × (best_loop digest db ps best ≡ get_unit_by_hash db p))
    unfolding best_loop
    best_loop-cases [] best = inl refl
    best_loop-cases (p ∷ ps) best = elim (Bool-cases (better digest best (get_unit_by_hash db p))) [
      | inl e ↦
          rw e
            (from (get_unit_by_hash db p) (inr refl) (best_loop-cases ps (get_unit_by_hash db p)))
      | inr e ↦ rw e (from best (inl refl) (best_loop-cases ps best))
    ]
      where
        from :
            (b : DagUnit)
            → (b ≡ best) ⊎ (b ≡ get_unit_by_hash db p)
            → (best_loop digest db ps b ≡ b)
              ⊎ ((p' : Hash) × (elem p' ps ≡ true)
                  × (best_loop digest db ps b ≡ get_unit_by_hash db p'))
            → (best_loop digest db ps b ≡ best)
              ⊎ ((p' : Hash) × (elem p' (p ∷ ps) ≡ true)
                  × (best_loop digest db ps b ≡ get_unit_by_hash db p'))
        from b (inl e) (inl r) = inl (r ∙ e)
        from b (inr e) (inl r) = inr (p, ground arith, r ∙ e)
        from b _ (inr (p', m, r)) = inr (p', ground arith, r)

  none_before :
      (db : UnitTable) (p b q : Hash) (ps : List Hash)
      → All (λ q. HasLevels (get_unit_by_hash db q)) (p ∷ ps)
      → elem b (p ∷ ps) ≡ true
      → best_loop digest db (p ∷ ps) (get_unit_by_hash db p) ≡ get_unit_by_hash db b
      → (elem q (p ∷ ps) && comes_before digest (get_unit_by_hash db q) (get_unit_by_hash db b))
        ≡ false
  none_before db p b q ps a m r = elim (Bool-cases (elem q (p ∷ ps))) [
    | inl i ↦ rw i (
        sym (better_lem _ _ (levels b m) (levels q i))
        ∙ ap (λ z. better digest z (get_unit_by_hash db q)) (sym r)
        ∙ best_loop-max db (p ∷ ps) (get_unit_by_hash db p) q a.0 a i)
    | inr n ↦ rw n
  ]
    where
      levels : (h : Hash) → elem h (p ∷ ps) ≡ true → HasLevels (get_unit_by_hash db h)
      levels h = elem_of_All (λ z. HasLevels (get_unit_by_hash db z)) h (p ∷ ps) a

  -- The choice of a getter with parents: the hash of a parent, which is stored as `bestParent`.
  -- No parent comes before it in the order by witnessed level (greater first), level (smaller
  -- first) and key (smaller first), if the parents' levels are 64-bit patterns.
  pub get_best_parent_unit-IsBest :
      (gig : GraphInfoGetter) (p : Hash) (ps : List Hash)
      → gig.parent_list ≡ p ∷ ps
      → All (λ q. HasLevels (get_unit_by_hash gig.db q)) (p ∷ ps)
      → IsBest digest gig (p ∷ ps) (get_best_parent_unit digest gig)
  unfolding get_best_parent_unit
  get_best_parent_unit-IsBest gig p ps e a =
      chosen (best_loop-cases gig.db (p ∷ ps) (get_unit_by_hash gig.db p))
    where
      chosen :
          (best_loop digest gig.db (p ∷ ps) (get_unit_by_hash gig.db p) ≡ get_unit_by_hash gig.db p)
            ⊎ ((b : Hash) × (elem b (p ∷ ps) ≡ true)
                × (best_loop digest gig.db (p ∷ ps) (get_unit_by_hash gig.db p)
                    ≡ get_unit_by_hash gig.db b))
          → IsBest digest gig (p ∷ ps) (get_best_parent_unit digest gig)
      chosen (inl r) =
          (p, ground arith, rw (e, r), λ q. none_before gig.db p p q ps a (ground arith) r)
      chosen (inr (b, m, r)) = (b, m, rw (e, r), λ q. none_before gig.db p b q ps a m r)
