-- ===== src/Dag/GraphInfo/BestParent/Order.antt =====
-- GetBestParentUnit: the choice does not depend on the order of the parents.
use babyboy.Prelude.{
  refl, ◌^◌, ◌<◌, ◌≡◌, true, false, ◌&&◌, arith, All, elem, ◌∙◌, elem_of_All, sym, ap, All-elem,
}
use babyboy.Types.Hash.{Hash}
use babyboy.Types.Unit.{DagUnit, UnitJson, hash_key}
use babyboy.Dag.GraphInfo.{List, get_unit_by_hash, ◌∷◌, get_best_parent_unit, GraphInfoGetter}
use babyboy.Dag.GraphInfo.BestParent.{
  HasLevels, comes_before, IsKeyed, IsBest, get_best_parent_unit-IsBest,
}

module _ (digest : UnitJson → Hash) (digest_bound : (j : UnitJson) → digest j < 2 ^ 256) where
  same_key :
      (a b : DagUnit)
      → HasLevels a
      → HasLevels b
      → comes_before digest a b ≡ false
      → comes_before digest b a ≡ false
      → hash_key digest a ≡ hash_key digest b
  unfolding comes_before
  same_key a b ha hb p q = ground arith

  -- The chosen hash does not depend on the order of the parents: a getter whose parent list holds
  -- the same hashes in another order chooses the same, if the parents' levels are 64-bit patterns
  -- and each parent's `Hash` is its key.
  pub get_best_parent_unit-order :
      (gig : GraphInfoGetter) (p p' : Hash) (ps ps' : List Hash)
      → gig.parent_list ≡ p ∷ ps
      → ((q : Hash) → elem q (p ∷ ps) ≡ elem q (p' ∷ ps'))
      → All (IsKeyed digest gig.db) (p ∷ ps)
      → (get_best_parent_unit digest (record gig { parent_list = p' ∷ ps' })).0
        ≡ (get_best_parent_unit digest gig).0
  get_best_parent_unit-order gig p p' ps ps' e same k =
      agree
        (get_best_parent_unit-IsBest digest digest_bound gig p ps e (levels (p ∷ ps) (λ q m. m)))
        (get_best_parent_unit-IsBest digest digest_bound (record gig { parent_list = p' ∷ ps' }) p'
          ps' refl (levels (p' ∷ ps') (λ q m. same q ∙ m)))
    where
      keyed : (q : Hash) → elem q (p ∷ ps) ≡ true → IsKeyed digest gig.db q
      keyed q = elem_of_All (IsKeyed digest gig.db) q (p ∷ ps) k

      levels :
          (qs : List Hash)
          → ((q : Hash) → elem q qs ≡ true → elem q (p ∷ ps) ≡ true)
          → All (λ q. HasLevels (get_unit_by_hash gig.db q)) qs
      levels qs sub =
          All-elem (λ q. HasLevels (get_unit_by_hash gig.db q)) qs (λ q m. (keyed q (sub q m)).0)

      agree :
          IsBest digest gig (p ∷ ps) (get_best_parent_unit digest gig)
          → IsBest digest
              (record gig { parent_list = p' ∷ ps' })
              (p' ∷ ps')
              (get_best_parent_unit digest (record gig { parent_list = p' ∷ ps' }))
          → (get_best_parent_unit digest (record gig { parent_list = p' ∷ ps' })).0
            ≡ (get_best_parent_unit digest gig).0
      agree (b, m, out, none_first) (b', m', out', none_first') =
          ap (λ t. t.0) out'
          ∙ (keyed b' (same b' ∙ m')).1
          ∙ same_key (get_unit_by_hash gig.db b') (get_unit_by_hash gig.db b)
              (keyed b' (same b' ∙ m')).0 (keyed b m).0
              (ap
                  (λ t.
                    t
                    && comes_before digest (get_unit_by_hash gig.db b') (get_unit_by_hash gig.db b))
                  (sym (same b' ∙ m'))
                ∙ none_first b')
              (ap
                  (λ t.
                    t
                    && comes_before digest (get_unit_by_hash gig.db b) (get_unit_by_hash gig.db b'))
                  (sym (sym (same b) ∙ m))
                ∙ none_first' b)
          ∙ sym (keyed b m).1
          ∙ sym (ap (λ t. t.0) out)
