-- ===== src/Dag/GraphInfo/Level.antt =====
-- GetLevel: a new unit stands above all its parents.
use babyboy.Prelude.{
  ℕ, ◌-◌, ◌^◌, ◌<◌, ◌≤◌, ◌≡◌, inl, inr, List, [], ◌∷◌, true, arith, elem, All, Bool-cases,
}
use babyboy.Int64.{slt, rank}
use babyboy.Types.Hash.{Hash}
use babyboy.Dag.GraphInfo.{UnitTable, GraphInfoGetter, get_unit_by_hash, level_loop, get_level}

module _ (db : UnitTable) where
  level_loop-ge : (ps : List Hash) (level : ℕ) → rank level ≤ rank (level_loop db ps level)
  unfolding level_loop
  level_loop-ge [] level = omega arith
  level_loop-ge (p ∷ ps) level =
      ground (arith, level_loop-ge ps level, level_loop-ge ps (get_unit_by_hash db p).level)

  level_loop-ge_parent :
      (q : Hash) (ps : List Hash) (level : ℕ)
      → elem q ps ≡ true
      → rank (get_unit_by_hash db q).level ≤ rank (level_loop db ps level)
  unfolding level_loop
  level_loop-ge_parent q [] level h = cc
  level_loop-ge_parent q (p ∷ ps) level h = ground (
    arith,
    level_loop-ge ps level,
    level_loop-ge ps (get_unit_by_hash db p).level,
    level_loop-ge_parent q ps level,
    level_loop-ge_parent q ps (get_unit_by_hash db p).level,
  )

  -- What holds of the start and of every parent's level holds of the result.
  level_loop-All :
      (P : ℕ → Type 0) (ps : List Hash) (level : ℕ)
      → P level
      → All (λ p. P (get_unit_by_hash db p).level) ps
      → P (level_loop db ps level)
  unfolding level_loop
  level_loop-All P [] level h a = h
  level_loop-All P (p ∷ ps) level h a =
      elim (Bool-cases (slt level (get_unit_by_hash db p).level)) [
        | inl e ↦ rw e (level_loop-All P ps (get_unit_by_hash db p).level a.0 a.1)
        | inr e ↦ rw e (level_loop-All P ps level h a.1)
      ]

-- A level that a new unit can be put above.
abbrev pub HasNext : ℕ → Type 0
HasNext l = (l < 2 ^ 64) × (rank l < 2 ^ 64 - 1)

-- If the parents' levels are 64-bit patterns other than that of the greatest `int64`, the level
-- of the new unit is positive and greater than the level of each parent, as signed numbers.
pub get_level-above :
    (gig : GraphInfoGetter)
    → All (λ p. HasNext (get_unit_by_hash gig.db p).level) gig.parent_list
    → (p : Hash) → elem p gig.parent_list ≡ true
    → (slt 0 (get_level gig) ≡ true)
      × (slt (get_unit_by_hash gig.db p).level (get_level gig) ≡ true)
unfolding get_level
get_level-above gig bounded p h = ground (
  arith,
  level_loop-All gig.db HasNext gig.parent_list 0 (omega arith) bounded,
  level_loop-ge gig.db gig.parent_list 0,
  level_loop-ge_parent gig.db p gig.parent_list 0 h,
)
