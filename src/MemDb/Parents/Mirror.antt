-- ===== src/MemDb/Parents/Mirror.antt =====
-- The set in memory against the database, and what the operations do to it.
use babyboy.Prelude.{
  ℕ, ◌+◌, ◌≤◌, ◌≡◌, refl, ap, ◌∙◌, List, [], ◌∷◌, ◌++◌, not, ◌&&◌, ◌||◌, ◌==◌, leb, elem, length,
  keep, get_or, arith,
}
use mathlib.Core.List.{append-nil, append_assoc}
use babyboy.Types.Hash.{Hash, Address}
use babyboy.Types.Unit.{new_empty_unit}
use babyboy.Graphop.HashSet
use babyboy.Graphop.HashSet.{HashSet, exists, exists_after}
use babyboy.Graphop.AddressSet
use babyboy.Graphop.AddressSet.{AddressSet}
use babyboy.MemDb.Parents.{
  ParentDb, ParentMemDb, delete_parent, delete_parents, save_parent, refilled, get_parents_as_hash,
  conflict_loop, compatible_loop, get_unit_parent_list_as_hash,
}

module _ (P : ParentDb) where
  -- The set in memory holds what the table in the database does.
  abbrev pub IsMirror : ParentMemDb P → Type 0
  IsMirror pdb = (h : Hash) → exists pdb.parent_set h ≡ elem h (P.get_parents_list pdb.db)

  delete_parent-exists :
      (pdb : ParentMemDb P) (p h : Hash)
      → exists (delete_parent P pdb p).parent_set h ≡ (not (h == p) && exists pdb.parent_set h)
  unfolding delete_parent
  delete_parent-exists pdb p h = (exists_after pdb.parent_set p h []).3

  delete_parents-exists :
      (pdb : ParentMemDb P) (ps : List Hash) (h : Hash)
      → exists (delete_parents P pdb ps).parent_set h ≡ (not (elem h ps) && exists pdb.parent_set h)
  unfolding delete_parents
  delete_parents-exists pdb [] h = refl
  delete_parents-exists pdb (p ∷ ps) h =
      ground
        (arith, delete_parents-exists (delete_parent P pdb p) ps h, delete_parent-exists pdb p h)

  -- After SaveParent the tips are the new unit and the old tips, less the parents of the new unit.
  pub save_parent-tips :
      (pdb : ParentMemDb P) (p h : Hash)
      → exists (save_parent P pdb p).parent_set h ≡ (
          not (
            elem h
              (get_or (P.get_unit_by_hash (P.save_parent pdb.db p) p) new_empty_unit).parent_list)
          && (p == h || exists pdb.parent_set h))
  unfolding save_parent
  save_parent-tips pdb p h = ground (
    arith,
    delete_parents-exists
        (record { db = P.save_parent pdb.db p; parent_set = HashSet.insert pdb.parent_set p })
        (get_or (P.get_unit_by_hash (P.save_parent pdb.db p) p) new_empty_unit).parent_list h,
    (exists_after pdb.parent_set p h []).1,
  )

  -- The witnesses of a unit that are not in the set, all counted.
  abbrev pub conflicts : AddressSet → List Address → ℕ
  conflicts s ws = length (keep (λ w. not (AddressSet.exists s w)) ws)

  conflict_loop-lem :
      (s : AddressSet) (ws : List Address) (count : ℕ)
      → count ≤ 1
      → leb (conflict_loop P s ws count) 1 ≡ leb (count + conflicts s ws) 1
  unfolding conflict_loop
  conflict_loop-lem s [] count h = ground arith
  conflict_loop-lem s (w ∷ ws) count h =
      ground (arith, conflict_loop-lem s ws (count + 1), conflict_loop-lem s ws count)

  compatible_loop-keep :
      (db : P.Db) (s : AddressSet) (ps out : List Hash)
      → compatible_loop P db s ps out
        ≡ out
          ++ keep
              (λ p.
                leb (conflicts s (get_or (P.get_unit_by_hash db p) new_empty_unit).witness_list) 1)
              ps
  unfolding compatible_loop
  compatible_loop-keep db s [] out = rw append-nil
  compatible_loop-keep db s (p ∷ ps) out = ground (
    arith,
    conflict_loop-lem s (get_or (P.get_unit_by_hash db p) new_empty_unit).witness_list 0,
    compatible_loop-keep db s ps out,
    compatible_loop-keep db s ps (out ++ (p ∷ [])),
    append_assoc out (p ∷ []) (
        keep
          (λ q. leb (conflicts s (get_or (P.get_unit_by_hash db q) new_empty_unit).witness_list) 1)
          ps),
  )

  -- GetUnitParentListAsHash keeps, in order, the tips with at most one witness outside the given list:
  -- to stop a count at 2 makes no difference.
  pub get_unit_parent_list-keep :
      (pdb : ParentMemDb P) (witness_list : List Address)
      → get_unit_parent_list_as_hash P pdb witness_list
        ≡ keep
            (λ p.
              leb
                (conflicts
                  (AddressSet.list_insert AddressSet.new_address_set witness_list)
                  (get_or (P.get_unit_by_hash pdb.db p) new_empty_unit).witness_list)
                1)
            (HashSet.get_all_hash pdb.parent_set)
  unfolding get_unit_parent_list_as_hash
  get_unit_parent_list-keep pdb witness_list =
      compatible_loop-keep pdb.db (AddressSet.list_insert AddressSet.new_address_set witness_list)
        (HashSet.get_all_hash pdb.parent_set) []

  refilled-IsMirror : (pdb : ParentMemDb P) → IsMirror pdb → IsMirror (refilled P pdb)
  unfolding refilled
  refilled-IsMirror pdb m h =
      ground (arith, (exists_after pdb.parent_set h h (P.get_parents_list pdb.db)).2, m h)

  db-refilled : (pdb : ParentMemDb P) → (refilled P pdb).db ≡ pdb.db
  unfolding refilled
  db-refilled pdb = ground arith

  -- From a mirrored state GetParentsAsHash returns the hashes of the table, and leaves a mirrored
  -- state over the same database.
  pub get_parents-IsMirror :
      (pdb : ParentMemDb P)
      → IsMirror pdb
      → IsMirror (get_parents_as_hash P pdb).1
        × ((get_parents_as_hash P pdb).1.db ≡ pdb.db)
        × ((h : Hash) → elem h (get_parents_as_hash P pdb).0 ≡ elem h (P.get_parents_list pdb.db))
  unfolding get_parents_as_hash HashSet.get_all_hash HashSet.exists
  get_parents-IsMirror pdb m = (
    refilled-IsMirror pdb m,
    db-refilled pdb,
    λ h. refilled-IsMirror pdb m h ∙ ap (λ d. elem h (P.get_parents_list d)) (db-refilled pdb),
  )
