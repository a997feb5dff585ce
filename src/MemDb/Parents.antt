-- ===== src/MemDb/Parents.antt =====
-- dag/memdb/parent_memdb.go: the units with no child, in memory and in the database.
pub mod Mirror
pub mod Tables
pub mod Childless
use babyboy.Prelude.{
  ℕ, zero, suc, ◌+◌, ◌≡◌, List, [], ◌∷◌, ◌++◌, map, Bool, true, false, not, ◌&&◌, ◌||◌,
  if◌then◌else◌, ◌==◌, leb, ltb, elem, Option, none, some, get_or,
}
use babyboy.Types.Hash.{Hash, Address}
use babyboy.Types.Unit.{DagUnit, new_empty_unit}
use babyboy.Graphop.HashSet
use babyboy.Graphop.HashSet.{HashSet}
use babyboy.Graphop.AddressSet
use babyboy.Graphop.AddressSet.{AddressSet}

-- What the package uses of the database: leveldb/dbservice.go over its tables of units and parents.
pub record ParentDb : Type 1 where
  pub Db : Type 0
  pub get_unit_by_hash : Db → Hash → Option DagUnit
  pub get_parents_list : Db → List Hash
  pub save_parent : Db → Hash → Db
  pub del_parent : Db → Hash → Db

module _ (P : ParentDb) where
  pub record ParentMemDb : Type 0 where
    pub db : P.Db
    pub parent_set : HashSet

  unfoldable pub init_parent_mem_db : ParentMemDb → P.Db → ParentMemDb
  init_parent_mem_db pdb db = record {
    db = db;
    parent_set = HashSet.list_insert pdb.parent_set (P.get_parents_list db);
  }

  unfoldable pub delete_parent : ParentMemDb → Hash → ParentMemDb
  delete_parent pdb parent = record {
    db = P.del_parent pdb.db parent;
    parent_set = HashSet.remove pdb.parent_set parent;
  }

  delete_parents : ParentMemDb → List Hash → ParentMemDb
  delete_parents pdb [] = pdb
  delete_parents pdb (val ∷ vals) = delete_parents (delete_parent pdb val) vals

  -- The unit is read after both writes.
  unfoldable pub save_parent : ParentMemDb → Hash → ParentMemDb
  unfolding delete_parents
  save_parent pdb parent =
      let saved : ParentMemDb = record {
        db = P.save_parent pdb.db parent;
        parent_set = HashSet.insert pdb.parent_set parent;
      } in
      delete_parents saved
        (get_or (P.get_unit_by_hash (P.save_parent pdb.db parent) parent)
          new_empty_unit).parent_list

  -- An empty set is filled from the database.
  refilled : ParentMemDb → ParentMemDb
  refilled pdb =
      if HashSet.empty pdb.parent_set
      then record pdb {
        parent_set = HashSet.list_insert pdb.parent_set (P.get_parents_list pdb.db);
      }
      else pdb

  unfoldable pub get_parents_as_hash : ParentMemDb → List Hash × ParentMemDb
  unfolding refilled
  get_parents_as_hash pdb = (HashSet.get_all_hash (refilled pdb).parent_set, refilled pdb)

  unfoldable pub get_parents_as_string : ParentMemDb → List (List ℕ) × ParentMemDb
  unfolding refilled
  get_parents_as_string pdb =
      (HashSet.get_all_hash_as_string (refilled pdb).parent_set, refilled pdb)

  -- The count of a unit's witnesses that are not in the set, up to 2, where the loop breaks.
  conflict_loop : AddressSet → List Address → ℕ → ℕ
  conflict_loop witness_set [] count = count
  conflict_loop witness_set (witness ∷ ws) count =
      let more = conflict_loop witness_set ws (count + 1) in
      let same = conflict_loop witness_set ws count in
      if not (AddressSet.exists witness_set witness)
      then (if ltb 1 (count + 1) then count + 1 else more)
      else same

  compatible_loop : P.Db → AddressSet → List Hash → List Hash → List Hash
  compatible_loop db witness_set [] parent_list = parent_list
  compatible_loop db witness_set (parent ∷ ps) parent_list =
      let t_unit = get_or (P.get_unit_by_hash db parent) new_empty_unit in
      compatible_loop db witness_set ps (
        if leb (conflict_loop witness_set t_unit.witness_list 0) 1
        then parent_list ++ (parent ∷ [])
        else parent_list)

  unfoldable pub get_unit_parent_list_as_hash : ParentMemDb → List Address → List Hash
  unfolding compatible_loop conflict_loop
  get_unit_parent_list_as_hash pdb witness_list =
      compatible_loop pdb.db (AddressSet.list_insert AddressSet.new_address_set witness_list)
        (HashSet.get_all_hash pdb.parent_set) []
