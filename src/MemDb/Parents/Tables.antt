-- ===== src/MemDb/Parents/Tables.antt =====
-- The tips in memory over the tables of leveldb/dbservice.go: the set
-- and the table change alike.
use babyboy.Prelude.{
  List, [], ◌∷◌, ◌≡◌, ◌<◌, ◌^◌, true, false, arith, ap, sym, ◌∙◌, some, All, get_or, subst,
}
use babyboy.Types.Hash.{Hash}
use babyboy.Types.Unit.{DagUnit, new_empty_unit}
use babyboy.Graphop.HashSet
use babyboy.Graphop.HashSet.{exists, exists_after}
use babyboy.Leveldb.Store.{Store, Prefixes, Codec}
use babyboy.Leveldb.Units.{get_unit_by_hash, get_parents_list, save_unit_to_db}
use babyboy.Leveldb.Units
use babyboy.Leveldb.Slots.{HasApartTables}
use babyboy.Leveldb.Replay.{
  Contents, Represents, set_unit, set_tip, unit_saved, tip_saved, tip_deleted,
}
use babyboy.Leveldb.Replay.Steps.{write-Represents}
use babyboy.Leveldb.Replay.Answers.{Represents-Answers}
use babyboy.MemDb.Parents.{ParentDb, ParentMemDb, delete_parent, delete_parents, save_parent}

module _ {V : Type 0} (S : Store V) (C : Codec V) (K : Prefixes) where
  abbrev pub level_parents : ParentDb
  level_parents = record {
    Db = S.Db;
    get_unit_by_hash = get_unit_by_hash S C K;
    get_parents_list = get_parents_list S C K;
    save_parent = Units.save_parent S C K;
    del_parent = Units.del_parent S C K;
  }

  -- A new unit is saved, and then its hash, as NewTransactionTest does.
  unfoldable pub add_unit : ParentMemDb level_parents → DagUnit → ParentMemDb level_parents
  add_unit pdb u =
      save_parent level_parents (record pdb { db = save_unit_to_db S C K pdb.db u }) u.hash

  abbrev pub add_units : ParentMemDb level_parents → List DagUnit → ParentMemDb level_parents
  add_units pdb [] = pdb
  add_units pdb (u ∷ us) = add_units (add_unit pdb u) us

  -- The tables represent the functions, and the set in memory has their tips.
  pub record Agrees (pdb : ParentMemDb level_parents) (t : Contents) : Type 0 where
    pub tables : Represents S C K pdb.db t
    pub memory : (h : Hash) → h < 2 ^ 256 → exists pdb.parent_set h ≡ t.tips h

  abbrev pub drop_tips : Contents → List Hash → Contents
  drop_tips t [] = t
  drop_tips t (p ∷ ps) = drop_tips (set_tip t p false) ps

  abbrev pub with_unit : Contents → DagUnit → Contents
  with_unit t u = drop_tips (set_tip (set_unit t u.hash (some u)) u.hash true) u.parent_list

  abbrev pub with_units : Contents → List DagUnit → Contents
  with_units t [] = t
  with_units t (u ∷ us) = with_units (with_unit t u) us

  -- Hashes of 32 bytes.
  abbrev pub IsSized : DagUnit → Type 0
  IsSized u = (u.hash < 2 ^ 256) × All (λ h. h < 2 ^ 256) u.parent_list

  module _ (apart : HasApartTables S C K) where
    delete_parent-Agrees :
        (pdb : ParentMemDb level_parents) (t : Contents) (p : Hash)
        → p < 2 ^ 256
        → Agrees pdb t
        → Agrees (delete_parent level_parents pdb p) (set_tip t p false)
    unfolding delete_parent
    delete_parent-Agrees pdb t p b g = record {
      tables = write-Represents S C K apart pdb.db t (tip_deleted p) b g.tables;
      memory = λ h hb. ground (arith, (exists_after pdb.parent_set p h []).3, g.memory h hb);
    }

    delete_parents-Agrees :
        (pdb : ParentMemDb level_parents) (t : Contents) (ps : List Hash)
        → All (λ h. h < 2 ^ 256) ps
        → Agrees pdb t
        → Agrees (delete_parents level_parents pdb ps) (drop_tips t ps)
    unfolding delete_parents
    delete_parents-Agrees pdb t [] b g = g
    delete_parents-Agrees pdb t (p ∷ ps) b g =
        delete_parents-Agrees (delete_parent level_parents pdb p) (set_tip t p false) ps b.1
          (delete_parent-Agrees pdb t p b.0 g)

    save_parent-Agrees :
        (pdb : ParentMemDb level_parents) (t : Contents) (u : DagUnit)
        → IsSized u
        → t.units u.hash ≡ some u
        → Agrees pdb t
        → Agrees
            (save_parent level_parents pdb u.hash)
            (drop_tips (set_tip t u.hash true) u.parent_list)
    unfolding save_parent
    save_parent-Agrees pdb t u b e g =
        subst
          (λ ps. Agrees (delete_parents level_parents saved ps) (drop_tips tipped u.parent_list))
          (sym (ap (λ o. (get_or o new_empty_unit).parent_list) (found ∙ e)))
          (delete_parents-Agrees saved tipped u.parent_list b.1 agrees)
      where
        saved : ParentMemDb level_parents
        saved = record {
          db = Units.save_parent S C K pdb.db u.hash;
          parent_set = HashSet.insert pdb.parent_set u.hash;
        }

        tipped : Contents
        tipped = set_tip t u.hash true

        agrees : Agrees saved tipped
        agrees = record {
          tables = write-Represents S C K apart pdb.db t (tip_saved u.hash) b.0 g.tables;
          memory =
              λ h hb. ground (arith, (exists_after pdb.parent_set u.hash h []).1, g.memory h hb);
        }

        found : get_unit_by_hash S C K saved.db u.hash ≡ t.units u.hash
        found = (Represents-Answers S C K saved.db tipped apart agrees.tables).units u.hash b.0

    add_unit-Agrees :
        (pdb : ParentMemDb level_parents) (t : Contents) (u : DagUnit)
        → IsSized u
        → Agrees pdb t
        → Agrees (add_unit pdb u) (with_unit t u)
    unfolding add_unit
    add_unit-Agrees pdb t u b g =
        save_parent-Agrees (record pdb { db = save_unit_to_db S C K pdb.db u })
          (set_unit t u.hash (some u)) u b (ground arith)
          (record {
            tables = write-Represents S C K apart pdb.db t (unit_saved u) b.0 g.tables;
            memory = g.memory;
          })

    pub add_units-Agrees :
        (pdb : ParentMemDb level_parents) (t : Contents) (us : List DagUnit)
        → All IsSized us
        → Agrees pdb t
        → Agrees (add_units pdb us) (with_units t us)
    add_units-Agrees pdb t [] b g = g
    add_units-Agrees pdb t (u ∷ us) b g =
        add_units-Agrees (add_unit pdb u) (with_unit t u) us b.1 (add_unit-Agrees pdb t u b.0 g)
