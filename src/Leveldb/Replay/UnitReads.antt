-- ===== src/Leveldb/Replay/UnitReads.antt =====
-- What the reads of the tables of units and tips answer in a database that represents four functions.

use babyboy.Prelude.{
  refl, ◌≡◌, ◌<◌, ◌^◌, true, inl, inr, arith, ap, sym, ◌∙◌, some, elem, Option-cases,
}
use babyboy.Graphop.Assoc.{is_some}
use babyboy.Types.Hash.{Hash}
use babyboy.Types.Unit.{new_empty_unit}
use babyboy.Leveldb.Store.{Bytes, Store, Prefixes, Codec, starts_with}
use babyboy.Leveldb.Units.{unit_key, parent_key, get_unit_by_hash, get_parents_list}
use babyboy.Leveldb.Slots.{
  Slot, unit_slot, unspent_slot, pending_slot, IsSlot, slot_key, HasApartTables,
  starts_with-slot_key,
}
use babyboy.Leveldb.ParentTable.{All-weaken, IsParentTable, elem-get_parents_list, IsParent}
use babyboy.Leveldb.Replay.{Contents, Represents, cell, parent_key, tip_slot}

module _ {V : Type 0} (S : Store V) (C : Codec V) (K : Prefixes) (apart : HasApartTables S C K)
    (db : S.Db) (t : Contents) (r : Represents S C K db t) where
  pub get_unit_by_hash_cell : (h : Hash) → h < 2 ^ 256 → get_unit_by_hash S C K db h ≡ t.units h
  unfolding get_unit_by_hash unit_key
  get_unit_by_hash_cell h b = elim (Option-cases (t.units h)) [
    | inl n ↦ ground (arith, r.cells (unit_slot h) (omega arith, b))
    | inr (u, e) ↦
        ground (arith, r.cells (unit_slot h) (omega arith, b), C.read_unit_text new_empty_unit u)
  ]

  -- The table of tips has hashes under their keys.
  tips-IsParentTable : IsParentTable S C K db
  unfolding parent_key
  tips-IsParentTable =
      All-weaken _ (IsParent S C K) (S.scan db K.parent_list_prefix) entry
        (S.scan_get db K.parent_list_prefix)
    where
      parent :
          (x : Bytes × V) (s : Slot)
          → IsSlot s
          → x.0 ≡ slot_key S C K s
          → starts_with K.parent_list_prefix x.0 ≡ true
          → cell S C K t s ≡ some x.1
          → IsParent S C K x
      parent x (tip_slot h) hs k w c = (h, hs.1, k, ground arith)
      parent x (unit_slot h) hs k w c = absurd (
          cc (
            w,
            ap (starts_with K.parent_list_prefix) k,
            starts_with-slot_key S C K (tip_slot h) (unit_slot h) apart refl,
          ))
      parent x (unspent_slot a h) hs k w c = absurd (
          cc (
            w,
            ap (starts_with K.parent_list_prefix) k,
            starts_with-slot_key S C K (tip_slot h) (unspent_slot a h) apart refl,
          ))
      parent x (pending_slot a h) hs k w c = absurd (
          cc (
            w,
            ap (starts_with K.parent_list_prefix) k,
            starts_with-slot_key S C K (tip_slot h) (pending_slot a h) apart refl,
          ))

      entry :
          (x : Bytes × V)
          → (starts_with K.parent_list_prefix x.0 ≡ true) × (S.get db x.0 ≡ some x.1)
          → IsParent S C K x
      entry x (w, g) =
          let (s, hs, k) = r.tidy x.0 x.1 (ground arith) g in
          parent x s hs k w (sym (r.cells s hs) ∙ ap (S.get db) (sym k) ∙ g)

  pub get_parents_list_cell :
      (h : Hash) → h < 2 ^ 256 → elem h (get_parents_list S C K db) ≡ t.tips h
  unfolding parent_key
  get_parents_list_cell h b =
      elem-get_parents_list S C K db h b tips-IsParentTable
      ∙ ap is_some (r.cells (tip_slot h) (omega arith, b))
      ∙ ground arith
