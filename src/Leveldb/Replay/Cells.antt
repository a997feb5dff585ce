-- ===== src/Leveldb/Replay/Cells.antt =====
-- One write of a slot, and what the functions hold after it.
use babyboy.Prelude.{
  refl, ◌≡◌, ◌==◌, Bool, Bool-cases, inl, inr, arith, ap, sym, Option, none, some, if◌then◌else◌,
  ==_iff,
}
use babyboy.Types.Hash.{Hash, Address, string_eq}
use babyboy.Types.Payment.{Utxo}
use babyboy.Types.Unit.{DagUnit}
use babyboy.Leveldb.Store.{Store, Prefixes, Codec}
use babyboy.Leveldb.Keys.{string_eq_sound}
use babyboy.Leveldb.Slots.Equal.{string_eq-slot_key}
use babyboy.Leveldb.Slots.{
  Slot, unit_slot, unspent_slot, pending_slot, tip_slot, slot_eq, IsSlot, slot_key, HasApartTables,
}
use babyboy.Leveldb.Replay.{
  Contents, Represents, set_unit, set_unspent, set_pending, set_tip, cell, text_of,
}

module _ {V : Type 0} (S : Store V) (C : Codec V) (K : Prefixes)
    (apart : HasApartTables S C K) where
  pub put-Represents :
      (db : S.Db) (t u : Contents) (s : Slot) (v : V)
      → IsSlot s
      → Represents S C K db t
      → ((r : Slot) → cell S C K u r ≡ (if slot_eq s r then some v else cell S C K t r))
      → Represents S C K (S.put db (slot_key S C K s) v) u
  put-Represents db t u s v hs r same = record {
    cells = λ x hx. ground (
      arith,
      S.get_put db (slot_key S C K s) v (slot_key S C K x),
      string_eq-slot_key S C K s x apart hs hx,
      same x,
      r.cells x hx,
    );
    tidy = λ k w p g. elim (Bool-cases (string_eq (slot_key S C K s) k)) [
      | inl e ↦ (s, hs, sym (string_eq_sound (slot_key S C K s) k e))
      | inr n ↦ r.tidy k w p (ground (arith, S.get_put db (slot_key S C K s) v k))
    ];
  }

  pub delete-Represents :
      (db : S.Db) (t u : Contents) (s : Slot)
      → IsSlot s
      → Represents S C K db t
      → ((r : Slot) → cell S C K u r ≡ (if slot_eq s r then none else cell S C K t r))
      → Represents S C K (S.delete db (slot_key S C K s)) u
  delete-Represents db t u s hs r same = record {
    cells = λ x hx. ground (
      arith,
      S.get_delete db (slot_key S C K s) (slot_key S C K x),
      string_eq-slot_key S C K s x apart hs hx,
      same x,
      r.cells x hx,
    );
    tidy = λ k w p g. elim (Bool-cases (string_eq (slot_key S C K s) k)) [
      | inl e ↦ absurd (ground (arith, S.get_delete db (slot_key S C K s) k))
      | inr n ↦ r.tidy k w p (ground (arith, S.get_delete db (slot_key S C K s) k))
    ];
  }

  -- The cells after a change of one function.
  pub cell-set_unit :
      (t : Contents) (h : Hash) (o : Option DagUnit) (s : Slot)
      → cell S C K (set_unit t h o) s
        ≡ (if slot_eq (unit_slot h) s then text_of S C K C.unit_text o else cell S C K t s)
  cell-set_unit t h o (unit_slot j) = ground arith
  cell-set_unit t h o _ = refl

  pub cell-set_unspent :
      (t : Contents) (a : Address) (h : Hash) (o : Option Utxo) (s : Slot)
      → cell S C K (set_unspent t a h o) s
        ≡ (if slot_eq (unspent_slot a h) s then text_of S C K C.utxo_text o else cell S C K t s)
  cell-set_unspent t a h o (unspent_slot b j) = ground arith
  cell-set_unspent t a h o _ = refl

  pub cell-set_pending :
      (t : Contents) (a : Address) (h : Hash) (o : Option Utxo) (s : Slot)
      → cell S C K (set_pending t a h o) s
        ≡ (if slot_eq (pending_slot a h) s then text_of S C K C.utxo_text o else cell S C K t s)
  cell-set_pending t a h o (pending_slot b j) = ground arith
  cell-set_pending t a h o _ = refl

  pub cell-set_tip :
      (t : Contents) (h : Hash) (o : Bool) (s : Slot)
      → cell S C K (set_tip t h o) s ≡ (
          if slot_eq (tip_slot h) s
          then (if o then some (C.hash_bytes h) else none)
          else cell S C K t s)
  cell-set_tip t h o (tip_slot j) = elim (Bool-cases (h == j)) [
    | inl e ↦ ground (arith, ap C.hash_bytes ((==_iff h j).0 e))
    | inr n ↦ ground arith
  ]
  cell-set_tip t h o _ = refl
