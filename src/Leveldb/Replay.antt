-- ===== src/Leveldb/Replay.antt =====
-- Writes to the tables of leveldb/dbservice.go, in any order: four tables as functions, which the
-- writes change.
pub mod Steps
pub mod Answers
mod OutputReads
mod Others
mod Cells
mod UnitReads
use babyboy.Prelude.{
  ℕ, refl, List, [], ◌∷◌, ◌++◌, ◌≡◌, ◌<◌, ◌^◌, ◌==◌, ◌&&◌, ◌||◌, true, false, Bool, Bool-cases, inl,
  inr, arith, ap, sym, ◌∙◌, Option, none, some, if◌then◌else◌, All,
}
use babyboy.Types.Hash.{Hash, Address, string_eq}
use babyboy.Types.Payment.{Utxo, Commission}
use babyboy.Types.Unit.{DagUnit}
use babyboy.Leveldb.Store.{Bytes, Store, Prefixes, Codec, starts_with}
use babyboy.Leveldb.Units.{
  unit_key, parent_key, save_unit_to_db, save_units_to_db, del_unit_from_db, save_parent,
  save_parents_list, del_parent,
}
use babyboy.Leveldb.Elsewhere.{Elsewhere, write_elsewhere}
use babyboy.Leveldb.Outputs.{
  del_pending_unspent_output, owned_key, save_unspent_output, save_batch_unspent_output,
  del_unspent_output, save_pending_utxo, del_pending_utxo, commission_entries,
}
use babyboy.Leveldb.Keys.{string_eq_sound}
use babyboy.Leveldb.Slots.{
  Slot, unit_slot, unspent_slot, pending_slot, tip_slot, slot_eq, IsSlot, slot_key, HasApartTables,
}

-- What the tables hold: units by hash, outputs by owner and hash, and a set of tips.
pub record Contents : Type 0 where
  pub units : Hash → Option DagUnit
  pub unspent : Address → Hash → Option Utxo
  pub pending : Address → Hash → Option Utxo
  pub tips : Hash → Bool

abbrev pub set_unit : Contents → Hash → Option DagUnit → Contents
set_unit t h o = record t { units = λ j. if h == j then o else t.units j }

abbrev pub set_unspent : Contents → Address → Hash → Option Utxo → Contents
set_unspent t a h o = record t { unspent = λ b j. if a == b && h == j then o else t.unspent b j }

abbrev pub set_pending : Contents → Address → Hash → Option Utxo → Contents
set_pending t a h o = record t { pending = λ b j. if a == b && h == j then o else t.pending b j }

abbrev pub set_tip : Contents → Hash → Bool → Contents
set_tip t h o = record t { tips = λ j. if h == j then o else t.tips j }

pub data Write : Type 0 where
  unit_saved unit_deleted : DagUnit → Write
  units_saved : List DagUnit → Write
  unspent_saved unspent_deleted : Address → Utxo → Write
  commissions_saved : List Commission → Write
  pending_saved pending_deleted pending_unspent_deleted : Address → Utxo → Write
  tip_saved tip_deleted : Hash → Write
  tips_saved : List Hash → Write
  elsewhere : Elsewhere → Write

module _ {V : Type 0} (S : Store V) (C : Codec V) (K : Prefixes) where
  abbrev pub write : S.Db → Write → S.Db
  write db (unit_saved u) = save_unit_to_db S C K db u
  write db (unit_deleted u) = del_unit_from_db S C K db u
  write db (units_saved us) = save_units_to_db S C K db us
  write db (unspent_saved a u) = save_unspent_output S C K db a u
  write db (unspent_deleted a u) = del_unspent_output S C K db a u
  write db (commissions_saved cs) = save_batch_unspent_output S C K db cs
  write db (pending_saved a u) = save_pending_utxo S C K db a u
  write db (pending_deleted a u) = del_pending_utxo S C K db a u
  write db (pending_unspent_deleted a u) = del_pending_unspent_output S C K db a u
  write db (elsewhere w) = write_elsewhere S C K db w
  write db (tip_saved h) = save_parent S C K db h
  write db (tip_deleted h) = del_parent S C K db h
  write db (tips_saved hs) = save_parents_list S C K db hs

  abbrev pub write_all : S.Db → List Write → S.Db
  write_all db [] = db
  write_all db (w ∷ ws) = write_all (write db w) ws

  abbrev pub set_units : Contents → List DagUnit → Contents
  set_units t [] = t
  set_units t (u ∷ us) = set_units (set_unit t u.hash (some u)) us

  abbrev pub set_commissions : Contents → List Commission → Contents
  set_commissions t [] = t
  set_commissions t (c ∷ cs) =
      set_commissions (set_unspent t c.address (C.utxo_to_hash c.utxo) (some c.utxo)) cs

  abbrev pub set_tips : Contents → List Hash → Contents
  set_tips t [] = t
  set_tips t (h ∷ hs) = set_tips (set_tip t h true) hs

  -- The same write on the functions.
  abbrev pub step : Contents → Write → Contents
  step t (unit_saved u) = set_unit t u.hash (some u)
  step t (unit_deleted u) = set_unit t u.hash none
  step t (units_saved us) = set_units t us
  step t (unspent_saved a u) = set_unspent t a (C.utxo_to_hash u) (some u)
  step t (unspent_deleted a u) = set_unspent t a (C.utxo_to_hash u) none
  step t (commissions_saved cs) = set_commissions t cs
  step t (pending_saved a u) = set_pending t a (C.utxo_to_hash u) (some u)
  step t (pending_deleted a u) = set_pending t a (C.utxo_to_hash u) none
  step t (pending_unspent_deleted a u) = set_pending t a (C.utxo_to_hash u) none
  step t (elsewhere w) = t
  step t (tip_saved h) = set_tip t h true
  step t (tip_deleted h) = set_tip t h false
  step t (tips_saved hs) = set_tips t hs

  abbrev pub replay : Contents → List Write → Contents
  replay t [] = t
  replay t (w ∷ ws) = replay (step t w) ws

  -- Its hashes have 32 bytes and its addresses 20.
  abbrev pub IsWrite : Write → Type 0
  IsWrite (unit_saved u) = u.hash < 2 ^ 256
  IsWrite (unit_deleted u) = u.hash < 2 ^ 256
  IsWrite (units_saved us) = All (λ (u : DagUnit). u.hash < 2 ^ 256) us
  IsWrite (unspent_saved a u) = a < 2 ^ 160
  IsWrite (unspent_deleted a u) = a < 2 ^ 160
  IsWrite (commissions_saved cs) = All (λ (c : Commission). c.address < 2 ^ 160) cs
  IsWrite (pending_saved a u) = a < 2 ^ 160
  IsWrite (pending_deleted a u) = a < 2 ^ 160
  IsWrite (pending_unspent_deleted a u) = a < 2 ^ 160
  IsWrite (elsewhere w) = Unit
  IsWrite (tip_saved h) = h < 2 ^ 256
  IsWrite (tip_deleted h) = h < 2 ^ 256
  IsWrite (tips_saved hs) = All (λ h. h < 2 ^ 256) hs

  abbrev pub text_of {ℓ} : {A : Type ℓ} → (A → V) → Option A → Option V
  text_of f none = none
  text_of f (some a) = some (f a)

  -- The text that a slot holds.
  abbrev pub cell : Contents → Slot → Option V
  cell t (unit_slot h) = text_of C.unit_text (t.units h)
  cell t (unspent_slot a h) = text_of C.utxo_text (t.unspent a h)
  cell t (pending_slot a h) = text_of C.utxo_text (t.pending a h)
  cell t (tip_slot h) = if t.tips h then some (C.hash_bytes h) else none

  abbrev pub is_scanned : Bytes → Bool
  is_scanned k =
      starts_with K.output_prefix k
      || (starts_with K.pending_prefix k || starts_with K.parent_list_prefix k)

  -- Every slot has the text of its contents, and the tables that are scanned have no other keys.
  pub record Represents (db : S.Db) (t : Contents) : Type 0 where
    pub cells : (s : Slot) → IsSlot s → S.get db (slot_key S C K s) ≡ cell t s
    pub tidy :
        (k : Bytes) (v : V)
        → is_scanned k ≡ true
        → S.get db k ≡ some v
        → (s : Slot) × IsSlot s × (k ≡ slot_key S C K s)
