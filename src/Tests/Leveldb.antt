-- ===== src/Tests/Leveldb.antt =====
-- The theorems on leveldb at small tables.
use babyboy.Types.Payment.{Utxo, empty_utxo}
use babyboy.Types.Unit.{DagUnit, new_empty_unit}
use babyboy.Prelude.{refl, [], ℕ, ◌≡◌, ◌∷◌, none, false, arith, List}
use babyboy.Tests.Stores.{list_store, plain_codec, tables}
use babyboy.Leveldb.Elsewhere.{witness_saved}
use babyboy.Leveldb.Replay.{elsewhere}
use babyboy.Leveldb.Slots.{HasApartTables, Slot, slot_key, unit_slot, IsSlot}
use babyboy.Leveldb.Replay.{
  Contents, Write, Represents, cell, unit_saved, unspent_deleted, commissions_saved, pending_saved,
  tip_saved, tip_deleted, tips_saved, write_all, replay,
}
use babyboy.Leveldb.Replay.Answers
use babyboy.Leveldb.Replay.Answers.{write_all-Answers}

abbrev unit_nine : DagUnit
unit_nine = record new_empty_unit { hash = 9; level = 4 }

abbrev output_of : ℕ → Utxo
output_of n = record empty_utxo { unit_hash = 9; output_index = n }

abbrev pub nothing : Contents
nothing = record {
  units = λ h. none;
  unspent = λ a h. none;
  pending = λ a h. none;
  tips = λ h. false;
}

empty-cells :
    (s : Slot)
    → IsSlot s
    → list_store.get [] (slot_key list_store plain_codec tables s)
      ≡ cell list_store plain_codec tables nothing s
empty-cells (unit_slot h) b = refl
empty-cells _ b = refl

pub empty-Represents : Represents list_store plain_codec tables [] nothing
empty-Represents = record { cells = empty-cells; tidy = λ k v p g. cc }

abbrev writes : List Write
writes =
    unit_saved unit_nine
    ∷ tip_saved 9
    ∷ commissions_saved (
        record { address = 11; utxo = output_of 0 }
        ∷ record { address = 12; utxo = output_of 1 }
        ∷ [])
    ∷ unspent_deleted 11 (output_of 0)
    ∷ pending_saved 13 (output_of 2)
    ∷ tips_saved (7 ∷ 8 ∷ [])
    ∷ tip_deleted 9
    ∷ elsewhere (witness_saved 11)
    ∷ []

pub tables-HasApartTables : HasApartTables list_store plain_codec tables
tables-HasApartTables = (refl, (refl, (refl, (refl, (refl, (refl, (refl, (refl, tt))))))))

write_all-Answers_example :
    Answers.Answers list_store plain_codec tables
      (write_all list_store plain_codec tables [] writes)
      (replay list_store plain_codec tables nothing writes)
write_all-Answers_example =
    write_all-Answers list_store plain_codec tables [] nothing writes tables-HasApartTables
      empty-Represents
      (
        ground arith,
        (
          ground arith,
          (
            (ground arith, (ground arith, tt)),
            (
              ground arith,
              (ground arith, ((ground arith, (ground arith, tt)), (ground arith, (tt, tt)))),
            ),
          ),
        ),
      )
