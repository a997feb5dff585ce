-- ===== src/Tests/Auth.antt =====
-- The theorems on transaction/auth.go at a database of two units: 5 spends an output of 3.
use babyboy.Types.Hash.{Hash}
use babyboy.Prelude.{
  refl, [], none, some, if◌then◌else◌, ◌≡◌, arith, ◌==◌, ℕ, ◌&&◌, false, Bool-cases, inl, inr,
}
use babyboy.Transaction.Auth.{Reads, accepted, verify_message_inputs, back_tracking_has_spent_utxo}
use babyboy.Transaction.Auth.Inputs.{ArePassed, verify_message_inputs-accepted}
use babyboy.Transaction.Auth.Track.{HasFound, IsWeighted, back_tracking_has_spent_utxo-HasFound}
use babyboy.Types.Payment.{empty_utxo}
use babyboy.Tests.Transaction.{source, spender, message}
use babyboy.Tests.Instances.{fifo_of}

abbrev pub reads : Reads
reads = record {
  get_unit_by_hash = λ h. if h == 3 then some source else if h == 5 then some spender else none;
  is_exist_unspent_output = λ a u. a == 11 && u.unit_hash == 3;
  is_exist_pending_utxo = λ a u. false;
}

verify_message_inputs-accepted_example :
    (verify_message_inputs reads spender ≡ accepted → ArePassed reads 11 message.payload.inputs)
    × (ArePassed reads 11 message.payload.inputs → verify_message_inputs reads spender ≡ accepted)
verify_message_inputs-accepted_example =
    verify_message_inputs-accepted reads spender _ [] message [] refl refl

abbrev pub weight : Hash → ℕ
weight h = if h == 5 then 2 else if h == 3 then 1 else 0

pub reads-IsWeighted : IsWeighted reads weight
reads-IsWeighted h u m more e e' = elim (Bool-cases (h == 3)) [
  | inl t ↦ absurd (ground arith)
  | inr f ↦ elim (Bool-cases (h == 5)) [
    | inl t ↦
        let same : m ≡ message = ground arith in
        let five : h ≡ 5 = ground arith in rw (same, five) (ground arith)
    | inr g ↦ absurd (ground arith)
  ]
]

back_tracking_has_spent_utxo-HasFound_example : HasFound reads weight (fifo_of empty_utxo) (
    back_tracking_has_spent_utxo reads (fifo_of empty_utxo) 3 (record empty_utxo { unit_hash = 5 }))
back_tracking_has_spent_utxo-HasFound_example =
    back_tracking_has_spent_utxo-HasFound reads weight (fifo_of empty_utxo) 3
      (record empty_utxo { unit_hash = 5 }) reads-IsWeighted (ground arith)
