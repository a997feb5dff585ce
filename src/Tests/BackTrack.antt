-- ===== src/Tests/BackTrack.antt =====
-- The theorem on the back tracking at a ledger of two units: 5, which is not stable, spends an
-- output of 3, and has a pending output.
use babyboy.Types.Hash.{Address}
use babyboy.Prelude.{refl, [], ◌∷◌, if_elim, List, All, if◌then◌else◌, ◌<◌, ◌==◌, arith}
use babyboy.Transaction.Auth.{Reads}
use babyboy.Transaction.BackTrack.{back_tracking_utxo}
use babyboy.Transaction.BackTrack.Stable.{HasKept, back_tracking_utxo-HasKept}
use babyboy.Types.Payment.{Utxo, empty_utxo}
use babyboy.Tests.Auth.{reads, weight, reads-IsWeighted}
use babyboy.Tests.Transaction.{spender}
use babyboy.Tests.Instances.{ledger, fifo_of}

abbrev two_units : ledger.Db
two_units = (reads.get_unit_by_hash, 11030000 ∷ [], 11050000 ∷ [])

abbrev reads_of : ledger.Db → Reads
reads_of d = record {
  get_unit_by_hash = ledger.get_unit_by_hash d;
  is_exist_unspent_output = λ a u. ledger.is_exist_unspent_output d u;
  is_exist_pending_utxo = λ a u. ledger.is_exist_pending_utxo d u;
}

abbrev pending_of : ledger.Db → Address → List Utxo
pending_of d a = if a == 11 then record empty_utxo { unit_hash = 5 } ∷ [] else []

pending_of-light :
    (a : Address) → All (λ (u : Utxo). weight u.unit_hash < 3) (pending_of two_units a)
pending_of-light a =
    if_elim (All (λ (u : Utxo). weight u.unit_hash < 3)) (a == 11) (ground arith, tt) tt

back_tracking_utxo-HasKept_example :
    HasKept ledger reads_of pending_of pending_of
      (λ d a u. ledger.del_pending_unspent_output d u)
      (λ units. units)
      (λ d a u v. refl)
      two_units
      (back_tracking_utxo ledger reads_of pending_of pending_of
        (λ d a u. ledger.del_pending_unspent_output d u)
        (λ units. units)
        (fifo_of empty_utxo)
        3
        two_units
        spender)
back_tracking_utxo-HasKept_example =
    back_tracking_utxo-HasKept ledger reads_of pending_of pending_of
      (λ d a u. ledger.del_pending_unspent_output d u) (λ units. units) (λ d a u v. refl) weight
      (fifo_of empty_utxo) 3 two_units spender reads-IsWeighted pending_of-light
