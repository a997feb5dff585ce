-- ===== src/Transaction/BackTrack.antt =====
-- transaction/backtrack.go: whether the pending outputs of a unit's author rest on stable ones that
-- exist, and the pending pool made anew if they do not.
pub mod Ends
pub mod Stable
use babyboy.Transaction.Stable.{input_kind}
use babyboy.Types.Hash.{Address}
use babyboy.Interface.{Fifo, Outcome, returns}
use babyboy.Interface.{Outcome, returns, panics, out_of_fuel}
use babyboy.Prelude.{
  none, some, [], ◌∷◌, zero, suc, true, false, Option, List, Bool, if◌then◌else◌, ℕ, map, ◌++◌,
}
use babyboy.Types.Payment.{Input, Utxo, new_utxo}
use babyboy.Types.Unit.{new_empty_unit, Author, DagUnit}
use babyboy.Transaction.Ledger.{
  Boydb, InputKind, witness_commission, miner_commission, payment, unknown,
}
use babyboy.Transaction.Auth.{
  Reads, ResultBack, Tracked, tracked, panicked, blocks, runs_on, input_unit, without_author,
}
use babyboy.Transaction.Pending.{handle_pending}

module _ (R : Reads) where
  abbrev pub back_utxo : InputKind → Input → Option Utxo
  back_utxo witness_commission x = some (new_utxo (input_unit R x).hash 0 0 x.output x.type_of)
  back_utxo miner_commission x = some (new_utxo (input_unit R x).hash 0 0 x.output x.type_of)
  back_utxo payment x = some (new_utxo (input_unit R x).hash 0 x.output_index x.output "")
  back_utxo unknown x = none

  -- What is sent to the channel of an input, `none` if nothing is.
  abbrev pub send_back : Author → Input → Option Utxo → Option ResultBack
  send_back author x none = none
  send_back author x (some pre_utxo) = some (record {
    stable = (input_unit R x).is_stable;
    exist = R.is_exist_unspent_output author.address pre_utxo;
    utxo = pre_utxo;
  })

  unfoldable pub is_input_has_spent : Author → Input → Option ResultBack
  is_input_has_spent author x = send_back author x (back_utxo (input_kind x.type_of) x)

  unfoldable pub back_channels : List Author → List Input → Option (List (Option ResultBack))
  unfolding is_input_has_spent
  back_channels authors [] = some []
  back_channels (author ∷ rest) (x ∷ xs) = elim (back_channels (author ∷ rest) xs) [
    | none ↦ none
    | some chs ↦ some (is_input_has_spent author x ∷ chs)
  ]
  back_channels [] (x ∷ xs) = without_author R (input_kind x.type_of) (back_channels [] xs)

  module _ (F : Fifo Utxo) where
    -- `backTrackResult`, `isBreak` and the queue after one round of receiving.
    pub record Round : Type 0 where
      pub que : F.Queue
      pub back_track_result : Bool
      pub is_break : Bool

    unfoldable pub receive_back : List (Option ResultBack) → Round → Option Round
    receive_back [] r = some r
    receive_back (none ∷ chs) r = none
    receive_back (some result ∷ chs) r = receive_back chs (
        if result.stable
        then record r { back_track_result = result.exist; is_break = true }
        else record r { que = F.push r.que result.utxo })

    unfoldable pub back_loop : ℕ → F.Queue → Bool → Tracked Bool
    unfolding back_channels receive_back
    back_loop zero que back_track_result = runs_on
    back_loop (suc fuel) que back_track_result = elim (F.empty que) [
      | true ↦ tracked back_track_result
      | false ↦ elim (R.get_unit_by_hash (F.front que).unit_hash) [
        | none ↦ tracked back_track_result
        | some cur_unit ↦ elim cur_unit.messages [
          | [] ↦ panicked
          | message ∷ _ ↦ elim (back_channels cur_unit.authors message.payload.inputs) [
            | none ↦ panicked
            | some chs ↦
                elim (receive_back chs (record {
                  que = F.pop que;
                  back_track_result = back_track_result;
                  is_break = false;
                })) [
                  | none ↦ blocks
                  | some r ↦ elim r.is_break [
                    | true ↦ tracked r.back_track_result
                    | false ↦ back_loop fuel r.que r.back_track_result
                  ]
                ]
          ]
        ]
      ]
    ]

-- The functions of `boydb` that only this file calls.
module _ (B : Boydb) (reads : B.Db → Reads)
    (get_pending_utxo_by_author : B.Db → Address → List Utxo)
    (get_all_pending_un_spent : B.Db → Address → List Utxo)
    (del_pending_utxo : B.Db → Address → Utxo → B.Db) (sort : List DagUnit → List DagUnit) where
  -- `make` gives a zero unit for each output, and `append` puts the units that are found behind.
  unfoldable pub pending_units : B.Db → List Utxo → List DagUnit
  pending_units db utxos = map (λ u. new_empty_unit) utxos ++ found utxos
    where
      found : List Utxo → List DagUnit
      found [] = []
      found (u ∷ us) = elim ((reads db).get_unit_by_hash u.unit_hash) [
        | none ↦ found us
        | some unit ↦ unit ∷ found us
      ]

  unfoldable pub del_all_pending : B.Db → Address → List Utxo → B.Db
  del_all_pending db address [] = db
  del_all_pending db address (u ∷ us) = del_all_pending (del_pending_utxo db address u) address us

  -- The error of PendingTx is dropped.
  unfoldable pub pending_all : B.Db → List DagUnit → Outcome B.Db
  unfolding handle_pending
  pending_all db [] = returns db
  pending_all db (u ∷ us) = elim (handle_pending B db u) [
    | panics ↦ panics
    | out_of_fuel ↦ out_of_fuel
    | returns out ↦ pending_all out.db us
  ]

  unfoldable pub re_build_pending_pool : B.Db → Author → Outcome B.Db
  unfolding pending_units del_all_pending pending_all
  re_build_pending_pool db author =
      let utxos = get_pending_utxo_by_author db author.address in
      let units = pending_units db utxos in
      pending_all (del_all_pending db author.address (get_all_pending_un_spent db author.address))
        (sort units)

  unfoldable pub back_tracking_utxo : Fifo Utxo → ℕ → B.Db → DagUnit → Tracked (Outcome B.Db)
  unfolding back_loop re_build_pending_pool
  back_tracking_utxo F fuel db new_unit = elim new_unit.authors [
    | [] ↦ panicked
    | author ∷ _ ↦ elim (get_pending_utxo_by_author db author.address) [
      | [] ↦ tracked (returns db)
      | first ∷ _ ↦ elim (back_loop (reads db) F fuel (F.push F.new first) false) [
        | panicked ↦ panicked
        | blocks ↦ blocks
        | runs_on ↦ runs_on
        | tracked true ↦ tracked (returns db)
        | tracked false ↦ tracked (re_build_pending_pool db author)
      ]
    ]
  ]
