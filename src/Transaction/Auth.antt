-- ===== src/Transaction/Auth.antt =====
-- transaction/auth.go, less its Merkle trees: the check of a unit's inputs against the database, and
-- the search for the stable outputs that an output rests on. The lock is left out.
pub mod Inputs
pub mod Track
use babyboy.Prelude.{
  none, some, [], ◌∷◌, zero, suc, true, false, Option, Bool, String, if◌then◌else◌, ◌++◌, List,
  get_or, ℕ,
}
use babyboy.Interface.{Fifo}
use babyboy.Types.Hash.{Hash, Address}
use babyboy.Types.Payment.{Input, Utxo, new_utxo, Message}
use babyboy.Types.Unit.{DagUnit, Author, new_empty_unit}
use babyboy.Transaction.Ledger.{InputKind, witness_commission, miner_commission, payment, unknown}
use babyboy.Transaction.Stable.{input_kind}

-- What the file reads of the database. The lookups take the address too, as in leveldb/dbservice.go.
pub record Reads : Type 0 where
  pub get_unit_by_hash : Hash → Option DagUnit
  pub is_exist_unspent_output : Address → Utxo → Bool
  pub is_exist_pending_utxo : Address → Utxo → Bool

-- How VerifyMessageInputs ends: with nil, with one of its two errors, or at an index out of range.
pub data Verdict : Type 0 where
  accepted not_found_source not_unspent crashed : Verdict

pub record ResultBack : Type 0 where
  pub stable : Bool
  pub exist : Bool
  pub utxo : Utxo

-- How a search ends. A channel to which nothing is sent blocks it for ever.
pub data Tracked (A : Type 0) : Type 0 where
  tracked : A → Tracked A
  panicked : Tracked A
  blocks : Tracked A
  runs_on : Tracked A

module _ (R : Reads) where
  -- The output that an input of the unit `u` names: the switch keeps the type of a commission.
  unfoldable pub future_spent : DagUnit → Input → Utxo
  unfolding input_kind new_utxo
  future_spent u x = new_utxo u.hash x.message_index x.output_index x.output (
      if u.is_stable
      then (elim (input_kind x.type_of) [
        | witness_commission ↦ x.type_of
        | miner_commission ↦ x.type_of
        | payment ↦ ""
        | unknown ↦ ""
      ])
      else "")

  unfoldable pub verify_inputs : List Author → List Input → Verdict
  unfolding future_spent
  verify_inputs authors [] = accepted
  verify_inputs authors (x ∷ xs) = elim (R.get_unit_by_hash x.unit_hash) [
    | none ↦ not_found_source
    | some u ↦ elim authors [
      | [] ↦ crashed
      | author ∷ rest ↦ elim u.is_stable [
        | true ↦ elim (R.is_exist_unspent_output author.address (future_spent u x)) [
          | true ↦ verify_inputs authors xs
          | false ↦ not_unspent
        ]
        | false ↦ elim (R.is_exist_pending_utxo author.address (future_spent u x)) [
          | true ↦ verify_inputs authors xs
          | false ↦ accepted
        ]
      ]
    ]
  ]

  unfoldable pub verify_message_inputs : DagUnit → Verdict
  unfolding verify_inputs
  verify_message_inputs unit = elim unit.messages [
    | [] ↦ crashed
    | message ∷ _ ↦ verify_inputs unit.authors message.payload.inputs
  ]

  -- The unit that an input names; the error of a failed read is only logged.
  abbrev pub input_unit : Input → DagUnit
  input_unit x = get_or (R.get_unit_by_hash x.unit_hash) new_empty_unit

  -- The cases of the switch: what is sent to the channel of an input, `none` if nothing is.
  -- `author` is `Authors[0]`.
  abbrev pub send_result : InputKind → Author → Input → Option ResultBack
  send_result witness_commission author x =
      let pre_utxo = new_utxo (input_unit x).hash 0 0 x.output x.type_of in
      some (record {
        stable = (input_unit x).is_stable;
        exist = R.is_exist_unspent_output author.address pre_utxo;
        utxo = pre_utxo;
      })
  send_result miner_commission author x =
      let pre_utxo = new_utxo (input_unit x).hash 0 0 x.output x.type_of in
      some (record {
        stable = (input_unit x).is_stable;
        exist = R.is_exist_unspent_output author.address pre_utxo;
        utxo = pre_utxo;
      })
  send_result payment author x =
      let pre_utxo = new_utxo (input_unit x).hash 0 x.output_index x.output x.type_of in
      some (record {
        stable = (input_unit x).is_stable;
        exist = R.is_exist_unspent_output author.address pre_utxo;
        utxo = pre_utxo;
      })
  send_result unknown author x = none

  unfoldable pub is_add_input_has_spent : Author → Input → Option ResultBack
  is_add_input_has_spent author x = send_result (input_kind x.type_of) author x

  -- An input of a known type reads `Authors[0]`, which is not there.
  abbrev pub without_author :
      InputKind → Option (List (Option ResultBack)) → Option (List (Option ResultBack))
  without_author unknown (some chs) = some (none ∷ chs)
  without_author _ _ = none

  -- The loop that makes the channels, `none` if it reads an author that is not there.
  unfoldable pub make_channels : List Author → List Input → Option (List (Option ResultBack))
  unfolding is_add_input_has_spent
  make_channels authors [] = some []
  make_channels (author ∷ rest) (x ∷ xs) = elim (make_channels (author ∷ rest) xs) [
    | none ↦ none
    | some chs ↦ some (is_add_input_has_spent author x ∷ chs)
  ]
  make_channels [] (x ∷ xs) = without_author (input_kind x.type_of) (make_channels [] xs)

  module _ (F : Fifo Utxo) where
    -- The loop that receives: the queue and the outputs found, or `none` when it blocks.
    unfoldable pub receive :
        List (Option ResultBack) → F.Queue → List Utxo → Option (F.Queue × List Utxo)
    receive [] que found = some (que, found)
    receive (none ∷ chs) que found = none
    receive (some result ∷ chs) que found = elim result.stable [
      | true ↦ elim result.exist [
        | true ↦ receive chs que (found ++ (result.utxo ∷ []))
        | false ↦ receive chs que found
      ]
      | false ↦ receive chs (F.push que result.utxo) found
    ]

    unfoldable pub track_loop : ℕ → F.Queue → List Utxo → Tracked (List Utxo)
    unfolding make_channels receive
    track_loop zero que found = runs_on
    track_loop (suc fuel) que found = elim (F.empty que) [
      | true ↦ tracked found
      | false ↦ elim (R.get_unit_by_hash (F.front que).unit_hash) [
        | none ↦ tracked found
        | some cur_unit ↦ elim cur_unit.messages [
          | [] ↦ panicked
          | message ∷ _ ↦ elim (make_channels cur_unit.authors message.payload.inputs) [
            | none ↦ panicked
            | some chs ↦ elim (receive chs (F.pop que) found) [
              | none ↦ blocks
              | some next ↦ track_loop fuel next.0 next.1
            ]
          ]
        ]
      ]
    ]

    unfoldable pub back_tracking_has_spent_utxo : ℕ → Utxo → Tracked (List Utxo)
    unfolding track_loop
    back_tracking_has_spent_utxo fuel unspent = track_loop fuel (F.push F.new unspent) []
