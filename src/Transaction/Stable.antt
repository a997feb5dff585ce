-- ===== src/Transaction/Stable.antt =====
-- transaction/stableprocess.go: a stable unit spends its inputs and pays its outputs. `HandleUnit` changes the
-- database as it goes; what it has deleted before an error stays deleted.
pub mod Consumes
pub mod Spends
pub mod Spending
pub mod Faults
pub mod Endings
pub mod Total
pub mod Amounts
use babyboy.Prelude.{
  ℕ, zero, suc, ◌+◌, String, List, [], ◌∷◌, ◌++◌, Bool, true, false, if◌then◌else◌, Option, none,
  some,
}
use text.Mathlib.Text.{◌==◌ as str_eq}
use babyboy.Interface.{Outcome, returns, panics}
use babyboy.Types.Hash.{Hash, Address}
use babyboy.Types.Payment.{
  Input, Output, Utxo, empty_utxo, new_utxo, new_output, Commission, new_commission, Message,
  Payload,
}
use babyboy.Types.Unit.{DagUnit, Author}
use babyboy.Transaction.Ledger.{
  Boydb, TxError, err_not_find_from, InputKind, witness_commission, miner_commission, payment,
  unknown,
}

-- The switch on the type of an input.
unfoldable pub input_kind : String → InputKind
input_kind t =
    if str_eq t "wc"
    then witness_commission
    else if str_eq t "mc"
    then miner_commission
    else if str_eq t ""
    then payment
    else unknown

-- What HandleUnit returns, beside the database that it leaves.
pub record StableOut (B : Boydb) : Type 0 where
  pub db : B.Db
  pub commissions : List Commission
  pub valid : Bool
  pub error : Option TxError

module _ (B : Boydb) where
  -- The output that an input spends, or `none` for an input whose unit is not in the database. The
  -- switch looks nothing up for an unknown type, and leaves the zero output.
  unfoldable pub pending_spent : B.Db → Input → Option Utxo
  pending_spent db input = elim (input_kind input.type_of) [
    | witness_commission ↦ elim (B.get_unit_by_hash db input.unit_hash) [
      | none ↦ none
      | some u ↦ some (new_utxo u.hash 0 0 input.output input.type_of)
    ]
    | miner_commission ↦ elim (B.get_unit_by_hash db input.unit_hash) [
      | none ↦ none
      | some u ↦ some (new_utxo u.hash 0 0 input.output input.type_of)
    ]
    | payment ↦ elim (B.get_unit_by_hash db input.unit_hash) [
      | none ↦ none
      | some u ↦ some (new_utxo u.hash 0 input.output_index input.output "")
    ]
    | unknown ↦ some empty_utxo
  ]

  -- How the loop over the inputs of a message ends.
  pub data InputsOut : Type 0 where
    spent : B.Db → InputsOut
    not_found : B.Db → InputsOut
    double_spend : B.Db → InputsOut
    no_author : InputsOut

  pub spend_inputs : List Author → B.Db → List Input → InputsOut
  spend_inputs authors db [] = spent db
  spend_inputs authors db (x ∷ xs) = elim (pending_spent db x) [
    | none ↦ not_found db
    | some u ↦ elim (B.is_exist_unspent_output db u) [
      | false ↦ double_spend db
      | true ↦ elim authors [
        | [] ↦ no_author
        | author ∷ _ ↦ spend_inputs authors (B.del_unspent_output db author.address u) xs
      ]
    ]
  ]

  -- `i` is the index of the message and `z` that of the output.
  pub settle_outputs :
      DagUnit → ℕ → ℕ → B.Db → List Commission → List Output → B.Db × List Commission
  settle_outputs unit i z db commissions [] = (db, commissions)
  settle_outputs unit i z db commissions (o ∷ os) =
      let un_spent =
        new_utxo unit.hash i z (record { amount = o.amount; address = o.address }) "" in
      settle_outputs unit i (z + 1) (B.del_pending_unspent_output db un_spent)
        (commissions ++ (new_commission o.address un_spent ∷ [])) os

  unfoldable pub distribution_miner_commission : DagUnit → Commission
  distribution_miner_commission unit =
      new_commission unit.sub_stable_author
        (new_utxo unit.hash 0 0 (new_output unit.sub_stable_author unit.headers_commission) "mc")

  pub handle_messages : DagUnit → ℕ → B.Db → List Commission → List Message → Outcome (StableOut B)
  handle_messages unit i db commissions [] = returns (record {
    db = db;
    commissions = commissions ++ (distribution_miner_commission unit ∷ []);
    valid = true;
    error = none;
  })
  handle_messages unit i db commissions (m ∷ ms) =
      elim (spend_inputs unit.authors db m.payload.inputs) [
        | not_found db' ↦ returns (record {
          db = db';
          commissions = commissions;
          valid = false;
          error = some err_not_find_from;
        })
        | double_spend db' ↦
            returns (record { db = db'; commissions = commissions; valid = false; error = none })
        | no_author ↦ panics
        | spent db' ↦
            (let out = settle_outputs unit i 0 db' commissions m.payload.outputs in
              handle_messages unit (i + 1) out.0 out.1 ms)
      ]

  unfoldable pub handle_unit : B.Db → DagUnit → Outcome (StableOut B)
  unfolding handle_messages settle_outputs spend_inputs pending_spent input_kind
      distribution_miner_commission
  handle_unit db unit = handle_messages unit 0 db [] unit.messages
