-- ===== src/Transaction/Create.antt =====
-- transaction/transaction.go: a new unit that pays an amount. The total is a big integer, of any
-- sign; `Int64()` keeps its lowest 64 bits. The amount that is paid is an int64, a 64-bit pattern.
pub mod Answers
use babyboy.Types.Hash.{Address, Hash}
use babyboy.Prelude.{
  zero, suc, none, some, [], ◌∷◌, ◌+◌, ◌-◌, ◌%◌, ◌^◌, true, false, if◌then◌else◌, ℕ, ltb, String,
  List, Bool, ◌++◌, ◌==◌, ◌||◌,
}
use babyboy.Prelude.Integers.{ℤ, pos, negsuc, ◌+ℤ◌, ◌-ℤ◌}
use babyboy.Int64.{slt, add64, sub64}
use babyboy.Interface.{Fifo, Config, Outcome, returns, panics, out_of_fuel}
use babyboy.Types.Payment.{
  Utxo, Input, Output, Payload, Message, new_input, new_output, new_payload, add_inputs,
  add_outputs, get_payload_hash, new_message_builder, set_app_name, set_payload_hash, set_payload,
  get_message,
}
use babyboy.Types.Unit.{new_empty_unit, DagUnit, UnitJson}
use babyboy.Dag.GraphInfo.{
  UnitTable, new_graph_info_getter, get_best_parent_unit, get_level, get_witness_level,
  get_last_stable_ball,
}
use babyboy.Transaction.Chain.{const_header_commission, const_payload_commission}

-- `hasUseStableUnspent` and `unSpent` stay empty, whoever asks.
unfoldable pub choice_inputs : Address → List Utxo
choice_inputs from = []

module _ (to_hash : Utxo → Hash) where
  unfoldable pub is_contant_utxo : Utxo → List Utxo → Bool
  is_contant_utxo target [] = false
  is_contant_utxo target (value ∷ all) =
      to_hash target == to_hash value || is_contant_utxo target all

-- `Amount`, which the source reads of an unspent output, is no field of types.UTXO: what it is as a
-- big integer, and what NewInput takes of it in the place of an output.
pub record UtxoAmount : Type 0 where
  pub amount : Utxo → ℤ
  pub as_output : Utxo → Output

-- `Int64()`: the lowest 64 bits of the absolute value, negated for a negative integer.
unfoldable pub int64_of : ℤ → ℕ
int64_of (pos n) = n % 2 ^ 64
int64_of (negsuc n) = sub64 0 (suc n % 2 ^ 64)

-- `SetInt64`
unfoldable pub set_int64 : ℕ → ℤ
set_int64 x = if slt x 0 then negsuc (2 ^ 64 - 1 - x) else pos x

-- `Cmp(0) > 0`
abbrev pub is_positive : ℤ → Bool
is_positive (pos n) = ltb 0 n
is_positive (negsuc n) = false

-- The outputs that are taken, what they hold, and what goes back.
pub record Choice : Type 0 where
  pub to_other : List Utxo
  pub cur_amount : ℤ
  pub to_myself : ℤ

unfoldable pub choose : (Utxo → ℤ) → ℤ → ℕ → Choice → List Utxo → Choice
unfolding int64_of ◌+ℤ◌ ◌-ℤ◌
choose amount total_amount total_spend c [] = c
choose amount total_amount total_spend c (u ∷ us) =
    let cur = c.cur_amount +ℤ amount u in
    let taken = c.to_other ++ (u ∷ []) in
    let more =
      choose amount total_amount total_spend
        (record { to_other = taken; cur_amount = cur; to_myself = c.to_myself }) us in
    if slt (int64_of cur) total_spend then more else record {
      to_other = taken;
      cur_amount = cur;
      to_myself =
          cur -ℤ total_amount -ℤ pos const_header_commission -ℤ pos const_payload_commission;
    }

abbrev pub no_choice : Choice
no_choice = record { to_other = []; cur_amount = pos 0; to_myself = pos 0 }

pub data Created : Type 0 where
  created : DagUnit → Created
  err_not_enough_balance err_not_enough_commission : Created

unfoldable pub inputs_of : (Utxo → Output) → List Utxo → List Input
inputs_of as_output [] = []
inputs_of as_output (u ∷ us) =
    new_input u.unit_hash u.message_index u.output_index u.type_of (as_output u)
    ∷ inputs_of as_output us

-- `amount` is an int64, and an output's amount too.
unfoldable pub outputs_of : Address → ℕ → Address → ℤ → List Output
unfolding int64_of
outputs_of to_address amount from to_myself =
    new_output to_address amount
    ∷ (if is_positive to_myself then new_output from (int64_of to_myself) ∷ [] else [])

module _ (payload_digest : Payload → Hash) (payment : String) (amounts : UtxoAmount) where
  unfoldable pub payment_message : List Input → List Output → Message
  payment_message inputs outputs =
      let payload = add_outputs (add_inputs new_payload inputs) outputs in
      get_message (
        set_payload
          (set_payload_hash (set_app_name new_message_builder payment)
            (get_payload_hash payload_digest payload))
          payload)

  -- CreateTx after its call of ChoiceInputs, whose result is `un_spent`.
  unfoldable pub create_with : DagUnit → Address → ℤ → Address → ℕ → List Utxo → Created
  unfolding choose inputs_of outputs_of payment_message int64_of
  create_with new_unit from total_amount to_address amount un_spent =
      let total_spend =
        add64 (add64 (int64_of total_amount) const_header_commission) const_payload_commission in
      let c = choose amounts.amount total_amount total_spend no_choice un_spent in
      if slt (int64_of c.cur_amount) (int64_of total_amount)
      then err_not_enough_balance
      else if slt (int64_of c.cur_amount) total_spend
      then err_not_enough_commission
      else created (record new_unit {
        messages =
            payment_message (inputs_of amounts.as_output c.to_other)
              (outputs_of to_address amount from c.to_myself)
            ∷ [];
        payload_commission = const_payload_commission;
        headers_commission = const_header_commission;
      })

  module _ (F : Fifo Hash) (digest : UnitJson → Hash) (config : Config) (db : UnitTable)
      (parents : List Hash) (witnesses : List Address) where
    -- `parents` and `witnesses` are what GetParentsAsHash and GetWitnessesAsHash give.
    unfoldable pub build_transaction_unit : ℕ → Outcome DagUnit
    build_transaction_unit fuel =
        let best =
          get_best_parent_unit digest (new_graph_info_getter digest db parents witnesses) in
        elim (get_witness_level F config fuel best.1) [
          | panics ↦ panics
          | out_of_fuel ↦ out_of_fuel
          | returns witness_level ↦ elim (get_last_stable_ball F digest fuel best.1) [
            | panics ↦ panics
            | out_of_fuel ↦ out_of_fuel
            | returns last_ball ↦ returns (record new_empty_unit {
              parent_list = parents;
              witness_list = witnesses;
              best_parent_unit = best.0;
              level = get_level best.1;
              witnessed_level = witness_level;
              last_ball_unit = last_ball;
              authors = [];
              is_stable = false;
              main_chain_index = 0;
              is_on_main_chain = false;
              sub_stable_min_hash = 2 ^ 256 - 1;
            })
          ]
        ]

    unfoldable pub create_tx : ℕ → Address → ℤ → Address → ℕ → Outcome Created
    unfolding build_transaction_unit create_with choice_inputs
    create_tx fuel from total_amount to_address amount = elim (build_transaction_unit fuel) [
      | panics ↦ panics
      | out_of_fuel ↦ out_of_fuel
      | returns new_unit ↦
          returns (create_with new_unit from total_amount to_address amount (choice_inputs from))
    ]
