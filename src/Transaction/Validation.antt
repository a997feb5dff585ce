-- ===== src/Transaction/Validation.antt =====
-- transaction/utils.go: the checks of a unit's payments. An amount is a Go `int`, taken as its 64-bit pattern;
-- `+` wraps. A panic at an index out of range is `crashes`.
pub mod Amounts
pub mod Sound
use babyboy.Prelude.{
  ℕ, zero, suc, ◌+◌, ◌^◌, ◌%◌, List, [], ◌∷◌, Bool, true, false, not, ◌&&◌, ◌||◌, if◌then◌else◌,
  ◌==◌, Option, none, some, get_elem?, is_nil,
}
use babyboy.Int64.{slt, add64}
use babyboy.Types.Hash.{Hash, Address, string_eq}
use babyboy.Types.Payment.{Input, Output, Message, Payload}
use babyboy.Types.Unit.{DagUnit, Author}
use babyboy.Transaction.Ledger.{
  Check, passes, refuses, crashes, err_unit_info, err_unit_amount_no_equal, err_unit_author_address,
}

-- `amount <= 0`
abbrev pub not_positive : ℕ → Bool
not_positive amount = not (slt 0 amount)

-- The loop over `j` reads `Inputs[i]`, with the index of the message, in each round.
check_inputs : ℕ → List Input → List Input → Check → Check
check_inputs i inputs [] next = next
check_inputs i inputs (x ∷ xs) next = elim (get_elem? inputs i) [
  | none ↦ crashes
  | some input ↦
      (let more = check_inputs i inputs xs next in
        if not_positive input.output.amount then refuses err_unit_info else more)
]

check_outputs : List Output → Check → Check
check_outputs [] next = next
check_outputs (x ∷ xs) next =
    let more = check_outputs xs next in
    if not_positive x.amount then refuses err_unit_info else more

check_messages : ℕ → List Message → Check → Check
check_messages i [] next = next
check_messages i (m ∷ ms) next =
    let rest = check_messages (i + 1) ms next in
    let outputs =
      (if is_nil m.payload.outputs
        then refuses err_unit_info
        else check_outputs m.payload.outputs rest) in
    if is_nil m.payload.inputs
    then refuses err_unit_info
    else check_inputs i m.payload.inputs m.payload.inputs outputs

unfoldable pub valid_unit_inputs_and_outputs : DagUnit → Check
unfolding check_messages check_outputs check_inputs
valid_unit_inputs_and_outputs unit =
    if is_nil unit.messages
    then refuses err_unit_info
    else check_messages 0 unit.messages
        (if is_nil unit.authors then refuses err_unit_info else passes)

input_sum : ℕ → List Input → ℕ
input_sum amount [] = amount
input_sum amount (x ∷ xs) = input_sum (add64 amount x.output.amount) xs

output_sum : ℕ → List Output → ℕ
output_sum amount [] = amount
output_sum amount (x ∷ xs) = output_sum (add64 amount x.amount) xs

unfoldable pub valid_utxo_amount : DagUnit → Check
unfolding input_sum output_sum
valid_utxo_amount unit = elim unit.messages [
  | [] ↦ crashes
  | m ∷ _ ↦
      (let input_amount = input_sum 0 m.payload.inputs in
        let output_amount =
          add64 (add64 (output_sum 0 m.payload.outputs) unit.payload_commission)
            unit.headers_commission in
        if input_amount == output_amount then passes else refuses err_unit_amount_no_equal)
]

-- `address_string` is `Address.String`.
module _ (address_string : Address → List ℕ) where
  check_owners : Address → List Input → Check
  check_owners target [] = passes
  check_owners target (x ∷ xs) =
      let more = check_owners target xs in
      if not (string_eq (address_string x.output.address) (address_string target))
      then refuses err_unit_author_address
      else more

  unfoldable pub valid_author_address : DagUnit → Check
  unfolding check_owners
  valid_author_address unit = elim unit.authors [
    | [] ↦ crashes
    | author ∷ _ ↦ elim unit.messages [
      | [] ↦ crashes
      | m ∷ _ ↦ check_owners author.address m.payload.inputs
    ]
  ]
