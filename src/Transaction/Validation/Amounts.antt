-- ===== src/Transaction/Validation/Amounts.antt =====
-- ValidUTXOAmount: the sums, and what they say.
use babyboy.Prelude.{ℕ, ◌+◌, ◌^◌, ◌%◌, ◌<◌, ◌≡◌, List, [], ◌∷◌, if◌then◌else◌, ◌==◌, arith}
use babyboy.Int64.{add64}
use babyboy.Types.Payment.{Input, Output, Message}
use babyboy.Types.Unit.{DagUnit}
use babyboy.Transaction.Ledger.{passes, refuses, err_unit_amount_no_equal}
use babyboy.Transaction.Validation.{input_sum, output_sum, valid_utxo_amount}

-- The sums of the amounts, with no wrap.
abbrev pub input_total : List Input → ℕ
input_total [] = 0
input_total (x ∷ xs) = x.output.amount + input_total xs

abbrev pub output_total : List Output → ℕ
output_total [] = 0
output_total (x ∷ xs) = x.amount + output_total xs

input_sum-mod :
    (xs : List Input) (a : ℕ) → a < 2 ^ 64 → input_sum a xs ≡ (a + input_total xs) % 2 ^ 64
unfolding input_sum
input_sum-mod [] a h = omega arith
input_sum-mod (x ∷ xs) a h = omega (arith, input_sum-mod xs (add64 a x.output.amount))

output_sum-mod :
    (xs : List Output) (a : ℕ) → a < 2 ^ 64 → output_sum a xs ≡ (a + output_total xs) % 2 ^ 64
unfolding output_sum
output_sum-mod [] a h = omega arith
output_sum-mod (x ∷ xs) a h = omega (arith, output_sum-mod xs (add64 a x.amount))

-- What a unit's first message takes in, and what it pays out with both commissions.
abbrev pub taken : Message → ℕ
taken m = input_total m.payload.inputs

abbrev pub paid : DagUnit → Message → ℕ
paid unit m = output_total m.payload.outputs + unit.payload_commission + unit.headers_commission

-- ValidUTXOAmount passes a unit exactly when what the first message takes in and what it pays out
-- with the commissions agree modulo 2 ^ 64, and refuses every other unit that has a message.
pub valid_utxo_amount-mod :
    (unit : DagUnit) (m : Message) (ms : List Message)
    → unit.messages ≡ m ∷ ms
    → valid_utxo_amount unit ≡ (
        if taken m % 2 ^ 64 == paid unit m % 2 ^ 64
        then passes
        else refuses err_unit_amount_no_equal)
unfolding valid_utxo_amount
valid_utxo_amount-mod unit m ms e =
    ground (arith, input_sum-mod m.payload.inputs 0, output_sum-mod m.payload.outputs 0)
