-- ===== src/Transaction/Create/Answers.antt =====
-- What CreateTx answers, as ChoiceInputs gives it no outputs.
use babyboy.Prelude.{[], ◌∷◌, ℕ, String}
use babyboy.Types.Hash.{Hash, Address}
use babyboy.Types.Payment.{Payload, new_output}
use babyboy.Types.Unit.{DagUnit}
use babyboy.Transaction.Create.{UtxoAmount, payment_message}

-- The unit that pays `amount` out of nothing.
abbrev pub unfunded : (Payload → Hash) → String → UtxoAmount → DagUnit → Address → ℕ → DagUnit
unfunded payload_digest payment amounts empty_unit to_address amount = record empty_unit {
  messages =
      payment_message payload_digest payment amounts [] (new_output to_address amount ∷ []) ∷ [];
  payload_commission = 100;
  headers_commission = 100;
}
