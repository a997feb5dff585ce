-- ===== src/Tests/Transaction.antt =====
-- The theorems on package transaction at a ledger of one unit, 3, with one unspent output.
use babyboy.Transaction.Stable.Total.{handle_unit-returns}
use babyboy.Transaction.Pending.Effect.{pays_back, takes, handle_pending-effect}
use babyboy.Transaction.Stable.Amounts.{commission_total, handle_unit-conserves}
use babyboy.Transaction.Validation.Amounts.{taken, valid_utxo_amount-mod}
use babyboy.Transaction.Validation.Sound.{
  AreFilled, valid_unit_inputs_and_outputs-passes, valid_author_address-passes,
  valid_unit_inputs_and_outputs-crashes,
}
use babyboy.Transaction.Pending.{future_spent, UtxoHelper, PendingOut, handle_pending}
use babyboy.Transaction.Validation.{
  valid_utxo_amount, valid_unit_inputs_and_outputs, valid_author_address,
}
use babyboy.Transaction.Stable.Spends.{Spends, resolve}
use babyboy.Transaction.Stable.Spending.{all_inputs, handle_unit-Spends, handle_unit-replay}
use babyboy.Transaction.Stable.{
  StableOut, handle_unit, input_kind, distribution_miner_commission, pending_spent,
}
use babyboy.Types.Payment.{Message, Output, new_commission, new_utxo, Input, Utxo}
use babyboy.Types.Hash.{Hash, string_eq, Address}
use babyboy.Types.Unit.{DagUnit, new_empty_unit, Author}
use babyboy.Prelude.{
  ◌∷◌, ℕ, Option, [], true, if◌then◌else◌, false, ◌==◌, none, some, ◌≡◌, List, is_nil, arith, All,
  ◌+◌, ◌||◌, not, ◌&&◌,
}
use babyboy.Prelude.{refl}
use babyboy.Transaction.Ledger.{passes, crashes}
use babyboy.Interface.{returns}
use babyboy.Tests.Instances.{ledger}

abbrev pub source : DagUnit
source = record new_empty_unit { hash = 3; is_stable = true }

abbrev lookup_unit : Hash → Option DagUnit
lookup_unit h = if h == 3 then some source else none

abbrev pub state : ledger.Db
state = (lookup_unit, 11030000 ∷ 11030001 ∷ [], [])

abbrev pub owned : ℕ → Output
owned n = record { address = 11; amount = n }

abbrev pub message : Message
message = record {
  app = "";
  payload_hash = 0;
  payload = record {
    inputs =
        record {
          unit_hash = 3;
          message_index = 0;
          output_index = 0;
          type_of = "";
          output = owned 100;
        }
        ∷ [];
    outputs = owned 60 ∷ record { address = 12; amount = 30 } ∷ [];
  };
}

abbrev pub spender : DagUnit
spender = record new_empty_unit {
  hash = 5;
  authors = record { address = 11; signature = [] } ∷ [];
  messages = message ∷ [];
  headers_commission = 4;
  payload_commission = 6;
}

abbrev handled : StableOut ledger
handled = record {
  db = (lookup_unit, 11030001 ∷ [], []);
  commissions =
      new_commission 11 (new_utxo 5 0 0 (owned 60) "")
      ∷ new_commission 12 (new_utxo 5 0 1 (record { address = 12; amount = 30 }) "")
      ∷ distribution_miner_commission ledger spender
      ∷ [];
  valid = true;
  error = none;
}

handle_unit-state : handle_unit ledger state spender ≡ returns handled
unfolding handle_unit input_kind pending_spent new_utxo new_commission distribution_miner_commission
handle_unit-state = refl

handle_unit-Spends_example :
    Spends ledger state (resolve ledger state (all_inputs ledger (message ∷ []))) handled.db
unfolding input_kind pending_spent new_utxo
handle_unit-Spends_example =
    handle_unit-Spends ledger state spender (record { address = 11; signature = [] }) [] handled
      refl ((refl, refl), tt) handle_unit-state refl

abbrev handled_again : StableOut ledger
handled_again = record { db = handled.db; commissions = []; valid = false; error = none }

handle_unit-handled : handle_unit ledger handled.db spender ≡ returns handled_again
unfolding handle_unit input_kind pending_spent new_utxo new_commission distribution_miner_commission
handle_unit-handled = refl

handle_unit-replay_example : handled_again.valid ≡ false
unfolding input_kind pending_spent new_utxo
handle_unit-replay_example =
    handle_unit-replay ledger state spender (record { address = 11; signature = [] }) [] handled
      handled_again refl ((refl, refl), tt) refl handle_unit-state refl handle_unit-handled

handle_unit-conserves_example :
    taken message ≡ commission_total handled.commissions + spender.payload_commission
unfolding valid_utxo_amount
handle_unit-conserves_example =
    handle_unit-conserves ledger state spender message handled refl refl (ground arith)
      (ground arith) handle_unit-state refl

valid_utxo_amount-mod_example : valid_utxo_amount spender ≡ passes
valid_utxo_amount-mod_example = valid_utxo_amount-mod spender message [] refl

valid_unit_inputs_and_outputs-passes_example :
    (is_nil spender.authors ≡ false)
    × (is_nil spender.messages ≡ false)
    × AreFilled 0 spender.messages
unfolding valid_unit_inputs_and_outputs
valid_unit_inputs_and_outputs-passes_example = valid_unit_inputs_and_outputs-passes spender refl

-- A unit of two messages with one input each.
abbrev pub two_messages : DagUnit
two_messages = record spender { messages = message ∷ message ∷ [] }

valid_unit_inputs_and_outputs-crashes_example : valid_unit_inputs_and_outputs two_messages ≡ crashes
valid_unit_inputs_and_outputs-crashes_example =
    valid_unit_inputs_and_outputs-crashes two_messages message message
      (record {
        unit_hash = 3;
        message_index = 0;
        output_index = 0;
        type_of = "";
        output = owned 100;
      })
      [] refl (refl, refl, (refl, (refl, tt)), (_, refl, refl)) refl

one_letter-injective : (a b : Address) → string_eq (a ∷ []) (b ∷ []) ≡ true → a ≡ b
unfolding string_eq
one_letter-injective a b e = ground arith

valid_author_address-passes_example :
    (author : Author) × (rest : List Author) × (spender.authors ≡ author ∷ rest)
    × All (λ (x : Input). x.output.address ≡ author.address) message.payload.inputs
unfolding valid_author_address string_eq
valid_author_address-passes_example =
    valid_author_address-passes (λ a. a ∷ []) one_letter-injective spender message [] refl refl

abbrev available : List UtxoHelper
available = record { utxo = new_utxo 3 0 0 (owned 100) ""; is_stable = true } ∷ []

handle_pending-effect_example :
    (out : PendingOut ledger) × (handle_pending ledger state spender ≡ returns out)
    × (out.error ≡ none)
    × ((v : Utxo)
        → ledger.is_exist_pending_utxo out.db v ≡ (
            pays_back ledger spender 11 0 0 message.payload.outputs v
            || (not (takes ledger available v) && ledger.is_exist_pending_utxo state v)))
unfolding future_spent new_utxo
handle_pending-effect_example =
    handle_pending-effect ledger state spender (record { address = 11; signature = [] }) [] message
      available refl refl (source, [], refl, refl, refl, refl)

handle_unit-returns_example :
    (out : StableOut ledger) × (handle_unit ledger state spender ≡ returns out)
    × ((is_nil out.commissions && out.valid) ≡ false)
handle_unit-returns_example =
    handle_unit-returns ledger state spender (record { address = 11; signature = [] }) [] refl
