-- ===== src/Types/Payment.antt =====
-- core/types: outputs, inputs, payloads, messages, unspent outputs and commissions. An amount is
-- a Go `int`, taken as its 64-bit pattern. An array index of the source is a number.
use babyboy.Prelude.{ℕ, ◌≡◌, List, [], ◌∷◌, ◌++◌, String}
use mathlib.Core.List.{append-nil, append_assoc}
use babyboy.Types.Hash.{Hash, Address}

pub record Output : Type 0 where
  pub address : Address
  pub amount : ℕ

unfoldable pub new_output : Address → ℕ → Output
new_output address amount = record { address = address; amount = amount }

pub record Input : Type 0 where
  pub unit_hash : Hash
  pub message_index : ℕ
  pub output_index : ℕ
  pub type_of : String
  pub output : Output

unfoldable pub new_input : Hash → ℕ → ℕ → String → Output → Input
new_input unit_hash message_index output_index in_type output = record {
  unit_hash = unit_hash;
  message_index = message_index;
  output_index = output_index;
  type_of = in_type;
  output = output;
}

pub record Utxo : Type 0 where
  pub unit_hash : Hash
  pub message_index : ℕ
  pub output_index : ℕ
  pub output : Output
  pub type_of : String

unfoldable pub new_utxo : Hash → ℕ → ℕ → Output → String → Utxo
new_utxo unit_hash message_index output_index output type_of = record {
  unit_hash = unit_hash;
  message_index = message_index;
  output_index = output_index;
  output = output;
  type_of = type_of;
}

-- The zero value of the struct.
abbrev pub empty_output : Output
empty_output = record { address = 0; amount = 0 }

abbrev pub empty_utxo : Utxo
empty_utxo = record {
  unit_hash = 0;
  message_index = 0;
  output_index = 0;
  output = empty_output;
  type_of = "";
}

pub record Commission : Type 0 where
  pub address : Address
  pub utxo : Utxo

unfoldable pub new_commission : Address → Utxo → Commission
new_commission address utxo = record { address = address; utxo = utxo }

pub record Payload : Type 0 where
  pub inputs : List Input
  pub outputs : List Output

abbrev pub new_payload : Payload
new_payload = record { inputs = []; outputs = [] }

-- One `append` for each element, in order.
unfoldable pub add_inputs : Payload → List Input → Payload
add_inputs load [] = load
add_inputs load (x ∷ inputs) = add_inputs (record load { inputs = load.inputs ++ (x ∷ []) }) inputs

unfoldable pub add_outputs : Payload → List Output → Payload
add_outputs load [] = load
add_outputs load (x ∷ outputs) =
    add_outputs (record load { outputs = load.outputs ++ (x ∷ []) }) outputs

pub add_inputs_lem :
    (load : Payload) (inputs : List Input)
    → add_inputs load inputs ≡ record { inputs = load.inputs ++ inputs; outputs = load.outputs }
unfolding add_inputs
add_inputs_lem load [] = simp append-nil
add_inputs_lem load (x ∷ xs) =
    simp (add_inputs_lem (record load { inputs = load.inputs ++ (x ∷ []) }) xs, append_assoc)

pub add_outputs_lem :
    (load : Payload) (outputs : List Output)
    → add_outputs load outputs ≡ record { inputs = load.inputs; outputs = load.outputs ++ outputs }
unfolding add_outputs
add_outputs_lem load [] = simp append-nil
add_outputs_lem load (x ∷ xs) =
    simp (add_outputs_lem (record load { outputs = load.outputs ++ (x ∷ []) }) xs, append_assoc)

pub record Message : Type 0 where
  pub app : String
  pub payload_hash : Hash
  pub payload : Payload

-- The builder holds the message's three fields; each setter returns a changed copy.
pub record MessageBuilder : Type 0 where
  pub app : String
  pub payload_hash : Hash
  pub payload : Payload

abbrev pub new_message_builder : MessageBuilder
new_message_builder = record { app = ""; payload_hash = 0; payload = new_payload }

unfoldable pub set_app_name : MessageBuilder → String → MessageBuilder
set_app_name builder name = record builder { app = name }

unfoldable pub set_payload_hash : MessageBuilder → Hash → MessageBuilder
set_payload_hash builder hash = record builder { payload_hash = hash }

unfoldable pub set_payload : MessageBuilder → Payload → MessageBuilder
set_payload builder payload = record builder { payload = payload }

unfoldable pub get_message : MessageBuilder → Message
get_message builder = record {
  app = builder.app;
  payload_hash = builder.payload_hash;
  payload = builder.payload;
}

unfoldable pub new_message : String → Hash → Payload → Message
new_message app payload_hash payload = record {
  app = app;
  payload_hash = payload_hash;
  payload = payload;
}

unfoldable pub get_app_name : MessageBuilder → String
get_app_name builder = builder.app

-- The variadic forms of the two loops.
unfoldable pub add_input : Payload → List Input → Payload
add_input load [] = load
add_input load (x ∷ inputs) = add_input (record load { inputs = load.inputs ++ (x ∷ []) }) inputs

unfoldable pub add_output : Payload → List Output → Payload
add_output load [] = load
add_output load (x ∷ outputs) =
    add_output (record load { outputs = load.outputs ++ (x ∷ []) }) outputs

unfoldable pub get_inputs : Payload → List Input
get_inputs load = load.inputs

unfoldable pub get_outputs : Payload → List Output
get_outputs load = load.outputs

module _ (digest : Payload → Hash) where
  unfoldable pub get_payload_hash : Payload → Hash
  get_payload_hash load = digest load
