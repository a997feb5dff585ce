-- ===== src/Node/Light.antt =====
-- node/node.go: NewJointLight, by which a light node asks a full one for a unit. Amounts are `int`
-- here: 64-bit patterns.
use babyboy.Types.Hash.{Hash}
use babyboy.Types.Unit.{DagUnit, UnitJson}
use babyboy.Prelude.{
  none, some, [], ◌∷◌, ◌++◌, ◌≡◌, if◌then◌else◌, refl, List, ℕ, String, arith, Option, false, subst,
  Bool,
}
use text.Mathlib.Text.{◌==◌ as str_eq}
use babyboy.Int64.{slt, add64, sub64}
use babyboy.Interface.{Fifo, Config, returns}
use babyboy.Types.Messages.{NewUnitEntity, LightNewUnitEntity}
use babyboy.Types.Payment.{Utxo, Payload}
use babyboy.Node.Network.{Network}
use babyboy.Node.Wallet.{
  Accounts, err_node_sender, err_node_pass_word, err_node_amount, err_node_no_account, err_balance,
  err_commission, Result, ok, fails, find_account_with, create_unit_for_light, on_light_new_unit,
}
use babyboy.Transaction.Create.{choice_inputs, UtxoAmount}
use babyboy.Transaction.Chain.{const_header_commission, const_payload_commission}

-- The loop over the unspent outputs: what is taken, and what would go back, which is not used.
pub record LightChoice : Type 0 where
  pub to_other : List Utxo
  pub cur_amount : ℕ
  pub to_myself : ℕ

unfoldable pub choose_light : ℕ → ℕ → LightChoice → List Utxo → LightChoice
choose_light total_amount total_spend c [] = c
choose_light total_amount total_spend c (u ∷ us) =
    let cur = add64 c.cur_amount u.output.amount in
    let taken = c.to_other ++ (u ∷ []) in
    let more =
      choose_light total_amount total_spend
        (record { to_other = taken; cur_amount = cur; to_myself = c.to_myself }) us in
    if slt cur total_spend then more else record {
      to_other = taken;
      cur_amount = cur;
      to_myself =
          sub64 (sub64 (sub64 cur total_amount) const_header_commission) const_payload_commission;
    }

-- The entity that is sent to the best peer; its receiver and its amount are not set.
abbrev pub light_entity : String → LightNewUnitEntity
light_entity address = record { from_address = address; to_address = ""; amount = 0 }

-- The part after the account is found, with what ChoiceInputs gives.
unfoldable pub light_with : String → ℕ → List Utxo → Result LightNewUnitEntity
unfolding choose_light
light_with address amount un_spent =
    let total_amount = add64 0 amount in
    let total_spend = add64 (add64 total_amount const_header_commission) const_payload_commission in
    let c =
      choose_light total_amount total_spend
        (record { to_other = []; cur_amount = 0; to_myself = 0 }) un_spent in
    if slt c.cur_amount total_amount
    then fails err_balance
    else if slt c.cur_amount total_spend
    then fails err_commission
    else ok (light_entity address)

unfoldable pub new_joint_light : Accounts → String → String → String → ℕ → Result LightNewUnitEntity
unfolding light_with find_account_with choice_inputs
new_joint_light am address password tx amount =
    if str_eq address ""
    then fails err_node_sender
    else if str_eq password ""
    then fails err_node_pass_word
    else if str_eq tx ""
    then fails err_node_amount
    else (elim (find_account_with am address) [
      | none ↦ fails err_node_no_account
      | some _ ↦ light_with address amount (choice_inputs (am.hex_to_address address))
    ])

light_with-entity :
    (address : String) (amount : ℕ) (us : List Utxo) (entity : LightNewUnitEntity)
    → light_with address amount us ≡ ok entity
    → light_entity address ≡ entity
unfolding light_with
light_with-entity address amount us entity e = ground arith

module _ (am : Accounts) (itoa : ℕ → List ℕ) (marshal : Bool → DagUnit → Option (List ℕ))
    (keccak256 : List ℕ → List ℕ) (N : Network) (F : Fifo NewUnitEntity) (G : Fifo Hash)
    (digest : UnitJson → Hash) (config : Config) (parents : N.World → List Hash)
    (payload_digest : Payload → Hash) (payment : String) (amounts : UtxoAmount)
    (set_signature : DagUnit → List ℕ → DagUnit) where
  -- Whatever a light node asks for, the full node does not make it: if NewJointLight of a sender
  -- gets as far as to send its message, for any amount and any outputs to choose from, then the
  -- peer that takes the message answers that the receiver is missing.
  pub new_joint_light-refused :
      (address : String) (amount : ℕ) (us : List Utxo) (entity : LightNewUnitEntity) (fuel : ℕ)
      (w : N.World)
      → str_eq address "" ≡ false
      → light_with address amount us ≡ ok entity
      → on_light_new_unit am itoa marshal keccak256 N F G digest config parents payload_digest
          payment amounts set_signature fuel w entity
        ≡ returns (fails err_node_amount)
  unfolding on_light_new_unit create_unit_for_light
  new_joint_light-refused address amount us entity fuel w some_sender e =
      subst
        (λ x.
          on_light_new_unit am itoa marshal keccak256 N F G digest config parents payload_digest
            payment amounts set_signature fuel w x
          ≡ returns (fails err_node_amount))
        (light_with-entity address amount us entity e)
        (rw (some_sender, on_light_new_unit, create_unit_for_light) refl)
