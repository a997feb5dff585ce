-- ===== src/Node/Wallet.antt =====
-- node/node.go: what the commands ask of a node. The accounts, their wallets and the text functions
-- are libraries, and SetSignature is not in the repository: parameters.
pub mod Signing
use babyboy.Prelude.{
  none, some, [], ◌∷◌, ◌+◌, ◌%◌, ◌++◌, true, false, if◌then◌else◌, zero, suc, ◌||◌, List, ℕ, Bool,
  String, Option, length, ◌==◌,
}
use text.Mathlib.Text.{◌==◌ as str_eq}
use babyboy.Int64.{slt, add64}
use babyboy.Interface.{Fifo, Config, Outcome, returns, panics, out_of_fuel}
use babyboy.Types.Hash.{Hash, Address}
use babyboy.Types.Messages.{NewUnitEntity, LightNewUnitEntity}
use babyboy.Types.Unit.{DagUnit, UnitJson}
use babyboy.Types.Payment.{Utxo, Payload}
use babyboy.Node.Network.{Network}
use babyboy.Node.Sync.{Node, handle_new_unit_event}
use babyboy.Signer.{sign_hash}
use babyboy.Transaction.Create.{
  Created, created, err_not_enough_balance, err_not_enough_commission, create_tx, choice_inputs,
  UtxoAmount, set_int64,
}

pub data NodeError : Type 0 where
  err_node_sender err_node_pass_word err_node_amount err_amount_range err_node_no_account :
      NodeError
  err_node_singed err_node_create_tx err_balance err_commission : NodeError

pub data Result (A : Type 0) : Type 0 where
  ok : A → Result A
  fails : NodeError → Result A

-- `GetAccountManager().Wallets()`, each with the addresses of its accounts, and the text functions.
pub record Accounts : Type 0 where
  pub wallets : List (List Address)
  pub address_string : Address → String
  pub has_prefix_0x : String → Bool
  pub with_0x : String → String
  pub equal_fold : String → String → Bool
  pub hex_to_address : String → Address
  pub sign_hash_with_passphrase : Address → String → List ℕ → Option (List ℕ)

unfoldable pub list_accounts : List (List Address) → List Address
list_accounts [] = []
list_accounts (wallet ∷ wallets) = wallet ++ list_accounts wallets

unfoldable pub get_wallets : Accounts → ℕ
get_wallets am = length am.wallets

unfoldable pub find_address : (Address → Bool) → List Address → Option Address
find_address same [] = none
find_address same (a ∷ all) = if same a then some a else find_address same all

unfoldable pub find_account_with : Accounts → String → Option Address
unfolding find_address list_accounts
find_account_with am address =
    let full = if am.has_prefix_0x address then address else am.with_0x address in
    find_address (λ a. am.equal_fold (am.address_string a) full) (list_accounts am.wallets)

-- `signature[i] += 27`, of bytes; `none` if there is no such byte.
unfoldable pub add_27_at : ℕ → List ℕ → Option (List ℕ)
add_27_at i [] = none
add_27_at zero (x ∷ xs) = some ((x + 27) % 256 ∷ xs)
add_27_at (suc i) (x ∷ xs) = elim (add_27_at i xs) [ none ↦ none | some ys ↦ some (x ∷ ys) ]

-- The sums of GetBalance: the stable outputs', and of each unit's pending ones the last.
unfoldable pub stable_balance : ℕ → List Utxo → ℕ
stable_balance sum [] = sum
stable_balance sum (u ∷ us) = stable_balance (add64 sum u.output.amount) us

unfoldable pub pending_balance : (Hash → Option ℕ) → List Utxo → Hash → Option ℕ
pending_balance pending [] = pending
pending_balance pending (u ∷ us) =
    pending_balance (λ h. if h == u.unit_hash then some u.output.amount else pending h) us

unfoldable pub get_balance : List Utxo → List Utxo → ℕ × (Hash → Option ℕ)
unfolding stable_balance pending_balance
get_balance un_spent un_spent_pending =
    (stable_balance 0 un_spent, pending_balance (λ h. none) un_spent_pending)

module _ (am : Accounts) (itoa : ℕ → List ℕ) (marshal : Bool → DagUnit → Option (List ℕ))
    (keccak256 : List ℕ → List ℕ) where
  -- `none` is any of its errors; `no_authors` tells whether the unit's authors are nil.
  unfoldable pub sign_message : Bool → DagUnit → Address → String → Outcome (Option (List ℕ))
  unfolding add_27_at
  sign_message no_authors unit addr password = elim (marshal no_authors unit) [
    | none ↦ returns none
    | some data_bytes ↦
        elim (am.sign_hash_with_passphrase addr password (sign_hash itoa keccak256 data_bytes)) [
          | none ↦ returns none
          | some signature ↦ elim (add_27_at 64 signature) [
            | none ↦ panics
            | some signed ↦ returns (some signed)
          ]
        ]
  ]

  module _ (N : Network) (F : Fifo NewUnitEntity) (G : Fifo Hash) (digest : UnitJson → Hash)
      (config : Config) (parents : N.World → List Hash) (payload_digest : Payload → Hash)
      (payment : String) (amounts : UtxoAmount) (set_signature : DagUnit → List ℕ → DagUnit) where
    -- Both calls give CreateTx one `int`, as the total and as the amount; the total is a big integer.
    unfoldable pub create_unit : ℕ → N.World → String → String → ℕ → Outcome Created
    create_unit fuel w address tx amount =
        create_tx payload_digest payment amounts G digest config (N.db w) (parents w)
          (N.witnesses w) fuel (am.hex_to_address address) (set_int64 amount) (am.hex_to_address tx)
          amount

    -- The unit that CreateTx made is signed and handled as one of the node's own. Its authors are an
    -- empty list that is not nil.
    unfoldable pub send_signed :
        Node N F → DagUnit → String → String → Outcome (Node N F × Result Hash)
    unfolding sign_message
    send_signed n new_unit address password =
        elim (sign_message false new_unit (am.hex_to_address address) password) [
          | panics ↦ panics
          | out_of_fuel ↦ out_of_fuel
          | returns none ↦ returns (n, fails err_node_singed)
          | returns (some signed_unit) ↦
              (let signed = set_signature new_unit signed_unit in
                returns (
                  handle_new_unit_event N F n
                      (record { from_peer_id = "local"; has_peer_ids = []; new_unit = signed }),
                  ok signed.hash,
                ))
        ]

    unfoldable pub new_joint :
        ℕ → Node N F → String → String → String → ℕ → Outcome (Node N F × Result Hash)
    unfolding create_unit send_signed find_account_with
    new_joint fuel n address password tx amount =
        if str_eq address ""
        then returns (n, fails err_node_sender)
        else if str_eq password ""
        then returns (n, fails err_node_pass_word)
        else if str_eq tx ""
        then returns (n, fails err_node_amount)
        else if slt amount 0 || slt 100000000 amount
        then returns (n, fails err_amount_range)
        else (elim (find_account_with am address) [
          | none ↦ returns (n, fails err_node_no_account)
          | some _ ↦ elim (create_unit fuel n.world address tx amount) [
            | panics ↦ panics
            | out_of_fuel ↦ out_of_fuel
            | returns err_not_enough_balance ↦ returns (n, fails err_balance)
            | returns err_not_enough_commission ↦ returns (n, fails err_commission)
            | returns (created new_unit) ↦ send_signed n new_unit address password
          ]
        ])

    unfoldable pub create_unit_for_light :
        ℕ → N.World → String → String → ℕ → Outcome (Result DagUnit)
    unfolding create_unit find_account_with
    create_unit_for_light fuel w address tx amount =
        if str_eq address ""
        then returns (fails err_node_sender)
        else if str_eq tx ""
        then returns (fails err_node_amount)
        else (elim (find_account_with am address) [
          | none ↦ returns (fails err_node_no_account)
          | some _ ↦ elim (create_unit fuel w address tx amount) [
            | panics ↦ panics
            | out_of_fuel ↦ out_of_fuel
            | returns (created new_unit) ↦ returns (ok new_unit)
            | returns _ ↦ returns (fails err_node_create_tx)
          ]
        ])

    -- "node:LightNewUnit": what the callback is given.
    unfoldable pub on_light_new_unit : ℕ → N.World → LightNewUnitEntity → Outcome (Result DagUnit)
    unfolding create_unit_for_light
    on_light_new_unit fuel w entity =
        create_unit_for_light fuel w entity.from_address entity.to_address entity.amount
