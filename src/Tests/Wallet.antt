-- ===== src/Tests/Wallet.antt =====
-- The theorems on a node's commands and its first start, at small values.
use babyboy.Types.Hash.{Hash, Address}
use babyboy.Prelude.{
  refl, [], ◌∷◌, none, some, false, List, ◌≡◌, Option, ℕ, Bool, if◌then◌else◌, ◌==◌, ◌&&◌, ◌||◌,
  arith,
}
use babyboy.Interface.{returns}
use babyboy.Prelude.Integers.{pos}
use babyboy.Types.Payment.{Utxo, empty_utxo}
use babyboy.Types.Unit.{DagUnit, new_empty_unit}
use babyboy.Node.Genesis.{GenesisDb, init_genesis}
use babyboy.Node.Genesis.Once.{IsStarted, init_genesis-once}
use babyboy.Node.Wallet.{on_light_new_unit, fails, ok, err_node_amount}
use babyboy.Node.Light.{light_with, light_entity, choose_light, new_joint_light-refused}
use babyboy.Tests.Node.{network, entities}
use babyboy.Tests.Signer.{accounts}
use babyboy.Tests.Transaction.{owned}
use babyboy.Tests.Instances.{list_fifo, digest, config}

-- The units by hash, and who owns an output of which index.
abbrev memory : GenesisDb
memory = record {
  Db = (Hash → Option DagUnit) × (Address → ℕ → Bool);
  init_mem_db = λ d. d;
  get_unit_by_hash = λ d h. d.0 h;
  save_unit_to_db = λ d u. ((λ h. if h == u.hash then some u else d.0 h), d.1);
  save_new_tip = λ d h. d;
  save_witness_list = λ d ws. d;
  save_unspent_output = λ d a u. (d.0, λ b i. (a == b && u.output_index == i) || d.1 b i);
  is_exist_unspent_output = λ d a u. d.1 a u.output_index;
  same = λ a u b v. a == b && u.output_index == v.output_index;
  unit_init = λ d h. refl;
  unit_save = λ d u. ground arith;
  unit_tip = λ d t h. refl;
  unit_witnesses = λ d ws h. refl;
  unit_unspent = λ d a u h. refl;
  unspent_save = λ d a b u v. refl;
  same_refl = λ a u. ground arith;
}

abbrev first_unit : DagUnit
first_unit = record new_empty_unit { hash = 3; witness_list = 11 ∷ 12 ∷ [] }

abbrev nothing : memory.Db
nothing = ((λ h. none), (λ a i. false))

init_genesis-once_example : IsStarted memory 3 first_unit (init_genesis memory 3 first_unit nothing)
init_genesis-once_example = init_genesis-once memory 3 first_unit nothing refl refl

abbrev two_outputs : List Utxo
two_outputs =
    record empty_utxo { output = owned 300 } ∷ record empty_utxo { output = owned 400 } ∷ []

light_with-sent : light_with "0x0b" 150 two_outputs ≡ ok (light_entity "0x0b")
unfolding light_with choose_light
light_with-sent = refl

new_joint_light-refused_example :
    on_light_new_unit accounts
      (λ n. [])
      (λ no_authors unit. some [])
      (λ text. text)
      network
      entities
      list_fifo
      digest
      config
      (λ w. [])
      (λ p. 0)
      "payment"
      (record { amount = λ u. pos u.output.amount; as_output = λ u. u.output })
      (λ unit s. unit)
      1
      []
      (light_entity "0x0b")
    ≡ returns (fails err_node_amount)
new_joint_light-refused_example =
    new_joint_light-refused accounts (λ n. []) (λ no_authors unit. some []) (λ text. text) network
      entities list_fifo digest config (λ w. []) (λ p. 0) "payment"
      (record { amount = λ u. pos u.output.amount; as_output = λ u. u.output }) (λ unit s. unit)
      "0x0b" 150 two_outputs (light_entity "0x0b") 1 [] refl light_with-sent
