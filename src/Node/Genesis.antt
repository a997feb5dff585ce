-- ===== src/Node/Genesis.antt =====
-- node/node.go: initGenesis, which fills an empty database. What it uses of the database and of the
-- tips and witnesses in memory is a record; the genesis unit is the one of package `config`.
pub mod Once
use babyboy.Prelude.{none, some, [], ◌∷◌, ◌+◌, ◌≡◌, ◌==◌, ◌||◌, Option, ℕ, List, Bool, true}
use babyboy.Types.Hash.{Hash, Address}
use babyboy.Types.Payment.{Utxo, new_utxo, new_output}
use babyboy.Types.Unit.{DagUnit}

-- InitParentMemDB and InitWitnessMemDB are one operation here, `init_mem_db`; the tips and the
-- witnesses in memory are part of `Db`. The lookups after each write are leveldb/dbservice.go's.
pub record GenesisDb : Type 1 where
  pub Db : Type 0
  pub init_mem_db : Db → Db
  pub get_unit_by_hash : Db → Hash → Option DagUnit
  pub save_unit_to_db : Db → DagUnit → Db
  pub save_new_tip : Db → Hash → Db
  pub save_witness_list : Db → List Address → Db
  pub save_unspent_output : Db → Address → Utxo → Db
  pub is_exist_unspent_output : Db → Address → Utxo → Bool
  pub same : Address → Utxo → Address → Utxo → Bool
  pub unit_init : (d : Db) (h : Hash) → get_unit_by_hash (init_mem_db d) h ≡ get_unit_by_hash d h
  pub unit_save : (d : Db) (u : DagUnit) → get_unit_by_hash (save_unit_to_db d u) u.hash ≡ some u
  pub unit_tip :
      (d : Db) (t h : Hash) → get_unit_by_hash (save_new_tip d t) h ≡ get_unit_by_hash d h
  pub unit_witnesses :
      (d : Db) (ws : List Address) (h : Hash)
      → get_unit_by_hash (save_witness_list d ws) h ≡ get_unit_by_hash d h
  pub unit_unspent :
      (d : Db) (a : Address) (u : Utxo) (h : Hash)
      → get_unit_by_hash (save_unspent_output d a u) h ≡ get_unit_by_hash d h
  pub unspent_save :
      (d : Db) (a b : Address) (u v : Utxo)
      → is_exist_unspent_output (save_unspent_output d a u) b v
        ≡ (same a u b v || is_exist_unspent_output d b v)
  pub same_refl : (a : Address) (u : Utxo) → same a u a u ≡ true

module _ (D : GenesisDb) (genesis_unit_hash : Hash) (genesis_unit : DagUnit) where
  unfoldable pub genesis_utxo : Address → ℕ → Utxo
  unfolding new_utxo new_output
  genesis_utxo witness i = new_utxo genesis_unit.hash 0 i (new_output witness 10000000) ""

  unfoldable pub pay_witnesses : D.Db → ℕ → List Address → D.Db
  unfolding genesis_utxo
  pay_witnesses db i [] = db
  pay_witnesses db i (witness ∷ witnesses) =
      pay_witnesses (D.save_unspent_output db witness (genesis_utxo witness i)) (i + 1) witnesses

  unfoldable pub init_genesis : D.Db → D.Db
  unfolding pay_witnesses
  init_genesis db =
      let ready = D.init_mem_db db in
      elim (D.get_unit_by_hash ready genesis_unit_hash) [
        | some _ ↦ ready
        | none ↦
            (let saved = D.save_unit_to_db ready genesis_unit in
              let tip = D.save_new_tip saved genesis_unit.hash in
              pay_witnesses (D.save_witness_list tip genesis_unit.witness_list) 0
                genesis_unit.witness_list)
      ]
