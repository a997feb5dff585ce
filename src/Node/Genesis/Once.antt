-- ===== src/Node/Genesis/Once.antt =====
-- The first start pays the witnesses, and a later one only reads.
use babyboy.Prelude.{refl, none, some, [], ◌∷◌, ◌+◌, ◌≡◌, sym, ◌∙◌, true, arith, ap, subst}
use babyboy.Node.Genesis.{
  GenesisDb, genesis_utxo, pay_witnesses, init_genesis, Hash, DagUnit, ℕ, List, Address, Utxo,
}

module _ (D : GenesisDb) (genesis_unit_hash : Hash) (genesis_unit : DagUnit) where
  pay_witnesses-unit :
      (db : D.Db) (i : ℕ) (ws : List Address) (h : Hash)
      → D.get_unit_by_hash (pay_witnesses D genesis_unit_hash genesis_unit db i ws) h
        ≡ D.get_unit_by_hash db h
  unfolding pay_witnesses
  pay_witnesses-unit db i [] h = refl
  pay_witnesses-unit db i (w ∷ ws) h =
      pay_witnesses-unit
        (D.save_unspent_output db w (genesis_utxo D genesis_unit_hash genesis_unit w i)) (i + 1) ws
        h
      ∙ D.unit_unspent db w (genesis_utxo D genesis_unit_hash genesis_unit w i) h

  pay_witnesses-keep :
      (db : D.Db) (i : ℕ) (ws : List Address) (a : Address) (u : Utxo)
      → D.is_exist_unspent_output db a u ≡ true
      → D.is_exist_unspent_output (pay_witnesses D genesis_unit_hash genesis_unit db i ws) a u
        ≡ true
  unfolding pay_witnesses
  pay_witnesses-keep db i [] a u e = e
  pay_witnesses-keep db i (w ∷ ws) a u e =
      pay_witnesses-keep
        (D.save_unspent_output db w (genesis_utxo D genesis_unit_hash genesis_unit w i)) (i + 1) ws
        a u
        (ground
          (arith, D.unspent_save db w a (genesis_utxo D genesis_unit_hash genesis_unit w i) u))

  -- The witness of each index has the output of that index.
  abbrev pub ArePaid : D.Db → ℕ → List Address → Type 0
  ArePaid db i [] = Unit
  ArePaid db i (w ∷ ws) =
      (D.is_exist_unspent_output db w (genesis_utxo D genesis_unit_hash genesis_unit w i) ≡ true)
      × ArePaid db (i + 1) ws

  pay_witnesses-ArePaid :
      (db : D.Db) (i : ℕ) (ws : List Address)
      → ArePaid (pay_witnesses D genesis_unit_hash genesis_unit db i ws) i ws
  unfolding pay_witnesses
  pay_witnesses-ArePaid db i [] = tt
  pay_witnesses-ArePaid db i (w ∷ ws) = (
    pay_witnesses-keep paid (i + 1) ws w (genesis_utxo D genesis_unit_hash genesis_unit w i) (
        ground (
          arith,
          D.unspent_save db w w (genesis_utxo D genesis_unit_hash genesis_unit w i)
              (genesis_utxo D genesis_unit_hash genesis_unit w i),
          D.same_refl w (genesis_utxo D genesis_unit_hash genesis_unit w i),
        )),
    pay_witnesses-ArePaid paid (i + 1) ws,
  )
    where
      paid : D.Db
      paid = D.save_unspent_output db w (genesis_utxo D genesis_unit_hash genesis_unit w i)

  -- What initGenesis leaves of a database without the genesis unit.
  filled : D.Db → D.Db
  filled db =
      pay_witnesses D genesis_unit_hash genesis_unit
        (D.save_witness_list
          (D.save_new_tip (D.save_unit_to_db (D.init_mem_db db) genesis_unit) genesis_unit.hash)
          genesis_unit.witness_list)
        0 genesis_unit.witness_list

  init_genesis-filled :
      (db : D.Db)
      → D.get_unit_by_hash db genesis_unit_hash ≡ none
      → init_genesis D genesis_unit_hash genesis_unit db ≡ filled db
  unfolding init_genesis filled
  init_genesis-filled db fresh = rw (D.unit_init db genesis_unit_hash ∙ fresh, init_genesis) refl

  filled-unit : (db : D.Db) → D.get_unit_by_hash (filled db) genesis_unit.hash ≡ some genesis_unit
  unfolding filled
  filled-unit db =
      pay_witnesses-unit _ 0 genesis_unit.witness_list genesis_unit.hash
      ∙ D.unit_witnesses _ genesis_unit.witness_list genesis_unit.hash
      ∙ D.unit_tip _ genesis_unit.hash genesis_unit.hash
      ∙ D.unit_save (D.init_mem_db db) genesis_unit

  init_genesis-known :
      (db : D.Db)
      → D.get_unit_by_hash db genesis_unit_hash ≡ some genesis_unit
      → init_genesis D genesis_unit_hash genesis_unit db ≡ D.init_mem_db db
  unfolding init_genesis
  init_genesis-known db known = rw (D.unit_init db genesis_unit_hash ∙ known, init_genesis) refl

  -- Everything that holds of a started database.
  abbrev pub IsStarted : D.Db → Type 0
  IsStarted started =
      (D.get_unit_by_hash started genesis_unit_hash ≡ some genesis_unit)
      × ArePaid started 0 genesis_unit.witness_list
      × (init_genesis D genesis_unit_hash genesis_unit started ≡ D.init_mem_db started)

  filled-IsStarted : (db : D.Db) → genesis_unit.hash ≡ genesis_unit_hash → IsStarted (filled db)
  unfolding filled
  filled-IsStarted db same =
      let stored : D.get_unit_by_hash (filled db) genesis_unit_hash ≡ some genesis_unit =
        ap (D.get_unit_by_hash (filled db)) (sym same) ∙ filled-unit db in
      (
        stored,
        pay_witnesses-ArePaid _ 0 genesis_unit.witness_list,
        init_genesis-known (filled db) stored,
      )

  -- If the database does not hold the genesis unit, then after initGenesis it does, and every
  -- witness that the unit names has its unspent output. Another initGenesis then writes nothing:
  -- it only fills the tips and the witnesses in memory again. (The configured hash is the unit's.)
  pub init_genesis-once :
      (db : D.Db)
      → genesis_unit.hash ≡ genesis_unit_hash
      → D.get_unit_by_hash db genesis_unit_hash ≡ none
      → IsStarted (init_genesis D genesis_unit_hash genesis_unit db)
  init_genesis-once db same fresh =
      subst IsStarted (sym (init_genesis-filled db fresh)) (filled-IsStarted db same)
