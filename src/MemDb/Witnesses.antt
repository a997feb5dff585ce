-- ===== src/MemDb/Witnesses.antt =====
-- dag/memdb/witness_memdb.go: the witnesses and the results of the votes, in memory and in the database.
-- Rounds are `int64`, taken as their 64-bit patterns.
pub mod Replacement
use babyboy.Prelude.{
  ℕ, zero, suc, ◌+◌, ◌≡◌, List, [], ◌∷◌, map, Bool, true, false, not, ◌&&◌, ◌||◌, if◌then◌else◌,
  ◌==◌, elem, Option, none, some, get_or,
}
use babyboy.Int64.{add64, sub64, minus_one}
use babyboy.Interface.{Config}
use babyboy.Types.Hash.{Address}
use babyboy.Types.Unit.{VoteResult, new_vote_result}
use babyboy.Graphop.Assoc
use babyboy.Graphop.AddressSet
use babyboy.Graphop.AddressSet.{AddressSet}

-- What the package uses of the database: leveldb/dbservice.go over its tables of witnesses and votes.
pub record WitnessDb : Type 1 where
  pub Db : Type 0
  pub get_witness_list : Db → List Address
  pub save_witness : Db → Address → Db
  pub save_witness_list : Db → List Address → Db
  pub del_witness : Db → Address → Db
  pub get_vote_round : Db → ℕ
  pub save_vote_round : Db → ℕ → Db
  pub get_vote_result : Db → ℕ → VoteResult
  pub save_vote_result : Db → ℕ → VoteResult → Db
  pub witnesses_save :
      (d : Db) (w a : Address)
      → elem a (get_witness_list (save_witness d w)) ≡ (w == a || elem a (get_witness_list d))
  pub witnesses_save_list :
      (d : Db) (ws : List Address) (a : Address)
      → elem a (get_witness_list (save_witness_list d ws))
        ≡ (elem a ws || elem a (get_witness_list d))
  pub witnesses_del :
      (d : Db) (w a : Address)
      → elem a (get_witness_list (del_witness d w)) ≡ (not (a == w) && elem a (get_witness_list d))
  pub witnesses_vote_result :
      (d : Db) (r : ℕ) (v : VoteResult)
      → get_witness_list (save_vote_result d r v) ≡ get_witness_list d

module _ (W : WitnessDb) (config : Config) where
  pub record WitnessMemDb : Type 0 where
    pub db : W.Db
    pub witness_set : AddressSet
    pub replace_round : ℕ
    pub vote_round : ℕ
    pub replace_map : List (ℕ × VoteResult)

  pub new_witness_mem_db : W.Db → WitnessMemDb
  new_witness_mem_db db = record {
    db = db;
    witness_set = AddressSet.new_address_set;
    replace_round = minus_one;
    vote_round = minus_one;
    replace_map = [];
  }

  -- `n` rounds from `i` on.
  load_results : W.Db → ℕ → ℕ → List (ℕ × VoteResult) → List (ℕ × VoteResult)
  load_results db zero i m = m
  load_results db (suc n) i m =
      load_results db n (add64 i 1) (Assoc.put i (W.get_vote_result db i) m)

  unfoldable pub init_witness_mem_db : WitnessMemDb → W.Db → WitnessMemDb
  unfolding load_results
  init_witness_mem_db wdb db =
      let round = W.get_vote_round db in
      let replaced = sub64 round config.const_stable_rounds in
      record {
        db = db;
        witness_set = AddressSet.list_insert wdb.witness_set (W.get_witness_list db);
        replace_round = replaced;
        vote_round = round;
        replace_map =
            load_results db config.const_stable_rounds (sub64 replaced config.const_stable_rounds)
              wdb.replace_map;
      }

  unfoldable pub save_witness : WitnessMemDb → Address → WitnessMemDb
  save_witness wdb witness = record wdb {
    db = W.save_witness wdb.db witness;
    witness_set = AddressSet.insert wdb.witness_set witness;
  }

  unfoldable pub save_witness_list : WitnessMemDb → List Address → WitnessMemDb
  save_witness_list wdb witness_list = record wdb {
    db = W.save_witness_list wdb.db witness_list;
    witness_set = AddressSet.list_insert wdb.witness_set witness_list;
  }

  unfoldable pub delete_witness : WitnessMemDb → Address → WitnessMemDb
  delete_witness wdb witness = record wdb {
    db = W.del_witness wdb.db witness;
    witness_set = AddressSet.remove wdb.witness_set witness;
  }

  -- The new witness is not used.
  unfoldable pub replace_witness : WitnessMemDb → Address → Address → WitnessMemDb
  replace_witness wdb old_witness new_witness =
      if AddressSet.exists wdb.witness_set old_witness
      then save_witness (delete_witness wdb old_witness) old_witness
      else wdb

  unfoldable pub get_witnesses_as_hash : WitnessMemDb → List Address × WitnessMemDb
  get_witnesses_as_hash wdb =
      let filled =
        (if AddressSet.empty wdb.witness_set
          then record wdb {
            witness_set = AddressSet.list_insert wdb.witness_set (W.get_witness_list wdb.db);
          }
          else wdb) in
      (AddressSet.get_all_address filled.witness_set, filled)

  unfoldable pub save_vote_round : WitnessMemDb → ℕ → WitnessMemDb
  save_vote_round wdb round = record wdb {
    vote_round = round;
    db = W.save_vote_round wdb.db round;
    replace_round = sub64 round config.const_stable_rounds;
  }

  unfoldable pub save_vote_result_by_round : WitnessMemDb → ℕ → VoteResult → WitnessMemDb
  save_vote_result_by_round wdb round result = record wdb {
    replace_map = Assoc.put round result wdb.replace_map;
    db = W.save_vote_result wdb.db round result;
  }

  unfoldable pub get_vote_result_by_round : WitnessMemDb → ℕ → VoteResult
  get_vote_result_by_round wdb round =
      get_or (Assoc.lookup round wdb.replace_map) (W.get_vote_result wdb.db round)

  unfoldable pub replace_witness_by_result : WitnessMemDb → VoteResult → WitnessMemDb
  unfolding replace_witness save_vote_result_by_round
  replace_witness_by_result wdb result =
      let saved = save_vote_result_by_round wdb result.round result in
      if sub64 (sub64 result.round config.const_stable_rounds) wdb.vote_round == 1
      then record (replace_witness saved result.replaced_witness result.vote_result) {
        vote_round = sub64 result.round config.const_stable_rounds;
      }
      else saved
