-- ===== src/MemDb/Witnesses/Replacement.antt =====
-- What a vote's result changes.
use babyboy.Prelude.{ℕ, ◌≡◌, List, [], if◌then◌else◌, ◌==◌, elem, arith, ==_iff}
use babyboy.Int64.{sub64}
use babyboy.Interface.{Config}
use babyboy.Types.Hash.{Address}
use babyboy.Types.Unit.{VoteResult}
use babyboy.Graphop.Assoc
use babyboy.Graphop.AddressSet
use babyboy.Graphop.AddressSet.{AddressSet, exists, exists_after}
use babyboy.MemDb.Witnesses.{
  WitnessDb, WitnessMemDb, save_witness, delete_witness, save_witness_list, replace_witness,
  save_vote_result_by_round, get_vote_result_by_round, replace_witness_by_result,
}

module _ (W : WitnessDb) (config : Config) where
  abbrev pub IsMirror : WitnessMemDb W config → Type 0
  IsMirror wdb = (a : Address) → exists wdb.witness_set a ≡ elem a (W.get_witness_list wdb.db)

  -- SaveWitness, SaveWitnessList, DeleteWitness and ReplaceWitness keep the set in memory and the
  -- table in the database the same.
  pub witnesses-IsMirror :
      (wdb : WitnessMemDb W config) (w w' : Address) (ws : List Address)
      → IsMirror wdb
      → IsMirror (save_witness W config wdb w)
        × IsMirror (save_witness_list W config wdb ws)
        × IsMirror (delete_witness W config wdb w)
        × IsMirror (replace_witness W config wdb w w')
  unfolding save_witness save_witness_list delete_witness replace_witness
  witnesses-IsMirror wdb w w' ws m = (
    λ a. ground (arith, (exists_after wdb.witness_set w a []).1, W.witnesses_save wdb.db w a, m a),
    λ a.
        ground
          (arith, (exists_after wdb.witness_set w a ws).2, W.witnesses_save_list wdb.db ws a, m a),
    λ a. ground (arith, (exists_after wdb.witness_set w a []).3, W.witnesses_del wdb.db w a, m a),
    λ a. ground (
      arith,
      (exists_after wdb.witness_set w a []).3,
      (exists_after (AddressSet.remove wdb.witness_set w) w a []).1,
      W.witnesses_del wdb.db w a,
      W.witnesses_save (W.del_witness wdb.db w) w a,
      m a,
    ),
  )

  exists-replace :
      (wdb : WitnessMemDb W config) (old new a : Address)
      → exists (replace_witness W config wdb old new).witness_set a ≡ exists wdb.witness_set a
  unfolding replace_witness save_witness delete_witness
  exists-replace wdb old new a = ground (
    arith,
    (exists_after wdb.witness_set old a []).3,
    (exists_after (AddressSet.remove wdb.witness_set old) old a []).1,
    ==_iff old a,
  )

  replace_map-replace :
      (wdb : WitnessMemDb W config) (old new : Address)
      → (replace_witness W config wdb old new).replace_map ≡ wdb.replace_map
  unfolding replace_witness save_witness delete_witness
  replace_map-replace wdb old new = ground arith

  -- The round that a result completes, `Const_Stable_Rounds` before its own.
  abbrev pub completes : VoteResult → ℕ
  completes result = sub64 result.round config.const_stable_rounds

  -- ReplaceWitnessByResult stores the result for its round. The round of the vote moves on to the
  -- one that the result completes if that is the next, and stays otherwise. The witnesses are the same
  -- in each case: the one to bring in is not, and the one to replace stays.
  pub replace_witness_by_result_lem :
      (wdb : WitnessMemDb W config) (result : VoteResult) (a : Address)
      → (get_vote_result_by_round W config
            (replace_witness_by_result W config wdb result)
            result.round
          ≡ result)
        × ((replace_witness_by_result W config wdb result).vote_round ≡ (
            if sub64 (completes result) wdb.vote_round == 1
            then completes result
            else wdb.vote_round))
        × (exists (replace_witness_by_result W config wdb result).witness_set a
            ≡ exists wdb.witness_set a)
  unfolding replace_witness_by_result save_vote_result_by_round
  replace_witness_by_result_lem wdb result a = (
    stored,
    ground arith,
    ground (arith, exists-replace saved result.replaced_witness result.vote_result a),
  )
    where
      saved : WitnessMemDb W config
      saved = save_vote_result_by_round W config wdb result.round result

      stored :
          get_vote_result_by_round W config
            (replace_witness_by_result W config wdb result)
            result.round
          ≡ result
      stored =
          unfold get_vote_result_by_round in
          ground (
            arith,
            replace_map-replace saved result.replaced_witness result.vote_result,
            Assoc.lookup-put result.round result.round result wdb.replace_map,
          )
