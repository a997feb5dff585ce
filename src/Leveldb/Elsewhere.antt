-- ===== src/Leveldb/Elsewhere.antt =====
-- The writes of leveldb/dbservice.go to the tables of balls, witnesses, children, stable units,
-- votes and cached units.
use babyboy.Prelude.{ℕ, List}
use babyboy.Types.Hash.{Hash, Address}
use babyboy.Types.Unit.{DagUnit, Ball, HashArray, VoteResult}
use babyboy.Leveldb.Store.{Store, Prefixes, Codec}
use babyboy.Leveldb.Units.{
  save_ball_to_db, save_balls_to_db, save_balls, del_ball, save_witness, save_witness_list,
  del_witness, save_cache_unit_to_db, del_cache_unit_from_db,
}
use babyboy.Leveldb.Votes.{save_children_unit, save_stable_units, save_vote_round, save_vote_result}

pub data Elsewhere : Type 0 where
  ball_saved : Ball → Elsewhere
  balls_saved : List Ball → Elsewhere
  ball_hashes_saved : List Hash → Elsewhere
  ball_deleted : Hash → Elsewhere
  witness_saved witness_deleted : Address → Elsewhere
  witnesses_saved : List Address → Elsewhere
  unit_cached cached_deleted : DagUnit → Elsewhere
  children_saved stable_units_saved : Hash → HashArray → Elsewhere
  round_saved : ℕ → Elsewhere
  result_saved : ℕ → VoteResult → Elsewhere

module _ {V : Type 0} (S : Store V) (C : Codec V) (K : Prefixes) where
  abbrev pub write_elsewhere : S.Db → Elsewhere → S.Db
  write_elsewhere db (ball_saved b) = save_ball_to_db S C K db b
  write_elsewhere db (balls_saved bs) = save_balls_to_db S C K db bs
  write_elsewhere db (ball_hashes_saved hs) = save_balls S C K db hs
  write_elsewhere db (ball_deleted h) = del_ball S C K db h
  write_elsewhere db (witness_saved a) = save_witness S C K db a
  write_elsewhere db (witness_deleted a) = del_witness S C K db a
  write_elsewhere db (witnesses_saved ws) = save_witness_list S C K db ws
  write_elsewhere db (unit_cached u) = save_cache_unit_to_db S C K db u
  write_elsewhere db (cached_deleted u) = del_cache_unit_from_db S C K db u
  write_elsewhere db (children_saved h hs) = save_children_unit S C K db h hs
  write_elsewhere db (stable_units_saved h hs) = save_stable_units S C K db h hs
  write_elsewhere db (round_saved n) = save_vote_round S C K db n
  write_elsewhere db (result_saved n r) = save_vote_result S C K db n r
