-- ===== src/Leveldb/Votes.antt =====
-- leveldb/dbservice.go: the children of a unit, the units that a main chain unit makes stable, and
-- the votes. The reads scan for a prefix and unmarshal every entry into one variable.
use babyboy.Types.Unit.{HashArray, DagUnit, VoteResult, new_hash_array, empty_vote_result}
use babyboy.Types.Hash.{Hash, hash_string}
use babyboy.Prelude.{List, [], ◌∷◌, ◌++◌, none, some, ℕ}
use babyboy.Leveldb.Units.{get_unit_by_hash}
use babyboy.Interface.{Outcome, returns, panics}
use babyboy.Leveldb.Store.{Store, Prefixes, Codec, read_all}

module _ {V : Type 0} (S : Store V) (C : Codec V) (K : Prefixes) where
  unfoldable pub save_children_unit : S.Db → Hash → HashArray → S.Db
  save_children_unit db parent_unit children =
      S.put db (K.children_hash ++ hash_string parent_unit) (C.hash_array_text children)

  unfoldable pub get_children_unit : S.Db → Hash → HashArray
  get_children_unit db h =
      read_all C.read_hash_array new_hash_array (S.scan db (K.children_hash ++ hash_string h))

  unfoldable pub save_stable_units : S.Db → Hash → HashArray → S.Db
  save_stable_units db mc_unit stable_units =
      S.put db (K.stable_units_prefix ++ hash_string mc_unit) (C.hash_array_text stable_units)

  -- A hash with no unit is a `log.Panicln`.
  units_of : S.Db → List Hash → List DagUnit → Outcome (List DagUnit)
  units_of db [] stable_units = returns stable_units
  units_of db (h ∷ hs) stable_units = elim (get_unit_by_hash S C K db h) [
    | none ↦ panics
    | some unit ↦ units_of db hs (stable_units ++ (unit ∷ []))
  ]

  unfoldable pub get_stable_units : S.Db → Hash → Outcome (List DagUnit)
  unfolding units_of
  get_stable_units db h =
      units_of db
        (read_all C.read_hash_array new_hash_array
          (S.scan db (K.stable_units_prefix ++ hash_string h))).hashes
        []

  unfoldable pub save_vote_round : S.Db → ℕ → S.Db
  save_vote_round db vote_round = S.put db K.vote_round (C.int_text vote_round)

  unfoldable pub get_vote_round : S.Db → ℕ
  get_vote_round db = read_all C.read_int 0 (S.scan db K.vote_round)

  unfoldable pub save_vote_result : S.Db → ℕ → VoteResult → S.Db
  save_vote_result db vote_round result =
      S.put db (K.vote_result ++ C.format_int vote_round) (C.vote_result_text result)

  unfoldable pub get_vote_result : S.Db → ℕ → VoteResult
  get_vote_result db vote_round =
      read_all C.read_vote_result empty_vote_result
        (S.scan db (K.vote_result ++ C.format_int vote_round))
