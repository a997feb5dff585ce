-- ===== src/Dag/MainChain.antt =====
-- dag/main_chain.go: the last stable unit of the main chain below a unit. The recursion that the
-- source bounds by nothing takes fuel; a failed read gives the zero unit. The lock is left out.
use babyboy.Types.Unit.{DagUnit, new_empty_unit}
use babyboy.Types.Hash.{Hash, Address}
use babyboy.Graphop.AddressSet
use babyboy.Graphop.AddressSet.{AddressSet}
use babyboy.Int64.{slt, add64, sub64}
use babyboy.Types.Unit.{VoteResult, Ball, new_ball}
use babyboy.Prelude.{
  [], ◌∷◌, zero, suc, ℕ, List, if◌then◌else◌, get_or, ◌<◌, ◌&&◌, ◌≡◌, arith, ◌++◌, ◌==◌, false, ◌+◌,
  ◌*◌, ◌%◌, ◌^◌, not, ◌||◌,
}
use babyboy.Dag.GraphInfo.{UnitTable, get_unit_by_hash}
use babyboy.Dag.GraphInfo.StableBall.{ancestor, FirstBall}
use babyboy.Interface.{panics, Outcome, returns, out_of_fuel, Config}

pub record MainChainUpdater : Type 0 where
  pub db : UnitTable
  pub unit_hash : Hash
  pub parent_list : List Hash
  pub stable_hash : Hash
  pub stable_level : ℕ
  pub sub_hash : Hash

unfoldable pub get_stable_hash : ℕ → MainChainUpdater → Hash → Outcome MainChainUpdater
get_stable_hash zero mcu pre_unit_hash = out_of_fuel
get_stable_hash (suc fuel) mcu pre_unit_hash =
    let unit = get_unit_by_hash mcu.db pre_unit_hash in
    let more = get_stable_hash fuel mcu unit.best_parent_unit in
    if unit.is_stable && unit.is_on_main_chain
    then returns (record mcu {
      stable_hash = unit.hash;
      stable_level = unit.level;
      sub_hash = pre_unit_hash;
    })
    else more

unfoldable pub get_last_stable_unit : MainChainUpdater → DagUnit
get_last_stable_unit mcu = get_or (mcu.db mcu.stable_hash) new_empty_unit

-- The hash that is `n` steps along the best parents.
abbrev pub ancestor_hash : UnitTable → Hash → ℕ → Hash
ancestor_hash db h zero = h
ancestor_hash db h (suc n) = ancestor_hash db (get_unit_by_hash db h).best_parent_unit n

-- If the first stable unit of the main chain stands `n` steps along the best parents, then with
-- fuel for more than `n` rounds GetStableHash records its hash, its level and the hash under which
-- it was found, and changes nothing else.
pub get_stable_hash-found :
    (n fuel : ℕ) (mcu : MainChainUpdater) (h : Hash)
    → n < fuel
    → FirstBall mcu.db h n
    → get_stable_hash fuel mcu h
      ≡ returns (record mcu {
        stable_hash = (ancestor mcu.db h n).hash;
        stable_level = (ancestor mcu.db h n).level;
        sub_hash = ancestor_hash mcu.db h n;
      })
unfolding get_stable_hash
get_stable_hash-found n zero mcu h lt b = elim lt [ ]
get_stable_hash-found zero (suc fuel) mcu h lt b = ground arith
get_stable_hash-found (suc n) (suc fuel) mcu h lt b = ground (
  arith,
  get_stable_hash-found n fuel mcu (get_unit_by_hash mcu.db h).best_parent_unit (omega arith) b.1,
)

-- What ExtendStableUnit uses of the database, besides the units.
pub record VoteTable : Type 1 where
  pub Db : Type 0
  pub get_vote_round : Db → ℕ
  pub get_vote_result : Db → ℕ → VoteResult
  pub save_vote_result : Db → ℕ → VoteResult → Db
  pub save_transaction_amount : Db → Address → ℕ → Db
  pub get_transaction_amount : Db → Address → ℕ → ℕ

-- The database and the local variables of the loop, which nothing reads after it.
pub record Extended (T : VoteTable) : Type 0 where
  pub db : T.Db
  pub balls : List Ball
  pub hashes : List Hash
  pub new_campaigners : List Address

module _ (T : VoteTable) (config : Config) where
  -- `round` is the round after the current one, `witnesses` the set in memory. The author is read
  -- for a valid unit, and for one that is late enough.
  unfoldable pub extend_units :
      Hash → ℕ → ℕ → AddressSet → Extended T → List DagUnit → Outcome (Extended T)
  extend_units sub_hash round temp_time witnesses e [] = returns e
  extend_units sub_hash round temp_time witnesses e (val ∷ units) =
      let noted = record e {
        balls = e.balls ++ (new_ball sub_hash val.parent_list false ∷ []);
        hashes = e.hashes ++ (val.hash ∷ []);
      } in
      let limit = add64 temp_time ((sub64 config.min_interval_time 1 * 3600) % 2 ^ 64) in
      let late = not (slt val.time_stamp limit) in
      elim val.authors [
        | [] ↦
            (let rest = extend_units sub_hash round temp_time witnesses noted units in
              if not val.invalid || late then panics else rest)
        | author ∷ _ ↦
            (let db =
                if val.invalid then e.db else T.save_transaction_amount e.db author.address round in
              let joins =
                late
                && (T.get_transaction_amount db author.address round == config.min_trade_rate
                    && not (AddressSet.exists witnesses author.address)) in
              extend_units sub_hash round temp_time witnesses
                (record noted {
                  db = db;
                  new_campaigners =
                      if joins
                      then e.new_campaigners ++ (author.address ∷ [])
                      else e.new_campaigners;
                })
                units)
      ]

  -- `now` is time.Now().Unix(), and `witness_list` is what GetWitnessesAsHash gives.
  unfoldable pub extend_stable_unit :
      ℕ → List Address → MainChainUpdater → T.Db → List DagUnit → Outcome (Extended T)
  unfolding extend_units
  extend_stable_unit now witness_list mcu db units =
      let current_round = T.get_vote_round db in
      let witnesses = AddressSet.list_insert AddressSet.new_address_set witness_list in
      let current_result = T.get_vote_result db current_round in
      let unset = current_result.end_time == 0 in
      let temp_time = if unset then now else current_result.end_time in
      let db' =
        if unset
        then T.save_vote_result db current_round (record current_result { end_time = now })
        else db in
      extend_units mcu.sub_hash (current_round + 1) temp_time witnesses
        (record { db = db'; balls = []; hashes = []; new_campaigners = [] }) units
