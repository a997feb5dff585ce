-- ===== src/Dag/GraphInfo.antt =====
-- dag/graph_info.go: what a node computes from the graph when it builds a unit.
-- `db` is the unit table of the database; a failed read gives the zero unit, and the error is
-- dropped, as everywhere in the file. A loop that the source bounds by nothing takes fuel.
pub mod Level
pub mod BestParent
pub mod StableBall
pub mod WitnessLevel
use babyboy.Prelude.{
  ℕ, zero, suc, List, [], ◌∷◌, Bool, true, false, ◌&&◌, ◌||◌, ◌==◌, if◌then◌else◌, Option, get_or,
}
use babyboy.Int64.{slt, add64, minus_one}
use babyboy.Interface.{Fifo, Outcome, returns, panics, out_of_fuel, Config}
use babyboy.Types.Hash.{Hash, Address, hash_len, hash_string, string_gt, string_eq}
use babyboy.Types.Unit.{DagUnit, UnitJson, new_empty_unit, string_key}
use babyboy.Graphop.AddressSet
use babyboy.Graphop.AddressSet.{AddressSet}
use babyboy.Graphop.HashMap

abbrev pub UnitTable : Type 0
UnitTable = Hash → Option DagUnit

unfoldable pub get_unit_by_hash : UnitTable → Hash → DagUnit
get_unit_by_hash db h = get_or (db h) new_empty_unit

pub record GraphInfoGetter : Type 0 where
  pub db : UnitTable
  pub parent_list : List Hash
  pub witness_list : List Address
  pub best_parent : Hash

level_loop : UnitTable → List Hash → ℕ → ℕ
level_loop db [] level = level
level_loop db (p ∷ ps) level =
    level_loop db ps
      (if slt level (get_unit_by_hash db p).level then (get_unit_by_hash db p).level else level)

unfoldable pub get_level : GraphInfoGetter → ℕ
unfolding level_loop
get_level gig = add64 (level_loop gig.db gig.parent_list 0) 1

module _ (digest : UnitJson → Hash) where
  -- Does the loop take the second unit in place of the first?
  better : DagUnit → DagUnit → Bool
  better best t =
      slt best.witnessed_level t.witnessed_level
      || ((best.witnessed_level == t.witnessed_level && slt t.level best.level)
          || (best.witnessed_level == t.witnessed_level
              && (best.level == t.level
                  && string_gt (string_key digest best) (string_key digest t))))

  best_loop : UnitTable → List Hash → DagUnit → DagUnit
  best_loop db [] best = best
  best_loop db (p ∷ ps) best =
      best_loop db ps (if better best (get_unit_by_hash db p) then get_unit_by_hash db p else best)

  -- The result, and the getter with `bestParent` set.
  unfoldable pub get_best_parent_unit : GraphInfoGetter → Hash × GraphInfoGetter
  unfolding best_loop better
  get_best_parent_unit gig = elim gig.parent_list [
    | [] ↦ (0, gig)
    | p ∷ ps ↦
        (let best = best_loop gig.db (p ∷ ps) (get_unit_by_hash gig.db p) in
          (best.hash, record gig { best_parent = best.hash }))
  ]

  unfoldable pub new_graph_info_getter : UnitTable → List Hash → List Address → GraphInfoGetter
  unfolding get_best_parent_unit
  new_graph_info_getter db parent_list witness_list = (get_best_parent_unit gig).1
    where
      gig : GraphInfoGetter
      gig = record {
        db = db;
        parent_list = parent_list;
        witness_list = witness_list;
        best_parent = 0;
      }

  -- `if len(gig.bestParent) == 0 { gig.GetBestParentUnit() }`
  unfoldable pub ensure_best_parent : GraphInfoGetter → GraphInfoGetter
  unfolding get_best_parent_unit
  ensure_best_parent gig =
      if hash_len gig.best_parent == 0 then (get_best_parent_unit gig).1 else gig

module _ (F : Fifo Hash) where
  module _ (config : Config) (db : UnitTable) (stable_witnesses : AddressSet) where
    witness_level_loop : ℕ → F.Queue → AddressSet → ℕ → Outcome ℕ
    witness_level_loop zero que seen level = out_of_fuel
    witness_level_loop (suc fuel) que seen level = elim (F.empty que) [
      | true ↦ returns minus_one
      | false ↦
          (let unit = get_unit_by_hash db (F.front que) in
            elim unit.authors [
              | [] ↦ panics
              | author ∷ _ ↦
                  (let counts = AddressSet.exists stable_witnesses author.address in
                    let seen' = if counts then AddressSet.insert seen author.address else seen in
                    let level' = if counts && slt unit.level level then unit.level else level in
                    let more =
                      witness_level_loop fuel (F.push (F.pop que) unit.best_parent_unit) seen'
                        level' in
                    if counts && AddressSet.size seen' == config.majority_of_witnesses
                    then returns level'
                    else (if string_eq (hash_string unit.hash) config.genesis_unit_hash
                        then returns 0
                        else more))
            ])
    ]

  unfoldable pub get_witness_level : Config → ℕ → GraphInfoGetter → Outcome ℕ
  unfolding witness_level_loop
  get_witness_level config fuel gig =
      if hash_len gig.best_parent == 0
      then returns minus_one
      else witness_level_loop config gig.db stable_witnesses fuel (F.push F.new gig.best_parent)
          AddressSet.new_address_set (get_unit_by_hash gig.db gig.best_parent).level
    where
      stable_witnesses : AddressSet
      stable_witnesses = AddressSet.list_insert AddressSet.new_address_set gig.witness_list

  -- `unit` is the variable that the loop leaves behind.
  last_stable_loop : UnitTable → ℕ → F.Queue → DagUnit → Outcome DagUnit
  last_stable_loop db zero que unit = out_of_fuel
  last_stable_loop db (suc fuel) que unit = elim (F.empty que) [
    | true ↦ returns unit
    | false ↦
        (let unit' = get_unit_by_hash db (F.front que) in
          let more = last_stable_loop db fuel (F.push (F.pop que) unit'.best_parent_unit) unit' in
          if unit'.is_stable && unit'.is_on_main_chain then returns unit' else more)
  ]

  module _ (digest : UnitJson → Hash) where
    unfoldable pub get_last_stable_ball : ℕ → GraphInfoGetter → Outcome Hash
    unfolding last_stable_loop ensure_best_parent
    get_last_stable_ball fuel gig =
        let g = ensure_best_parent digest gig in
        elim (last_stable_loop g.db fuel (F.push F.new g.best_parent) new_empty_unit) [
          | returns unit ↦ returns unit.hash
          | panics ↦ panics
          | out_of_fuel ↦ out_of_fuel
        ]

    unfoldable pub get_last_stable_ball_mci : ℕ → GraphInfoGetter → Outcome ℕ
    unfolding last_stable_loop ensure_best_parent
    get_last_stable_ball_mci fuel gig =
        let g = ensure_best_parent digest gig in
        elim (last_stable_loop g.db fuel (F.push F.new g.best_parent) new_empty_unit) [
          | returns unit ↦ returns unit.main_chain_index
          | panics ↦ panics
          | out_of_fuel ↦ out_of_fuel
        ]
