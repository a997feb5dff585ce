-- ===== src/Dag/Missing.antt =====
-- dag/graph_info.go, GetMissingUnits and GetMissingStableUnitsHashOnMainChain: what a peer lacks.
-- `sort.IsSorted` and `sort.Sort` are the Go library's, used with `Units.Less`.
pub mod Soundness
pub mod Completeness
pub mod Follows
pub mod Termination
use babyboy.Prelude.{
  ℕ, zero, suc, ◌+◌, ◌≡◌, List, [], ◌∷◌, ◌++◌, map, Bool, true, false, ◌&&◌, not, if◌then◌else◌,
  ◌==◌,
}
use babyboy.Int64.{slt}
use babyboy.Interface.{Fifo, Outcome, returns, panics, out_of_fuel}
use babyboy.Types.Hash.{Hash}
use babyboy.Types.Unit.{DagUnit, UnitJson}
use babyboy.Graphop.HashMap
use babyboy.Graphop.HashMap.{HashMap}
use babyboy.Dag.GraphInfo.{UnitTable, GraphInfoGetter, get_unit_by_hash, ensure_best_parent}

module _ (F : Fifo Hash) where
  -- The two maps and the queue.
  pub record Walk : Type 0 where
    pub stable : HashMap
    pub unstable : HashMap
    pub que : F.Queue

  -- Both loops insert a hash into the unstable map, and queue it, at its first occurrence.
  pub add_unstable : UnitTable → Hash → Walk → Walk
  add_unstable db val w =
      if not (HashMap.exists w.unstable val)
      then record w {
        unstable = HashMap.insert w.unstable val (get_unit_by_hash db val);
        que = F.push w.que val;
      }
      else w

  pub seed : UnitTable → List Hash → Walk → Walk
  seed db [] w = w
  seed db (val ∷ vals) w = seed db vals (add_unstable db val w)

  -- The body of the inner loop, for one parent of the unit that was taken off the queue.
  pub visit : UnitTable → ℕ → Hash → Walk → Walk
  visit db last_known_mci val w =
      let unit = get_unit_by_hash db val in
      if unit.is_stable
      then (if not (HashMap.exists w.stable val) && slt last_known_mci unit.main_chain_index
          then record w { stable = HashMap.insert w.stable val unit; que = F.push w.que val }
          else w)
      else add_unstable db val w

  pub visit_all : UnitTable → ℕ → List Hash → Walk → Walk
  visit_all db last_known_mci [] w = w
  visit_all db last_known_mci (val ∷ vals) w =
      visit_all db last_known_mci vals (visit db last_known_mci val w)

  pub missing_loop : UnitTable → ℕ → ℕ → Walk → Outcome Walk
  missing_loop db last_known_mci zero w = out_of_fuel
  missing_loop db last_known_mci (suc fuel) w = elim (F.empty w.que) [
    | true ↦ returns w
    | false ↦ missing_loop db last_known_mci fuel (
        visit_all db last_known_mci (get_unit_by_hash db (F.front w.que)).parent_list
          (record w { que = F.pop w.que }))
  ]

  pub start : Walk
  start = record { stable = HashMap.new_hash_map; unstable = HashMap.new_hash_map; que = F.new }

  -- The body of the loop of GetMissingStableUnitsHashOnMainChain.
  pub record_ball : ℕ → ℕ → Hash → DagUnit → HashMap → HashMap
  record_ball last_stable_mci last_known_mci hash unit balls =
      if unit.is_on_main_chain
        && (not (slt unit.main_chain_index last_known_mci)
            && not (slt last_stable_mci unit.main_chain_index))
      then HashMap.insert balls hash unit
      else balls

  pub on_main_chain_loop : UnitTable → ℕ → ℕ → ℕ → F.Queue → HashMap → Outcome HashMap
  on_main_chain_loop db last_stable_mci last_known_mci zero que balls = out_of_fuel
  on_main_chain_loop db last_stable_mci last_known_mci (suc fuel) que balls = elim (F.empty que) [
    | true ↦ returns balls
    | false ↦
        (let hash = F.front que in
          let unit = get_unit_by_hash db hash in
          on_main_chain_loop db last_stable_mci last_known_mci fuel
            (F.push (F.pop que) unit.best_parent_unit)
            (record_ball last_stable_mci last_known_mci hash unit balls))
  ]

  module _ (is_sorted : List DagUnit → Bool) (sort : List DagUnit → List DagUnit) where
    pub ordered : List DagUnit → List DagUnit
    ordered units = if not (is_sorted units) then sort units else units

    unfoldable pub get_missing_units :
        ℕ → GraphInfoGetter → ℕ → ℕ → Outcome (List DagUnit × List DagUnit)
    unfolding ordered seed start missing_loop visit_all visit add_unstable
    get_missing_units fuel gig last_stable_mci last_known_mci =
        if slt last_stable_mci last_known_mci
        then returns ([], [])
        else elim (missing_loop gig.db last_known_mci fuel (seed gig.db gig.parent_list start)) [
          | returns w ↦
              returns (
                ordered (HashMap.get_all_value w.stable),
                ordered (HashMap.get_all_value w.unstable),
              )
          | panics ↦ panics
          | out_of_fuel ↦ out_of_fuel
        ]

    unfoldable pub get_missing_stable_units_hash_on_main_chain :
        (UnitJson → Hash) → ℕ → GraphInfoGetter → ℕ → ℕ → Outcome (List Hash)
    unfolding ordered on_main_chain_loop record_ball ensure_best_parent
    get_missing_stable_units_hash_on_main_chain digest fuel gig last_stable_mci last_known_mci =
        let g = ensure_best_parent digest gig in
        if slt last_stable_mci last_known_mci
        then returns []
        else elim (on_main_chain_loop g.db last_stable_mci last_known_mci fuel
            (F.push F.new g.best_parent) HashMap.new_hash_map) [
              | returns balls ↦ returns (map (λ u. u.hash) (ordered (HashMap.get_all_value balls)))
              | panics ↦ panics
              | out_of_fuel ↦ out_of_fuel
            ]
