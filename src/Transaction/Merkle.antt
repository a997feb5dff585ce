-- ===== src/Transaction/Merkle.antt =====
-- transaction/auth.go: the two functions that make a Merkle tree of the stable units. The tree is
-- common.NewTree, a copy of another library; `none` is its error, at which log.Fatal ends the program.
use babyboy.Types.Unit.{UnitJson, DagUnit}
use babyboy.Types.Hash.{Hash}
use babyboy.Prelude.{none, some, List, Bool, Option, ℕ}
use babyboy.Interface.{Fifo, Outcome, returns, panics, out_of_fuel}
use babyboy.Dag.GraphInfo.{GraphInfoGetter, get_last_stable_ball_mci}
use babyboy.Dag.Missing.{get_missing_units}

module _ (G : Fifo Hash) (digest : UnitJson → Hash) (is_sorted : List DagUnit → Bool)
    (sort : List DagUnit → List DagUnit) (Tree : Type 0) (new_tree : List DagUnit → Option Tree)
    (merkle_root : Tree → List ℕ) (verify_content : Tree → DagUnit → Option Bool) where
  unfoldable pub main_chain_tree : ℕ → GraphInfoGetter → Outcome Tree
  main_chain_tree fuel graph_info = elim (get_last_stable_ball_mci G digest fuel graph_info) [
    | panics ↦ panics
    | out_of_fuel ↦ out_of_fuel
    | returns start_mci ↦ elim (get_missing_units G is_sorted sort fuel graph_info start_mci 0) [
      | panics ↦ panics
      | out_of_fuel ↦ out_of_fuel
      | returns (stable, _) ↦ elim (new_tree stable) [ none ↦ panics | some t ↦ returns t ]
    ]
  ]

  unfoldable pub get_main_chain_merkle_root : ℕ → GraphInfoGetter → Outcome (List ℕ)
  unfolding main_chain_tree
  get_main_chain_merkle_root fuel graph_info = elim (main_chain_tree fuel graph_info) [
    | panics ↦ panics
    | out_of_fuel ↦ out_of_fuel
    | returns t ↦ returns (merkle_root t)
  ]

  unfoldable pub is_unit_in_merkle_tree : ℕ → GraphInfoGetter → DagUnit → Outcome Bool
  unfolding main_chain_tree
  is_unit_in_merkle_tree fuel graph_info unit = elim (main_chain_tree fuel graph_info) [
    | panics ↦ panics
    | out_of_fuel ↦ out_of_fuel
    | returns t ↦ elim (verify_content t unit) [ none ↦ panics | some vc ↦ returns vc ]
  ]
