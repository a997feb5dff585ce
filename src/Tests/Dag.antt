-- ===== src/Tests/Dag.antt =====
-- The theorems on package dag at a graph of four units: 3 is the genesis unit, 2 its child, and 5
-- and 6 are children of 2.

use babyboy.Dag.MainChain.{MainChainUpdater, get_stable_hash, get_stable_hash-found}
use babyboy.Dag.Missing.Termination.{get_missing_on_main_chain-runs_on}
use babyboy.Dag.GraphInfo.StableBall.{get_last_stable_ball-found}
use babyboy.Dag.GraphInfo.Level.{HasNext, get_level-above}
use babyboy.Dag.GraphInfo.WitnessLevel.{Reaches, get_witness_level-Reaches}
use mathlib.Core.List.{Memᴰ}
use babyboy.Dag.Missing.Completeness.{get_missing_units-HasAll}
use babyboy.Dag.Missing.Follows.{Lacks}
use babyboy.Dag.Missing.Soundness.{Answers, get_missing_units-Answers}
use babyboy.Types.Hash.{Hash, hash_string, string_eq_refl}
use babyboy.Dag.Missing.{get_missing_stable_units_hash_on_main_chain, get_missing_units}
use babyboy.Dag.GraphInfo.BestParent.{IsBest, HasLevels, IsKeyed, get_best_parent_unit-IsBest}
use babyboy.Dag.GraphInfo.BestParent.Order.{get_best_parent_unit-order}
use babyboy.Int64.{slt}
use babyboy.Dag.GraphInfo.{
  UnitTable, GraphInfoGetter, get_best_parent_unit, get_last_stable_ball, get_level,
  get_unit_by_hash, get_last_stable_ball_mci, get_witness_level,
}
use babyboy.Types.Unit.{DagUnit, new_empty_unit, Author, hash_key}
use babyboy.Prelude.{
  ℕ, All, List, if◌then◌else◌, ◌∷◌, none, ◌≡◌, true, [], ◌==◌, some, arith, elem, ◌++◌,
}
use babyboy.Prelude.{refl}
use babyboy.Interface.{returns, out_of_fuel, Config}
use babyboy.Graphop.AddressSet
use babyboy.Tests.Instances.{
  list_fifo, config, digest, digest_bound, sort_units, sort_units-All, units_sorted,
  sort_units-Memᴰ,
}

abbrev author_of : ℕ → List Author
author_of a = record { address = a; signature = [] } ∷ []

abbrev unit_three : DagUnit
unit_three = record new_empty_unit {
  hash = 3;
  authors = author_of 11;
  is_stable = true;
  is_on_main_chain = true;
}

abbrev unit_two : DagUnit
unit_two = record new_empty_unit {
  hash = 700;
  headers_commission = 100;
  parent_list = 3 ∷ [];
  authors = author_of 12;
  best_parent_unit = 3;
  main_chain_index = 1;
  is_stable = true;
  level = 1;
}

abbrev unit_five : DagUnit
unit_five = record new_empty_unit {
  hash = 14;
  headers_commission = 2;
  parent_list = 2 ∷ [];
  authors = author_of 11;
  best_parent_unit = 2;
  level = 2;
  witnessed_level = 1;
}

abbrev unit_six : DagUnit
unit_six = record new_empty_unit {
  hash = 7;
  headers_commission = 1;
  parent_list = 2 ∷ [];
  authors = author_of 12;
  best_parent_unit = 2;
  level = 2;
  witnessed_level = 1;
}

abbrev graph : UnitTable
graph h =
    if h == 3
    then some unit_three
    else if h == 2
    then some unit_two
    else if h == 5
    then some unit_five
    else if h == 6
    then some unit_six
    else none

abbrev getter : GraphInfoGetter
getter = record { db = graph; parent_list = 5 ∷ 6 ∷ []; witness_list = 11 ∷ []; best_parent = 2 }

get_level-above_example :
    (slt 0 (get_level getter) ≡ true)
    × (slt (get_unit_by_hash graph 5).level (get_level getter) ≡ true)
get_level-above_example = get_level-above getter bounded 5 refl
  where
    bounded : All (λ p. HasNext (get_unit_by_hash graph p).level) (5 ∷ 6 ∷ [])
    bounded =
        unfold get_unit_by_hash in
        ((ground arith, ground arith), ((ground arith, ground arith), tt))

parents-HasLevels : All (λ q. HasLevels (get_unit_by_hash graph q)) (5 ∷ 6 ∷ [])
parents-HasLevels =
    unfold get_unit_by_hash in ((ground arith, ground arith), ((ground arith, ground arith), tt))

parents-IsKeyed : All (IsKeyed digest graph) (5 ∷ 6 ∷ [])
unfolding get_unit_by_hash hash_key
parents-IsKeyed =
    (((ground arith, ground arith), refl), ((((ground arith, ground arith)), refl), tt))

get_best_parent_unit-IsBest_example :
    IsBest digest getter (5 ∷ 6 ∷ []) (get_best_parent_unit digest getter)
get_best_parent_unit-IsBest_example =
    get_best_parent_unit-IsBest digest digest_bound getter 5 (6 ∷ []) refl parents-HasLevels

get_best_parent_unit-order_example :
    (get_best_parent_unit digest (record getter { parent_list = 6 ∷ 5 ∷ [] })).0
    ≡ (get_best_parent_unit digest getter).0
get_best_parent_unit-order_example =
    get_best_parent_unit-order digest digest_bound getter 5 6 (6 ∷ []) (5 ∷ []) refl swapped
      parents-IsKeyed
  where
    swapped : (q : Hash) → elem q (5 ∷ 6 ∷ []) ≡ elem q (6 ∷ 5 ∷ [])
    swapped q = ground arith

get_last_stable_ball-found_example :
    (get_last_stable_ball list_fifo digest 2 getter ≡ returns 3)
    × (get_last_stable_ball_mci list_fifo digest 2 getter ≡ returns 0)
unfolding get_unit_by_hash
get_last_stable_ball-found_example =
    get_last_stable_ball-found list_fifo digest getter 1 2 (refl, refl) (ground arith)

get_missing_on_main_chain-runs_on_example :
    get_missing_stable_units_hash_on_main_chain list_fifo units_sorted sort_units digest 50 getter 4
      1
    ≡ out_of_fuel
get_missing_on_main_chain-runs_on_example =
    get_missing_on_main_chain-runs_on list_fifo units_sorted sort_units digest getter 4 1 50

get_missing_units-Answers_example :
    Answers graph 0 (get_missing_units list_fifo units_sorted sort_units 9 getter 2 0)
unfolding get_unit_by_hash
get_missing_units-Answers_example =
    get_missing_units-Answers list_fifo units_sorted sort_units sort_units-All getter
      (2 ∷ 3 ∷ 5 ∷ 6 ∷ []) 2 0 9 (refl, (refl, tt))
      ((refl, tt), (tt, ((refl, tt), ((refl, tt), tt)))) (ground arith)

get_missing_units-HasAll_example :
    (stable : List DagUnit) × (unstable : List DagUnit) × (get_missing_units list_fifo units_sorted
        sort_units 9 getter 2 0
      ≡ returns (stable, unstable))
    × ((h : Hash)
        → Lacks graph 0 getter.parent_list h
        → Memᴰ (get_unit_by_hash graph h) (stable ++ unstable))
unfolding get_unit_by_hash
get_missing_units-HasAll_example =
    get_missing_units-HasAll list_fifo units_sorted sort_units sort_units-All sort_units-Memᴰ getter
      (2 ∷ 3 ∷ 5 ∷ 6 ∷ []) 2 0 9 (ground arith) (refl, (refl, tt))
      ((refl, tt), (tt, ((refl, tt), ((refl, tt), tt)))) (ground arith)

abbrev rooted : Config
rooted = record config { genesis_unit_hash = hash_string 3 }

get_witness_level-Reaches_example :
    Reaches list_fifo rooted graph
      (AddressSet.list_insert AddressSet.new_address_set (11 ∷ []))
      2
      AddressSet.new_address_set
      1
      1
      (get_witness_level list_fifo rooted 2 getter)
unfolding get_unit_by_hash
get_witness_level-Reaches_example =
    get_witness_level-Reaches list_fifo rooted getter 1 2 (ground arith)
      (refl, (refl, string_eq_refl (hash_string 3)))

abbrev updater : MainChainUpdater
updater = record {
  db = graph;
  unit_hash = 5;
  parent_list = 2 ∷ [];
  stable_hash = 0;
  stable_level = 0;
  sub_hash = 0;
}

get_stable_hash-found_example :
    get_stable_hash 3 updater 5
    ≡ returns (record updater { stable_hash = 3; stable_level = 0; sub_hash = 3 })
unfolding get_unit_by_hash
get_stable_hash-found_example =
    get_stable_hash-found 2 3 updater 5 (ground arith) (refl, (refl, refl))
