-- ===== src/Tests/Create.antt =====
-- The theorem on CreateTx, at an amount of -200.
use babyboy.Dag.GraphInfo.{UnitTable}
use babyboy.Graphop.AddressSet
use babyboy.Prelude.{[], ◌∷◌, true, ◌^◌, ◌-◌, if◌then◌else◌, ◌==◌, some, none}
use babyboy.Transaction.Create.{UtxoAmount}
use babyboy.Prelude.Integers.{pos}
use babyboy.Types.Unit.{new_empty_unit, DagUnit}

abbrev amounts : UtxoAmount
amounts = record { amount = λ u. pos u.output.amount; as_output = λ u. u.output }

-- A graph of one unit, stable and on the main chain.
abbrev root_unit : DagUnit
root_unit = record new_empty_unit {
  hash = 3;
  authors = record { address = 11; signature = [] } ∷ [];
  is_stable = true;
  is_on_main_chain = true;
}

abbrev empty_unit : DagUnit
empty_unit = record new_empty_unit {
  parent_list = 3 ∷ [];
  witness_list = 11 ∷ [];
  best_parent_unit = 3;
  level = 1;
  witnessed_level = 0;
  last_ball_unit = 3;
  sub_stable_min_hash = 2 ^ 256 - 1;
}

abbrev roots : UnitTable
roots h = if h == 3 then some root_unit else none
