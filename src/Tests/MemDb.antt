-- ===== src/Tests/MemDb.antt =====
-- The theorems on package dag/memdb at small tables.
use babyboy.MemDb.Witnesses.Replacement.{replace_witness_by_result_lem, witnesses-IsMirror}
use babyboy.MemDb.Parents.Mirror.{save_parent-tips}
use babyboy.MemDb.Witnesses.{
  WitnessMemDb, save_witness, get_vote_result_by_round, save_witness_list,
  replace_witness_by_result, delete_witness, replace_witness,
}
use babyboy.Graphop.AddressSet.{exists}
use babyboy.MemDb.Parents.Tables
use babyboy.MemDb.Parents.Childless
use babyboy.MemDb.Parents.Childless.{add_units-childless}
use babyboy.Leveldb.Units.{get_parents_list}
use babyboy.Tests.Stores.{list_store, plain_codec, tables}
use babyboy.Tests.Leveldb.{nothing, empty-Represents, tables-HasApartTables}
use babyboy.MemDb.Parents.{ParentMemDb, save_parent}
use babyboy.Types.Hash.{Hash}
use babyboy.Types.Unit.{DagUnit, VoteResult, new_empty_unit, empty_vote_result}
use babyboy.Prelude.{
  arith, List, elem, true, refl, Option, ◌∷◌, ◌≡◌, [], if◌then◌else◌, false, ◌==◌, some, none,
}
use babyboy.MemDb.Witnesses.Replacement
use babyboy.Graphop.HashSet
use babyboy.Graphop.AddressSet
use babyboy.Tests.Instances.{config, parent_table, witness_table}

abbrev child : DagUnit
child = record new_empty_unit { parent_list = 1 ∷ 2 ∷ []; witness_list = 11 ∷ 12 ∷ 13 ∷ [] }

abbrev units : Hash → Option DagUnit
units h = if h == 5 then some child else none

-- Tips 1, 2 and 3, in memory and in the table.
abbrev tips : ParentMemDb parent_table
tips = record { db = (units, 1 ∷ 2 ∷ 3 ∷ []); parent_set = record { keys = 1 ∷ 2 ∷ 3 ∷ [] } }

save_parent-tips_example : HashSet.exists (save_parent parent_table tips 5).parent_set 2 ≡ false
save_parent-tips_example = save_parent-tips parent_table tips 5 2

abbrev witnesses : WitnessMemDb witness_table config
witnesses = record {
  db = (11 ∷ 12 ∷ [], 3, λ r. empty_vote_result);
  witness_set = record { keys = 11 ∷ 12 ∷ [] };
  replace_round = 0;
  vote_round = 3;
  replace_map = [];
}

witnesses-IsMirror_example :
    Replacement.IsMirror witness_table config (save_witness witness_table config witnesses 12)
    × Replacement.IsMirror witness_table config
        (save_witness_list witness_table config witnesses (13 ∷ []))
    × Replacement.IsMirror witness_table config (delete_witness witness_table config witnesses 12)
    × Replacement.IsMirror witness_table config
        (replace_witness witness_table config witnesses 12 14)
witnesses-IsMirror_example = witnesses-IsMirror witness_table config witnesses 12 14 (13 ∷ []) both
  where
    both : Replacement.IsMirror witness_table config witnesses
    both a = unfold AddressSet.exists in refl

-- The result of round 14, which completes round 4.
abbrev result : VoteResult
result = record {
  start_time = 1;
  end_time = 9;
  vote_result = 14;
  replaced_witness = 12;
  round = 14;
}

replace_witness_by_result_lem_example :
    (get_vote_result_by_round witness_table config
        (replace_witness_by_result witness_table config witnesses result)
        14
      ≡ result)
    × ((replace_witness_by_result witness_table config witnesses result).vote_round ≡ 4)
    × (AddressSet.exists
          (replace_witness_by_result witness_table config witnesses result).witness_set
          14
        ≡ false)
unfolding AddressSet.exists
replace_witness_by_result_lem_example =
    replace_witness_by_result_lem witness_table config witnesses result 14

-- Units 1, and 2 and 3 above it, over tables that hold nothing.
abbrev unit_above : Hash → List Hash → DagUnit
unit_above h ps = record new_empty_unit { hash = h; parent_list = ps }

abbrev fresh : ParentMemDb (Tables.level_parents list_store plain_codec tables)
fresh = record { db = []; parent_set = record { keys = [] } }

fresh-Agrees : Tables.Agrees list_store plain_codec tables fresh nothing
unfolding HashSet.exists
fresh-Agrees = record { tables = empty-Represents; memory = λ h b. refl }

abbrev three : List DagUnit
three = unit_above 1 [] ∷ unit_above 2 (1 ∷ []) ∷ unit_above 3 (1 ∷ []) ∷ []

add_units-childless_example :
    (HashSet.exists (Tables.add_units list_store plain_codec tables fresh three).parent_set 2
      ≡ true)
    × (elem 2 (
          get_parents_list list_store plain_codec tables
            (Tables.add_units list_store plain_codec tables fresh three).db)
        ≡ HashSet.exists (Tables.add_units list_store plain_codec tables fresh three).parent_set 2)
    × (HashSet.exists
          (Childless.restarted list_store plain_codec tables
            (Tables.add_units list_store plain_codec tables fresh three)).parent_set
          2
        ≡ HashSet.exists (Tables.add_units list_store plain_codec tables fresh three).parent_set 2)
add_units-childless_example =
    add_units-childless list_store plain_codec tables fresh nothing three 2 tables-HasApartTables
      fresh-Agrees
      (
        (ground arith, tt),
        ((ground arith, (ground arith, tt)), ((ground arith, (ground arith, tt)), tt)),
      )
      ((refl, (refl, (refl, tt))), ((refl, (refl, tt)), ((refl, tt), tt))) (ground arith)
