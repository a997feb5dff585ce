-- ===== src/Dag/WitnessReplace.antt =====
-- dag/witness_replace.go: the vote that is to find the least active witness and its challengers.
-- Times and counts are `int64` patterns. `witness_list` is what `wdb.GetWitnessesAsHash()` returns.
pub mod Loops
use babyboy.Prelude.{
  ℕ, zero, suc, ◌+◌, List, [], ◌∷◌, ◌++◌, Bool, true, false, ◌&&◌, not, if◌then◌else◌, ◌==◌, Option,
  none, some, get_or,
}
use babyboy.Int64.{slt, add64}
use babyboy.Interface.{Fifo, Config, Outcome, returns, panics, out_of_fuel}
use babyboy.Types.Hash.{Hash, Address}
use babyboy.Types.Unit.{DagUnit, Author, VoteResult, new_vote_result}
use babyboy.Graphop.Assoc
use babyboy.Graphop.AddressSet
use babyboy.Graphop.AddressSet.{AddressSet}
use babyboy.Dag.GraphInfo.{UnitTable, get_unit_by_hash}
use babyboy.MemDb.Witnesses.{
  WitnessDb, WitnessMemDb, save_vote_round, save_vote_result_by_round, get_vote_result_by_round,
}

pub record WitnessReplacer : Type 0 where
  pub db : UnitTable
  pub witness_list : List Address
  pub start_time : ℕ
  pub end_time : ℕ
  pub round : ℕ
  pub vote_result : Address
  pub replace_witness : Address
  pub parent_list : List Hash

-- The unit's time lies in the vote's window.
unfoldable pub in_window : WitnessReplacer → DagUnit → Bool
in_window wr u = not (slt wr.end_time u.time_stamp) && not (slt u.time_stamp wr.start_time)

abbrev pub Counts : Type 0
Counts = List (Address × ℕ)

-- `mp[a]`, where a missing key reads as 0, and `mp[a] += 1`.
abbrev pub count_of : Counts → Address → ℕ
count_of mp a = get_or (Assoc.lookup a mp) 0

abbrev pub count_up : Counts → Address → Counts
count_up mp a = Assoc.put a (add64 (count_of mp a) 1) mp

module _ (F : Fifo Hash) (wr : WitnessReplacer) where
  -- Both the first loop and the inner loop queue the hashes whose units lie in the window.
  pub push_window : List Hash → F.Queue → F.Queue
  push_window [] que = que
  push_window (h ∷ hs) que =
      push_window hs (if in_window wr (get_unit_by_hash wr.db h) then F.push que h else que)

  witness_set : AddressSet
  witness_set = AddressSet.list_insert AddressSet.new_address_set wr.witness_list

  -- The loop of both functions, which takes nothing off the queue. `counted` says which authors count.
  pub count_loop : (Address → Bool) → ℕ → F.Queue → Counts → Outcome Counts
  count_loop counted zero que mp = out_of_fuel
  count_loop counted (suc fuel) que mp = elim (F.empty que) [
    | true ↦ returns mp
    | false ↦
        (let t_unit = get_unit_by_hash wr.db (F.front que) in
          elim t_unit.authors [
            | [] ↦ panics
            | author ∷ _ ↦
                count_loop counted fuel (push_window t_unit.parent_list que)
                  (if counted author.address then count_up mp author.address else mp)
          ])
  ]

  pub min_loop : Counts → List Address → ℕ → Address → Address × ℕ
  min_loop mp [] min_times min_witness = (min_witness, min_times)
  min_loop mp (w ∷ ws) min_times min_witness =
      if slt (count_of mp w) min_times
      then min_loop mp ws (count_of mp w) w
      else min_loop mp ws min_times min_witness

  unfoldable pub get_replaced_witness : ℕ → Outcome (Address × ℕ)
  unfolding count_loop push_window in_window min_loop witness_set
  get_replaced_witness fuel =
      elim (count_loop (AddressSet.exists witness_set) fuel (push_window wr.parent_list F.new) []) [
        | returns mp ↦ returns (min_loop mp wr.witness_list 0 0)
        | panics ↦ panics
        | out_of_fuel ↦ out_of_fuel
      ]

  pub campaign_loop : ℕ → Counts → List Address → List Address
  campaign_loop min_times [] campaign_list = campaign_list
  campaign_loop min_times ((key, val) ∷ mp) campaign_list =
      campaign_loop min_times mp
        (if slt min_times val then campaign_list ++ (key ∷ []) else campaign_list)

  unfoldable pub get_campaign_list : ℕ → ℕ → Outcome (List Address)
  unfolding count_loop push_window in_window campaign_loop witness_set
  get_campaign_list fuel min_times =
      elim (count_loop (λ a. not (AddressSet.exists witness_set a)) fuel
        (push_window wr.parent_list F.new) []) [
          | returns mp ↦ returns (campaign_loop min_times mp [])
          | panics ↦ panics
          | out_of_fuel ↦ out_of_fuel
        ]

module _ (W : WitnessDb) (config : Config) where
  unfoldable pub new_witness_replacer :
      UnitTable
      → WitnessMemDb W config
      → List Address
      → List Hash
      → ℕ
      → ℕ
      → Address
      → Address
      → WitnessReplacer
  new_witness_replacer db wdb witness_list parent_list time_stamp round vote_result
        replace_witness =
      record {
        db = db;
        witness_list = witness_list;
        start_time = (get_vote_result_by_round W config wdb wdb.vote_round).end_time;
        end_time = time_stamp;
        round = round;
        vote_result = vote_result;
        replace_witness = replace_witness;
        parent_list = parent_list;
      }

  unfoldable pub save_vote_result : WitnessReplacer → WitnessMemDb W config → WitnessMemDb W config
  save_vote_result wr wdb =
      save_vote_result_by_round W config (save_vote_round W config wdb wr.round) wr.round
        (new_vote_result wr.start_time wr.end_time wr.vote_result wr.replace_witness wr.round)
