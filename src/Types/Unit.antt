-- ===== src/Types/Unit.antt =====
-- core/types/unit.go, author.go, ball.go, hasharray.go, vote_result.go. JSON and SHA3 are libraries: the digest
-- of a value is a parameter. `int64` values are their 64-bit patterns (Int64.antt).
use babyboy.Prelude.{
  ℕ, ◌-◌, ◌^◌, ◌≡◌, refl, List, [], String, Bool, true, false, if◌then◌else◌, arith,
}
use babyboy.Int64.{slt}
use babyboy.Types.Hash.{Hash, Address, hash_gt, hash_string}
use babyboy.Types.Payment.{Message}

-- The signature is a byte slice.
pub record Author : Type 0 where
  pub address : Address
  pub signature : List ℕ

pub record DagUnit : Type 0 where
  pub hash : Hash
  pub version : String
  pub witness_list : List Address
  pub last_ball_unit : Hash
  pub headers_commission : ℕ
  pub payload_commission : ℕ
  pub time_stamp : ℕ
  pub parent_list : List Hash
  pub authors : List Author
  pub messages : List Message
  pub best_parent_unit : Hash
  pub main_chain_index : ℕ
  pub is_stable : Bool
  pub is_on_main_chain : Bool
  pub level : ℕ
  pub witnessed_level : ℕ
  pub sub_stable_min_hash : Hash
  pub sub_stable_author : Address
  pub invalid : Bool

-- The zero value of the struct.
abbrev pub new_empty_unit : DagUnit
new_empty_unit = record {
  hash = 0;
  version = "";
  witness_list = [];
  last_ball_unit = 0;
  headers_commission = 0;
  payload_commission = 0;
  time_stamp = 0;
  parent_list = [];
  authors = [];
  messages = [];
  best_parent_unit = 0;
  main_chain_index = 0;
  is_stable = false;
  is_on_main_chain = false;
  level = 0;
  witnessed_level = 0;
  sub_stable_min_hash = 0;
  sub_stable_author = 0;
  invalid = false;
}

-- The parameters `level`, `witness_level` and the lists are the caller's; the last one is unused.
unfoldable pub new_unit : List Hash → List Address → Hash → Hash → ℕ → ℕ → ℕ → DagUnit
new_unit parent_list witness_list best_parent_unit last_ball_unit level witness_level witness =
    record new_empty_unit {
      version = "1.0";
      messages = [];
      authors = [];
      parent_list = parent_list;
      level = level;
      last_ball_unit = last_ball_unit;
      witness_list = witness_list;
      headers_commission = 0;
      payload_commission = 0;
      best_parent_unit = best_parent_unit;
      witnessed_level = witness_level;
      is_stable = false;
      main_chain_index = 0;
      is_on_main_chain = false;
      sub_stable_min_hash = 2 ^ 256 - 1;
    }

-- The fields that go into the key of a unit, in their order.
pub record UnitJson : Type 0 where
  pub version : String
  pub messages : List Message
  pub authors : List Author
  pub last_ball_unit : Hash
  pub parent_list : List Hash
  pub witness_list : List Address
  pub headers_commission : ℕ
  pub payload_commission : ℕ

unit_json : DagUnit → UnitJson
unit_json u = record {
  version = u.version;
  messages = u.messages;
  authors = u.authors;
  last_ball_unit = u.last_ball_unit;
  parent_list = u.parent_list;
  witness_list = u.witness_list;
  headers_commission = u.headers_commission;
  payload_commission = u.payload_commission;
}

unfoldable pub change_stable : DagUnit → ℕ → DagUnit
change_stable u main_chain_index = record u {
  is_stable = true;
  main_chain_index = main_chain_index;
}

unfoldable pub update_sub_stable_min_hash : DagUnit → Hash → Address → DagUnit
update_sub_stable_min_hash u hash author =
    if hash_gt u.sub_stable_min_hash hash
    then record u { sub_stable_min_hash = hash; sub_stable_author = author }
    else u

unfoldable pub reset_stable_state : DagUnit → DagUnit
reset_stable_state u = record u {
  is_stable = false;
  main_chain_index = 0;
  is_on_main_chain = false;
}

-- `Units.Less`, which `sort` uses.
pub less : DagUnit → DagUnit → Bool
less a b = slt a.level b.level

-- `digest` is SHA3-256 of the JSON text.
module _ (digest : UnitJson → Hash) where
  unfoldable pub hash_key : DagUnit → Hash
  unfolding unit_json
  hash_key u = digest (unit_json u)

  unfoldable pub string_key : DagUnit → List ℕ
  unfolding hash_key
  string_key u = hash_string (hash_key u)

  -- A unit's key does not change when its place in the graph does: not when it becomes stable,
  -- is reset, or gets a new smallest stable child.
  pub hash_key-lifecycle :
      (u : DagUnit) (mci : ℕ) (hash : Hash) (author : Address)
      → (hash_key (change_stable u mci) ≡ hash_key u)
        × (hash_key (reset_stable_state u) ≡ hash_key u)
        × (hash_key (update_sub_stable_min_hash u hash author) ≡ hash_key u)
  unfolding hash_key change_stable reset_stable_state update_sub_stable_min_hash
  hash_key-lifecycle u mci hash author = (refl, refl, ground arith)

-- A ball names its unit and the parents of it.
pub record Ball : Type 0 where
  pub unit_hash : Hash
  pub parent_balls : List Hash
  pub is_invalid : Bool

unfoldable pub new_ball : Hash → List Hash → Bool → Ball
new_ball unit_hash parent_balls is_invalid = record {
  unit_hash = unit_hash;
  parent_balls = parent_balls;
  is_invalid = is_invalid;
}

pub ball_hash_key : Ball → Hash
ball_hash_key b = b.unit_hash

pub record HashArray : Type 0 where
  pub hashes : List Hash

abbrev pub new_hash_array : HashArray
new_hash_array = record { hashes = [] }

pub record VoteResult : Type 0 where
  pub start_time : ℕ
  pub end_time : ℕ
  pub vote_result : Address
  pub replaced_witness : Address
  pub round : ℕ

unfoldable pub new_vote_result : ℕ → ℕ → Address → Address → ℕ → VoteResult
new_vote_result start_time end_time vote_result replace_witness round = record {
  start_time = start_time;
  end_time = end_time;
  vote_result = vote_result;
  replaced_witness = replace_witness;
  round = round;
}

abbrev pub empty_vote_result : VoteResult
empty_vote_result = record {
  start_time = 0;
  end_time = 0;
  vote_result = 0;
  replaced_witness = 0;
  round = 0;
}

unfoldable pub new_author : Address → List ℕ → Author
new_author address signature = record { address = address; signature = signature }
