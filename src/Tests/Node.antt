-- ===== src/Tests/Node.antt =====
-- The theorems on a node's synchronisation, at a network that accepts every unit and whose world
-- is the list of the hashes that were handled.
use babyboy.Node.Sync.Stuck.{unparsed-stuck}
use babyboy.Dag.GraphInfo.{
  get_last_stable_ball_mci, new_graph_info_getter, get_best_parent_unit, ensure_best_parent,
  get_unit_by_hash,
}
use babyboy.Types.Hash.{Hash, string_gt, hash_string}
use babyboy.Prelude.{
  refl, [], ◌∷◌, none, some, true, false, List, ◌≡◌, ℕ, arith, ◌++◌, if◌then◌else◌, ◌==◌,
}
use mathlib.Core.List.{foldl}
use babyboy.Interface.{Fifo, returns}
use babyboy.Node.Network.{Network}
use babyboy.Node.Sync.Pick.{pick_data_from_dag, graph_info}
use babyboy.Node.Sync.{
  Node, State, process, process_waiting, fetch, handle_new_unit_event, on_sync_data_req, pick_data,
}
use babyboy.Node.Sync.Runs.{done, event, on_event, new_unit_received, Event, sync_data_req}
use babyboy.Node.Sync.Waiting.{waiting-processed}
use babyboy.Types.Unit.{DagUnit, new_empty_unit, string_key, hash_key}
use babyboy.Types.Messages.{NewUnitEntity}
use babyboy.Tests.Instances.{fifo_of, list_fifo, digest, sort_units, units_sorted}

abbrev pub root_unit : DagUnit
root_unit = record new_empty_unit { hash = 3; is_stable = true; is_on_main_chain = true }

abbrev pub network : Network
network = record {
  World = List Hash;
  Peer = ℕ;
  db = λ w h. if h == 3 then some root_unit else none;
  tips = λ w. 3 ∷ [];
  witnesses = λ w. [];
  peer_ids = λ w. [];
  save_cache_unit_to_db = λ w unit. w;
  recv_unit = λ w entity. entity.new_unit.hash ∷ w;
  review_unit = λ w unit. true;
  handler_new_unit = λ w unit. (unit.hash ∷ w, true);
  send_sync = λ w p message. (w, true);
  send_unit = λ w p message. w;
  send_msg_to_peers = λ w message. w;
  broad_msg_exclude_peer = λ w peers message. w;
  synchronise = λ w. w;
  parse_int = λ text. none;
}

abbrev pub entity_of : Hash → NewUnitEntity
entity_of h = record {
  from_peer_id = "a";
  has_peer_ids = [];
  new_unit = record new_empty_unit { hash = h };
}

abbrev pub entities : Fifo NewUnitEntity
entities = fifo_of (entity_of 0)

abbrev receiving : Node network entities
receiving = record {
  world = [];
  state = State.synchronizing_recving;
  recv_queue = entity_of 7 ∷ [];
  wait_queue = entity_of 8 ∷ [];
  is_require_sync = false;
  tasks = [];
}

-- A new unit comes while the node receives.
abbrev later : Node network entities
later =
    on_event network entities list_fifo digest units_sorted sort_units receiving
      (new_unit_received (entity_of 9))

waiting-processed_example :
    (out : Node network entities) × (xs : List NewUnitEntity) × (ys : List NewUnitEntity) × (fetch
        network entities 3 later
      ≡ returns out)
    × (out.recv_queue ≡ [])
    × (out.wait_queue ≡ [])
    × (out.state ≡ State.running)
    × (out.world
        ≡ foldl
            (process_waiting network entities)
            (foldl (process network entities) later.world ((entity_of 7 ∷ []) ++ xs))
            ((entity_of 8 ∷ []) ++ ys))
unfolding on_event handle_new_unit_event
waiting-processed_example =
    waiting-processed network entities list_fifo digest units_sorted sort_units 3 receiving later
      (event done (new_unit_received (entity_of 9))) (omega arith) (omega arith)

abbrev idle : Node network entities
idle = record receiving { state = State.running }

last_ball :
    get_last_stable_ball_mci list_fifo digest 1
      (graph_info network entities list_fifo digest units_sorted sort_units idle.world)
    ≡ returns 0
unfolding get_last_stable_ball_mci new_graph_info_getter get_best_parent_unit ensure_best_parent
    get_unit_by_hash string_gt hash_string string_key hash_key graph_info
last_ball = refl

-- A second request, and a unit.
abbrev events : List (Event ℕ)
events = sync_data_req 2 "5" ∷ new_unit_received (entity_of 9) ∷ []

unparsed-stuck_example :
    (out : Node network entities) × ((on_sync_data_req network entities idle 1 "x").tasks
      ≡ pick_data 1 "x" ∷ [])
    × (pick_data_from_dag network entities list_fifo digest units_sorted sort_units 1
          (record (on_sync_data_req network entities idle 1 "x") { tasks = [] })
          1
          "x"
        ≡ returns out)
    × (out.world ≡ [])
    × ((foldl (on_event network entities list_fifo digest units_sorted sort_units) out events).state
        ≡ State.synchronizing_reponse)
    × ((foldl (on_event network entities list_fifo digest units_sorted sort_units) out events).tasks
        ≡ [])
unparsed-stuck_example =
    unparsed-stuck network entities list_fifo digest units_sorted sort_units 1 0 idle 1 "x" events
      refl last_ball refl (tt, (tt, tt))
