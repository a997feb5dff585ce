-- ===== src/Tests/Delivery.antt =====
-- The theorem on a synchronisation at two nodes, of which one has a unit that the other lacks.
use babyboy.Prelude.{
  ℕ, refl, List, [], ◌∷◌, ◌++◌, ◌≡◌, Bool, true, false, if◌then◌else◌, ◌==◌, some, none, arith,
  Option,
}
use mathlib.Core.List.{foldl, Memᴰ}
use babyboy.Types.Hash.{Hash, string_gt, hash_string}
use babyboy.Types.Unit.{DagUnit, new_empty_unit, string_key, hash_key}
use babyboy.Types.Messages.{NewUnitEntity, SyncDataEntity}
use babyboy.Interface.{returns}
use babyboy.Dag.GraphInfo.{
  get_last_stable_ball_mci, new_graph_info_getter, get_best_parent_unit, ensure_best_parent,
  get_unit_by_hash,
}
use babyboy.Dag.Missing.Follows.{Lacks}
use babyboy.Node.Network.{Network}
use babyboy.Node.Sync.{Node, State, fetch_data, on_sync_data_rep, process, process_waiting, fetch}
use babyboy.Node.Sync.Pick.{pick_data_from_dag, graph_info}
use babyboy.Node.Sync.Exchange.{rounds, Sends, queued}
use babyboy.Node.Sync.Delivery.{sync-HandsAll}
use babyboy.Tests.Instances.{
  list_fifo, digest, sort_units, units_sorted, sort_units-All, sort_units-Memᴰ,
}
use babyboy.Tests.Node.{entities, root_unit}

abbrev child_unit : DagUnit
child_unit = record new_empty_unit {
  hash = 4;
  parent_list = 3 ∷ [];
  best_parent_unit = 3;
  level = 1;
}

abbrev held : Bool → Hash → Option DagUnit
held has_child h =
    if h == 3
    then some root_unit
    else (if has_child then (if h == 4 then some child_unit else none) else none)

-- A world says whether the node has unit 4, and keeps what was sent.
abbrev mail : Network
mail = record {
  World = Bool × List SyncDataEntity;
  Peer = ℕ;
  db = λ w. held w.0;
  tips = λ w. if w.0 then 4 ∷ [] else 3 ∷ [];
  witnesses = λ w. [];
  peer_ids = λ w. [];
  save_cache_unit_to_db = λ w unit. w;
  recv_unit = λ w entity. w;
  review_unit = λ w unit. true;
  handler_new_unit = λ w unit. ((true, w.1), true);
  send_sync = λ w p message. ((w.0, w.1 ++ (message ∷ [])), true);
  send_unit = λ w p message. w;
  send_msg_to_peers = λ w message. w;
  broad_msg_exclude_peer = λ w peers message. w;
  synchronise = λ w. w;
  parse_int = λ text. some 0;
}

abbrev mail_sends : Sends mail entities
mail_sends = record { sent = λ w p. w.1; reached = λ w p m. refl; appended = λ w p m. refl }

abbrev node_of : Bool → Node mail entities
node_of has_child = record {
  world = (has_child, []);
  state = State.running;
  recv_queue = [];
  wait_queue = [];
  is_require_sync = true;
  tasks = [];
}

last_mci :
    get_last_stable_ball_mci list_fifo digest 5
      (graph_info mail entities list_fifo digest units_sorted sort_units (true, []))
    ≡ returns 0
unfolding get_last_stable_ball_mci new_graph_info_getter get_best_parent_unit ensure_best_parent
    get_unit_by_hash string_gt hash_string string_key hash_key graph_info
last_mci = refl

sync-HandsAll_example :
    (out : Node mail entities) × (ms : List SyncDataEntity) × (es : List NewUnitEntity)
    × (pick_data_from_dag mail entities list_fifo digest units_sorted sort_units 5
          (node_of true)
          1
          "0"
        ≡ returns out)
    × (out.world.1 ≡ ms)
    × ((foldl (on_sync_data_rep mail entities) (node_of false) ms).tasks ≡ fetch_data ∷ [])
    × ((done : Node mail entities) × (fetch mail entities
            (rounds mail entities (node_of false) es)
            (foldl (on_sync_data_rep mail entities) (node_of false) ms)
          ≡ returns done)
        × (done.world
            ≡ foldl
                (process_waiting mail entities)
                (foldl (process mail entities) (false, []) es)
                []))
    × ((h : Hash)
        → Lacks (held true) 0 (4 ∷ []) h
        → held false (get_unit_by_hash (held true) h).hash ≡ none
        → Memᴰ (queued (get_unit_by_hash (held true) h)) es)
unfolding get_unit_by_hash
sync-HandsAll_example =
    sync-HandsAll mail entities mail_sends list_fifo digest units_sorted sort_units sort_units-All
      sort_units-Memᴰ 5 0 0 (node_of true) (node_of false) 1 "0" (3 ∷ 4 ∷ []) last_mci refl
      (ground arith) (refl, tt) (tt, ((refl, tt), tt)) (omega arith)
