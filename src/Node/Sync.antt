-- ===== src/Node/Sync.antt =====
-- node/node.go: the handlers of initEventBus and what they call. A goroutine that a handler starts
-- is a task of the node, which runs later and, here, at once.
pub mod Delivery
pub mod Exchange
pub mod Fetch
pub mod Pick
pub mod Runs
pub mod Stuck
pub mod Waiting
use babyboy.Types.Unit.{DagUnit, UnitJson}
use babyboy.Types.Hash.{Hash}
use babyboy.Prelude.{
  none, zero, suc, Bool, String, if◌then◌else◌, [], ℕ, List, true, is_nil, false, ◌++◌, ◌==◌, ◌∷◌,
  some,
}
use text.Mathlib.Text.{◌==◌ as str_eq}
use babyboy.Interface.{Fifo, Outcome, returns, panics, out_of_fuel}
use babyboy.Node.Network.{Network}
use babyboy.Types.Messages.{NewUnitEntity, BroadUnitEntity, SyncDataEntity}
use babyboy.Dag.Missing.{get_missing_units}
use babyboy.Dag.GraphInfo.{
  GraphInfoGetter, new_graph_info_getter, get_last_stable_ball_mci, UnitTable,
}

pub data State : Type 0 where
  running stopped synchronizing_recving synchronizing_reponse push_units : State

abbrev pub is_running : State → Bool
is_running State.running = true
is_running _ = false

abbrev pub is_recving : State → Bool
is_recving State.synchronizing_recving = true
is_recving _ = false

abbrev pub is_reponse : State → Bool
is_reponse State.synchronizing_reponse = true
is_reponse _ = false

-- What `go` has started: `n.pickDataFromDag(p, endmci)` or `n.fetchData()`.
pub data Task (Peer : Type 0) : Type 0 where
  pick_data : Peer → String → Task Peer
  fetch_data : Task Peer

module _ (N : Network) (F : Fifo NewUnitEntity) where
  pub record Node : Type 0 where
    pub world : N.World
    pub state : State
    pub recv_queue : F.Queue
    pub wait_queue : F.Queue
    pub is_require_sync : Bool
    pub tasks : List (Task N.Peer)

  unfoldable pub handle_new_unit_event : Node → NewUnitEntity → Node
  handle_new_unit_event n entity =
      if is_recving n.state
      then record n { wait_queue = F.push n.wait_queue entity }
      else record n {
        world =
            N.recv_unit
              (if is_nil (N.peer_ids n.world)
                then N.save_cache_unit_to_db n.world entity.new_unit
                else n.world)
              entity;
      }

  unfoldable pub handle_unit_done_event : N.World → NewUnitEntity → N.World
  handle_unit_done_event w entity =
      let joint : BroadUnitEntity = record {
        has_peers = N.peer_ids w;
        message = entity.new_unit;
      } in
      if str_eq entity.from_peer_id "local"
      then N.send_msg_to_peers w joint
      else N.broad_msg_exclude_peer w entity.has_peer_ids joint

  -- "node:SyncUnit"
  unfoldable pub on_sync_unit : Node → Node
  on_sync_unit n =
      if is_running n.state
      then record n { is_require_sync = false; world = N.synchronise n.world }
      else n

  unfoldable pub notify_busy : Node → N.Peer → Node
  notify_busy n p = record n {
    world =
        (N.send_sync n.world p (record { state = 2; stable_units = []; unstable_units = [] })).0;
  }

  -- "node:SyncDataReq"
  unfoldable pub on_sync_data_req : Node → N.Peer → String → Node
  unfolding notify_busy
  on_sync_data_req n p end_mci = if is_reponse n.state then notify_busy n p else record n {
    state = State.synchronizing_reponse;
    tasks = n.tasks ++ (pick_data p end_mci ∷ []);
  }

  -- boy.SyncDataRequst, which does not look at the state.
  unfoldable pub on_sync_data_requst : Node → N.Peer → String → Node
  on_sync_data_requst n p mci = record n { tasks = n.tasks ++ (pick_data p mci ∷ []) }

  -- The units that the database does not hold are queued.
  unfoldable pub queue_units : UnitTable → List DagUnit → F.Queue → F.Queue
  queue_units db [] que = que
  queue_units db (unit ∷ units) que = queue_units db units (elim (db unit.hash) [
    | some _ ↦ que
    | none ↦ F.push que (record { from_peer_id = ""; has_peer_ids = []; new_unit = unit })
  ])

  -- "node:SyncDataRep"
  unfoldable pub on_sync_data_rep : Node → SyncDataEntity → Node
  on_sync_data_rep n sync_data =
      if sync_data.state == 2
      then record n { state = State.running; is_require_sync = true }
      else record n {
        state = State.synchronizing_recving;
        recv_queue = queue_units (N.db n.world) sync_data.stable_units n.recv_queue;
        tasks = if sync_data.state == 1 then n.tasks ++ (fetch_data ∷ []) else n.tasks;
      }

  -- The first loop of fetchData, for one entry that was taken off the queue.
  unfoldable pub process : N.World → NewUnitEntity → N.World
  process w entity =
      if N.review_unit w entity.new_unit then (N.handler_new_unit w entity.new_unit).0 else w

  -- The second loop, which also tells the peers.
  unfoldable pub process_waiting : N.World → NewUnitEntity → N.World
  unfolding handle_unit_done_event
  process_waiting w entity =
      if N.review_unit w entity.new_unit
      then (if (N.handler_new_unit w entity.new_unit).1
          then handle_unit_done_event (N.handler_new_unit w entity.new_unit).0 entity
          else (N.handler_new_unit w entity.new_unit).0)
      else w

  unfoldable pub fetch_recv : ℕ → Node → Outcome Node
  fetch_recv zero n = out_of_fuel
  fetch_recv (suc fuel) n = elim (F.empty n.recv_queue) [
    | true ↦ returns n
    | false ↦ fetch_recv fuel (record n {
      recv_queue = F.pop n.recv_queue;
      world = process n.world (F.front n.recv_queue);
    })
  ]

  unfoldable pub fetch_wait : ℕ → Node → Outcome Node
  fetch_wait zero n = out_of_fuel
  fetch_wait (suc fuel) n = elim (F.empty n.wait_queue) [
    | true ↦ returns n
    | false ↦ fetch_wait fuel (record n {
      wait_queue = F.pop n.wait_queue;
      world = process_waiting n.world (F.front n.wait_queue);
    })
  ]

  unfoldable pub then_do : Outcome Node → (Node → Outcome Node) → Outcome Node
  then_do (returns n) k = k n
  then_do panics k = panics
  then_do out_of_fuel k = out_of_fuel

  unfoldable pub fetch : ℕ → Node → Outcome Node
  unfolding fetch_recv fetch_wait then_do
  fetch fuel n = then_do (fetch_recv fuel n) (λ a.
      then_do (fetch_wait fuel a)
        (λ b. returns (record b { state = State.running; is_require_sync = true })))
