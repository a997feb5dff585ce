-- ===== src/Node/Sync/Stuck.antt =====
-- A data request whose main chain index is no number: pickDataFromDag returns before it resets the
-- state that the request has set.
use babyboy.Node.Sync.Pick.{pick_data_from_dag, graph_info}
use babyboy.Node.Sync.{
  Task, handle_new_unit_event, on_sync_data_req, Node, on_sync_unit, notify_busy, ℕ, State, String,
  is_reponse, false, get_last_stable_ball_mci, ◌∷◌, pick_data,
}
use babyboy.Types.Unit.{UnitJson, DagUnit}
use babyboy.Types.Hash.{Hash}
use babyboy.Types.Messages.{NewUnitEntity}
use babyboy.Interface.{Fifo, returns}
use babyboy.Prelude.{refl, none, List, Bool, ◌≡◌, All, [], ◌++◌, subst, sym}
use mathlib.Core.List.{foldl}
use babyboy.Dag.GraphInfo.{get_last_stable_ball_mci}
use babyboy.Node.Network.{Network}
use babyboy.Node.Sync.Runs.{
  Event, on_event, new_unit_received, sync_data_requst_received, sync_unit, sync_data_req,
  sync_data_rep,
}

-- Neither an answer to a request of this node nor a request that passes the state by.
abbrev pub IsOrdinary : {Peer : Type 0} → Event Peer → Type 0
IsOrdinary (new_unit_received entity) = Unit
IsOrdinary (sync_data_requst_received p mci) = ⊥
IsOrdinary sync_unit = Unit
IsOrdinary (sync_data_req p end_mci) = Unit
IsOrdinary (sync_data_rep sync_data) = ⊥

module _ (N : Network) (F : Fifo NewUnitEntity) (G : Fifo Hash) (digest : UnitJson → Hash)
    (is_sorted : List DagUnit → Bool) (sort : List DagUnit → List DagUnit) where
  -- It answers, and has these tasks to run.
  abbrev Answers : List (Task N.Peer) → Node N F → Type 0
  Answers tasks n = (n.state ≡ State.synchronizing_reponse) × (n.tasks ≡ tasks)

  on_event-Answers :
      (tasks : List (Task N.Peer)) (n : Node N F) (e : Event N.Peer)
      → IsOrdinary e
      → Answers tasks n
      → Answers tasks (on_event N F G digest is_sorted sort n e)
  unfolding on_event handle_new_unit_event on_sync_unit on_sync_data_req notify_busy
  on_event-Answers tasks n (new_unit_received entity) o (s, t) = rw s (refl, t)
  on_event-Answers tasks n (sync_data_requst_received p mci) o a = elim o [ ]
  on_event-Answers tasks n sync_unit o (s, t) = rw s (refl, t)
  on_event-Answers tasks n (sync_data_req p end_mci) o (s, t) = rw s (refl, t)
  on_event-Answers tasks n (sync_data_rep sync_data) o a = elim o [ ]

  events-Answers :
      (tasks : List (Task N.Peer)) (es : List (Event N.Peer)) (n : Node N F)
      → All IsOrdinary es
      → Answers tasks n
      → Answers tasks (foldl (on_event N F G digest is_sorted sort) n es)
  events-Answers tasks [] n all a = a
  events-Answers tasks (e ∷ es) n (o, all) a =
      events-Answers tasks es (on_event N F G digest is_sorted sort n e) all
        (on_event-Answers tasks n e o a)

  on_sync_data_req-idle :
      (n : Node N F) (p : N.Peer) (end_mci : String)
      → is_reponse n.state ≡ false
      → on_sync_data_req N F n p end_mci ≡ record n {
        state = State.synchronizing_reponse;
        tasks = n.tasks ++ (pick_data p end_mci ∷ []);
      }
  unfolding on_sync_data_req
  on_sync_data_req-idle n p end_mci idle = rw idle refl

  pick_data_from_dag-unparsed :
      (fuel mci : ℕ) (n : Node N F) (p : N.Peer) (end_mci : String)
      → get_last_stable_ball_mci G digest fuel (graph_info N F G digest is_sorted sort n.world)
        ≡ returns mci
      → N.parse_int end_mci ≡ none
      → pick_data_from_dag N F G digest is_sorted sort fuel n p end_mci ≡ returns n
  unfolding pick_data_from_dag
  pick_data_from_dag-unparsed fuel mci n p end_mci last bad =
      rw (last, bad, pick_data_from_dag) refl

  -- A node that is not answering takes a request for an index that does not parse. The task that
  -- it starts for the request returns without an answer, and the state stays at answering: through
  -- new units, sync requests of its own and further data requests, in any number and order, of
  -- which none starts a task any more. (GetLastStableBallMCI returns on the node's graph.)
  pub unparsed-stuck :
      (fuel mci : ℕ) (n : Node N F) (p : N.Peer) (end_mci : String) (es : List (Event N.Peer))
      → is_reponse n.state ≡ false
      → get_last_stable_ball_mci G digest fuel (graph_info N F G digest is_sorted sort n.world)
        ≡ returns mci
      → N.parse_int end_mci ≡ none
      → All IsOrdinary es
      → (out : Node N F) × ((on_sync_data_req N F n p end_mci).tasks
          ≡ n.tasks ++ (pick_data p end_mci ∷ []))
        × (pick_data_from_dag N F G digest is_sorted sort fuel
              (record (on_sync_data_req N F n p end_mci) { tasks = n.tasks })
              p
              end_mci
            ≡ returns out)
        × (out.world ≡ n.world)
        × ((foldl (on_event N F G digest is_sorted sort) out es).state
            ≡ State.synchronizing_reponse)
        × ((foldl (on_event N F G digest is_sorted sort) out es).tasks ≡ n.tasks)
  unparsed-stuck fuel mci n p end_mci es idle last bad ordinary =
      let taken = on_sync_data_req-idle n p end_mci idle in
      let kept =
        events-Answers n.tasks es (record n { state = State.synchronizing_reponse }) ordinary
          (refl, refl) in
      (
        record n { state = State.synchronizing_reponse },
        rw taken refl,
        subst
            (λ (z : Node N F).
              pick_data_from_dag N F G digest is_sorted sort fuel (record z { tasks = n.tasks }) p
                end_mci
              ≡ returns (record n { state = State.synchronizing_reponse }))
            (sym taken)
            (pick_data_from_dag-unparsed fuel mci (record n { state = State.synchronizing_reponse })
              p end_mci last bad),
        refl,
        kept.0,
        kept.1,
      )
