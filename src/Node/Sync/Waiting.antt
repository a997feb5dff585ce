-- ===== src/Node/Sync/Waiting.antt =====
-- No unit that waits is lost: it is processed in its turn when fetchData runs.
use babyboy.Prelude.{
  ◌≡◌, ◌++◌, ◌∙◌, sym, ap, Option-cases, inl, inr, Bool-cases, ◌==◌, subst, length, ◌<◌,
}
use mathlib.Core.List.{foldl, append-nil, append_assoc}
use babyboy.Interface.{Fifo, Outcome, returns, panics, out_of_fuel, Outcome-cases}
use babyboy.Node.Network.{Network}
use babyboy.Types.Messages.{NewUnitEntity}
use babyboy.Node.Sync.Pick.{pick_data_from_dag, graph_info}
use babyboy.Node.Sync.{
  Node, State, queue_units, process, process_waiting, fetch, List, UnitTable, Hash, [], DagUnit,
  UnitJson, ◌∷◌, Bool, handle_new_unit_event, on_sync_unit, on_sync_data_req, notify_busy,
  on_sync_data_rep, is_recving, is_running, is_reponse, ℕ, String, get_last_stable_ball_mci,
  get_missing_units, on_sync_data_requst,
}
use babyboy.Node.Sync.Fetch.{fetch-returns}
use babyboy.Node.Sync.Runs.{
  Event, on_event, Calm, new_unit_received, sync_unit, sync_data_req, sync_data_rep, done, event,
  picked, sync_data_requst_received,
}

-- One list starts the other.
abbrev pub Extends : List NewUnitEntity → List NewUnitEntity → Type 0
Extends xs ys = (more : List NewUnitEntity) × (ys ≡ xs ++ more)

Extends-trans : (xs ys zs : List NewUnitEntity) → Extends xs ys → Extends ys zs → Extends xs zs
Extends-trans xs ys zs (a, p) (b, q) = (a ++ b, q ∙ ap (λ l. l ++ b) p ∙ append_assoc xs a b)

Extends-self : (xs : List NewUnitEntity) → Extends xs xs
Extends-self xs = ([], sym (append-nil xs))

module _ (N : Network) (F : Fifo NewUnitEntity) where
  queue_units-Extends :
      (db : UnitTable) (units : List DagUnit) (que : F.Queue)
      → Extends (F.items que) (F.items (queue_units N F db units que))
  unfolding queue_units
  queue_units-Extends db [] que = Extends-self (F.items que)
  queue_units-Extends db (unit ∷ units) que = elim (Option-cases (db unit.hash)) [
    | inl n ↦
        rw (n, queue_units)
          (Extends-trans (F.items que) (F.items (F.push que (queued unit))) _
            (queued unit ∷ [], F.items_push que (queued unit))
            (queue_units-Extends db units (F.push que (queued unit))))
    | inr (u, s) ↦ rw (s, queue_units) (queue_units-Extends db units que)
  ]
    where
      queued : DagUnit → NewUnitEntity
      queued unit = record { from_peer_id = ""; has_peer_ids = []; new_unit = unit }

  -- Both queues of the second node start with what those of the first hold.
  abbrev pub Grows : Node N F → Node N F → Type 0
  Grows n m =
      Extends (F.items n.recv_queue) (F.items m.recv_queue)
      × Extends (F.items n.wait_queue) (F.items m.wait_queue)

  module _ (G : Fifo Hash) (digest : UnitJson → Hash) (is_sorted : List DagUnit → Bool)
      (sort : List DagUnit → List DagUnit) where
    on_event-Grows :
        (n : Node N F) (e : Event N.Peer) → Grows n (on_event N F G digest is_sorted sort n e)
    unfolding on_event handle_new_unit_event on_sync_unit on_sync_data_requst on_sync_data_req
        notify_busy on_sync_data_rep
    on_event-Grows n (new_unit_received entity) = elim (Bool-cases (is_recving n.state)) [
      | inl t ↦ rw t (Extends-self _, (entity ∷ [], F.items_push n.wait_queue entity))
      | inr f ↦ rw f (Extends-self _, Extends-self _)
    ]
    on_event-Grows n (sync_data_requst_received p mci) = (Extends-self _, Extends-self _)
    on_event-Grows n sync_unit = elim (Bool-cases (is_running n.state)) [
      | inl t ↦ rw t (Extends-self _, Extends-self _)
      | inr f ↦ rw f (Extends-self _, Extends-self _)
    ]
    on_event-Grows n (sync_data_req p end_mci) = elim (Bool-cases (is_reponse n.state)) [
      | inl t ↦ rw t (Extends-self _, Extends-self _)
      | inr f ↦ rw f (Extends-self _, Extends-self _)
    ]
    on_event-Grows n (sync_data_rep sync_data) = elim (Bool-cases (sync_data.state == 2)) [
      | inl t ↦ rw t (Extends-self _, Extends-self _)
      | inr f ↦
          rw f
            (queue_units-Extends (N.db n.world) sync_data.stable_units n.recv_queue, Extends-self _)
    ]

    -- What a run of a task gives, if it gives a node, is a node whose queues have grown.
    abbrev KeepsWaiting : Node N F → Outcome (Node N F) → Type 0
    KeepsWaiting n (returns out) = Grows n out
    KeepsWaiting n panics = Unit
    KeepsWaiting n out_of_fuel = Unit

    pick_data_from_dag-KeepsWaiting :
        (fuel : ℕ) (n : Node N F) (p : N.Peer) (end_mci : String)
        → KeepsWaiting n (pick_data_from_dag N F G digest is_sorted sort fuel n p end_mci)
    unfolding pick_data_from_dag
    pick_data_from_dag-KeepsWaiting fuel n p end_mci =
        elim (Outcome-cases (
          get_last_stable_ball_mci G digest fuel
            (graph_info N F G digest is_sorted sort n.world))) [
              | inr (inl s) ↦ rw (s, pick_data_from_dag) tt
              | inr (inr s) ↦ rw (s, pick_data_from_dag) tt
              | inl (start_mci, s) ↦ elim (Option-cases (N.parse_int end_mci)) [
                | inl none_parsed ↦
                    rw (s, none_parsed, pick_data_from_dag) (Extends-self _, Extends-self _)
                | inr (known, k) ↦
                    elim (Outcome-cases (
                      get_missing_units G is_sorted sort fuel
                        (graph_info N F G digest is_sorted sort n.world) start_mci known)) [
                          | inr (inl m) ↦ rw (s, k, m, pick_data_from_dag) tt
                          | inr (inr m) ↦ rw (s, k, m, pick_data_from_dag) tt
                          | inl (missing, m) ↦
                              rw (s, k, m, pick_data_from_dag) (Extends-self _, Extends-self _)
                        ]
              ]
            ]

    picked-Grows :
        (fuel : ℕ) (n out : Node N F) (p : N.Peer) (end_mci : String)
        → pick_data_from_dag N F G digest is_sorted sort fuel n p end_mci ≡ returns out
        → Grows n out
    picked-Grows fuel n out p end_mci e =
        subst (KeepsWaiting n) e (pick_data_from_dag-KeepsWaiting fuel n p end_mci)

    Calm-Grows : (n m : Node N F) → Calm N F G digest is_sorted sort n m → Grows n m
    Calm-Grows n m done = (Extends-self _, Extends-self _)
    Calm-Grows n _ (event {m} calm e) =
        let first = Calm-Grows n m calm in
        let next = on_event-Grows m e in
        (Extends-trans _ _ _ first.0 next.0, Extends-trans _ _ _ first.1 next.1)
    Calm-Grows n _ (picked {m} {out} calm before after p end_mci fuel t e) =
        let first = Calm-Grows n m calm in
        let next = picked-Grows fuel (record m { tasks = before ++ after }) out p end_mci e in
        (Extends-trans _ _ _ first.0 next.0, Extends-trans _ _ _ first.1 next.1)

  -- Let a node come, by any events and any tasks that pick data for its peers, to the one at which
  -- fetchData runs. Every unit that waited at first is processed then: what the first node had in
  -- its queues comes first, in its order, and whatever was queued meanwhile after it. In the end
  -- nothing waits and the node is running. (The fuel is for more rounds than a queue is long.)
  pub waiting-processed :
      (G : Fifo Hash) (digest : UnitJson → Hash) (is_sorted : List DagUnit → Bool)
      (sort : List DagUnit → List DagUnit) (fuel : ℕ) (n m : Node N F)
      → Calm N F G digest is_sorted sort n m
      → length (F.items m.recv_queue) < fuel
      → length (F.items m.wait_queue) < fuel
      → (out : Node N F) × (xs : List NewUnitEntity) × (ys : List NewUnitEntity) × (fetch N F fuel m
          ≡ returns out)
        × (F.items out.recv_queue ≡ [])
        × (F.items out.wait_queue ≡ [])
        × (out.state ≡ State.running)
        × (out.world
            ≡ foldl
                (process_waiting N F)
                (foldl (process N F) m.world (F.items n.recv_queue ++ xs))
                (F.items n.wait_queue ++ ys))
  waiting-processed G digest is_sorted sort fuel n m calm r w =
      let (recv, wait) = Calm-Grows G digest is_sorted sort n m calm in
      let (out, e, er, ew, st, _, world) = fetch-returns N F fuel m r w in
      (out, recv.0, wait.0, e, er, ew, st, rw (sym recv.1, sym wait.1) world)
