-- ===== src/Node/Sync/Fetch.antt =====
-- fetchData: it empties both queues, in order, and the node runs again.
use babyboy.Prelude.{zero, suc, refl, length, ◌<◌, ◌≡◌, arith}
use mathlib.Core.List.{foldl}
use babyboy.Interface.{Fifo, returns}
use babyboy.Node.Network.{Network}
use babyboy.Types.Messages.{NewUnitEntity}
use babyboy.Node.Sync.{
  Node, State, process, process_waiting, fetch_recv, fetch_wait, fetch, then_do, ℕ, List, [], true,
  ◌∷◌,
}

module _ (N : Network) (F : Fifo NewUnitEntity) where
  fetch_recv-returns :
      (fuel : ℕ) (es : List NewUnitEntity) (n : Node N F)
      → length es < fuel
      → F.items n.recv_queue ≡ es
      → (que : F.Queue) × (F.items que ≡ [])
        × (fetch_recv N F fuel n
            ≡ returns (record n { recv_queue = que; world = foldl (process N F) n.world es }))
  unfolding fetch_recv
  fetch_recv-returns zero es n lt i = elim lt [ ]
  fetch_recv-returns (suc fuel) [] n lt i =
      (n.recv_queue, i, ground (arith, F.empty_items n.recv_queue))
  fetch_recv-returns (suc fuel) (e ∷ es) n lt i =
      let rest =
        fetch_recv-returns fuel es
          (record n { recv_queue = F.pop n.recv_queue; world = process N F n.world e })
          (omega arith) (F.items_pop n.recv_queue e es i) in
      (
        rest.0,
        rest.1,
        ground (arith, F.empty_items n.recv_queue, F.front_items n.recv_queue e es i, rest.2),
      )

  fetch_wait-returns :
      (fuel : ℕ) (es : List NewUnitEntity) (n : Node N F)
      → length es < fuel
      → F.items n.wait_queue ≡ es
      → (que : F.Queue) × (F.items que ≡ [])
        × (fetch_wait N F fuel n
            ≡ returns
                (record n { wait_queue = que; world = foldl (process_waiting N F) n.world es }))
  unfolding fetch_wait
  fetch_wait-returns zero es n lt i = elim lt [ ]
  fetch_wait-returns (suc fuel) [] n lt i =
      (n.wait_queue, i, ground (arith, F.empty_items n.wait_queue))
  fetch_wait-returns (suc fuel) (e ∷ es) n lt i =
      let rest =
        fetch_wait-returns fuel es
          (record n { wait_queue = F.pop n.wait_queue; world = process_waiting N F n.world e })
          (omega arith) (F.items_pop n.wait_queue e es i) in
      (
        rest.0,
        rest.1,
        ground (arith, F.empty_items n.wait_queue, F.front_items n.wait_queue e es i, rest.2),
      )

  -- With fuel for more rounds than either queue is long, fetchData returns. Both queues are empty
  -- then, and the node is running and asks to synchronise again. The world is the one that the
  -- received units left, reviewed and handled in their order, and after them the waiting ones,
  -- each of which the peers are told of as well if it was handled without error.
  pub fetch-returns :
      (fuel : ℕ) (n : Node N F)
      → length (F.items n.recv_queue) < fuel
      → length (F.items n.wait_queue) < fuel
      → (out : Node N F) × (fetch N F fuel n ≡ returns out)
        × (F.items out.recv_queue ≡ [])
        × (F.items out.wait_queue ≡ [])
        × (out.state ≡ State.running)
        × (out.is_require_sync ≡ true)
        × (out.world
            ≡ foldl
                (process_waiting N F)
                (foldl (process N F) n.world (F.items n.recv_queue))
                (F.items n.wait_queue))
  unfolding fetch then_do
  fetch-returns fuel n r w = (
    record n {
      recv_queue = first.0;
      wait_queue = second.0;
      world = foldl (process_waiting N F) received.world (F.items n.wait_queue);
      state = State.running;
      is_require_sync = true;
    },
    rw (first.2, second.2) refl,
    first.1,
    second.1,
    refl,
    refl,
    refl,
  )
    where
      first :
          (que : F.Queue) × (F.items que ≡ [])
          × (fetch_recv N F fuel n
              ≡ returns (record n {
                recv_queue = que;
                world = foldl (process N F) n.world (F.items n.recv_queue);
              }))
      first = fetch_recv-returns fuel (F.items n.recv_queue) n r refl

      received : Node N F
      received = record n {
        recv_queue = first.0;
        world = foldl (process N F) n.world (F.items n.recv_queue);
      }

      second :
          (que : F.Queue) × (F.items que ≡ [])
          × (fetch_wait N F fuel received
              ≡ returns (record received {
                wait_queue = que;
                world = foldl (process_waiting N F) received.world (F.items n.wait_queue);
              }))
      second = fetch_wait-returns fuel (F.items n.wait_queue) received w refl
