-- ===== src/Node/Sync/Runs.antt =====
-- Runs of a node: what its peers send, and the tasks that its handlers have started.
use babyboy.Prelude.{◌≡◌, ◌++◌, ◌∷◌}
use babyboy.Interface.{Fifo, returns}
use babyboy.Node.Network.{Network}
use babyboy.Types.Messages.{NewUnitEntity, SyncDataEntity}
use babyboy.Node.Sync.Pick.{pick_data_from_dag}
use babyboy.Node.Sync.{
  Node, Task, pick_data, handle_new_unit_event, on_sync_unit, on_sync_data_req, on_sync_data_rep,
  String, Hash, UnitJson, List, DagUnit, Bool, ℕ, on_sync_data_requst,
}

-- The cases of the event loop and of the bus that change the node.
pub data Event (Peer : Type 0) : Type 0 where
  new_unit_received : NewUnitEntity → Event Peer
  sync_unit : Event Peer
  sync_data_requst_received : Peer → String → Event Peer
  sync_data_req : Peer → String → Event Peer
  sync_data_rep : SyncDataEntity → Event Peer

module _ (N : Network) (F : Fifo NewUnitEntity) (G : Fifo Hash) (digest : UnitJson → Hash)
    (is_sorted : List DagUnit → Bool) (sort : List DagUnit → List DagUnit) where
  unfoldable pub on_event : Node N F → Event N.Peer → Node N F
  on_event n (new_unit_received entity) = handle_new_unit_event N F n entity
  on_event n (sync_data_requst_received p mci) = on_sync_data_requst N F n p mci
  on_event n sync_unit = on_sync_unit N F n
  on_event n (sync_data_req p end_mci) = on_sync_data_req N F n p end_mci
  on_event n (sync_data_rep sync_data) = on_sync_data_rep N F n sync_data

  -- An event, or a run of one of the tasks that pick data for a peer.
  pub data Calm (n : Node N F) : Node N F → Type 0 where
    done : Calm n n
    event : {m : Node N F} → Calm n m → (e : Event N.Peer) → Calm n (on_event m e)
    picked :
        {m out : Node N F}
        → Calm n m
        → (before after : List (Task N.Peer)) (p : N.Peer) (end_mci : String) (fuel : ℕ)
        → m.tasks ≡ before ++ (pick_data p end_mci ∷ after)
        → pick_data_from_dag N F G digest is_sorted sort fuel
            (record m { tasks = before ++ after })
            p
            end_mci
          ≡ returns out
        → Calm n out
