-- ===== src/Node/Sync/Pick.antt =====
-- node/node.go: the tasks that send units to a peer.
use babyboy.Types.Unit.{DagUnit, UnitJson}
use babyboy.Types.Hash.{Hash}
use babyboy.Prelude.{none, Bool, String, if◌then◌else◌, [], ℕ, List, ◌++◌, ◌∷◌, some}
use babyboy.Interface.{Fifo, Outcome, returns, panics, out_of_fuel}
use babyboy.Node.Network.{Network}
use babyboy.Types.Messages.{NewUnitEntity}
use babyboy.Dag.Missing.{get_missing_units}
use babyboy.Dag.GraphInfo.{GraphInfoGetter, new_graph_info_getter, get_last_stable_ball_mci}
use babyboy.Node.Sync.{Node, State}

module _ (N : Network) (F : Fifo NewUnitEntity) where
  -- The loop over the units to send, which stops at a peer that is not reached.
  unfoldable pub send_units : N.World → N.Peer → List DagUnit → N.World
  send_units w p [] = w
  send_units w p (unit ∷ units) =
      let sent =
        N.send_sync w p (record { state = 0; stable_units = unit ∷ []; unstable_units = [] }) in
      let rest = send_units sent.0 p units in if sent.1 then rest else sent.0

  module _ (G : Fifo Hash) (digest : UnitJson → Hash) (is_sorted : List DagUnit → Bool)
      (sort : List DagUnit → List DagUnit) where
    unfoldable pub graph_info : N.World → GraphInfoGetter
    graph_info w = new_graph_info_getter digest (N.db w) (N.tips w) (N.witnesses w)

    unfoldable pub pick_data_from_dag : ℕ → Node N F → N.Peer → String → Outcome (Node N F)
    unfolding graph_info send_units
    pick_data_from_dag fuel n p end_mci =
        elim (get_last_stable_ball_mci G digest fuel (graph_info n.world)) [
          | panics ↦ panics
          | out_of_fuel ↦ out_of_fuel
          | returns start_mci ↦ elim (N.parse_int end_mci) [
            | none ↦ returns n
            | some known ↦
                elim (get_missing_units G is_sorted sort fuel (graph_info n.world) start_mci
                  known) [
                    | panics ↦ panics
                    | out_of_fuel ↦ out_of_fuel
                    | returns (stable, unstable) ↦ returns (record n {
                      world =
                          (N.send_sync (send_units n.world p (stable ++ unstable)) p
                            (record { state = 1; stable_units = []; unstable_units = [] })).0;
                      state = State.running;
                    })
                  ]
          ]
        ]

    -- The loop of boy.NewNodeConnect over the sorted units, of which the genesis unit is passed over.
    unfoldable pub send_all : (DagUnit → Bool) → N.World → N.Peer → List DagUnit → N.World
    send_all is_genesis w p [] = w
    send_all is_genesis w p (unit ∷ units) =
        send_all is_genesis
          (if is_genesis unit
            then w
            else N.send_unit w p (record { has_peers = N.peer_ids w; message = unit }))
          p units

    -- boy.NewNodeConnect: from the last stable mci to itself.
    unfoldable pub on_new_node_connect :
        (DagUnit → Bool) → ℕ → Node N F → N.Peer → Outcome (Node N F)
    unfolding send_all graph_info
    on_new_node_connect is_genesis fuel n p =
        elim (get_last_stable_ball_mci G digest fuel (graph_info n.world)) [
          | panics ↦ panics
          | out_of_fuel ↦ out_of_fuel
          | returns mci ↦
              elim (get_missing_units G is_sorted sort fuel (graph_info n.world) mci mci) [
                | panics ↦ panics
                | out_of_fuel ↦ out_of_fuel
                | returns (stable, unstable) ↦
                    returns (record n {
                      world = send_all is_genesis n.world p (sort (stable ++ unstable));
                    })
              ]
        ]
