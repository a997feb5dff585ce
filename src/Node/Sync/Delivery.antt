-- ===== src/Node/Sync/Delivery.antt =====
-- A synchronisation of two nodes, from the task of the one that answers to the task of the other.
use babyboy.Prelude.{
  ℕ, refl, List, [], ◌∷◌, ◌++◌, ◌≡◌, ◌<◌, ◌*◌, Bool, false, String, length, All, none, some, ap,
  sym, ◌∙◌, subst, arith, ap₂,
}
use mathlib.Core.List.{foldl, Memᴰ}
use babyboy.Int64.{slt}
use babyboy.Interface.{Fifo, returns}
use babyboy.Types.Hash.{Hash, Address}
use babyboy.Types.Unit.{DagUnit, UnitJson}
use babyboy.Types.Messages.{NewUnitEntity, SyncDataEntity}
use babyboy.Dag.GraphInfo.{
  UnitTable, GraphInfoGetter, new_graph_info_getter, get_best_parent_unit, get_unit_by_hash,
  get_last_stable_ball_mci, new_graph_info_getter, get_best_parent_unit,
}
use babyboy.Dag.Missing.{get_missing_units}
use babyboy.Dag.Missing.Termination.{Inside, IsClosed}
use babyboy.Dag.Missing.Follows.{Lacks}
use babyboy.Dag.Missing.Completeness.{get_missing_units-HasAll}
use babyboy.Node.Network.{Network}
use babyboy.Node.Sync.{Node, State, fetch_data, on_sync_data_rep, process, process_waiting, fetch}
use babyboy.Node.Sync.Fetch.{fetch-returns}
use babyboy.Node.Sync.Pick.{pick_data_from_dag, send_units, graph_info}
use babyboy.Node.Sync.Exchange.{
  rounds, messages, last_message, queued, lacking, Memᴰ-lacking, messages-Received, Sends,
  sent-last,
}

getter-kept :
    (digest : UnitJson → Hash) (db : UnitTable) (tips : List Hash) (witnesses : List Address)
    → ((new_graph_info_getter digest db tips witnesses).db ≡ db)
      × ((new_graph_info_getter digest db tips witnesses).parent_list ≡ tips)
unfolding new_graph_info_getter get_best_parent_unit
getter-kept digest db [] witnesses = (refl, refl)
getter-kept digest db (t ∷ ts) witnesses = (refl, refl)

-- A getter over a database and its tips has all that the peer may lack.
getter-HasAll :
    (G : Fifo Hash) (is_sorted : List DagUnit → Bool) (sort : List DagUnit → List DagUnit)
    (sort-All : (P : DagUnit → Type 0) (us : List DagUnit) → All P us → All P (sort us))
    (sort-Memᴰ : (u : DagUnit) (us : List DagUnit) → Memᴰ u us → Memᴰ u (sort us))
    (gig : GraphInfoGetter) (db : UnitTable) (tips universe : List Hash) (s k fuel : ℕ)
    → gig.db ≡ db
    → gig.parent_list ≡ tips
    → slt s k ≡ false
    → Inside G db universe tips
    → IsClosed G db universe
    → 2 * length universe < fuel
    → (stable : List DagUnit) × (unstable : List DagUnit) × (get_missing_units G is_sorted sort fuel
          gig s k
        ≡ returns (stable, unstable))
      × ((h : Hash) → Lacks db k tips h → Memᴰ (get_unit_by_hash db h) (stable ++ unstable))
getter-HasAll G is_sorted sort sort-All sort-Memᴰ gig db tips universe s k fuel ed et sk i c lt =
    let (stable, unstable, e, all) =
      get_missing_units-HasAll G is_sorted sort sort-All sort-Memᴰ gig universe s k fuel sk
        (rw et i) (subst (λ (d : UnitTable). IsClosed G d universe) (sym ed) c) lt in
    (
      stable,
      unstable,
      e,
      subst
          (λ (d : UnitTable).
            (h : Hash) → Lacks d k tips h → Memᴰ (get_unit_by_hash d h) (stable ++ unstable))
          ed
          (subst
            (λ (ts : List Hash).
              (h : Hash)
              → Lacks gig.db k ts h
              → Memᴰ (get_unit_by_hash gig.db h) (stable ++ unstable))
            et all),
    )

module _ (N : Network) (F : Fifo NewUnitEntity) (L : Sends N F) where
  module _ (G : Fifo Hash) (digest : UnitJson → Hash) (is_sorted : List DagUnit → Bool)
      (sort : List DagUnit → List DagUnit)
      (sort-All : (P : DagUnit → Type 0) (us : List DagUnit) → All P us → All P (sort us))
      (sort-Memᴰ : (u : DagUnit) (us : List DagUnit) → Memᴰ u us → Memᴰ u (sort us)) where
    pick_data_from_dag-sends :
        (fuel mci known : ℕ) (a : Node N F) (p : N.Peer) (end_mci : String)
        (stable unstable : List DagUnit)
        → get_last_stable_ball_mci G digest fuel (graph_info N F G digest is_sorted sort a.world)
          ≡ returns mci
        → N.parse_int end_mci ≡ some known
        → get_missing_units G is_sorted sort fuel
            (graph_info N F G digest is_sorted sort a.world)
            mci
            known
          ≡ returns (stable, unstable)
        → (out : Node N F) × (pick_data_from_dag N F G digest is_sorted sort fuel a p end_mci
            ≡ returns out)
          × (out.state ≡ State.running)
          × (L.sent out.world p ≡ L.sent a.world p ++ messages (stable ++ unstable))
    unfolding pick_data_from_dag
    pick_data_from_dag-sends fuel mci known a p end_mci stable unstable last parsed missing = (
      record a {
        world = (N.send_sync (send_units N F a.world p (stable ++ unstable)) p last_message).0;
        state = State.running;
      },
      rw (last, parsed, missing, pick_data_from_dag) refl,
      refl,
      sent-last N F L a.world p (stable ++ unstable),
    )

    fetch-messages :
        (fuel : ℕ) (b : Node N F) (us : List DagUnit)
        → length (F.items b.recv_queue ++ lacking (N.db b.world) us) < fuel
        → length (F.items b.wait_queue) < fuel
        → (done : Node N F) × (fetch N F fuel (foldl (on_sync_data_rep N F) b (messages us))
            ≡ returns done)
          × (done.world
              ≡ foldl
                  (process_waiting N F)
                  (foldl (process N F) b.world (F.items b.recv_queue ++ lacking (N.db b.world) us))
                  (F.items b.wait_queue))
    fetch-messages fuel b us r w =
        let got = messages-Received N F us b in
        let (done, e, _, _, _, _, world) =
          fetch-returns N F fuel (foldl (on_sync_data_rep N F) b (messages us))
            (omega (arith, ap length got.received, r))
            (omega (arith, ap (λ q. length (F.items q)) got.same_waiting, w)) in
        (
          done,
          e,
          world
              ∙ ap₂ (λ q x. foldl (process_waiting N F) x (F.items q)) got.same_waiting
                  (ap₂ (λ v l. foldl (process N F) v l) got.same_world got.received),
        )

    -- A synchronisation, from end to end. A node `a` that runs pickDataFromDag for the peer `p`
    -- returns and has sent it a list of messages. A node `b` that takes these messages starts
    -- fetchData behind its other tasks, and when that runs at once it returns, having handed to
    -- ReviewUnit and HandlerNewUnit first what it had received and then a list of units, in
    -- order, before those that waited. The list has every unit that the peer may lack, of a
    -- hash that is not in the database of `b`. (`a` has a last stable ball, whose index is not
    -- below the one in the request; its tips lie in a finite list of hashes that is closed under
    -- parents; the peer is reached; the fuel of `a` is more than twice that list's length, and
    -- that of `b` one more than the units that it has and gets.)
    pub sync-HandsAll :
        (fuel mci known : ℕ) (a b : Node N F) (p : N.Peer) (end_mci : String) (universe : List Hash)
        → get_last_stable_ball_mci G digest fuel (graph_info N F G digest is_sorted sort a.world)
          ≡ returns mci
        → N.parse_int end_mci ≡ some known
        → slt mci known ≡ false
        → Inside G (N.db a.world) universe (N.tips a.world)
        → IsClosed G (N.db a.world) universe
        → 2 * length universe < fuel
        → (out : Node N F) × (ms : List SyncDataEntity) × (es : List NewUnitEntity)
          × (pick_data_from_dag N F G digest is_sorted sort fuel a p end_mci ≡ returns out)
          × (L.sent out.world p ≡ L.sent a.world p ++ ms)
          × ((foldl (on_sync_data_rep N F) b ms).tasks ≡ b.tasks ++ (fetch_data ∷ []))
          × ((done : Node N F) × (fetch N F (rounds N F b es) (foldl (on_sync_data_rep N F) b ms)
                ≡ returns done)
              × (done.world
                  ≡ foldl
                      (process_waiting N F)
                      (foldl (process N F) b.world (F.items b.recv_queue ++ es))
                      (F.items b.wait_queue)))
          × ((h : Hash)
              → Lacks (N.db a.world) known (N.tips a.world) h
              → N.db b.world (get_unit_by_hash (N.db a.world) h).hash ≡ none
              → Memᴰ (queued (get_unit_by_hash (N.db a.world) h)) es)
    unfolding graph_info
    sync-HandsAll fuel mci known a b p end_mci universe last parsed sk i c lt =
        let (db_kept, tips_kept) =
          getter-kept digest (N.db a.world) (N.tips a.world) (N.witnesses a.world) in
        let (stable, unstable, missing, all) =
          getter-HasAll G is_sorted sort sort-All sort-Memᴰ
            (graph_info N F G digest is_sorted sort a.world) (N.db a.world) (N.tips a.world)
            universe mci known fuel db_kept tips_kept sk i c lt in
        let (out, e, _, sent) =
          pick_data_from_dag-sends fuel mci known a p end_mci stable unstable last parsed missing in
        (
          out,
          messages (stable ++ unstable),
          lacking (N.db b.world) (stable ++ unstable),
          e,
          sent,
          (messages-Received N F (stable ++ unstable) b).fetches,
          fetch-messages (rounds N F b (lacking (N.db b.world) (stable ++ unstable))) b
              (stable ++ unstable) (omega arith) (omega arith),
          λ h l n.
              Memᴰ-lacking (N.db b.world) (get_unit_by_hash (N.db a.world) h) (stable ++ unstable) n
                (all h l),
        )
