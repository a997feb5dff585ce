-- ===== src/Node/Sync/Exchange.antt =====
-- The messages of a synchronisation: what is sent, and what they make of the node that takes them.
use babyboy.Prelude.{
  suc, ◌+◌, length, refl, List, [], ◌∷◌, ◌++◌, ◌≡◌, map, true, none, some, Option-cases, inl, inr,
  ap, sym, ◌∙◌, arith,
}
use mathlib.Core.List.{foldl, append_assoc, append-nil, Memᴰ}
use babyboy.Interface.{Fifo}
use babyboy.Types.Unit.{DagUnit}
use babyboy.Types.Messages.{NewUnitEntity, SyncDataEntity}
use babyboy.Dag.GraphInfo.{UnitTable}
use babyboy.Node.Network.{Network}
use babyboy.Node.Sync.{Node, fetch_data, queue_units, on_sync_data_rep, ℕ}
use babyboy.Node.Sync.Pick.{send_units}

-- What is sent for a unit, and at the end.
abbrev pub unit_message : DagUnit → SyncDataEntity
unit_message u = record { state = 0; stable_units = u ∷ []; unstable_units = [] }

abbrev pub last_message : SyncDataEntity
last_message = record { state = 1; stable_units = []; unstable_units = [] }

abbrev pub messages : List DagUnit → List SyncDataEntity
messages us = map unit_message us ++ (last_message ∷ [])

abbrev pub queued : DagUnit → NewUnitEntity
queued u = record { from_peer_id = ""; has_peer_ids = []; new_unit = u }

-- The units that a database does not hold, as they are queued.
abbrev pub lacking : UnitTable → List DagUnit → List NewUnitEntity
lacking db [] = []
lacking db (u ∷ us) =
    let rest = lacking db us in elim (db u.hash) [ some _ ↦ rest | none ↦ queued u ∷ rest ]

pub Memᴰ-lacking :
    (db : UnitTable) (u : DagUnit) (us : List DagUnit)
    → db u.hash ≡ none
    → Memᴰ u us
    → Memᴰ (queued u) (lacking db us)
Memᴰ-lacking db u [] n m = elim m [ ]
Memᴰ-lacking db u (v ∷ us) n (Memᴰ.head e) =
    rw (ap (λ (x : DagUnit). db x.hash) (sym e) ∙ n, lacking) (Memᴰ.head (ap queued e))
Memᴰ-lacking db u (v ∷ us) n (Memᴰ.tail m) = elim (Option-cases (db v.hash)) [
  | inl a ↦ rw (a, lacking) (Memᴰ.tail (Memᴰ-lacking db u us n m))
  | inr (w, a) ↦ rw (a, lacking) (Memᴰ-lacking db u us n m)
]

lacking-cons :
    (db : UnitTable) (u : DagUnit) (us : List DagUnit)
    → lacking db (u ∷ []) ++ lacking db us ≡ lacking db (u ∷ us)
lacking-cons db u us = elim (Option-cases (db u.hash)) [
  | inl a ↦ ground arith
  | inr (v, a) ↦ ground arith
]

module _ (N : Network) (F : Fifo NewUnitEntity) where
  items-queue_units :
      (db : UnitTable) (us : List DagUnit) (que : F.Queue)
      → F.items (queue_units N F db us que) ≡ F.items que ++ lacking db us
  unfolding queue_units
  items-queue_units db [] que = sym (append-nil (F.items que))
  items-queue_units db (u ∷ us) que = elim (Option-cases (db u.hash)) [
    | inr (v, a) ↦ rw (a, queue_units, lacking) (items-queue_units db us que)
    | inl a ↦
        rw (a, queue_units, lacking)
          (items-queue_units db us (F.push que (queued u))
            ∙ ap (λ l. l ++ lacking db us) (F.items_push que (queued u))
            ∙ append_assoc (F.items que) (queued u ∷ []) (lacking db us))
  ]

  -- What the messages of some units, and the last one, make of a node.
  pub record Received (b : Node N F) (us : List DagUnit) (out : Node N F) : Type 0 where
    pub same_world : out.world ≡ b.world
    pub same_waiting : out.wait_queue ≡ b.wait_queue
    pub received : F.items out.recv_queue ≡ F.items b.recv_queue ++ lacking (N.db b.world) us
    pub fetches : out.tasks ≡ b.tasks ++ (fetch_data ∷ [])

  pub messages-Received :
      (us : List DagUnit) (b : Node N F)
      → Received b us (foldl (on_sync_data_rep N F) b (messages us))
  unfolding on_sync_data_rep queue_units
  messages-Received [] b = record {
    same_world = refl;
    same_waiting = refl;
    received = sym (append-nil (F.items b.recv_queue));
    fetches = refl;
  }
  messages-Received (u ∷ us) b =
      let next = on_sync_data_rep N F b (unit_message u) in
      let rest = messages-Received us next in
      record {
        same_world = rest.same_world;
        same_waiting = rest.same_waiting;
        received =
            rest.received
            ∙ ap (λ l. l ++ lacking (N.db b.world) us)
                (items-queue_units (N.db b.world) (u ∷ []) b.recv_queue)
            ∙ append_assoc (F.items b.recv_queue) (lacking (N.db b.world) (u ∷ []))
                (lacking (N.db b.world) us)
            ∙ ap (λ l. F.items b.recv_queue ++ l) (lacking-cons (N.db b.world) u us);
        fetches = rest.fetches;
      }

  -- Rounds for all units that a node has or gets, and the last one.
  abbrev pub rounds : Node N F → List NewUnitEntity → ℕ
  rounds b es = suc (length (F.items b.recv_queue ++ es) + length (F.items b.wait_queue))

  -- The messages that were sent to each peer, in order, by a network that reaches every peer.
  pub record Sends : Type 0 where
    pub sent : N.World → N.Peer → List SyncDataEntity
    pub reached : (w : N.World) (p : N.Peer) (m : SyncDataEntity) → (N.send_sync w p m).1 ≡ true
    pub appended :
        (w : N.World) (p : N.Peer) (m : SyncDataEntity)
        → sent (N.send_sync w p m).0 p ≡ sent w p ++ (m ∷ [])

  module _ (L : Sends) where
    sent-send_units :
        (w : N.World) (p : N.Peer) (us : List DagUnit)
        → L.sent (send_units N F w p us) p ≡ L.sent w p ++ map unit_message us
    unfolding send_units
    sent-send_units w p [] = sym (append-nil (L.sent w p))
    sent-send_units w p (u ∷ us) =
        rw (L.reached w p (unit_message u), send_units)
          (sent-send_units (N.send_sync w p (unit_message u)).0 p us
            ∙ ap (λ l. l ++ map unit_message us) (L.appended w p (unit_message u))
            ∙ append_assoc (L.sent w p) (unit_message u ∷ []) (map unit_message us))

    pub sent-last :
        (w : N.World) (p : N.Peer) (us : List DagUnit)
        → L.sent (N.send_sync (send_units N F w p us) p last_message).0 p
          ≡ L.sent w p ++ messages us
    sent-last w p us =
        L.appended (send_units N F w p us) p last_message
        ∙ ap (λ l. l ++ (last_message ∷ [])) (sent-send_units w p us)
        ∙ append_assoc (L.sent w p) (map unit_message us) (last_message ∷ [])
