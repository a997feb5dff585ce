-- ===== src/Transaction/Auth/Track.antt =====
-- BackTrackingHasSpentUTXO ends, and finds outputs that exist.
use babyboy.Interface.{empty_of_cons, items-push-new}
use babyboy.Types.Payment.{new_utxo}
use babyboy.Prelude.{
  none, zero, refl, some, [], ◌∷◌, ◌+◌, ◌<◌, true, inl, inr, ℕ, ◌≡◌, List, Option, ◌++◌, ◌≤◌, arith,
  All, Option-cases, Bool-cases, subst, All-append, suc, false,
}
use babyboy.Transaction.Ledger.{witness_commission, miner_commission, payment, unknown}
use babyboy.Transaction.Auth.{
  Reads, panicked, blocks, runs_on, back_tracking_has_spent_utxo, ResultBack, input_unit,
  is_add_input_has_spent, make_channels, receive, Utxo, Hash, Address, DagUnit, Input, Message,
  Author, InputKind, Fifo, without_author, input_kind, send_result, Tracked, track_loop, tracked,
}

module _ (R : Reads) where
  -- The unspent outputs of some address have it.
  abbrev pub Exists : Utxo → Type 0
  Exists u = (address : Address) × (R.is_exist_unspent_output address u ≡ true)

  module _ (weight : Hash → ℕ) where
    abbrev pub inputs_weight : List Input → ℕ
    inputs_weight [] = 0
    inputs_weight (x ∷ xs) = weight (input_unit R x).hash + inputs_weight xs

    -- A unit weighs more than the units that its inputs name, together.
    abbrev pub IsWeighted : Type 0
    IsWeighted =
        (h : Hash) (u : DagUnit) (message : Message) (more : List Message)
        → R.get_unit_by_hash h ≡ some u
        → u.messages ≡ message ∷ more
        → inputs_weight message.payload.inputs < weight h

    abbrev pub load : List Utxo → ℕ
    load [] = 0
    load (u ∷ us) = weight u.unit_hash + load us

    pub load-append : (us vs : List Utxo) → load (us ++ vs) ≡ load us + load vs
    load-append [] vs = omega arith
    load-append (u ∷ us) vs = ground (arith, load-append us vs)

    -- What a channel holds weighs this much, and is true of the outputs.
    abbrev pub channels_weight : List (Option ResultBack) → ℕ
    channels_weight [] = 0
    channels_weight (none ∷ chs) = channels_weight chs
    channels_weight (some result ∷ chs) = weight result.utxo.unit_hash + channels_weight chs

    abbrev IsTrue : Option ResultBack → Type 0
    IsTrue none = Unit
    IsTrue (some result) = result.exist ≡ true → Exists result.utxo

    abbrev AreMade : ℕ → Option (List (Option ResultBack)) → Type 0
    AreMade n none = Unit
    AreMade n (some chs) = (channels_weight chs ≤ n) × All IsTrue chs

    made_one :
        (kind : InputKind) (author : Author) (x : Input) (n : ℕ) (chs : List (Option ResultBack))
        → AreMade n (some chs)
        → AreMade (weight (input_unit R x).hash + n) (some (send_result R kind author x ∷ chs))
    unfolding new_utxo
    made_one witness_commission author x n chs (w, t) = (omega arith, (λ e. (author.address, e), t))
    made_one miner_commission author x n chs (w, t) = (omega arith, (λ e. (author.address, e), t))
    made_one payment author x n chs (w, t) = (omega arith, (λ e. (author.address, e), t))
    made_one unknown author x n chs (w, t) = (omega arith, (tt, t))

    without_author-AreMade :
        (kind : InputKind) (m n : ℕ) (chs : Option (List (Option ResultBack)))
        → AreMade n chs
        → AreMade (m + n) (without_author R kind chs)
    without_author-AreMade unknown m n (some chs) (w, t) = (omega arith, (tt, t))
    without_author-AreMade unknown m n none a = tt
    without_author-AreMade witness_commission m n chs a = tt
    without_author-AreMade miner_commission m n chs a = tt
    without_author-AreMade payment m n chs a = tt

    make_channels-AreMade :
        (authors : List Author) (xs : List Input)
        → AreMade (inputs_weight xs) (make_channels R authors xs)
    unfolding make_channels is_add_input_has_spent
    make_channels-AreMade authors [] = (omega arith, tt)
    make_channels-AreMade (author ∷ rest) (x ∷ xs) =
        elim (Option-cases (make_channels R (author ∷ rest) xs)) [
          | inl n ↦ rw n tt
          | inr (chs, s) ↦ rw s (
              made_one (input_kind x.type_of) author x (inputs_weight xs) chs
                (subst (AreMade (inputs_weight xs)) s (make_channels-AreMade (author ∷ rest) xs)))
        ]
    make_channels-AreMade [] (x ∷ xs) =
        without_author-AreMade (input_kind x.type_of) (weight (input_unit R x).hash)
          (inputs_weight xs) (make_channels R [] xs) (make_channels-AreMade [] xs)

    module _ (F : Fifo Utxo) where
      abbrev AreReceived : ℕ → Option (F.Queue × List Utxo) → Type 0
      AreReceived n none = Unit
      AreReceived n (some (que, found)) = (load (F.items que) ≤ n) × All Exists found

      receive-AreReceived :
          (chs : List (Option ResultBack)) (que : F.Queue) (found : List Utxo) (n : ℕ)
          → All IsTrue chs
          → All Exists found
          → load (F.items que) + channels_weight chs ≤ n
          → AreReceived n (receive R F chs que found)
      unfolding receive
      receive-AreReceived [] que found n t e w = (omega arith, e)
      receive-AreReceived (none ∷ chs) que found n t e w = tt
      receive-AreReceived (some result ∷ chs) que found n (t, ts) e w =
          elim (Bool-cases result.stable) [
            | inl s ↦ elim (Bool-cases result.exist) [
              | inl y ↦
                  rw (s, y, receive)
                    (receive-AreReceived chs que (found ++ (result.utxo ∷ [])) n ts
                      (All-append Exists found (result.utxo ∷ []) e (t y, tt)) (omega arith))
              | inr y ↦ rw (s, y, receive) (receive-AreReceived chs que found n ts e (omega arith))
            ]
            | inr s ↦
                rw (s, receive)
                  (receive-AreReceived chs (F.push que result.utxo) found n ts e pushed)
          ]
        where
          pushed : load (F.items (F.push que result.utxo)) + channels_weight chs ≤ n
          pushed = rw (F.items_push que result.utxo, load-append) (omega arith)

      -- The search has ended, and what it found exists.
      abbrev pub HasFound : Tracked (List Utxo) → Type 0
      HasFound (tracked found) = All Exists found
      HasFound panicked = Unit
      HasFound blocks = Unit
      HasFound runs_on = ⊥

      track_loop-round :
          (fuel : ℕ) (que : F.Queue) (found : List Utxo)
          → IsWeighted
          → load (F.items que) < suc fuel
          → All Exists found
          → ((que' : F.Queue) (found' : List Utxo)
              → load (F.items que') < fuel
              → All Exists found'
              → HasFound (track_loop R F fuel que' found'))
          → HasFound (track_loop R F (suc fuel) que found)
      unfolding track_loop
      track_loop-round fuel que found heavy lt e ih = at_items (F.items que) refl
        where
          at_items :
              (us : List Utxo) → F.items que ≡ us → HasFound (track_loop R F (suc fuel) que found)
          at_items [] i =
              let done : F.empty que ≡ true = ground (arith, F.empty_items que) in
              rw (done, track_loop) e
          at_items (u ∷ us) i = elim (Option-cases (R.get_unit_by_hash (F.front que).unit_hash)) [
            | inl n ↦ rw (busy, n, track_loop) e
            | inr (unit, s) ↦ at_messages unit s unit.messages refl
          ]
            where
              busy : F.empty que ≡ false
              busy = empty_of_cons F que u us i

              at_messages :
                  (unit : DagUnit)
                  → R.get_unit_by_hash (F.front que).unit_hash ≡ some unit
                  → (ms : List Message) → unit.messages ≡ ms
                  → HasFound (track_loop R F (suc fuel) que found)
              at_messages unit s [] m = rw (busy, s, m, track_loop) tt
              at_messages unit s (message ∷ more) m =
                  elim (Option-cases (make_channels R unit.authors message.payload.inputs)) [
                    | inl n ↦ rw (busy, s, m, n, track_loop) tt
                    | inr (chs, c) ↦ elim (Option-cases (receive R F chs (F.pop que) found)) [
                      | inl n ↦ rw (busy, s, m, c, n, track_loop) tt
                      | inr (next, r) ↦ rw (busy, s, m, c, r, track_loop) (go_on chs c next r)
                    ]
                  ]
                where
                  go_on :
                      (chs : List (Option ResultBack))
                      → make_channels R unit.authors message.payload.inputs ≡ some chs
                      → (next : F.Queue × List Utxo) → receive R F chs (F.pop que) found ≡ some next
                      → HasFound (track_loop R F fuel next.0 next.1)
                  go_on chs c next r =
                      let n = load us + inputs_weight message.payload.inputs in
                      let made =
                        subst (AreMade (inputs_weight message.payload.inputs)) c
                          (make_channels-AreMade unit.authors message.payload.inputs) in
                      let popped : load (F.items (F.pop que)) + channels_weight chs ≤ n =
                        rw (F.items_pop que u us i) (omega arith) in
                      let received =
                        subst (AreReceived n) r
                          (receive-AreReceived chs (F.pop que) found n made.1 e popped) in
                      let heavier : inputs_weight message.payload.inputs < weight u.unit_hash =
                        rw⁻¹ (F.front_items que u us i)
                          (heavy (F.front que).unit_hash unit message more s m) in
                      let whole : weight u.unit_hash + load us < suc fuel =
                        subst (λ l. load l < suc fuel) i lt in
                      ih next.0 next.1 (omega arith) received.1

      track_loop-HasFound :
          (fuel : ℕ) (que : F.Queue) (found : List Utxo)
          → IsWeighted
          → load (F.items que) < fuel
          → All Exists found
          → HasFound (track_loop R F fuel que found)
      track_loop-HasFound zero que found heavy lt e = elim lt [ ]
      track_loop-HasFound (suc fuel) que found heavy lt e =
          track_loop-round fuel que found heavy lt e
            (λ que' found' l e'. track_loop-HasFound fuel que' found' heavy l e')

      -- Where every unit weighs more than the units that its inputs name, together, so that no unit
      -- rests on itself, and with fuel for more rounds than the output's unit weighs, the search
      -- ends: at an index out of range, blocked for ever at an input of an unknown type, or with
      -- outputs, each of which is an unspent output of some address.
      pub back_tracking_has_spent_utxo-HasFound :
          (fuel : ℕ) (unspent : Utxo)
          → IsWeighted
          → weight unspent.unit_hash < fuel
          → HasFound (back_tracking_has_spent_utxo R F fuel unspent)
      unfolding back_tracking_has_spent_utxo
      back_tracking_has_spent_utxo-HasFound fuel unspent heavy lt =
          track_loop-HasFound fuel (F.push F.new unspent) [] heavy
            (rw (items-push-new F unspent) (omega arith)) tt
