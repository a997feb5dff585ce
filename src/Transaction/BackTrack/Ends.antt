-- ===== src/Transaction/BackTrack/Ends.antt =====
-- The search of BackTrackingUTXO ends.
use babyboy.Types.Hash.{Hash}
use babyboy.Prelude.{
  refl, none, some, [], ◌∷◌, ◌+◌, ◌<◌, ◌≤◌, true, false, zero, suc, inl, inr, ℕ, Option, List, Bool,
  arith, ◌≡◌, Option-cases, Bool-cases, subst,
}
use babyboy.Types.Payment.{Utxo, Input, new_utxo, Message}
use babyboy.Interface.{Fifo, empty_of_cons}
use babyboy.Transaction.Ledger.{InputKind, witness_commission, miner_commission, payment, unknown}
use babyboy.Transaction.Auth.{Reads, ResultBack, Tracked, runs_on, input_unit, without_author}
use babyboy.Transaction.Auth.Track.{inputs_weight, load, load-append, channels_weight, IsWeighted}
use babyboy.Transaction.BackTrack.{
  back_utxo, send_back, is_input_has_spent, back_channels, Round, receive_back, back_loop, Author,
  DagUnit, input_kind,
}

module _ (R : Reads) (weight : Hash → ℕ) where
  abbrev IsLight : ℕ → Option (List (Option ResultBack)) → Type 0
  IsLight n none = Unit
  IsLight n (some chs) = channels_weight R weight chs ≤ n

  light_one :
      (kind : InputKind) (author : Author) (x : Input) (n : ℕ) (chs : List (Option ResultBack))
      → channels_weight R weight chs ≤ n
      → channels_weight R weight (send_back R author x (back_utxo R kind x) ∷ chs)
        ≤ weight (input_unit R x).hash + n
  unfolding new_utxo
  light_one witness_commission author x n chs w = omega arith
  light_one miner_commission author x n chs w = omega arith
  light_one payment author x n chs w = omega arith
  light_one unknown author x n chs w = omega arith

  without_author-IsLight :
      (kind : InputKind) (m n : ℕ) (chs : Option (List (Option ResultBack)))
      → IsLight n chs
      → IsLight (m + n) (without_author R kind chs)
  without_author-IsLight unknown m n (some chs) w = omega arith
  without_author-IsLight unknown m n none a = tt
  without_author-IsLight witness_commission m n chs a = tt
  without_author-IsLight miner_commission m n chs a = tt
  without_author-IsLight payment m n chs a = tt

  back_channels-IsLight :
      (authors : List Author) (xs : List Input)
      → IsLight (inputs_weight R weight xs) (back_channels R authors xs)
  unfolding back_channels is_input_has_spent
  back_channels-IsLight authors [] = omega arith
  back_channels-IsLight (author ∷ rest) (x ∷ xs) =
      elim (Option-cases (back_channels R (author ∷ rest) xs)) [
        | inl n ↦ rw n tt
        | inr (chs, s) ↦ rw s (
            light_one (input_kind x.type_of) author x (inputs_weight R weight xs) chs (
              subst (IsLight (inputs_weight R weight xs)) s
                (back_channels-IsLight (author ∷ rest) xs)))
      ]
  back_channels-IsLight [] (x ∷ xs) =
      without_author-IsLight (input_kind x.type_of) (weight (input_unit R x).hash)
        (inputs_weight R weight xs) (back_channels R [] xs) (back_channels-IsLight [] xs)

  module _ (F : Fifo Utxo) where
    abbrev IsShort : ℕ → Option (Round R F) → Type 0
    IsShort n none = Unit
    IsShort n (some r) = load R weight (F.items r.que) ≤ n

    receive_back-IsShort :
        (chs : List (Option ResultBack)) (r : Round R F) (n : ℕ)
        → load R weight (F.items r.que) + channels_weight R weight chs ≤ n
        → IsShort n (receive_back R F chs r)
    unfolding receive_back
    receive_back-IsShort [] r n w = omega arith
    receive_back-IsShort (none ∷ chs) r n w = tt
    receive_back-IsShort (some result ∷ chs) r n w = elim (Bool-cases result.stable) [
      | inl s ↦ rw s (
          receive_back-IsShort chs (record r { back_track_result = result.exist; is_break = true })
            n (omega arith))
      | inr s ↦
          rw s (receive_back-IsShort chs (record r { que = F.push r.que result.utxo }) n pushed)
    ]
      where
        pushed :
            load R weight (F.items (F.push r.que result.utxo)) + channels_weight R weight chs ≤ n
        pushed = rw (F.items_push r.que result.utxo, load-append) (omega arith)

    abbrev pub HasEnded : Tracked Bool → Type 0
    HasEnded runs_on = ⊥
    HasEnded _ = Unit

    back_loop-round :
        (fuel : ℕ) (que : F.Queue) (result : Bool)
        → IsWeighted R weight
        → load R weight (F.items que) < suc fuel
        → ((que' : F.Queue) (result' : Bool)
            → load R weight (F.items que') < fuel
            → HasEnded (back_loop R F fuel que' result'))
        → HasEnded (back_loop R F (suc fuel) que result)
    unfolding back_loop
    back_loop-round fuel que result heavy lt ih = at_items (F.items que) refl
      where
        at_items :
            (us : List Utxo) → F.items que ≡ us → HasEnded (back_loop R F (suc fuel) que result)
        at_items [] i =
            let done : F.empty que ≡ true = ground (arith, F.empty_items que) in
            rw (done, back_loop) tt
        at_items (u ∷ us) i = elim (Option-cases (R.get_unit_by_hash (F.front que).unit_hash)) [
          | inl n ↦ rw (busy, n, back_loop) tt
          | inr (unit, s) ↦ at_messages unit s unit.messages refl
        ]
          where
            busy : F.empty que ≡ false
            busy = empty_of_cons F que u us i

            at_messages :
                (unit : DagUnit)
                → R.get_unit_by_hash (F.front que).unit_hash ≡ some unit
                → (ms : List Message) → unit.messages ≡ ms
                → HasEnded (back_loop R F (suc fuel) que result)
            at_messages unit s [] m = rw (busy, s, m, back_loop) tt
            at_messages unit s (message ∷ more) m =
                elim (Option-cases (back_channels R unit.authors message.payload.inputs)) [
                  | inl n ↦ rw (busy, s, m, n, back_loop) tt
                  | inr (chs, c) ↦ at_round chs c
                ]
              where
                at_round :
                    (chs : List (Option ResultBack))
                    → back_channels R unit.authors message.payload.inputs ≡ some chs
                    → HasEnded (back_loop R F (suc fuel) que result)
                at_round chs c =
                    let start : Round R F = record {
                      que = F.pop que;
                      back_track_result = result;
                      is_break = false;
                    } in
                    let n = load R weight us + inputs_weight R weight message.payload.inputs in
                    let made =
                      subst (IsLight (inputs_weight R weight message.payload.inputs)) c
                        (back_channels-IsLight unit.authors message.payload.inputs) in
                    let popped : load R weight (F.items (F.pop que)) + channels_weight R weight chs
                        ≤ n =
                      rw (F.items_pop que u us i) (omega arith) in
                    let heavier : inputs_weight R weight message.payload.inputs
                        < weight u.unit_hash =
                      rw⁻¹ (F.front_items que u us i)
                        (heavy (F.front que).unit_hash unit message more s m) in
                    let whole : weight u.unit_hash + load R weight us < suc fuel =
                      subst (λ l. load R weight l < suc fuel) i lt in
                    elim (Option-cases (receive_back R F chs start)) [
                      | inl b ↦ rw (busy, s, m, c, b, back_loop) tt
                      | inr (r, q) ↦ elim (Bool-cases r.is_break) [
                        | inl t ↦ rw (busy, s, m, c, q, t, back_loop) tt
                        | inr f ↦
                            let short =
                              subst (IsShort n) q (receive_back-IsShort chs start n popped) in
                            rw (busy, s, m, c, q, f, back_loop)
                              (ih r.que r.back_track_result (omega arith))
                      ]
                    ]

    pub back_loop-HasEnded :
        (fuel : ℕ) (que : F.Queue) (result : Bool)
        → IsWeighted R weight
        → load R weight (F.items que) < fuel
        → HasEnded (back_loop R F fuel que result)
    back_loop-HasEnded zero que result heavy lt = elim lt [ ]
    back_loop-HasEnded (suc fuel) que result heavy lt =
        back_loop-round fuel que result heavy lt
          (λ que' result' l. back_loop-HasEnded fuel que' result' heavy l)
