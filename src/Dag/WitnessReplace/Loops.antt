-- ===== src/Dag/WitnessReplace/Loops.antt =====
-- When the loops of the vote end, and with what.
use babyboy.Prelude.{
  ℕ, zero, suc, ◌≡◌, ◌≢◌, refl, sym, ap, ◌∙◌, List, [], ◌∷◌, ◌++◌, Bool, true, false, ◌&&◌, ◌||◌,
  not, if◌then◌else◌, is_nil, arith,
}
use babyboy.Interface.{Fifo, Outcome, returns, panics, out_of_fuel}
use babyboy.Types.Hash.{Hash, Address}
use babyboy.Types.Unit.{Author}
use babyboy.Graphop.AddressSet
use babyboy.Dag.GraphInfo.{get_unit_by_hash}
use babyboy.Dag.WitnessReplace.{
  WitnessReplacer, in_window, Counts, push_window, witness_set, count_loop, min_loop,
  get_replaced_witness, count_up,
}

module _ (F : Fifo Hash) (wr : WitnessReplacer) where
  -- Does one of the units lie in the window?
  abbrev pub any_in_window : List Hash → Bool
  any_in_window [] = false
  any_in_window (h ∷ hs) = in_window wr (get_unit_by_hash wr.db h) || any_in_window hs

  abbrev is_empty : F.Queue → Bool
  is_empty q = is_nil (F.items q)

  push_window-empty :
      (hs : List Hash) (que : F.Queue)
      → is_empty (push_window F wr hs que) ≡ (is_empty que && not (any_in_window hs))
  unfolding push_window
  push_window-empty [] que = ground arith
  push_window-empty (h ∷ hs) que = ground (
    arith,
    push_window-empty hs que,
    push_window-empty hs (F.push que h),
    ap is_nil (F.items_push que h),
    not_nil (F.items que),
  )
    where
      not_nil : (xs : List Hash) → is_nil (xs ++ (h ∷ [])) ≡ false
      not_nil [] = refl
      not_nil (x ∷ xs) = refl

  -- One turn of the loop with an entry in the queue.
  next_count : (Address → Bool) → ℕ → F.Queue → Counts → List Hash → List Author → Outcome Counts
  next_count counted fuel que mp parents [] = panics
  next_count counted fuel que mp parents (author ∷ _) =
      count_loop F wr counted fuel (push_window F wr parents que)
        (if counted author.address then count_up mp author.address else mp)

  count_loop-next :
      (counted : Address → Bool) (fuel : ℕ) (que : F.Queue) (mp : Counts)
      → F.empty que ≡ false
      → count_loop F wr counted (suc fuel) que mp
        ≡ next_count counted fuel que mp
            (get_unit_by_hash wr.db (F.front que)).parent_list
            (get_unit_by_hash wr.db (F.front que)).authors
  unfolding count_loop next_count
  count_loop-next counted fuel que mp n =
      ap
        (λ b. elim b [
          | true ↦ returns mp
          | false ↦ elim (get_unit_by_hash wr.db (F.front que)).authors [
            | [] ↦ panics
            | author ∷ _ ↦
                count_loop F wr counted fuel
                  (push_window F wr (get_unit_by_hash wr.db (F.front que)).parent_list que)
                  (if counted author.address then count_up mp author.address else mp)
          ]
        ])
        n
      ∙ by_authors (get_unit_by_hash wr.db (F.front que)).parent_list
          (get_unit_by_hash wr.db (F.front que)).authors
    where
      by_authors :
          (parents : List Hash) (authors : List Author)
          → elim authors [
            | [] ↦ panics
            | author ∷ _ ↦
                count_loop F wr counted fuel
                  (push_window F wr parents que)
                  (if counted author.address then count_up mp author.address else mp)
          ]
            ≡ next_count counted fuel que mp parents authors
      by_authors parents [] = refl
      by_authors parents (author ∷ _) = refl

  -- Nothing leaves the queue, so a walk that starts with an entry does not return.
  count_loop-runs_on :
      (counted : Address → Bool) (fuel : ℕ) (que : F.Queue) (mp out : Counts)
      → is_empty que ≡ false
      → count_loop F wr counted fuel que mp ≢ returns out
  unfolding count_loop next_count
  count_loop-runs_on counted zero que mp out n e = cc
  count_loop-runs_on counted (suc fuel) que mp out n e =
      turn (get_unit_by_hash wr.db (F.front que)).parent_list
        (get_unit_by_hash wr.db (F.front que)).authors
        (sym (count_loop-next counted fuel que mp (F.empty_items que ∙ n)) ∙ e)
        (λ q mp2 still. count_loop-runs_on counted fuel q mp2 out still)
    where
      turn :
          (parents : List Hash) (authors : List Author)
          → next_count counted fuel que mp parents authors ≡ returns out
          → ((q : F.Queue) (mp2 : Counts)
              → is_empty q ≡ false
              → count_loop F wr counted fuel q mp2 ≢ returns out)
          → ⊥
      turn parents [] e2 rec = cc
      turn parents (author ∷ _) e2 rec =
          rec (push_window F wr parents que)
            (if counted author.address then count_up mp author.address else mp)
            (push_window-empty parents que ∙ ap (λ b. b && not (any_in_window parents)) n) e2

  -- A window that holds a parent starts the loop with an entry, one that holds none with the empty queue.
  start-empty :
      is_empty (push_window F wr wr.parent_list F.new) ≡ not (any_in_window wr.parent_list)
  start-empty =
      push_window-empty wr.parent_list F.new
      ∙ ap (λ l. is_nil l && not (any_in_window wr.parent_list)) F.items_new

  count_loop-start :
      (counted : Address → Bool) (fuel : ℕ) (out : Counts)
      → any_in_window wr.parent_list ≡ true
      → count_loop F wr counted fuel (push_window F wr wr.parent_list F.new) [] ≢ returns out
  count_loop-start counted fuel out some_in =
      count_loop-runs_on counted fuel (push_window F wr wr.parent_list F.new) [] out
        (start-empty ∙ ap not some_in)

  count_loop-end :
      (counted : Address → Bool) (fuel : ℕ) (que : F.Queue) (mp : Counts)
      → F.empty que ≡ true
      → count_loop F wr counted (suc fuel) que mp ≡ returns mp
  unfolding count_loop
  count_loop-end counted fuel que mp done =
      ap
        (λ b. elim b [
          | true ↦ returns mp
          | false ↦ elim (get_unit_by_hash wr.db (F.front que)).authors [
            | [] ↦ panics
            | author ∷ _ ↦
                count_loop F wr counted fuel
                  (push_window F wr (get_unit_by_hash wr.db (F.front que)).parent_list que)
                  (if counted author.address then count_up mp author.address else mp)
          ]
        ])
        done

  count_loop-none :
      (counted : Address → Bool) (fuel : ℕ)
      → any_in_window wr.parent_list ≡ false
      → count_loop F wr counted (suc fuel) (push_window F wr wr.parent_list F.new) [] ≡ returns []
  count_loop-none counted fuel none_in =
      count_loop-end counted fuel (push_window F wr wr.parent_list F.new) []
        (F.empty_items (push_window F wr wr.parent_list F.new) ∙ (start-empty ∙ ap not none_in))

  after {ℓ} : {A : Type ℓ} → (Counts → A) → Outcome Counts → Outcome A
  after f (returns mp) = returns (f mp)
  after f panics = panics
  after f out_of_fuel = out_of_fuel

  after-runs_on {ℓ} :
      {A : Type ℓ} (f : Counts → A) (o : Outcome Counts) (out : A)
      → ((mp : Counts) → o ≢ returns mp)
      → after f o ≢ returns out
  unfolding after
  after-runs_on f (returns mp) out never e = never mp refl
  after-runs_on f panics out never e = cc
  after-runs_on f out_of_fuel out never e = cc

  min_loop-none : (ws : List Address) → min_loop F wr [] ws 0 0 ≡ (0, 0)
  unfolding min_loop
  min_loop-none [] = refl
  min_loop-none (w ∷ ws) = min_loop-none ws

  get_replaced_witness-after :
      (fuel : ℕ)
      → get_replaced_witness F wr fuel
        ≡ after
            (λ mp. min_loop F wr mp wr.witness_list 0 0)
            (count_loop F wr
              (AddressSet.exists (witness_set F wr))
              fuel
              (push_window F wr wr.parent_list F.new)
              [])
  unfolding get_replaced_witness after
  get_replaced_witness-after fuel = by_outcome (
      count_loop F wr (AddressSet.exists (witness_set F wr)) fuel
        (push_window F wr wr.parent_list F.new) [])
    where
      by_outcome :
          (o : Outcome Counts)
          → elim o [
            | returns mp ↦ returns (min_loop F wr mp wr.witness_list 0 0)
            | panics ↦ panics
            | out_of_fuel ↦ out_of_fuel
          ]
            ≡ after (λ mp. min_loop F wr mp wr.witness_list 0 0) o
      by_outcome (returns mp) = refl
      by_outcome panics = refl
      by_outcome out_of_fuel = refl

  -- If some parent lies in the window of the vote, GetReplacedWitness returns for no fuel: nothing
  -- is ever taken off its queue.
  pub get_replaced_witness-runs_on :
      (fuel : ℕ) (out : Address × ℕ)
      → any_in_window wr.parent_list ≡ true
      → get_replaced_witness F wr fuel ≢ returns out
  get_replaced_witness-runs_on fuel out some_in e =
      after-runs_on (λ mp. min_loop F wr mp wr.witness_list 0 0)
        (count_loop F wr (AddressSet.exists (witness_set F wr)) fuel
          (push_window F wr wr.parent_list F.new) [])
        out (λ mp. count_loop-start (AddressSet.exists (witness_set F wr)) fuel mp some_in)
        (sym (get_replaced_witness-after fuel) ∙ e)

  -- If no parent lies in the window, GetReplacedWitness returns the empty address and 0 times.
  pub get_replaced_witness-none :
      (fuel : ℕ)
      → any_in_window wr.parent_list ≡ false
      → get_replaced_witness F wr (suc fuel) ≡ returns (0, 0)
  unfolding after
  get_replaced_witness-none fuel none_in =
      get_replaced_witness-after (suc fuel)
      ∙ ap (after (λ mp. min_loop F wr mp wr.witness_list 0 0))
          (count_loop-none (AddressSet.exists (witness_set F wr)) fuel none_in)
      ∙ ap returns (min_loop-none wr.witness_list)
