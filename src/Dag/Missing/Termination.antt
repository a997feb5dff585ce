-- ===== src/Dag/Missing/Termination.antt =====
-- When the walks of the two functions end, and when not.
use babyboy.Prelude.{
  ℕ, zero, suc, ◌+◌, ◌≤◌, ◌≡◌, refl, List, [], ◌∷◌, Bool, true, false, if◌then◌else◌, arith, length,
  elem, length-append, ap, All, ◌⊎◌, Bool-cases, inl, ◌++◌, inr, ◌&&◌, subst, ◌<◌, sym, All-append,
  if_elim, elem_of_All,
}
use babyboy.Int64.{slt}
use babyboy.Interface.{Fifo, returns, out_of_fuel, items-push-pop, items-push-new, empty_of_cons}
use babyboy.Types.Hash.{Hash}
use babyboy.Types.Unit.{DagUnit, UnitJson}
use babyboy.Graphop.HashMap
use babyboy.Graphop.HashMap.{HashMap, exists, read_after}
use babyboy.Dag.GraphInfo.{UnitTable, GraphInfoGetter, get_unit_by_hash, ensure_best_parent}
use babyboy.Dag.Missing.{
  Walk, add_unstable, visit, on_main_chain_loop, get_missing_stable_units_hash_on_main_chain,
  record_ball, not, seed, visit_all, missing_loop,
}

module _ (F : Fifo Hash) where
  on_main_chain_loop-runs_on :
      (db : UnitTable) (s k fuel : ℕ) (h : Hash) (que : F.Queue) (balls : HashMap)
      → F.items que ≡ h ∷ []
      → on_main_chain_loop F db s k fuel que balls ≡ out_of_fuel
  unfolding on_main_chain_loop
  on_main_chain_loop-runs_on db s k zero h que balls one = refl
  on_main_chain_loop-runs_on db s k (suc fuel) h que balls one = ground (
    arith,
    empty_of_cons F que h [] one,
    F.front_items que h [] one,
    on_main_chain_loop-runs_on db s k fuel (get_unit_by_hash db h).best_parent_unit
        (F.push (F.pop que) (get_unit_by_hash db h).best_parent_unit)
        (record_ball F s k h (get_unit_by_hash db h) balls) (items-push-pop F que h _ one),
  )

  -- Each round puts one hash back for the one it takes, so the loop of
  -- GetMissingStableUnitsHashOnMainChain never ends: whatever the fuel, the call has not returned,
  -- unless `lastKnownMCI` is above `lastStableMCI`, when it returns no hash.
  pub get_missing_on_main_chain-runs_on :
      (is_sorted : List DagUnit → Bool) (sort : List DagUnit → List DagUnit)
      (digest : UnitJson → Hash) (gig : GraphInfoGetter) (last_stable last_known fuel : ℕ)
      → get_missing_stable_units_hash_on_main_chain F is_sorted sort digest fuel gig last_stable
          last_known
        ≡ (if slt last_stable last_known then returns [] else out_of_fuel)
  unfolding get_missing_stable_units_hash_on_main_chain
  get_missing_on_main_chain-runs_on is_sorted sort digest gig s k fuel = ground (
    arith,
    on_main_chain_loop-runs_on (ensure_best_parent digest gig).db s k fuel
        (ensure_best_parent digest gig).best_parent
        (F.push F.new (ensure_best_parent digest gig).best_parent) HashMap.new_hash_map
        (items-push-new F _),
  )

-- How many hashes of `universe` a map does not hold yet.
abbrev pub remaining : List Hash → HashMap → ℕ
remaining [] m = 0
remaining (h ∷ hs) m = (if exists m h then 0 else 1) + remaining hs m

remaining-insert :
    (universe : List Hash) (m : HashMap) (h : Hash) (u : DagUnit)
    → (remaining universe (HashMap.insert m h u) ≤ remaining universe m)
remaining-insert [] m h u = omega arith
remaining-insert (x ∷ xs) m h u = ground (arith, remaining-insert xs m h u, (read_after m h x u).2)

remaining-insert_new :
    (universe : List Hash) (m : HashMap) (h : Hash) (u : DagUnit)
    → elem h universe ≡ true
    → exists m h ≡ false
    → remaining universe (HashMap.insert m h u) + 1 ≤ remaining universe m
remaining-insert_new [] m h u e x = cc
remaining-insert_new (y ∷ ys) m h u e x =
    ground (arith, remaining-insert ys m h u, remaining-insert_new ys m h u, (read_after m h y u).2)

module _ (F : Fifo Hash) (db : UnitTable) (universe : List Hash) where
  -- The hashes still to insert, and those in the queue.
  abbrev pub potential : Walk F → ℕ
  potential w = remaining universe w.stable + remaining universe w.unstable + length (F.items w.que)

  potential-visit :
      (k : ℕ) (val : Hash) (w : Walk F)
      → elem val universe ≡ true
      → potential (visit F db k val w) ≤ potential w
  unfolding visit add_unstable
  potential-visit k val w e = ground (
    arith,
    remaining-insert_new universe w.stable val (get_unit_by_hash db val) e,
    remaining-insert_new universe w.unstable val (get_unit_by_hash db val) e,
    ap length (F.items_push w.que val),
    length-append (F.items w.que) (val ∷ []),
  )

  potential-add_unstable :
      (val : Hash) (w : Walk F)
      → elem val universe ≡ true
      → potential (add_unstable F db val w) ≤ potential w
  unfolding add_unstable
  potential-add_unstable val w e = ground (
    arith,
    remaining-insert_new universe w.unstable val (get_unit_by_hash db val) e,
    ap length (F.items_push w.que val),
    length-append (F.items w.que) (val ∷ []),
  )

  abbrev pub Inside : List Hash → Type 0
  Inside hs = All (λ h. elem h universe ≡ true) hs

  -- What a step does to the queue.
  abbrev Queues : Hash → F.Queue → F.Queue → Type 0
  Queues val q q' = (F.items q' ≡ F.items q) ⊎ (F.items q' ≡ F.items q ++ (val ∷ []))

  add_unstable-Queues : (val : Hash) (w : Walk F) → Queues val w.que (add_unstable F db val w).que
  unfolding add_unstable
  add_unstable-Queues val w = elim (Bool-cases (exists w.unstable val)) [
    | inl e ↦ rw e (inl refl)
    | inr e ↦ rw e (inr (F.items_push w.que val))
  ]

  visit-Queues : (k : ℕ) (val : Hash) (w : Walk F) → Queues val w.que (visit F db k val w).que
  unfolding visit
  visit-Queues k val w =
      if_elim (λ (w' : Walk F). Queues val w.que w'.que) (get_unit_by_hash db val).is_stable
        (if_elim (λ (w' : Walk F). Queues val w.que w'.que)
          (not (exists w.stable val) && slt k (get_unit_by_hash db val).main_chain_index)
          (inr (F.items_push w.que val)) (inl refl))
        (add_unstable-Queues val w)

  Inside-Queues :
      (val : Hash) (q q' : F.Queue)
      → elem val universe ≡ true
      → Queues val q q'
      → Inside (F.items q)
      → Inside (F.items q')
  Inside-Queues val q q' e (inl p) i = subst Inside (sym p) i
  Inside-Queues val q q' e (inr p) i =
      subst Inside (sym p)
        (All-append (λ h. elem h universe ≡ true) (F.items q) (val ∷ []) i (e, tt))

  pub seed-fits :
      (vals : List Hash) (w : Walk F)
      → Inside vals
      → Inside (F.items w.que)
      → Inside (F.items (seed F db vals w).que) × (potential (seed F db vals w) ≤ potential w)
  unfolding seed
  seed-fits [] w v i = (i, omega arith)
  seed-fits (val ∷ vals) w v i = ground (
    arith,
    seed-fits vals (add_unstable F db val w) v.1
        (Inside-Queues val w.que _ v.0 (add_unstable-Queues val w) i),
    potential-add_unstable val w v.0,
  )

  visit_all-fits :
      (k : ℕ) (vals : List Hash) (w : Walk F)
      → Inside vals
      → Inside (F.items w.que)
      → Inside (F.items (visit_all F db k vals w).que)
        × (potential (visit_all F db k vals w) ≤ potential w)
  unfolding visit_all
  visit_all-fits k [] w v i = (i, omega arith)
  visit_all-fits k (val ∷ vals) w v i = ground (
    arith,
    visit_all-fits k vals (visit F db k val w) v.1
        (Inside-Queues val w.que _ v.0 (visit-Queues k val w) i),
    potential-visit k val w v.0,
  )

  -- The parents of every hash of the universe lie in it.
  abbrev pub IsClosed : Type 0
  IsClosed = All (λ h. Inside (get_unit_by_hash db h).parent_list) universe

  -- The walk after a round that takes `h` off the queue.
  abbrev after_round : ℕ → Hash → Walk F → Walk F
  after_round k h w =
      visit_all F db k (get_unit_by_hash db h).parent_list (record w { que = F.pop w.que })

  after_round-fits :
      (k : ℕ) (h : Hash) (hs : List Hash) (w : Walk F)
      → IsClosed
      → Inside (F.items w.que)
      → F.items w.que ≡ h ∷ hs
      → Inside (F.items (after_round k h w).que) × (potential (after_round k h w) + 1 ≤ potential w)
  after_round-fits k h hs w c i e = (fits.0, omega (arith, fits.1, ap length popped, ap length e))
    where
      popped : F.items (F.pop w.que) ≡ hs
      popped = F.items_pop w.que h hs e

      inside : Inside (h ∷ hs)
      inside = subst Inside e i

      fits :
          Inside (F.items (after_round k h w).que)
          × (potential (after_round k h w) ≤ potential (record w { que = F.pop w.que }))
      fits =
          visit_all-fits k (get_unit_by_hash db h).parent_list (record w { que = F.pop w.que })
            (elem_of_All (λ z. Inside (get_unit_by_hash db z).parent_list) h universe c inside.0)
            (subst Inside (sym popped) inside.1)

  pub missing_loop-returns :
      (k fuel : ℕ) (w : Walk F)
      → IsClosed
      → Inside (F.items w.que)
      → potential w < fuel
      → (w' : Walk F) × (missing_loop F db k fuel w ≡ returns w')
  unfolding missing_loop
  missing_loop-returns k zero w c i lt = elim lt [ ]
  missing_loop-returns k (suc fuel) w c i lt =
      round (F.items w.que) refl (λ w'. missing_loop-returns k fuel w' c)
    where
      round :
          (hs : List Hash)
          → F.items w.que ≡ hs
          → ((w' : Walk F)
              → Inside (F.items w'.que)
              → potential w' < fuel
              → (out : Walk F) × (missing_loop F db k fuel w' ≡ returns out))
          → (out : Walk F) × (missing_loop F db k (suc fuel) w ≡ returns out)
      round [] e again = (w, ground (arith, F.empty_items w.que))
      round (h ∷ hs) e again = (
        (again (after_round k h w) fits.0 (omega (arith, fits.1))).0,
        ground (
          arith,
          F.front_items w.que h hs e,
          F.empty_items w.que,
          (again (after_round k h w) fits.0 (omega (arith, fits.1))).1,
        ),
      )
        where
          fits :
              Inside (F.items (after_round k h w).que)
              × (potential (after_round k h w) + 1 ≤ potential w)
          fits = after_round-fits k h hs w c i e
