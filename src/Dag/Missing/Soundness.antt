-- ===== src/Dag/Missing/Soundness.antt =====
-- GetMissingUnits: it ends, and what its lists hold.
use babyboy.Prelude.{
  ℕ, zero, suc, ◌*◌, ◌≤◌, ◌<◌, ◌≡◌, refl, List, [], ◌∷◌, map, Bool, true, ◌&&◌, not, ◌==◌, arith,
  length, All, Bool-cases, if_elim, ap, subst, sym, inr, inl, if_elim_eq, some, none, ◌⊎◌,
  Option-cases, ◌∙◌, get_or,
}
use babyboy.Int64.{slt}
use babyboy.Interface.{Fifo, Outcome, returns}
use babyboy.Types.Hash.{Hash}
use babyboy.Types.Unit.{DagUnit, new_empty_unit}
use babyboy.Graphop.Assoc
use babyboy.Graphop.HashMap
use babyboy.Graphop.HashMap.{HashMap, exists, read_after}
use babyboy.Dag.GraphInfo.{UnitTable, GraphInfoGetter, get_unit_by_hash}
use babyboy.Dag.Missing.{
  Walk, add_unstable, seed, visit, visit_all, missing_loop, start, ordered, get_missing_units,
}
use babyboy.Dag.Missing.Termination.{
  Inside, IsClosed, potential, remaining, seed-fits, missing_loop-returns,
}

All-put :
    {V : Type 0} (P : ℕ × V → Type 0) (h : ℕ) (v : V) (m : List (ℕ × V))
    → P (h, v)
    → All P m
    → All P (Assoc.put h v m)
All-put P h v [] p a = (p, tt)
All-put P h v ((k, w) ∷ m) p a =
    if_elim (All P) (k == h) {x = (h, v) ∷ m} {y = (k, w) ∷ Assoc.put h v m} (p, a.1)
      (a.0, All-put P h v m p a.1)

All-map :
    {A B : Type 0} (P : A → Type 0) (Q : B → Type 0) (f : A → B) (xs : List A)
    → ((a : A) → P a → Q (f a))
    → All P xs
    → All Q (map f xs)
All-map P Q f [] g a = tt
All-map P Q f (x ∷ xs) g a = (g x a.0, All-map P Q f xs g a.1)

-- The database holds the unit.
abbrev pub Stored : UnitTable → DagUnit → Type 0
Stored db u = (h : Hash) × (db h ≡ some u)

-- The unit is the empty one that stands for a hash under which the database holds none.
abbrev pub Dangles : UnitTable → DagUnit → Type 0
Dangles db u = (h : Hash) × (db h ≡ none) × (u ≡ new_empty_unit)

get_unit_by_hash-cases :
    (db : UnitTable) (h : Hash)
    → (db h ≡ some (get_unit_by_hash db h))
      ⊎ ((db h ≡ none) × (get_unit_by_hash db h ≡ new_empty_unit))
unfolding get_unit_by_hash
get_unit_by_hash-cases db h = elim (Option-cases (db h)) [
  | inl n ↦ inr (n, ap (λ o. get_or o new_empty_unit) n)
  | inr (u, s) ↦ inl (s ∙ ap some (sym (ap (λ o. get_or o new_empty_unit) s)))
]

listed :
    (db : UnitTable) (h : Hash) (u : DagUnit)
    → u ≡ get_unit_by_hash db h
    → Stored db u ⊎ Dangles db u
listed db h u e = elim (get_unit_by_hash-cases db h) [
  | inl s ↦ inl (h, s ∙ ap some (sym e))
  | inr (n, z) ↦ inr (h, n, e ∙ z)
]

-- A stable unit is not the empty one.
stable-Stored :
    (db : UnitTable) (h : Hash) (u : DagUnit)
    → u.is_stable ≡ true
    → u ≡ get_unit_by_hash db h
    → Stored db u
stable-Stored db h u s e = elim (listed db h u e) [
  | inl stored ↦ stored
  | inr (k, n, z) ↦
      let empty : new_empty_unit.is_stable ≡ true = subst (λ x. x.is_stable ≡ true) z s in
      absurd (ground arith)
]

-- It is stable, above the index that the peer knows, and the database holds it.
abbrev pub NewStable : UnitTable → ℕ → DagUnit → Type 0
NewStable db k u = (u.is_stable ≡ true) × (slt k u.main_chain_index ≡ true) × Stored db u

module _ (F : Fifo Hash) (db : UnitTable) (k : ℕ) where
  -- An entry has the database's unit under its hash; in the first map a stable one, above the
  -- index that the peer knows.
  abbrev pub IsEntry : Hash × DagUnit → Type 0
  IsEntry e = e.1 ≡ get_unit_by_hash db e.0

  abbrev pub IsNewEntry : Hash × DagUnit → Type 0
  IsNewEntry e = (e.1.is_stable ≡ true) × (slt k e.1.main_chain_index ≡ true) × IsEntry e

  pub record IsSound (w : Walk F) : Type 0 where
    pub stable_ok : All IsNewEntry w.stable.entries
    pub unstable_ok : All IsEntry w.unstable.entries

  add_unstable-IsSound : (val : Hash) (w : Walk F) → IsSound w → IsSound (add_unstable F db val w)
  unfolding add_unstable HashMap.insert
  add_unstable-IsSound val w s =
      if_elim IsSound (not (exists w.unstable val))
        (record {
          stable_ok = s.stable_ok;
          unstable_ok =
              All-put IsEntry val (get_unit_by_hash db val) w.unstable.entries refl s.unstable_ok;
        })
        s

  visit-IsSound : (val : Hash) (w : Walk F) → IsSound w → IsSound (visit F db k val w)
  unfolding visit HashMap.insert
  visit-IsSound val w s =
      if_elim_eq IsSound (get_unit_by_hash db val).is_stable
        (λ stable.
          if_elim_eq IsSound
            (not (exists w.stable val) && slt k (get_unit_by_hash db val).main_chain_index)
            (λ new. record {
              stable_ok =
                  All-put IsNewEntry val (get_unit_by_hash db val) w.stable.entries
                    (stable, ground arith, refl) s.stable_ok;
              unstable_ok = s.unstable_ok;
            })
            (λ _. s))
        (λ _. add_unstable-IsSound val w s)

  seed-IsSound : (vals : List Hash) (w : Walk F) → IsSound w → IsSound (seed F db vals w)
  unfolding seed
  seed-IsSound [] w s = s
  seed-IsSound (val ∷ vals) w s =
      seed-IsSound vals (add_unstable F db val w) (add_unstable-IsSound val w s)

  visit_all-IsSound :
      (vals : List Hash) (w : Walk F) → IsSound w → IsSound (visit_all F db k vals w)
  unfolding visit_all
  visit_all-IsSound [] w s = s
  visit_all-IsSound (val ∷ vals) w s =
      visit_all-IsSound vals (visit F db k val w) (visit-IsSound val w s)

  missing_loop-IsSound :
      (fuel : ℕ) (w w' : Walk F) → IsSound w → missing_loop F db k fuel w ≡ returns w' → IsSound w'
  unfolding missing_loop
  missing_loop-IsSound zero w w' s e = cc
  missing_loop-IsSound (suc fuel) w w' s e = elim (Bool-cases (F.empty w.que)) [
    | inl t ↦ subst IsSound (ground arith) s
    | inr f ↦
        missing_loop-IsSound fuel (visit_all F db k parents (record w { que = F.pop w.que })) w'
          (visit_all-IsSound parents (record w { que = F.pop w.que })
            (record { stable_ok = s.stable_ok; unstable_ok = s.unstable_ok }))
          (ground arith)
  ]
    where
      parents : List Hash
      parents = (get_unit_by_hash db (F.front w.que)).parent_list

remaining-new : (universe : List Hash) → remaining universe HashMap.new_hash_map ≤ length universe
unfolding HashMap.new_hash_map
remaining-new [] = omega arith
remaining-new (h ∷ hs) = ground (arith, remaining-new hs)

-- What a call that is not refused by its guard returns.
abbrev pub Answers : UnitTable → ℕ → Outcome (List DagUnit × List DagUnit) → Type 0
Answers db k out =
    (stable : List DagUnit) × (unstable : List DagUnit) × (out ≡ returns (stable, unstable))
    × All (NewStable db k) stable
    × All (λ u. Stored db u ⊎ Dangles db u) unstable

module _ (F : Fifo Hash) where
  -- The walk of a call that is not refused: it ends, and both maps are sound.
  pub walk-IsSound :
      (gig : GraphInfoGetter) (universe : List Hash) (k fuel : ℕ)
      → Inside F gig.db universe gig.parent_list
      → IsClosed F gig.db universe
      → 2 * length universe < fuel
      → (w : Walk F) × (missing_loop F gig.db k fuel (seed F gig.db gig.parent_list (start F))
          ≡ returns w)
        × IsSound F gig.db k w
  unfolding start HashMap.new_hash_map
  walk-IsSound gig universe k fuel i c lt = (walk.0, walk.1, sound)
    where
      seeded : Walk F
      seeded = seed F gig.db gig.parent_list (start F)

      fits :
          Inside F gig.db universe (F.items seeded.que)
          × (potential F gig.db universe seeded ≤ potential F gig.db universe (start F))
      fits =
          seed-fits F gig.db universe gig.parent_list (start F) i
            (subst (Inside F gig.db universe) (sym F.items_new) tt)

      walk : (w : Walk F) × (missing_loop F gig.db k fuel seeded ≡ returns w)
      walk =
          missing_loop-returns F gig.db universe k fuel seeded c fits.0
            (omega (arith, fits.1, remaining-new universe, ap length F.items_new))

      sound : IsSound F gig.db k walk.0
      sound =
          missing_loop-IsSound F gig.db k fuel seeded walk.0
            (seed-IsSound F gig.db k gig.parent_list (start F)
              (record { stable_ok = tt; unstable_ok = tt }))
            walk.1

module _ (F : Fifo Hash) (is_sorted : List DagUnit → Bool) (sort : List DagUnit → List DagUnit)
    (sort-All : (P : DagUnit → Type 0) (us : List DagUnit) → All P us → All P (sort us)) where
  ordered-All :
      (P : DagUnit → Type 0) (us : List DagUnit) → All P us → All P (ordered F is_sorted sort us)
  unfolding ordered
  ordered-All P us a = if_elim (All P) (not (is_sorted us)) (sort-All P us a) a

  -- If the parents of the getter lie in a finite list of hashes that is closed under parents, then
  -- with fuel for more rounds than twice its length GetMissingUnits returns. Every unit of the
  -- first list is stable, has a main chain index above `lastKnownMCI` and is held by the database;
  -- every unit of the second is held by the database, or it is the empty unit, for a hash under
  -- which the database holds none. (`sort` is to rearrange the list it is given.)
  pub get_missing_units-Answers :
      (gig : GraphInfoGetter) (universe : List Hash) (s k fuel : ℕ)
      → Inside F gig.db universe gig.parent_list
      → IsClosed F gig.db universe
      → 2 * length universe < fuel
      → Answers gig.db k (get_missing_units F is_sorted sort fuel gig s k)
  unfolding get_missing_units HashMap.get_all_value
  get_missing_units-Answers gig universe s k fuel i c lt = elim (Bool-cases (slt s k)) [
    | inl t ↦ ([], [], ground arith, tt, tt)
    | inr f ↦
        let (w, e, sound) = walk-IsSound F gig universe k fuel i c lt in
        (
          ordered F is_sorted sort (map (λ e. e.1) w.stable.entries),
          ordered F is_sorted sort (map (λ e. e.1) w.unstable.entries),
          ground (arith, e),
          ordered-All (NewStable gig.db k) _ (
              All-map (IsNewEntry F gig.db k) (NewStable gig.db k) (λ e. e.1) w.stable.entries
                (λ e p. (p.0, p.1, stable-Stored gig.db e.0 e.1 p.0 p.2)) sound.stable_ok),
          ordered-All (λ u. Stored gig.db u ⊎ Dangles gig.db u) _
              (All-map (IsEntry F gig.db k) (λ u. Stored gig.db u ⊎ Dangles gig.db u) (λ e. e.1)
                w.unstable.entries (λ e p. listed gig.db e.0 e.1 p) sound.unstable_ok),
        )
  ]
