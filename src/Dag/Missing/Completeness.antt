-- ===== src/Dag/Missing/Completeness.antt =====
-- GetMissingUnits: its lists leave out nothing that the peer may lack.
use babyboy.Graphop.HashMap.{exists}
use babyboy.Dag.Missing.Termination.{Inside, IsClosed}
use babyboy.Dag.Missing.Soundness.{IsNewEntry, IsEntry, IsSound, walk-IsSound}
use babyboy.Prelude.{
  ℕ, zero, suc, ◌≡◌, refl, List, [], ◌∷◌, map, true, ◌==◌, arith, elem, All, Bool-cases, ap, subst,
  sym, ◌∙◌, inr, inl, ◌⊎◌, ==_iff, if_elim, ◌*◌, length, ◌<◌, ◌++◌,
}
use mathlib.Core.List.{Memᴰ}
use mathlib.Core.List.Memᴰ
use babyboy.Interface.{Fifo, returns}
use babyboy.Types.Hash.{Hash}
use babyboy.Types.Unit.{DagUnit}
use babyboy.Graphop.Assoc.{lookup, is_some}
use babyboy.Graphop.HashMap
use babyboy.Dag.GraphInfo.{UnitTable, get_unit_by_hash, GraphInfoGetter}
use babyboy.Dag.Missing.{
  Walk, visit_all, missing_loop, Bool, ordered, get_missing_units, not, slt, false, seed, start,
}
use babyboy.Dag.Missing.Follows.{
  is_missing, seen, queued, Follows, visit_all-Follows, seen-visit_all, Lacks, tip, parent,
  seed-Follows, seen-seed,
}

Memᴰ-lookup :
    (f : Hash → DagUnit) (h : Hash) (m : List (Hash × DagUnit))
    → All (λ (e : Hash × DagUnit). e.1 ≡ f e.0) m
    → is_some (lookup h m) ≡ true
    → Memᴰ (f h) (map (λ (e : Hash × DagUnit). e.1) m)
Memᴰ-lookup f h [] a e = cc
Memᴰ-lookup f h ((j, u) ∷ m) a e = elim (Bool-cases (j == h)) [
  | inl q ↦ Memᴰ.head (sym (a.0 ∙ ap f ((==_iff j h).0 q)))
  | inr n ↦ Memᴰ.tail (Memᴰ-lookup f h m a.1 (ground arith))
]

module _ (F : Fifo Hash) (db : UnitTable) (k : ℕ) where
  -- Every hash seen is queued, or its missing parents have been seen.
  abbrev IsSettled : Walk F → Type 0
  IsSettled w =
      (h : Hash)
      → seen db k F w h ≡ true
      → (queued db k F w h ≡ true)
        ⊎ ((p : Hash)
            → elem p (get_unit_by_hash db h).parent_list ≡ true
            → is_missing db k p ≡ true
            → seen db k F w p ≡ true)

  round-IsSettled :
      (w : Walk F) (h : Hash) (hs : List Hash)
      → F.items w.que ≡ h ∷ hs
      → IsSettled w
      → IsSettled
          (visit_all F db k (get_unit_by_hash db h).parent_list (record w { que = F.pop w.que }))
  round-IsSettled w h hs e s x sx = elim (Bool-cases (seen db k F popped x)) [
    | inr n ↦ inl (ground (arith, follows.fresh x sx))
    | inl y ↦ elim (s x y) [
      | inr closed ↦ inr (λ p pe m. follows.kept p (closed p pe m))
      | inl q ↦ elim (Bool-cases (h == x)) [
        | inl hx ↦ inr (λ p pe m.
            seen-visit_all db k F (get_unit_by_hash db h).parent_list popped p
              (subst (λ z. elem p (get_unit_by_hash db z).parent_list ≡ true)
                (sym ((==_iff h x).0 hx)) pe)
              m)
        | inr n ↦ inl (
            follows.waits x
              (ground (arith, ap (elem x) (F.items_pop w.que h hs e), ap (elem x) e, q)))
      ]
    ]
  ]
    where
      popped : Walk F
      popped = record w { que = F.pop w.que }

      follows : Follows db k F popped (visit_all F db k (get_unit_by_hash db h).parent_list popped)
      follows = visit_all-Follows db k F (get_unit_by_hash db h).parent_list popped

  -- When the loop has ended, the missing parents of what was seen have been seen.
  abbrev HasSeenParents : Walk F → Type 0
  HasSeenParents w =
      (h p : Hash)
      → seen db k F w h ≡ true
      → elem p (get_unit_by_hash db h).parent_list ≡ true
      → is_missing db k p ≡ true
      → seen db k F w p ≡ true

  missing_loop-HasSeenParents :
      (fuel : ℕ) (w out : Walk F)
      → IsSettled w
      → missing_loop F db k fuel w ≡ returns out
      → HasSeenParents out × ((h : Hash) → seen db k F w h ≡ true → seen db k F out h ≡ true)
  unfolding missing_loop
  missing_loop-HasSeenParents zero w out s e = cc
  missing_loop-HasSeenParents (suc fuel) w out s e =
      round (F.items w.que) refl (λ v. missing_loop-HasSeenParents fuel v out)
    where
      round :
          (hs : List Hash)
          → F.items w.que ≡ hs
          → ((v : Walk F)
              → IsSettled v
              → missing_loop F db k fuel v ≡ returns out
              → HasSeenParents out
                × ((h : Hash) → seen db k F v h ≡ true → seen db k F out h ≡ true))
          → HasSeenParents out × ((h : Hash) → seen db k F w h ≡ true → seen db k F out h ≡ true)
      round [] i again =
          subst
            (λ (v : Walk F).
              HasSeenParents v × ((h : Hash) → seen db k F w h ≡ true → seen db k F v h ≡ true))
            ended
            (
              λ h p sh pe m. elim (s h sh) [
                | inl q ↦ absurd (ground (arith, ap (elem h) i, q))
                | inr closed ↦ closed p pe m
              ],
              λ h sh. sh,
            )
        where
          ended : w ≡ out
          ended = ground (arith, F.empty_items w.que)
      round (h ∷ hs) i again =
          let (parents_seen, kept) =
            again next (round-IsSettled w h hs i s)
              (ground (arith, F.front_items w.que h hs i, F.empty_items w.que)) in
          (
            parents_seen,
            λ x sx. kept x (
                (visit_all-Follows db k F (get_unit_by_hash db h).parent_list
                    (record w { que = F.pop w.que })).kept
                  x sx),
          )
        where
          next : Walk F
          next =
              visit_all F db k (get_unit_by_hash db h).parent_list (record w { que = F.pop w.que })

  Lacks-seen :
      (tips : List Hash) (w : Walk F)
      → ((h : Hash) → elem h tips ≡ true → seen db k F w h ≡ true)
      → HasSeenParents w
      → (h : Hash) → Lacks db k tips h
      → seen db k F w h ≡ true
  Lacks-seen tips w first closed h (tip e) = first h e
  Lacks-seen tips w first closed h (parent {h = g} l e m) =
      closed g h (Lacks-seen tips w first closed g l) e m

module _ (F : Fifo Hash) (is_sorted : List DagUnit → Bool) (sort : List DagUnit → List DagUnit)
    (sort-All : (P : DagUnit → Type 0) (us : List DagUnit) → All P us → All P (sort us))
    (sort-Memᴰ : (u : DagUnit) (us : List DagUnit) → Memᴰ u us → Memᴰ u (sort us)) where
  ordered-Memᴰ :
      (u : DagUnit) (us : List DagUnit) → Memᴰ u us → Memᴰ u (ordered F is_sorted sort us)
  unfolding ordered
  ordered-Memᴰ u us m = if_elim (Memᴰ u) (not (is_sorted us)) (sort-Memᴰ u us m) m

  All-IsEntry :
      (db : UnitTable) (k : ℕ) (es : List (Hash × DagUnit))
      → All (IsNewEntry F db k) es
      → All (IsEntry F db k) es
  All-IsEntry db k [] a = tt
  All-IsEntry db k (e ∷ es) a = (a.0.2, All-IsEntry db k es a.1)

  -- Between them the two lists of GetMissingUnits have every unit that the peer may lack: the tips,
  -- and from each unit that is listed on, every parent that is not stable or is above the index
  -- that the peer knows. (The peer's index is not above the own one; the tips lie in a finite list
  -- of hashes that is closed under parents, and the fuel is more than twice its length; `sort` is
  -- to rearrange the list it is given.)
  pub get_missing_units-HasAll :
      (gig : GraphInfoGetter) (universe : List Hash) (s k fuel : ℕ)
      → slt s k ≡ false
      → Inside F gig.db universe gig.parent_list
      → IsClosed F gig.db universe
      → 2 * length universe < fuel
      → (stable : List DagUnit) × (unstable : List DagUnit) × (get_missing_units F is_sorted sort
            fuel gig s k
          ≡ returns (stable, unstable))
        × ((h : Hash)
            → Lacks gig.db k gig.parent_list h
            → Memᴰ (get_unit_by_hash gig.db h) (stable ++ unstable))
  unfolding get_missing_units HashMap.get_all_value
  get_missing_units-HasAll gig universe s k fuel sk i c lt =
      let (w, e, sound) = walk-IsSound F gig universe k fuel i c lt in
      let (closed, kept) =
        missing_loop-HasSeenParents F gig.db k fuel seeded w seeded-IsSettled e in
      (
        ordered F is_sorted sort (map (λ e. e.1) w.stable.entries),
        ordered F is_sorted sort (map (λ e. e.1) w.unstable.entries),
        ground (arith, e),
        λ h l. listed w sound h (
            Lacks-seen F gig.db k gig.parent_list w
              (λ t te. kept t (seen-seed gig.db k F gig.parent_list (start F) t te)) closed h l),
      )
    where
      seeded : Walk F
      seeded = seed F gig.db gig.parent_list (start F)

      seeded-IsSettled :
          (h : Hash)
          → seen gig.db k F seeded h ≡ true
          → (queued gig.db k F seeded h ≡ true)
            ⊎ ((p : Hash)
                → elem p (get_unit_by_hash gig.db h).parent_list ≡ true
                → is_missing gig.db k p ≡ true
                → seen gig.db k F seeded p ≡ true)
      seeded-IsSettled h e = inl (
          unfold start HashMap.new_hash_map HashMap.exists in
          (seed-Follows gig.db k F gig.parent_list (start F)).fresh h e)

      listed :
          (w : Walk F)
          → IsSound F gig.db k w
          → (h : Hash) → seen gig.db k F w h ≡ true
          → Memᴰ (get_unit_by_hash gig.db h) (
              ordered F is_sorted sort (map (λ e. e.1) w.stable.entries)
              ++ ordered F is_sorted sort (map (λ e. e.1) w.unstable.entries))
      listed w sound h e = elim (Bool-cases (exists w.stable h)) [
        | inl x ↦ Memᴰ.append_left (ordered F is_sorted sort (map (λ e. e.1) w.unstable.entries)) (
            ordered-Memᴰ (get_unit_by_hash gig.db h) (map (λ e. e.1) w.stable.entries) (
              Memᴰ-lookup (get_unit_by_hash gig.db) h w.stable.entries
                (All-IsEntry gig.db k w.stable.entries sound.stable_ok)
                (unfold HashMap.exists in x)))
        | inr n ↦ Memᴰ.append_right (ordered F is_sorted sort (map (λ e. e.1) w.stable.entries)) (
            ordered-Memᴰ (get_unit_by_hash gig.db h) (map (λ e. e.1) w.unstable.entries) (
              Memᴰ-lookup (get_unit_by_hash gig.db) h w.unstable.entries sound.unstable_ok
                (unfold HashMap.exists in ground arith)))
      ]
