-- ===== src/Dag/Missing/Follows.antt =====
-- GetMissingUnits: what its walk has seen, and what a visit adds.
use babyboy.Prelude.{
  ℕ, ◌≡◌, List, [], ◌∷◌, Bool, true, ◌&&◌, ◌||◌, not, ◌==◌, arith, elem, elem-append, Bool-cases,
  if_elim, ap, subst, sym, inr, inl, ==_iff,
}
use babyboy.Int64.{slt}
use babyboy.Interface.{Fifo}
use babyboy.Types.Hash.{Hash}
use babyboy.Types.Unit.{DagUnit}
use babyboy.Graphop.HashMap
use babyboy.Graphop.HashMap.{HashMap, exists, read_after}
use babyboy.Dag.GraphInfo.{UnitTable, get_unit_by_hash}
use babyboy.Dag.Missing.{Walk, add_unstable, seed, visit, visit_all}

module _ (db : UnitTable) (k : ℕ) where
  -- A parent that the walk follows: one that is not stable, or that is above the index that the
  -- peer knows.
  abbrev pub is_missing : Hash → Bool
  is_missing h =
      not (get_unit_by_hash db h).is_stable || slt k (get_unit_by_hash db h).main_chain_index

  -- What the peer may lack: the tips, and from there on the parents that are missing.
  pub data Lacks (tips : List Hash) : Hash → Type 0 where
    tip : {h : Hash} → elem h tips ≡ true → Lacks tips h
    parent :
        {h p : Hash}
        → Lacks tips h
        → elem p (get_unit_by_hash db h).parent_list ≡ true
        → is_missing p ≡ true
        → Lacks tips p

  module _ (F : Fifo Hash) where
    abbrev pub seen : Walk F → Hash → Bool
    seen w h = exists w.stable h || exists w.unstable h

    abbrev pub queued : Walk F → Hash → Bool
    queued w h = elem h (F.items w.que)

    -- What a visit does: it forgets nothing, and what is new is queued.
    pub record Follows (w w' : Walk F) : Type 0 where
      pub kept : (h : Hash) → seen w h ≡ true → seen w' h ≡ true
      pub waits : (h : Hash) → queued w h ≡ true → queued w' h ≡ true
      pub fresh : (h : Hash) → seen w' h ≡ true → (seen w h || queued w' h) ≡ true

    Follows-same : (w : Walk F) → Follows w w
    Follows-same w = record { kept = λ h e. e; waits = λ h e. e; fresh = λ h e. ground (arith, e) }

    Follows-trans : (u v w : Walk F) → Follows u v → Follows v w → Follows u w
    Follows-trans u v w f g = record {
      kept = λ h e. g.kept h (f.kept h e);
      waits = λ h e. g.waits h (f.waits h e);
      fresh = λ h e. ground (arith, g.fresh h e, f.fresh h, g.waits h);
    }

    insert_unstable-Follows :
        (val : Hash) (w : Walk F) (u : DagUnit)
        → Follows w
            (record w { unstable = HashMap.insert w.unstable val u; que = F.push w.que val })
    insert_unstable-Follows val w u = record {
      kept = λ h e. ground (arith, (read_after w.unstable val h u).2);
      waits = λ h e.
          ground
            (arith, ap (elem h) (F.items_push w.que val), elem-append h (F.items w.que) (val ∷ []));
      fresh = λ h e. ground (
        arith,
        (read_after w.unstable val h u).2,
        ap (elem h) (F.items_push w.que val),
        elem-append h (F.items w.que) (val ∷ []),
      );
    }

    insert_stable-Follows :
        (val : Hash) (w : Walk F) (u : DagUnit)
        → Follows w (record w { stable = HashMap.insert w.stable val u; que = F.push w.que val })
    insert_stable-Follows val w u = record {
      kept = λ h e. ground (arith, (read_after w.stable val h u).2);
      waits = λ h e.
          ground
            (arith, ap (elem h) (F.items_push w.que val), elem-append h (F.items w.que) (val ∷ []));
      fresh = λ h e. ground (
        arith,
        (read_after w.stable val h u).2,
        ap (elem h) (F.items_push w.que val),
        elem-append h (F.items w.que) (val ∷ []),
      );
    }

    add_unstable-Follows : (val : Hash) (w : Walk F) → Follows w (add_unstable F db val w)
    unfolding add_unstable
    add_unstable-Follows val w =
        if_elim (Follows w) (not (exists w.unstable val))
          (insert_unstable-Follows val w (get_unit_by_hash db val)) (Follows-same w)

    seen-add_unstable : (val : Hash) (w : Walk F) → seen (add_unstable F db val w) val ≡ true
    unfolding add_unstable
    seen-add_unstable val w =
        ground (arith, (read_after w.unstable val val (get_unit_by_hash db val)).2)

    visit-Follows : (val : Hash) (w : Walk F) → Follows w (visit F db k val w)
    unfolding visit
    visit-Follows val w =
        if_elim (Follows w) (get_unit_by_hash db val).is_stable
          (if_elim (Follows w)
            (not (exists w.stable val) && slt k (get_unit_by_hash db val).main_chain_index)
            (insert_stable-Follows val w (get_unit_by_hash db val)) (Follows-same w))
          (add_unstable-Follows val w)

    seen-visit :
        (val : Hash) (w : Walk F) → is_missing val ≡ true → seen (visit F db k val w) val ≡ true
    unfolding visit
    seen-visit val w m =
        ground (
          arith,
          (read_after w.stable val val (get_unit_by_hash db val)).2,
          seen-add_unstable val w,
        )

    pub seed-Follows : (vals : List Hash) (w : Walk F) → Follows w (seed F db vals w)
    unfolding seed
    seed-Follows [] w = Follows-same w
    seed-Follows (val ∷ vals) w =
        Follows-trans w (add_unstable F db val w) (seed F db vals (add_unstable F db val w))
          (add_unstable-Follows val w) (seed-Follows vals (add_unstable F db val w))

    pub seen-seed :
        (vals : List Hash) (w : Walk F) (h : Hash)
        → elem h vals ≡ true
        → seen (seed F db vals w) h ≡ true
    unfolding seed
    seen-seed [] w h e = cc
    seen-seed (val ∷ vals) w h e = elim (Bool-cases (val == h)) [
      | inl q ↦ (seed-Follows vals (add_unstable F db val w)).kept h (
          subst (λ x. seen (add_unstable F db val w) x ≡ true) ((==_iff val h).0 q)
            (seen-add_unstable val w))
      | inr n ↦ seen-seed vals (add_unstable F db val w) h (ground arith)
    ]

    pub visit_all-Follows : (vals : List Hash) (w : Walk F) → Follows w (visit_all F db k vals w)
    unfolding visit_all
    visit_all-Follows [] w = Follows-same w
    visit_all-Follows (val ∷ vals) w =
        Follows-trans w (visit F db k val w) (visit_all F db k vals (visit F db k val w))
          (visit-Follows val w) (visit_all-Follows vals (visit F db k val w))

    pub seen-visit_all :
        (vals : List Hash) (w : Walk F) (p : Hash)
        → elem p vals ≡ true
        → is_missing p ≡ true
        → seen (visit_all F db k vals w) p ≡ true
    unfolding visit_all
    seen-visit_all [] w p e m = cc
    seen-visit_all (val ∷ vals) w p e m = elim (Bool-cases (val == p)) [
      | inl q ↦ (visit_all-Follows vals (visit F db k val w)).kept p (
          subst (λ x. seen (visit F db k x w) p ≡ true) (sym ((==_iff val p).0 q))
            (seen-visit p w m))
      | inr n ↦ seen-visit_all vals (visit F db k val w) p (ground arith) m
    ]
