-- ===== src/Dag/GraphInfo/StableBall.antt =====
-- GetLastStableBall and GetLastStableBallMCI: where the walk along the best parents ends.
use babyboy.Prelude.{ℕ, zero, suc, ◌<◌, ◌≡◌, refl, [], ◌∷◌, Bool, true, false, ◌&&◌, arith}
use babyboy.Interface.{Fifo, returns, out_of_fuel, items-push-pop, items-push-new, empty_of_cons}
use babyboy.Types.Hash.{Hash}
use babyboy.Types.Unit.{DagUnit, UnitJson, new_empty_unit}
use babyboy.Dag.GraphInfo.{
  UnitTable, GraphInfoGetter, get_unit_by_hash, ensure_best_parent, last_stable_loop,
  get_last_stable_ball, get_last_stable_ball_mci,
}

-- The unit `n` steps along the best parents.
abbrev pub ancestor : UnitTable → Hash → ℕ → DagUnit
ancestor db h zero = get_unit_by_hash db h
ancestor db h (suc n) = ancestor db (get_unit_by_hash db h).best_parent_unit n

abbrev pub is_ball : DagUnit → Bool
is_ball u = u.is_stable && u.is_on_main_chain

-- The first stable unit of the main chain stands `n` steps along.
abbrev pub FirstBall : UnitTable → Hash → ℕ → Type 0
FirstBall db h zero = is_ball (get_unit_by_hash db h) ≡ true
FirstBall db h (suc n) =
    (is_ball (get_unit_by_hash db h) ≡ false)
    × FirstBall db (get_unit_by_hash db h).best_parent_unit n

module _ (F : Fifo Hash) (db : UnitTable) where
  last_stable_loop-found :
      (n fuel : ℕ) (h : Hash) (que : F.Queue) (unit : DagUnit)
      → n < fuel
      → F.items que ≡ h ∷ []
      → FirstBall db h n
      → last_stable_loop F db fuel que unit ≡ returns (ancestor db h n)
  unfolding last_stable_loop
  last_stable_loop-found n zero h que unit lt one b = elim lt [ ]
  last_stable_loop-found zero (suc fuel) h que unit lt one b =
      ground (arith, empty_of_cons F que h [] one, F.front_items que h [] one)
  last_stable_loop-found (suc n) (suc fuel) h que unit lt one b = ground (
    arith,
    empty_of_cons F que h [] one,
    F.front_items que h [] one,
    last_stable_loop-found n fuel next (F.push (F.pop que) next) (get_unit_by_hash db h)
        (omega arith) (items-push-pop F que h next one) b.1,
  )
    where
      next : Hash
      next = (get_unit_by_hash db h).best_parent_unit

  last_stable_loop-runs_on :
      (fuel : ℕ) (h : Hash) (que : F.Queue) (unit : DagUnit)
      → F.items que ≡ h ∷ []
      → ((n : ℕ) → is_ball (ancestor db h n) ≡ false)
      → last_stable_loop F db fuel que unit ≡ out_of_fuel
  unfolding last_stable_loop
  last_stable_loop-runs_on zero h que unit one b = refl
  last_stable_loop-runs_on (suc fuel) h que unit one b = ground (
    arith,
    empty_of_cons F que h [] one,
    F.front_items que h [] one,
    b 0,
    last_stable_loop-runs_on fuel next (F.push (F.pop que) next) (get_unit_by_hash db h)
        (items-push-pop F que h next one) (λ n. b (suc n)),
  )
    where
      next : Hash
      next = (get_unit_by_hash db h).best_parent_unit

module _ (F : Fifo Hash) (digest : UnitJson → Hash) where
  -- If the first stable unit of the main chain stands `n` steps along the best parents, then with
  -- fuel for more than `n` rounds GetLastStableBall returns its hash, and GetLastStableBallMCI the
  -- main chain index of the same unit.
  pub get_last_stable_ball-found :
      (gig : GraphInfoGetter) (n fuel : ℕ)
      → FirstBall gig.db gig.best_parent n
      → n < fuel
      → (get_last_stable_ball F digest fuel gig ≡ returns (ancestor gig.db gig.best_parent n).hash)
        × (get_last_stable_ball_mci F digest fuel gig
            ≡ returns (ancestor gig.db gig.best_parent n).main_chain_index)
  unfolding get_last_stable_ball get_last_stable_ball_mci ensure_best_parent
  get_last_stable_ball-found gig n fuel b lt = ground (
    arith,
    last_stable_loop-found F gig.db n fuel gig.best_parent (F.push F.new gig.best_parent)
        new_empty_unit lt (items-push-new F gig.best_parent) b,
  )

  -- If no unit along the best parents is stable and on the main chain, neither loop ever ends:
  -- at a hash that is not in the database the walk goes on from the zero unit.
  pub get_last_stable_ball-runs_on :
      (gig : GraphInfoGetter) (fuel : ℕ)
      → ((n : ℕ) → is_ball (ancestor gig.db gig.best_parent n) ≡ false)
      → (get_last_stable_ball F digest fuel gig ≡ out_of_fuel)
        × (get_last_stable_ball_mci F digest fuel gig ≡ out_of_fuel)
  unfolding get_last_stable_ball get_last_stable_ball_mci ensure_best_parent
  get_last_stable_ball-runs_on gig fuel b = ground (
    arith,
    last_stable_loop-runs_on F gig.db fuel gig.best_parent (F.push F.new gig.best_parent)
        new_empty_unit (items-push-new F gig.best_parent) b,
  )
