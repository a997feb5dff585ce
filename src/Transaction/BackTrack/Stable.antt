-- ===== src/Transaction/BackTrack/Stable.antt =====
-- BackTrackingUTXO: it ends, and the unspent outputs are kept.
use babyboy.Types.Hash.{Hash}
use babyboy.Prelude.{
  refl, [], ◌∷◌, ◌<◌, ◌∙◌, true, false, List, inr, ℕ, inl, All, ◌≡◌, Bool, subst, arith,
}
use babyboy.Interface.{Fifo, Outcome, items-push-new, Outcome-cases}
use babyboy.Transaction.Ledger.{Boydb}
use babyboy.Transaction.Auth.{Reads, Tracked, tracked, panicked, blocks, runs_on}
use babyboy.Transaction.Auth.Track.{IsWeighted}
use babyboy.Transaction.Pending.{handle_pending}
use babyboy.Transaction.Pending.Unspent.{
  SameUnspent, KeepsUnspent, KeepsUnspent-trans, handle_pending-SameUnspent,
}
use babyboy.Transaction.BackTrack.{
  pending_units, del_all_pending, pending_all, re_build_pending_pool, back_loop, back_tracking_utxo,
  Address, Utxo, DagUnit, Author,
}
use babyboy.Transaction.BackTrack.Ends.{back_loop-HasEnded, HasEnded}

module _ (B : Boydb) (reads : B.Db → Reads)
    (get_pending_utxo_by_author : B.Db → Address → List Utxo)
    (get_all_pending_un_spent : B.Db → Address → List Utxo)
    (del_pending_utxo : B.Db → Address → Utxo → B.Db) (sort : List DagUnit → List DagUnit)
    (unspent_del : (d : B.Db) (a : Address) (u : Utxo)
      → SameUnspent B d (del_pending_utxo d a u)) where
  del_all_pending-SameUnspent :
      (us : List Utxo) (db : B.Db) (address : Address)
      → SameUnspent B db (
          del_all_pending B reads get_pending_utxo_by_author get_all_pending_un_spent
            del_pending_utxo sort db address us)
  unfolding del_all_pending
  del_all_pending-SameUnspent [] db address v = refl
  del_all_pending-SameUnspent (u ∷ us) db address v =
      del_all_pending-SameUnspent us (del_pending_utxo db address u) address v
      ∙ unspent_del db address u v

  pending_all-KeepsUnspent :
      (us : List DagUnit) (db : B.Db)
      → KeepsUnspent B db (
          pending_all B reads get_pending_utxo_by_author get_all_pending_un_spent del_pending_utxo
            sort db us)
  unfolding pending_all
  pending_all-KeepsUnspent [] db = λ v. refl
  pending_all-KeepsUnspent (u ∷ us) db = elim (Outcome-cases (handle_pending B db u)) [
    | inr (inl p) ↦ rw (p, pending_all) tt
    | inr (inr p) ↦ rw (p, pending_all) tt
    | inl (out, p) ↦
        rw (p, pending_all)
          (KeepsUnspent-trans B db out.db _ (handle_pending-SameUnspent B db u out p)
            (pending_all-KeepsUnspent us out.db))
  ]

  re_build_pending_pool-KeepsUnspent :
      (db : B.Db) (author : Author)
      → KeepsUnspent B db (
          re_build_pending_pool B reads get_pending_utxo_by_author get_all_pending_un_spent
            del_pending_utxo sort db author)
  unfolding re_build_pending_pool
  re_build_pending_pool-KeepsUnspent db author =
      KeepsUnspent-trans B db _ _
        (del_all_pending-SameUnspent (get_all_pending_un_spent db author.address) db author.address)
        (pending_all-KeepsUnspent
          (sort (
            pending_units B reads get_pending_utxo_by_author get_all_pending_un_spent
              del_pending_utxo sort db (get_pending_utxo_by_author db author.address)))
          (del_all_pending B reads get_pending_utxo_by_author get_all_pending_un_spent
            del_pending_utxo sort db author.address (get_all_pending_un_spent db author.address)))

  -- The back tracking has ended; a database that it leaves has the unspent outputs of the old one.
  abbrev pub HasKept : B.Db → Tracked (Outcome B.Db) → Type 0
  HasKept db (tracked o) = KeepsUnspent B db o
  HasKept db panicked = Unit
  HasKept db blocks = Unit
  HasKept db runs_on = ⊥

  -- BackTrackingUTXO ends, whatever it finds, and does not touch a stable output: a database that
  -- it leaves has exactly the unspent outputs that it had. It may panic, or block at an input of an
  -- unknown type. (Every unit weighs more than the units that its inputs name, together; the fuel
  -- is for more rounds than the unit of a pending output weighs; and DelPendingUTXO deletes pending
  -- outputs only.)
  pub back_tracking_utxo-HasKept :
      (weight : Hash → ℕ) (F : Fifo Utxo) (fuel : ℕ) (db : B.Db) (new_unit : DagUnit)
      → IsWeighted (reads db) weight
      → ((address : Address)
          → All (λ u. weight u.unit_hash < fuel) (get_pending_utxo_by_author db address))
      → HasKept db (
          back_tracking_utxo B reads get_pending_utxo_by_author get_all_pending_un_spent
            del_pending_utxo sort F fuel db new_unit)
  unfolding back_tracking_utxo
  back_tracking_utxo-HasKept weight F fuel db new_unit heavy light =
      at_authors new_unit.authors refl
    where
      at_authors :
          (authors : List Author)
          → new_unit.authors ≡ authors
          → HasKept db (
              back_tracking_utxo B reads get_pending_utxo_by_author get_all_pending_un_spent
                del_pending_utxo sort F fuel db new_unit)
      at_authors [] a = rw (a, back_tracking_utxo) tt
      at_authors (author ∷ rest) a =
          at_pending (get_pending_utxo_by_author db author.address) refl (light author.address)
        where
          at_result :
              (first : Utxo) (more : List Utxo)
              → get_pending_utxo_by_author db author.address ≡ first ∷ more
              → (t : Tracked Bool) → back_loop (reads db) F fuel (F.push F.new first) false ≡ t
              → HasEnded (reads db) weight F t
              → HasKept db (
                  back_tracking_utxo B reads get_pending_utxo_by_author get_all_pending_un_spent
                    del_pending_utxo sort F fuel db new_unit)
          at_result first more p (tracked true) e h = rw (a, p, e, back_tracking_utxo) (λ v. refl)
          at_result first more p (tracked false) e h =
              rw (a, p, e, back_tracking_utxo) (re_build_pending_pool-KeepsUnspent db author)
          at_result first more p panicked e h = rw (a, p, e, back_tracking_utxo) tt
          at_result first more p blocks e h = rw (a, p, e, back_tracking_utxo) tt
          at_result first more p runs_on e h = elim h [ ]

          at_pending :
              (us : List Utxo)
              → get_pending_utxo_by_author db author.address ≡ us
              → All (λ u. weight u.unit_hash < fuel) (get_pending_utxo_by_author db author.address)
              → HasKept db (
                  back_tracking_utxo B reads get_pending_utxo_by_author get_all_pending_un_spent
                    del_pending_utxo sort F fuel db new_unit)
          at_pending [] p l = rw (a, p, back_tracking_utxo) (λ v. refl)
          at_pending (first ∷ more) p l =
              let first_light = (subst (All (λ (u : Utxo). weight u.unit_hash < fuel)) p l).0 in
              at_result first more p (back_loop (reads db) F fuel (F.push F.new first) false) refl (
                back_loop-HasEnded (reads db) weight F fuel (F.push F.new first) false heavy
                  (rw (items-push-new F first) (omega arith)))
