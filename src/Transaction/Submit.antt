-- ===== src/Transaction/Submit.antt =====
-- transaction/transaction.go: RecvUnit puts a unit into the channel, and SubmitTXLoop takes them out
-- one by one. ReviewUnit and HandlerNewUnit are not in the repository: parameters.
use babyboy.Prelude.{
  refl, ◌≡◌, [], ◌∷◌, ◌++◌, true, false, if◌then◌else◌, List, Bool, All, arith, Bool-cases, inl,
  inr,
}
use babyboy.Interface.{Outcome, returns, panics, out_of_fuel}
use babyboy.Types.Messages.{NewUnitEntity}
use babyboy.Types.Unit.{DagUnit}

-- The database, the channel `chSubmitTx`, and the events that `feed` has sent.
pub record Submission (Db : Type 0) : Type 0 where
  pub db : Db
  pub ch_submit_tx : List NewUnitEntity
  pub sent : List NewUnitEntity

module _ (Db : Type 0) (verify_unit : DagUnit → Outcome Bool) (review_unit : Db → DagUnit → Bool)
    (handler_new_unit : Db → DagUnit → Db × Bool) where
  unfoldable pub recv_unit : Submission Db → NewUnitEntity → Submission Db
  recv_unit s entity = record s { ch_submit_tx = s.ch_submit_tx ++ (entity ∷ []) }

  -- One round; the error of HandlerNewUnit is only logged, and the event is sent all the same.
  unfoldable pub submit_one :
      Db → List NewUnitEntity → NewUnitEntity → Outcome (Db × List NewUnitEntity)
  submit_one db sent entity = elim (verify_unit entity.new_unit) [
    | panics ↦ panics
    | out_of_fuel ↦ out_of_fuel
    | returns false ↦ returns (db, sent)
    | returns true ↦
        if review_unit db entity.new_unit
        then returns ((handler_new_unit db entity.new_unit).0, sent ++ (entity ∷ []))
        else returns (db, sent)
  ]

  -- The rounds for the units in the channel.
  unfoldable pub submit_rounds :
      Db → List NewUnitEntity → List NewUnitEntity → Outcome (Db × List NewUnitEntity)
  unfolding submit_one
  submit_rounds db sent [] = returns (db, sent)
  submit_rounds db sent (entity ∷ entities) = elim (submit_one db sent entity) [
    | panics ↦ panics
    | out_of_fuel ↦ out_of_fuel
    | returns next ↦ submit_rounds next.0 next.1 entities
  ]

  unfoldable pub submit_tx_loop : Submission Db → Outcome (Submission Db)
  unfolding submit_rounds
  submit_tx_loop s = elim (submit_rounds s.db s.sent s.ch_submit_tx) [
    | panics ↦ panics
    | out_of_fuel ↦ out_of_fuel
    | returns out ↦ returns (record { db = out.0; ch_submit_tx = []; sent = out.1 })
  ]

  -- The units whose signature is good.
  abbrev pub signed : List NewUnitEntity → List NewUnitEntity
  signed [] = []
  signed (e ∷ es) = elim (verify_unit e.new_unit) [
    | panics ↦ signed es
    | out_of_fuel ↦ signed es
    | returns true ↦ e ∷ signed es
    | returns false ↦ signed es
  ]

  abbrev pub HasVerdict : NewUnitEntity → Type 0
  HasVerdict e = (result : Bool) × (verify_unit e.new_unit ≡ returns result)

  submit_rounds-signed :
      (es : List NewUnitEntity) (db : Db) (sent : List NewUnitEntity)
      → All HasVerdict es
      → submit_rounds db sent es ≡ submit_rounds db sent (signed es)
  unfolding submit_rounds submit_one
  submit_rounds-signed [] db sent all = refl
  submit_rounds-signed (e ∷ es) db sent ((false, v), all) =
      ground (arith, submit_rounds-signed es db sent all)
  submit_rounds-signed (e ∷ es) db sent ((true, v), all) =
      elim (Bool-cases (review_unit db e.new_unit)) [
        | inl t ↦ ground (
          arith,
          submit_rounds-signed es (handler_new_unit db e.new_unit).0 (sent ++ (e ∷ [])) all,
        )
        | inr f ↦ ground (arith, submit_rounds-signed es db sent all)
      ]

  submit_rounds-panics :
      (before after : List NewUnitEntity) (e : NewUnitEntity) (db : Db) (sent : List NewUnitEntity)
      → All HasVerdict before
      → verify_unit e.new_unit ≡ panics
      → submit_rounds db sent (before ++ (e ∷ after)) ≡ panics
  unfolding submit_rounds submit_one
  submit_rounds-panics [] after e db sent all p = ground arith
  submit_rounds-panics (b ∷ bs) after e db sent ((false, v), all) p =
      ground (arith, submit_rounds-panics bs after e db sent all p)
  submit_rounds-panics (b ∷ bs) after e db sent ((true, v), all) p =
      elim (Bool-cases (review_unit db b.new_unit)) [
        | inl t ↦ ground (
          arith,
          submit_rounds-panics bs after e (handler_new_unit db b.new_unit).0 (sent ++ (b ∷ [])) all
              p,
        )
        | inr f ↦ ground (arith, submit_rounds-panics bs after e db sent all p)
      ]

  -- If VerifyUnit returns for every unit in the channel, SubmitTXLoop does what it would do if the
  -- units with a bad signature had not been received: the database and the events are the same.
  -- If VerifyUnit panics for one, and returns for those before it, SubmitTXLoop panics.
  pub submit_tx_loop-signed :
      (s : Submission Db)
      → (All HasVerdict s.ch_submit_tx
          → submit_tx_loop s ≡ submit_tx_loop (record s { ch_submit_tx = signed s.ch_submit_tx }))
        × ((before after : List NewUnitEntity) (e : NewUnitEntity)
            → s.ch_submit_tx ≡ before ++ (e ∷ after)
            → All HasVerdict before
            → verify_unit e.new_unit ≡ panics
            → submit_tx_loop s ≡ panics)
  unfolding submit_tx_loop
  submit_tx_loop-signed s = (
    λ all. rw (submit_rounds-signed s.ch_submit_tx s.db s.sent all, submit_tx_loop) refl,
    λ before after e split all p.
        ground (arith, submit_rounds-panics before after e s.db s.sent all p),
  )
