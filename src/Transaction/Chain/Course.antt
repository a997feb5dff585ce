-- ===== src/Transaction/Chain/Course.antt =====
-- The loop of handleStableUnits over the units that have become stable, unit by unit.
use babyboy.Prelude.{
  ◌≡◌, ap, subst, sym, ◌∙◌, List, [], ◌∷◌, ◌++◌, Bool, true, false, none, some, inl, inr, arith,
  All,
}
use mathlib.Core.List.{append-nil, append_assoc}
use babyboy.Interface.{returns}
use babyboy.Types.Payment.{Utxo, Commission}
use babyboy.Types.Unit.{DagUnit}
use babyboy.Transaction.Ledger.{Boydb, err_not_find_from}
use babyboy.Transaction.Stable.{StableOut}
use babyboy.Transaction.Stable.Consumes.{Consumes, Consumes-nil, Consumes-same, Consumes-append}
use babyboy.Transaction.Stable.Spends.{resolve, Spends-Consumes}
use babyboy.Transaction.Stable.Spending.{all_inputs}
use babyboy.Transaction.Stable.Total.{handle_unit-returns}
use babyboy.Transaction.Stable.Endings.{
  Accepted, Refused, messages_paid, miner_paid, handle_unit-ends,
}
use babyboy.Transaction.Chain.Total.{IsOwn}
use babyboy.Transaction.Chain.{LoopOut, stable_loop, stable_tx}

module _ (B : Boydb) where
  -- From a database on, the units in their order: the outputs that their inputs spend, what is due
  -- for their outputs, and those that were accepted. The last database is where the loop ends, and
  -- the flag says whether a unit with an error ended it.
  pub data Course
      : B.Db
        → List DagUnit
        → List Utxo
        → List Commission
        → List DagUnit
        → B.Db
        → Bool
        → Type 0 where
    finished : {db : B.Db} → Course db [] [] [] [] db false
    -- All its inputs are spent; its outputs and the miner's commission are due.
    accepts :
        {db last : B.Db} {t : DagUnit} {ts vs : List DagUnit} {us : List Utxo}
        {cs : List Commission} {aborted : Bool} {out : StableOut B}
        → Accepted B t 0 db [] t.messages out
        → Course out.db ts us cs vs last aborted
        → Course db
            (t ∷ ts)
            (resolve B db (all_inputs B t.messages) ++ us)
            ((messages_paid t 0 t.messages ++ (miner_paid t ∷ [])) ++ cs)
            (t ∷ vs)
            last
            aborted
    -- An input names an output that is not unspent: those before it stay spent, the outputs of the
    -- messages before its own are due, and the unit is saved as invalid.
    refuses :
        {db last : B.Db} {t : DagUnit} {ts vs : List DagUnit} {us : List Utxo}
        {cs : List Commission} {aborted : Bool} {out : StableOut B}
        → (r : Refused B t 0 db [] t.messages out) → out.error ≡ none
        → Course (B.save_unit_to_db out.db (record t { invalid = true })) ts us cs vs last aborted
        → Course db
            (t ∷ ts)
            (resolve B db (all_inputs B r.before ++ r.done) ++ us)
            (messages_paid t 0 r.before ++ cs)
            vs
            last
            aborted
    -- An input names a unit that is not in the database: the loop ends.
    aborts :
        {db : B.Db} {t : DagUnit} {ts : List DagUnit} {out : StableOut B}
        → (r : Refused B t 0 db [] t.messages out) → out.error ≡ some err_not_find_from
        → Course db (t ∷ ts) (resolve B db (all_inputs B r.before ++ r.done)) [] [] out.db true

  -- Over the course each output was spent once, and it existed.
  pub Course-Consumes :
      (db last : B.Db) (ts vs : List DagUnit) (us : List Utxo) (cs : List Commission)
      (aborted : Bool)
      → Course db ts us cs vs last aborted
      → Consumes B db us last
  Course-Consumes db last ts vs us cs aborted finished = Consumes-nil B db
  Course-Consumes db last ts vs us cs aborted (accepts {out = out} k c) =
      Consumes-append B db out.db last _ _ (Spends-Consumes B db out.db _ k.spends)
        (Course-Consumes _ _ _ _ _ _ _ c)
  Course-Consumes db last ts vs us cs aborted (refuses {t = t} {out = out} r n c) =
      let saved = B.save_unit_to_db out.db (record t { invalid = true }) in
      Consumes-append B db out.db last _ _ (Spends-Consumes B db out.db _ r.spends) (
        Consumes-append B out.db saved last [] _
          (Consumes-same B out.db saved (B.unspent_save_unit out.db (record t { invalid = true })))
          (Course-Consumes _ _ _ _ _ _ _ c))
  Course-Consumes db last ts vs us cs aborted (aborts {out = out} r e) =
      Spends-Consumes B db out.db _ r.spends

  -- What the loop leaves, when it started with `l`.
  pub record Runs (l out : LoopOut B) (ts : List DagUnit) : Type 0 where
    pub us : List Utxo
    pub cs : List Commission
    pub vs : List DagUnit
    pub course : Course l.db ts us cs vs out.db out.aborted
    pub commissions : out.commissions ≡ l.commissions ++ cs
    pub valid_units : out.valid_units ≡ l.valid_units ++ vs

  pub stable_loop-Runs :
      (ts : List DagUnit) (l out : LoopOut B)
      → All (IsOwn B) ts
      → l.aborted ≡ false
      → stable_loop B l ts ≡ returns out
      → Runs l out ts
  unfolding stable_loop stable_tx
  stable_loop-Runs [] l out own f e =
      subst (λ o. Runs l o []) (ground arith)
        (record {
          us = [];
          cs = [];
          vs = [];
          course = subst (Course l.db [] [] [] [] l.db) (sym f) finished;
          commissions = sym (append-nil l.commissions);
          valid_units = sym (append-nil l.valid_units);
        })
  stable_loop-Runs (t ∷ ts) l out ((author, rest, a, o), own) f e =
      let (done, d, _) = handle_unit-returns B l.db t author rest a in
      elim (handle_unit-ends B t author rest a l.db done o d) [
        | inl k ↦
            let run =
              stable_loop-Runs ts
                (record l {
                  db = done.db;
                  valid_units = l.valid_units ++ (t ∷ []);
                  commissions = l.commissions ++ done.commissions;
                })
                out own f (ground (arith, k.valid, k.no_error)) in
            record {
              us = resolve B l.db (all_inputs B t.messages) ++ run.us;
              cs = (messages_paid t 0 t.messages ++ (miner_paid t ∷ [])) ++ run.cs;
              vs = t ∷ run.vs;
              course = accepts k run.course;
              commissions =
                  run.commissions
                  ∙ ap (λ x. (l.commissions ++ x) ++ run.cs) k.paid
                  ∙ append_assoc l.commissions (messages_paid t 0 t.messages ++ (miner_paid t ∷ []))
                      run.cs;
              valid_units = run.valid_units ∙ append_assoc l.valid_units (t ∷ []) run.vs;
            }
        | inr r ↦ elim r.fault [
          | inl (p, err) ↦
              subst (λ o. Runs l o (t ∷ ts)) (ground (arith, err))
                (record {
                  us = resolve B l.db (all_inputs B r.before ++ r.done);
                  cs = [];
                  vs = [];
                  course = aborts r err;
                  commissions = sym (append-nil l.commissions);
                  valid_units = sym (append-nil l.valid_units);
                })
          | inr (u, p, gone, ok) ↦
              let run =
                stable_loop-Runs ts
                  (record l {
                    db = B.save_unit_to_db done.db (record t { invalid = true });
                    commissions = l.commissions ++ done.commissions;
                  })
                  out own f (ground (arith, r.invalid, ok)) in
              record {
                us = resolve B l.db (all_inputs B r.before ++ r.done) ++ run.us;
                cs = messages_paid t 0 r.before ++ run.cs;
                vs = run.vs;
                course = refuses r ok run.course;
                commissions =
                    run.commissions
                    ∙ ap (λ x. (l.commissions ++ x) ++ run.cs) r.paid
                    ∙ append_assoc l.commissions (messages_paid t 0 r.before) run.cs;
                valid_units = run.valid_units;
              }
        ]
      ]
