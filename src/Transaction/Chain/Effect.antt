-- ===== src/Transaction/Chain/Effect.antt =====
-- What handleStableUnits does to the unspent outputs.
use babyboy.Prelude.{
  ◌||◌, true, refl, inl, inr, [], ◌∷◌, false, Bool, List, All, ◌++◌, ◌≡◌, subst, arith, ◌==◌,
  Bool-cases, not, distinct, ◌&&◌, elem, if◌then◌else◌, is_nil, ◌⊎◌, sym, ◌∙◌, ap,
}
use babyboy.Interface.{returns, Outcome-cases}
use babyboy.Transaction.Ledger.{pays, own_key}
use babyboy.Transaction.Chain.Accounts.{pays-append}
use babyboy.Transaction.Chain.Course.{Course, Course-Consumes, Runs, stable_loop-Runs}
use babyboy.Transaction.Chain.Earnings.{IsEarned, settle_commissions-IsEarned}
use babyboy.Transaction.Stable.Consumes.{Consumes, keys}
use babyboy.Transaction.Chain.Total.{IsOwn, stable_loop-returns, settle_commissions-returns}
use babyboy.Transaction.Chain.{
  LoopOut, distribute_commission, group_commissions, add_commission, Boydb, DagUnit, Utxo,
  Commission, Address, settle_commissions, handle_stable_units, handle_commission,
}

abbrev pub any {ℓ} : {A : Type ℓ} → (A → Bool) → List A → Bool
any p [] = false
any p (x ∷ xs) = p x || any p xs

module _ (B : Boydb) where
  -- What handleStableUnits did: the course over the units, and what was paid, which is nothing if the
  -- loop was aborted, and else what was due after the course and the earnings of the witnesses.
  pub record Ledgered (db : B.Db) (units : List DagUnit) (us : List Utxo) (ps : List Commission)
      (out : LoopOut B) : Type 0 where
    pub due : List Commission
    pub valid_units : List DagUnit
    pub left : B.Db
    pub course : Course B db units us due valid_units left out.aborted
    pub paid :
        ((out.aborted ≡ true) × (ps ≡ []))
        ⊎ ((earned : List Commission) × (out.aborted ≡ false)
            × IsEarned valid_units earned
            × (ps ≡ due ++ earned))

  -- The group pays the output.
  abbrev pub group_pays : Utxo → Address × List Commission → Bool
  group_pays v group = pays B.utxo_key group.1 v

  add_commission-pays :
      (c : Commission) (groups : List (Address × List Commission)) (v : Utxo)
      → any (group_pays v) (add_commission c groups)
        ≡ (B.utxo_key c.address c.utxo == own_key B v || any (group_pays v) groups)
  add_commission-pays c [] v = ground arith
  add_commission-pays c (g ∷ gs) v = elim (Bool-cases (c.address == g.0)) [
    | inl t ↦ rw (t, add_commission) (ground (arith, pays-append B g.1 (c ∷ []) v))
    | inr f ↦ rw (f, add_commission) (ground (arith, add_commission-pays c gs v))
  ]

  group_commissions-pays :
      (groups : List (Address × List Commission)) (cs : List Commission) (v : Utxo)
      → any (group_pays v) (group_commissions groups cs)
        ≡ (any (group_pays v) groups || pays B.utxo_key cs v)
  unfolding group_commissions
  group_commissions-pays groups [] v = ground arith
  group_commissions-pays groups (c ∷ cs) v =
      ground (
        arith,
        group_commissions-pays (add_commission c groups) cs v,
        add_commission-pays c groups v,
      )

  distribute_commission-pays :
      (db : B.Db) (groups : List (Address × List Commission)) (v : Utxo)
      → B.is_exist_unspent_output (distribute_commission B db groups) v
        ≡ (any (group_pays v) groups || B.is_exist_unspent_output db v)
  unfolding distribute_commission
  distribute_commission-pays db [] v = refl
  distribute_commission-pays db (g ∷ gs) v = ground (
    arith,
    distribute_commission-pays (B.save_batch_unspent_output db g.1) gs v,
    B.unspent_save db g.1 v,
  )

  module _ (visit : List (Address × List Commission) → List (Address × List Commission))
      (visits : (p : Address × List Commission → Bool) (groups : List (Address × List Commission))
        → any p (visit groups) ≡ any p groups) where
    settle_commissions-pays :
        (l out : LoopOut B)
        → settle_commissions B visit l ≡ returns out
        → (v : Utxo)
        → B.is_exist_unspent_output out.db v ≡ (
            (not out.aborted && pays B.utxo_key out.commissions v)
            || B.is_exist_unspent_output l.db v)
    unfolding settle_commissions
    settle_commissions-pays l out e v = elim (Bool-cases l.aborted) [
      | inl t ↦ ground arith
      | inr f ↦
          elim (Outcome-cases
            (if is_nil l.valid_units then returns [] else handle_commission l.valid_units)) [
              | inr (inl p) ↦ absurd (ground arith)
              | inr (inr p) ↦ absurd (ground arith)
              | inl (earnings, p) ↦ ground (arith, paid (l.commissions ++ earnings))
            ]
    ]
      where
        paid :
            (cs : List Commission)
            → B.is_exist_unspent_output
                (distribute_commission B l.db (visit (group_commissions [] cs)))
                v
              ≡ (pays B.utxo_key cs v || B.is_exist_unspent_output l.db v)
        paid cs = ground (
          arith,
          distribute_commission-pays l.db (visit (group_commissions [] cs)) v,
          visits (group_pays v) (group_commissions [] cs),
          group_commissions-pays [] cs v,
        )

    settled-Ledgered :
        (units : List DagUnit) (l0 l out : LoopOut B)
        → l0.commissions ≡ []
        → l0.valid_units ≡ []
        → Runs B l0 l units
        → settle_commissions B visit l ≡ returns out
        → (us : List Utxo) × (ps : List Commission) × Ledgered l0.db units us ps out
          × Consumes B l0.db us l.db
          × ((v : Utxo)
              → B.is_exist_unspent_output out.db v
                ≡ (pays B.utxo_key ps v || B.is_exist_unspent_output l.db v))
    settled-Ledgered units l0 l out c0 v0 run e = elim (Bool-cases l.aborted) [
      | inl t ↦ (
        run.us,
        [],
        record {
          due = run.cs;
          valid_units = run.vs;
          left = l.db;
          course = course;
          paid = inl (same ∙ t, refl);
        },
        consumes,
        λ v. ground (arith, settle_commissions-pays l out e v, same),
      )
      | inr f ↦
          let (es, earned, p) = (settle_commissions-IsEarned B visit l out e).1 f in
          (
            run.us,
            run.cs ++ es,
            record {
              due = run.cs;
              valid_units = run.vs;
              left = l.db;
              course = course;
              paid = inr (es, same ∙ f, subst (λ vs. IsEarned vs es) valid earned, refl);
            },
            consumes,
            λ v. ground (arith, settle_commissions-pays l out e v, same, all_due es p),
          )
    ]
      where
        same : out.aborted ≡ l.aborted
        same = (settle_commissions-IsEarned B visit l out e).0

        course : Course B l0.db units run.us run.cs run.vs l.db out.aborted
        course = subst (Course B l0.db units run.us run.cs run.vs l.db) (sym same) run.course

        consumes : Consumes B l0.db run.us l.db
        consumes = Course-Consumes B l0.db l.db units run.vs run.us run.cs l.aborted run.course

        valid : l.valid_units ≡ run.vs
        valid = run.valid_units ∙ ap (λ x. x ++ run.vs) v0

        all_due :
            (es : List Commission)
            → out.commissions ≡ l.commissions ++ es
            → out.commissions ≡ run.cs ++ es
        all_due es p = p ∙ ap (λ x. x ++ es) (run.commissions ∙ ap (λ x. x ++ run.cs) c0)

    -- handleStableUnits returns, and the unspent outputs have changed in two ways only. Spent are the
    -- outputs that the inputs of the units name, in the units' order: of a unit whose inputs are all
    -- there all, of another those before the one at fault, and none after a unit with an error. No
    -- two of them have one key, and each existed before. Paid are, if there was no error, the outputs
    -- of the accepted units and the miners' commissions, the outputs of the messages of the refused
    -- ones before the message at fault, and the payload commissions of the accepted units, to the
    -- first author of the last; if there was an error, nothing. (Every unit has an author, who owns
    -- all its inputs, and each of them has one of the three types; the iteration over the map visits
    -- every group.)
    pub handle_stable_units-ledger :
        (db : B.Db) (units : List DagUnit)
        → All (IsOwn B) units
        → (out : LoopOut B) × (us : List Utxo) × (ps : List Commission) × (handle_stable_units B
              visit db units
            ≡ returns out)
          × Ledgered db units us ps out
          × (distinct (keys B us) ≡ true)
          × All (λ u. B.is_exist_unspent_output db u ≡ true) us
          × ((v : Utxo)
              → B.is_exist_unspent_output out.db v ≡ (
                  pays B.utxo_key ps v
                  || (not (elem (own_key B v) (keys B us)) && B.is_exist_unspent_output db v)))
    unfolding handle_stable_units
    handle_stable_units-ledger db units own =
        let start : LoopOut B = record {
          db = db;
          valid_units = [];
          commissions = [];
          aborted = false;
        } in
        let (l, p, authors) = stable_loop-returns B units start own tt in
        let (out, q) = settle_commissions-returns B visit l authors in
        let (us, ps, ledgered, spent, after) =
          settled-Ledgered units start l out refl refl (stable_loop-Runs B units start l own refl p)
            q in
        (
          out,
          us,
          ps,
          rw (p, handle_stable_units) q,
          ledgered,
          spent.once,
          spent.existed,
          λ v. ground (arith, after v, spent.after v),
        )
