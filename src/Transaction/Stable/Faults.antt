-- ===== src/Transaction/Stable/Faults.antt =====
-- How the loop over the inputs of a message ends, told by the inputs.
use babyboy.Prelude.{
  ◌≡◌, refl, ap, subst, ◌∙◌, List, [], ◌∷◌, ◌++◌, false, none, some, Option, ◌⊎◌, inl, inr, arith,
  All, Bool-cases, Option-cases,
}
use babyboy.Types.Payment.{Input, Utxo}
use babyboy.Types.Unit.{Author}
use babyboy.Transaction.Ledger.{Boydb, TxError, err_not_find_from}
use babyboy.Transaction.Stable.{
  InputsOut, spent, not_found, double_spend, no_author, pending_spent, spend_inputs,
}
use babyboy.Transaction.Stable.Spends.{
  IsOwned, Spends, Spends-append, Spends-nil, resolve, resolve-units, pending_spent-output,
  Spends-one,
}

module _ (B : Boydb) where
  -- The input that is at fault names a unit that is not in the database, which is an error, or an
  -- output that is not unspent.
  abbrev pub Fault : B.Db → Input → Option TxError → Type 0
  Fault db x error =
      ((pending_spent B db x ≡ none) × (error ≡ some err_not_find_from))
      ⊎ ((u : Utxo) × (pending_spent B db x ≡ some u)
          × (B.is_exist_unspent_output db u ≡ false)
          × (error ≡ none))

  -- The inputs up to one at fault: those before it are spent.
  pub record Stopped (db : B.Db) (xs : List Input) (left : B.Db) (error : Option TxError)
      : Type 0 where
    pub before : List Input
    pub at : Input
    pub after : List Input
    pub split : xs ≡ before ++ (at ∷ after)
    pub spends : Spends B db (resolve B db before) left
    pub fault : Fault left at error

  abbrev pub Ends : B.Db → List Input → InputsOut B → Type 0
  Ends db xs (spent d) = Spends B db (resolve B db xs) d
  Ends db xs (not_found d) = Stopped db xs d (some err_not_find_from)
  Ends db xs (double_spend d) = Stopped db xs d none
  Ends db xs no_author = Unit

  Spends-cons :
      (db db1 d : B.Db) (x : Input) (u : Utxo) (xs : List Input)
      → pending_spent B db x ≡ some u
      → Spends B db (u ∷ []) db1
      → Spends B db1 (resolve B db1 xs) d
      → Spends B db (resolve B db (x ∷ xs)) d
  Spends-cons db db1 d x u xs p s t =
      subst (λ us. Spends B db us d) (ground (arith, resolve-units B db db1 xs s.units))
        (Spends-append B db db1 d (u ∷ []) (resolve B db1 xs) s t)

  -- After the first input is spent.
  Ends-cons :
      (db db1 : B.Db) (x : Input) (u : Utxo) (xs : List Input) (r : InputsOut B)
      → pending_spent B db x ≡ some u
      → Spends B db (u ∷ []) db1
      → Ends db1 xs r
      → Ends db (x ∷ xs) r
  Ends-cons db db1 x u xs (spent d) p s t = Spends-cons db db1 d x u xs p s t
  Ends-cons db db1 x u xs (not_found d) p s t = record {
    before = x ∷ t.before;
    at = t.at;
    after = t.after;
    split = ap (◌∷◌ x) t.split;
    spends = Spends-cons db db1 d x u t.before p s t.spends;
    fault = t.fault;
  }
  Ends-cons db db1 x u xs (double_spend d) p s t = record {
    before = x ∷ t.before;
    at = t.at;
    after = t.after;
    split = ap (◌∷◌ x) t.split;
    spends = Spends-cons db db1 d x u t.before p s t.spends;
    fault = t.fault;
  }
  Ends-cons db db1 x u xs no_author p s t = tt

  pub spend_inputs-Ends :
      (author : Author) (rest : List Author) (db : B.Db) (xs : List Input)
      → All (IsOwned B author.address) xs
      → Ends db xs (spend_inputs B (author ∷ rest) db xs)
  unfolding spend_inputs
  spend_inputs-Ends author rest db [] o = Spends-nil B db
  spend_inputs-Ends author rest db (x ∷ xs) o = elim (Option-cases (pending_spent B db x)) [
    | inl n ↦
        rw (n, spend_inputs, Ends)
          (record {
            before = [];
            at = x;
            after = xs;
            split = refl;
            spends = Spends-nil B db;
            fault = inl (n, refl);
          })
    | inr (u, s) ↦ elim (Bool-cases (B.is_exist_unspent_output db u)) [
      | inr f ↦
          rw (s, f, spend_inputs, Ends)
            (record {
              before = [];
              at = x;
              after = xs;
              split = refl;
              spends = Spends-nil B db;
              fault = inr (u, s, f, refl);
            })
      | inl t ↦
          rw (s, t, spend_inputs)
            (Ends-cons db (B.del_unspent_output db author.address u) x u xs _ s
              (subst (λ a. Spends B db (u ∷ []) (B.del_unspent_output db a u))
                (pending_spent-output B db x u o.0.0 s ∙ o.0.1) (Spends-one B db u t))
              (spend_inputs-Ends author rest (B.del_unspent_output db author.address u) xs o.1))
    ]
  ]
