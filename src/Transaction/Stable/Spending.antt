-- ===== src/Transaction/Stable/Spending.antt =====
-- What HandleUnit spends: each output and only outputs that existed.
use babyboy.Transaction.Stable.Spends.{
  All-split, IsOwned, Spends, Spends-append, Spends-nil, resolve, spend_inputs-Spends,
  settle_outputs-same, resolve-units,
}
use babyboy.Prelude.{
  ℕ, ◌+◌, ◌≡◌, refl, ap, subst, ◌∙◌, List, [], ◌∷◌, ◌++◌, true, false, inl, inr, arith, All,
  Bool-cases, is_nil,
}
use mathlib.Core.List.{append-nil}
use babyboy.Interface.{returns}
use babyboy.Types.Payment.{Input, Utxo, Commission, Message}
use babyboy.Types.Unit.{DagUnit, Author}
use babyboy.Transaction.Ledger.{Boydb}
use babyboy.Transaction.Stable.{
  StableOut, InputsOut, spent, not_found, double_spend, no_author, spend_inputs, settle_outputs,
  handle_messages, handle_unit,
}

module _ (B : Boydb) where
  -- The inputs of all messages, in order.
  abbrev pub all_inputs : List Message → List Input
  all_inputs [] = []
  all_inputs (m ∷ ms) = m.payload.inputs ++ all_inputs ms

  pub resolve-append :
      (db : B.Db) (xs ys : List Input)
      → resolve B db (xs ++ ys) ≡ resolve B db xs ++ resolve B db ys
  resolve-append db [] ys = refl
  resolve-append db (x ∷ xs) ys = ground (arith, resolve-append db xs ys)

  handle_messages-Spends :
      (unit : DagUnit) (author : Author) (rest : List Author) (i : ℕ) (db : B.Db)
      (cs : List Commission) (ms : List Message) (out : StableOut B)
      → unit.authors ≡ author ∷ rest
      → All (IsOwned B author.address) (all_inputs ms)
      → handle_messages B unit i db cs ms ≡ returns out
      → out.valid ≡ true
      → Spends B db (resolve B db (all_inputs ms)) out.db
  unfolding handle_messages
  handle_messages-Spends unit author rest i db cs [] out a o e v =
      subst (Spends B db []) (ground arith) (Spends-nil B db)
  handle_messages-Spends unit author rest i db cs (m ∷ ms) out a o e v =
      after_inputs (spend_inputs B unit.authors db m.payload.inputs) refl
        (λ db2 cs2. handle_messages-Spends unit author rest (i + 1) db2 cs2 ms out a owned.1)
    where
      owned :
          All (IsOwned B author.address) m.payload.inputs
          × All (IsOwned B author.address) (all_inputs ms)
      owned = All-split (IsOwned B author.address) m.payload.inputs (all_inputs ms) o

      after_inputs :
          (r : InputsOut B)
          → spend_inputs B unit.authors db m.payload.inputs ≡ r
          → ((db2 : B.Db) (cs2 : List Commission)
              → handle_messages B unit (i + 1) db2 cs2 ms ≡ returns out
              → out.valid ≡ true
              → Spends B db2 (resolve B db2 (all_inputs ms)) out.db)
          → Spends B db (resolve B db (m.payload.inputs ++ all_inputs ms)) out.db
      after_inputs (not_found db') r ih = absurd (ground arith)
      after_inputs (double_spend db') r ih = absurd (ground arith)
      after_inputs no_author r ih = absurd (ground arith)
      after_inputs (spent db') r ih =
          subst (λ us. Spends B db us out.db) resolved
            (Spends-append B db db2 out.db _ _ (Spends-append B db db' db2 _ _ inputs outputs)
              (ih db2 settled.1 (ground arith) v))
        where
          settled : B.Db × List Commission
          settled = settle_outputs B unit i 0 db' cs m.payload.outputs

          db2 : B.Db
          db2 = settled.0

          inputs : Spends B db (resolve B db m.payload.inputs) db'
          inputs =
              spend_inputs-Spends B unit.authors author rest db db' m.payload.inputs a owned.0 r

          outputs : Spends B db' [] db2
          outputs = settle_outputs-same B unit i 0 db' cs m.payload.outputs

          resolved :
              (resolve B db m.payload.inputs ++ []) ++ resolve B db2 (all_inputs ms)
              ≡ resolve B db (m.payload.inputs ++ all_inputs ms)
          resolved =
              rw (append-nil, resolve-append db m.payload.inputs (all_inputs ms))
                (ap (λ us. resolve B db m.payload.inputs ++ us)
                  (resolve-units B db db2 (all_inputs ms) (λ h. outputs.units h ∙ inputs.units h)))

  -- If HandleUnit finds a unit valid, it has spent exactly the outputs that the unit's inputs name:
  -- no two of them have one key, each existed before, none exists afterwards, every other output
  -- is as it was, and so is every unit. (The unit has an author, who owns all inputs, and every
  -- input has one of the three types.)
  pub handle_unit-Spends :
      (db : B.Db) (unit : DagUnit) (author : Author) (rest : List Author) (out : StableOut B)
      → unit.authors ≡ author ∷ rest
      → All (IsOwned B author.address) (all_inputs unit.messages)
      → handle_unit B db unit ≡ returns out
      → out.valid ≡ true
      → Spends B db (resolve B db (all_inputs unit.messages)) out.db
  unfolding handle_unit
  handle_unit-Spends db unit author rest out a o e v =
      handle_messages-Spends unit author rest 0 db [] unit.messages out a o e v

  -- A unit that spends something is valid once only: handled again on the database that a valid
  -- handling has left, it is not valid. (The unit has an author, who owns all the inputs of its
  -- messages, and each input has one of the three types.)
  pub handle_unit-replay :
      (db : B.Db) (unit : DagUnit) (author : Author) (rest : List Author) (out again : StableOut B)
      → unit.authors ≡ author ∷ rest
      → All (IsOwned B author.address) (all_inputs unit.messages)
      → is_nil (resolve B db (all_inputs unit.messages)) ≡ false
      → handle_unit B db unit ≡ returns out
      → out.valid ≡ true
      → handle_unit B out.db unit ≡ returns again
      → again.valid ≡ false
  handle_unit-replay db unit author rest out again a o n e v e' = elim (Bool-cases again.valid) [
    | inr f ↦ f
    | inl t ↦ absurd (
        gone (resolve B db (all_inputs unit.messages)) n first (
          subst (λ us. Spends B out.db us again.db)
            (resolve-units B db out.db (all_inputs unit.messages) first.units)
            (handle_unit-Spends out.db unit author rest again a o e' t)))
  ]
    where
      first : Spends B db (resolve B db (all_inputs unit.messages)) out.db
      first = handle_unit-Spends db unit author rest out a o e v

      gone :
          (us : List Utxo)
          → is_nil us ≡ false
          → Spends B db us out.db
          → Spends B out.db us again.db
          → ⊥
      gone [] n s t = cc
      gone (u ∷ us) n s t = ground (arith, s.after u, t.existed.0)
