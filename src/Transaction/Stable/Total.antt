-- ===== src/Transaction/Stable/Total.antt =====
-- HandleUnit returns for every unit that has an author.
use babyboy.Prelude.{
  sym, refl, List, ℕ, ◌≡◌, ◌∷◌, ◌≢◌, is_nil, Option-cases, ◌&&◌, inl, false, inr, ◌++◌, [],
  Bool-cases, arith, true, ◌+◌, ap, ◌∙◌, some, none,
}
use babyboy.Interface.{returns}
use babyboy.Transaction.Stable.{
  StableOut, pending_spent, InputsOut, spent, not_found, double_spend, no_author, spend_inputs,
  settle_outputs, handle_messages, handle_unit, Boydb, Author, DagUnit, Input, Commission, Message,
  distribution_miner_commission, err_not_find_from,
}

module _ (B : Boydb) where
  spend_inputs-author :
      (author : Author) (rest : List Author) (db : B.Db) (xs : List Input)
      → spend_inputs B (author ∷ rest) db xs ≢ no_author
  unfolding spend_inputs
  spend_inputs-author author rest db [] e = cc
  spend_inputs-author author rest db (x ∷ xs) e = elim (Option-cases (pending_spent B db x)) [
    | inl n ↦ cc
    | inr (u, s) ↦ elim (Bool-cases (B.is_exist_unspent_output db u)) [
      | inl t ↦
          spend_inputs-author author rest (B.del_unspent_output db author.address u) xs
            (ground arith)
      | inr f ↦ cc
    ]
  ]

  handle_messages-returns :
      (unit : DagUnit) (author : Author) (rest : List Author) (i : ℕ) (db : B.Db)
      (cs : List Commission) (ms : List Message)
      → unit.authors ≡ author ∷ rest
      → (out : StableOut B) × (handle_messages B unit i db cs ms ≡ returns out)
        × ((is_nil out.commissions && out.valid) ≡ false)
  unfolding handle_messages
  handle_messages-returns unit author rest i db cs [] a = (_, refl, not_nil cs)
    where
      not_nil :
          (l : List Commission)
          → (is_nil (l ++ (distribution_miner_commission B unit ∷ [])) && true) ≡ false
      not_nil [] = refl
      not_nil (c ∷ l) = refl
  handle_messages-returns unit author rest i db cs (m ∷ ms) a =
      after (spend_inputs B unit.authors db m.payload.inputs) refl
        (λ d l. handle_messages-returns unit author rest (i + 1) d l ms a)
    where
      after :
          (r : InputsOut B)
          → spend_inputs B unit.authors db m.payload.inputs ≡ r
          → ((d : B.Db) (l : List Commission)
              → (out : StableOut B) × (handle_messages B unit (i + 1) d l ms ≡ returns out)
                × ((is_nil out.commissions && out.valid) ≡ false))
          → (out : StableOut B) × (handle_messages B unit i db cs (m ∷ ms) ≡ returns out)
            × ((is_nil out.commissions && out.valid) ≡ false)
      after (spent d) e ih = (next.0, ground (arith, next.1), next.2)
        where
          settled : B.Db × List Commission
          settled = settle_outputs B unit i 0 d cs m.payload.outputs

          next :
              (out : StableOut B) × (handle_messages B unit (i + 1) settled.0 settled.1 ms
                ≡ returns out)
              × ((is_nil out.commissions && out.valid) ≡ false)
          next = ih settled.0 settled.1
      after (not_found d) e ih = (
        record { db = d; commissions = cs; valid = false; error = some err_not_find_from },
        rw (e, handle_messages) refl,
        ground arith,
      )
      after (double_spend d) e ih = (
        record { db = d; commissions = cs; valid = false; error = none },
        rw (e, handle_messages) refl,
        ground arith,
      )
      after no_author e ih = absurd (
          spend_inputs-author author rest db m.payload.inputs
            (ap (λ l. spend_inputs B l db m.payload.inputs) (sym a) ∙ e))

  -- HandleUnit returns for every unit that has an author, whatever the database holds; a unit that
  -- it finds valid has a commission.
  pub handle_unit-returns :
      (db : B.Db) (unit : DagUnit) (author : Author) (rest : List Author)
      → unit.authors ≡ author ∷ rest
      → (out : StableOut B) × (handle_unit B db unit ≡ returns out)
        × ((is_nil out.commissions && out.valid) ≡ false)
  unfolding handle_unit
  handle_unit-returns db unit author rest a =
      handle_messages-returns unit author rest 0 db [] unit.messages a
