-- ===== src/Transaction/Pending/Unspent.antt =====
-- HandleUnit of the pending pool leaves the unspent outputs of stable units as they are.
use babyboy.Types.Payment.{new_utxo}
use babyboy.Prelude.{refl, [], ◌∷◌, ◌+◌, inl, inr, ◌∙◌, ◌≡◌, List, Bool-cases, ℕ, subst, ◌==◌}
use babyboy.Types.Payment.{Utxo}
use babyboy.Interface.{Outcome, returns, panics, out_of_fuel, Outcome-cases}
use babyboy.Transaction.Ledger.{Boydb}
use babyboy.Transaction.Pending.{
  PendingOut, Collected, collected, no_source, missing, UtxoHelper, collect_inputs, delete_spent,
  save_outputs, pending_messages, handle_pending, DagUnit, Message, Output, Author,
}

module _ (B : Boydb) where
  -- The same unspent outputs.
  abbrev pub SameUnspent : B.Db → B.Db → Type 0
  SameUnspent db db' = (v : Utxo) → B.is_exist_unspent_output db' v ≡ B.is_exist_unspent_output db v

  delete_spent-SameUnspent :
      (db : B.Db) (ss : List UtxoHelper) → SameUnspent db (delete_spent B db ss)
  unfolding delete_spent
  delete_spent-SameUnspent db [] v = refl
  delete_spent-SameUnspent db (s ∷ ss) v = elim (Bool-cases s.is_stable) [
    | inl t ↦ rw t (delete_spent-SameUnspent db ss v)
    | inr f ↦ rw f (
        delete_spent-SameUnspent (B.del_pending_unspent_output db s.utxo) ss v
        ∙ B.unspent_del_pending db s.utxo v)
  ]

  -- What an operation that may panic leaves.
  abbrev pub KeepsUnspent : B.Db → Outcome B.Db → Type 0
  KeepsUnspent db (returns db') = SameUnspent db db'
  KeepsUnspent db _ = Unit

  pub KeepsUnspent-trans :
      (a b : B.Db) (o : Outcome B.Db) → SameUnspent a b → KeepsUnspent b o → KeepsUnspent a o
  KeepsUnspent-trans a b (returns c) s k = λ v. k v ∙ s v
  KeepsUnspent-trans a b panics s k = tt
  KeepsUnspent-trans a b out_of_fuel s k = tt

  paid_back : DagUnit → ℕ → ℕ → Output → Utxo
  paid_back unit i z o =
      new_utxo unit.hash i z (record { amount = o.amount; address = o.address }) ""

  save_outputs-KeepsUnspent :
      (unit : DagUnit) (i z : ℕ) (db : B.Db) (os : List Output) (authors : List Author)
      → unit.authors ≡ authors
      → KeepsUnspent db (save_outputs B unit i z db os)
  unfolding save_outputs paid_back
  save_outputs-KeepsUnspent unit i z db [] authors a = λ v. refl
  save_outputs-KeepsUnspent unit i z db (o ∷ os) [] a = rw (a, save_outputs) tt
  save_outputs-KeepsUnspent unit i z db (o ∷ os) (author ∷ rest) a =
      elim (Bool-cases (o.address == author.address)) [
        | inl t ↦
            rw (a, t, save_outputs)
              (KeepsUnspent-trans db (B.save_pending_utxo db o.address (paid_back unit i z o)) _
                (λ v. B.unspent_save_pending db o.address (paid_back unit i z o) v)
                (save_outputs-KeepsUnspent unit i (z + 1)
                  (B.save_pending_utxo db o.address (paid_back unit i z o)) os (author ∷ rest) a))
        | inr f ↦
            rw (a, f, save_outputs)
              (save_outputs-KeepsUnspent unit i (z + 1) db os (author ∷ rest) a)
      ]

  abbrev IsUnspentKept : B.Db → Outcome (PendingOut B) → Type 0
  IsUnspentKept db (returns out) = SameUnspent db out.db
  IsUnspentKept db _ = Unit

  IsUnspentKept-trans :
      (a b : B.Db) (o : Outcome (PendingOut B))
      → SameUnspent a b
      → IsUnspentKept b o
      → IsUnspentKept a o
  IsUnspentKept-trans a b (returns c) s k = λ v. k v ∙ s v
  IsUnspentKept-trans a b panics s k = tt
  IsUnspentKept-trans a b out_of_fuel s k = tt

  pending_messages-IsUnspentKept :
      (ms : List Message) (unit : DagUnit) (i : ℕ) (db : B.Db) (utxos : List UtxoHelper)
      → IsUnspentKept db (pending_messages B unit i db utxos ms)
  unfolding pending_messages
  pending_messages-IsUnspentKept [] unit i db utxos = λ v. refl
  pending_messages-IsUnspentKept (m ∷ ms) unit i db utxos =
      after_inputs (collect_inputs B db utxos m.payload.inputs) refl
        (λ db' utxos'. pending_messages-IsUnspentKept ms unit (i + 1) db' utxos')
    where
      after_inputs :
          (r : Collected B)
          → collect_inputs B db utxos m.payload.inputs ≡ r
          → ((db' : B.Db) (utxos' : List UtxoHelper)
              → IsUnspentKept db' (pending_messages B unit (i + 1) db' utxos' ms))
          → IsUnspentKept db (pending_messages B unit i db utxos (m ∷ ms))
      after_inputs no_source e ih = rw (e, pending_messages) (λ v. refl)
      after_inputs missing e ih = rw (e, pending_messages) (λ v. refl)
      after_inputs (collected us) e ih =
          let spent = delete_spent B db us in
          let kept = save_outputs-KeepsUnspent unit i 0 spent m.payload.outputs unit.authors refl in
          elim (Outcome-cases (save_outputs B unit i 0 spent m.payload.outputs)) [
            | inr (inl p) ↦ rw (e, p, pending_messages) tt
            | inr (inr p) ↦ rw (e, p, pending_messages) tt
            | inl (db', p) ↦
                rw (e, p, pending_messages)
                  (IsUnspentKept-trans db db' _
                    (λ v. (subst (KeepsUnspent spent) p kept) v ∙ delete_spent-SameUnspent db us v)
                    (ih db' us))
          ]

  pub handle_pending-SameUnspent :
      (db : B.Db) (unit : DagUnit) (out : PendingOut B)
      → handle_pending B db unit ≡ returns out
      → SameUnspent db out.db
  unfolding handle_pending
  handle_pending-SameUnspent db unit out e =
      subst (IsUnspentKept db) e (pending_messages-IsUnspentKept unit.messages unit 0 db [])
