-- ===== src/Tests/Chain.antt =====
-- The theorems on the stable units and the main chain at a ledger with two unspent outputs.
use babyboy.Types.Hash.{Hash}
use babyboy.Types.Payment.{Utxo, Commission}
use babyboy.Transaction.Stable.{input_kind}
use babyboy.Prelude.{
  zero, suc, refl, [], ◌∷◌, List, ◌≡◌, distinct, true, All, not, ◌&&◌, ◌||◌, elem, ℕ, Bool, false,
}
use babyboy.Interface.{returns}
use babyboy.Transaction.Ledger.{pays, own_key}
use babyboy.Transaction.Chain.{LoopOut, handle_stable_units}
use babyboy.Transaction.Chain.Rounds
use babyboy.Transaction.Chain.Accounts
use babyboy.Types.Unit.{DagUnit}
use babyboy.Transaction.Chain.Effect.{Ledgered, handle_stable_units-ledger}
use babyboy.Transaction.Stable.Consumes.{keys}
use babyboy.Tests.Transaction.{state, spender}
use babyboy.Tests.Instances.{ledger}

handle_stable_units-ledger_example :
    (out : LoopOut ledger) × (us : List Utxo) × (ps : List Commission) × (handle_stable_units ledger
        (λ groups. groups)
        state
        (spender ∷ spender ∷ [])
      ≡ returns out)
    × Ledgered ledger state (spender ∷ spender ∷ []) us ps out
    × (distinct (keys ledger us) ≡ true)
    × All (λ u. ledger.is_exist_unspent_output state u ≡ true) us
    × ((v : Utxo)
        → ledger.is_exist_unspent_output out.db v ≡ (
            pays ledger.utxo_key ps v
            || (not (elem (own_key ledger v) (keys ledger us))
                && ledger.is_exist_unspent_output state v)))
unfolding input_kind
handle_stable_units-ledger_example =
    handle_stable_units-ledger ledger (λ groups. groups) (λ p groups. refl) state
      (spender ∷ spender ∷ [])
      ((_, [], refl, ((refl, refl), tt)), ((_, [], refl, ((refl, refl), tt)), tt))

-- An updater that extends the stable ball as often as its number says, each time by one unit.
abbrev extend_by : ℕ → ledger.Db → ℕ × ledger.Db × Bool × List DagUnit
extend_by zero db = (0, db, false, [])
extend_by (suc n) db = (n, db, true, spender ∷ [])

abbrev new_updater : ledger.Db → DagUnit → List Hash → ℕ × ledger.Db
new_updater db unit tips = (2, db)
