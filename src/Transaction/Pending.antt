-- ===== src/Transaction/Pending.antt =====
-- transaction/pendingprocess.go: a new unit takes the unstable outputs that it spends out of the pending pool and
-- puts in those that it pays back to its author.
pub mod Effect
pub mod Unspent
use babyboy.Prelude.{
  ℕ, zero, suc, ◌+◌, String, List, [], ◌∷◌, ◌++◌, Bool, true, false, if◌then◌else◌, ◌==◌, Option,
  none, some,
}
use babyboy.Interface.{Outcome, returns, panics}
use babyboy.Types.Hash.{Hash, Address}
use babyboy.Types.Payment.{Input, Output, Utxo, new_utxo, Message, Payload}
use babyboy.Types.Unit.{DagUnit, Author}
use babyboy.Transaction.Ledger.{Boydb, TxError, err_not_find_from}

-- `UtxoHelper`: its address is not set here.
pub record UtxoHelper : Type 0 where
  pub utxo : Utxo
  pub is_stable : Bool

-- The database after HandleUnit, and the error that it returns.
pub record PendingOut (B : Boydb) : Type 0 where
  pub db : B.Db
  pub error : Option TxError

module _ (B : Boydb) where
  -- The output that an input names in the unit `u`, which holds it.
  unfoldable pub future_spent : DagUnit → Input → Utxo
  future_spent u x = new_utxo u.hash x.message_index x.output_index x.output x.type_of

  -- How the loop over the inputs of a message ends: with the outputs to spend, the earlier
  -- messages' among them, or with a return.
  pub data Collected : Type 0 where
    collected : List UtxoHelper → Collected
    no_source : Collected
    missing : Collected

  pub collect_inputs : B.Db → List UtxoHelper → List Input → Collected
  collect_inputs db utxos [] = collected utxos
  collect_inputs db utxos (x ∷ xs) = elim (B.get_unit_by_hash db x.unit_hash) [
    | none ↦ no_source
    | some u ↦
        (let spent = future_spent u x in
          let more =
            collect_inputs db (utxos ++ (record { utxo = spent; is_stable = u.is_stable } ∷ []))
              xs in
          if (if u.is_stable
            then B.is_exist_unspent_output db spent
            else B.is_exist_pending_utxo db spent)
          then more
          else missing)
  ]

  pub delete_spent : B.Db → List UtxoHelper → B.Db
  delete_spent db [] = db
  delete_spent db (s ∷ ss) =
      delete_spent (if s.is_stable then db else B.del_pending_unspent_output db s.utxo) ss

  -- `author` is the address of `unit.Authors[0]`; the loop reads it at the first output.
  pub save_outputs : DagUnit → ℕ → ℕ → B.Db → List Output → Outcome B.Db
  save_outputs unit i z db [] = returns db
  save_outputs unit i z db (o ∷ os) = elim unit.authors [
    | [] ↦ panics
    | author ∷ _ ↦
        (let un_spent =
            new_utxo unit.hash i z (record { amount = o.amount; address = o.address }) "" in
          save_outputs unit i (z + 1)
            (if o.address == author.address then B.save_pending_utxo db o.address un_spent else db)
            os)
  ]

  -- `utxos` is declared outside the loop over the messages, and so keeps its entries.
  pub pending_messages :
      DagUnit → ℕ → B.Db → List UtxoHelper → List Message → Outcome (PendingOut B)
  pending_messages unit i db utxos [] = returns (record { db = db; error = none })
  pending_messages unit i db utxos (m ∷ ms) = elim (collect_inputs db utxos m.payload.inputs) [
    | no_source ↦ returns (record { db = db; error = some err_not_find_from })
    | missing ↦ returns (record { db = db; error = none })
    | collected utxos' ↦ elim (save_outputs unit i 0 (delete_spent db utxos') m.payload.outputs) [
      | returns db' ↦ pending_messages unit (i + 1) db' utxos' ms
      | _ ↦ panics
    ]
  ]

  unfoldable pub handle_pending : B.Db → DagUnit → Outcome (PendingOut B)
  unfolding pending_messages save_outputs delete_spent collect_inputs future_spent
  handle_pending db unit = pending_messages unit 0 db [] unit.messages
