-- ===== src/Transaction/Pending/Effect.antt =====
-- What a new unit of one message does to the pending pool.
use babyboy.Prelude.{
  ℕ, ◌+◌, ◌≡◌, refl, List, [], ◌∷◌, ◌++◌, Bool, true, false, not, ◌&&◌, ◌||◌, ◌==◌, if◌then◌else◌,
  none, some, arith,
}
use mathlib.Core.List.{append-nil, append_assoc}
use babyboy.Interface.{returns}
use babyboy.Types.Hash.{Address}
use babyboy.Types.Payment.{Input, Output, Utxo, new_utxo, Message}
use babyboy.Types.Unit.{DagUnit, Author}
use babyboy.Transaction.Ledger.{Boydb, own_key}
use babyboy.Transaction.Pending.{
  UtxoHelper, PendingOut, future_spent, collected, collect_inputs, delete_spent, save_outputs,
  pending_messages, handle_pending,
}

module _ (B : Boydb) where
  -- Is one of the unstable outputs of the list the output `v`, by its key?
  abbrev pub takes : List UtxoHelper → Utxo → Bool
  takes [] v = false
  takes (s ∷ ss) v = (not s.is_stable && own_key B s.utxo == own_key B v) || takes ss v

  delete_spent-pending :
      (ss : List UtxoHelper) (db : B.Db) (v : Utxo)
      → B.is_exist_pending_utxo (delete_spent B db ss) v
        ≡ (not (takes ss v) && B.is_exist_pending_utxo db v)
  unfolding delete_spent
  delete_spent-pending [] db v = refl
  delete_spent-pending (s ∷ ss) db v = ground (
    arith,
    delete_spent-pending ss db v,
    delete_spent-pending ss (B.del_pending_unspent_output db s.utxo) v,
    B.pending_del db s.utxo v,
  )

  -- Is `v`, by its key, an output from number `z` on that the unit pays to the address?
  abbrev pub pays_back : DagUnit → Address → ℕ → ℕ → List Output → Utxo → Bool
  pays_back unit a i z [] v = false
  pays_back unit a i z (o ∷ os) v =
      (o.address == a
        && own_key B (new_utxo unit.hash i z (record { address = o.address; amount = o.amount }) "")
          == own_key B v)
      || pays_back unit a i (z + 1) os v

  save_outputs-pending :
      (unit : DagUnit) (author : Author) (rest : List Author) (i z : ℕ) (db db' : B.Db)
      (os : List Output) (v : Utxo)
      → unit.authors ≡ author ∷ rest
      → save_outputs B unit i z db os ≡ returns db'
      → B.is_exist_pending_utxo db' v
        ≡ (pays_back unit author.address i z os v || B.is_exist_pending_utxo db v)
  unfolding save_outputs new_utxo
  save_outputs-pending unit author rest i z db db' [] v a e = ground arith
  save_outputs-pending unit author rest i z db db' (o ∷ os) v a e = ground (
    arith,
    save_outputs-pending unit author rest i (z + 1) db db' os v a,
    save_outputs-pending unit author rest i (z + 1) (B.save_pending_utxo db o.address u) db' os v a,
    B.pending_save db u.output.address u v,
  )
    where
      u : Utxo
      u = new_utxo unit.hash i z (record { address = o.address; amount = o.amount }) ""

  save_outputs-returns :
      (unit : DagUnit) (author : Author) (rest : List Author) (i z : ℕ) (db : B.Db)
      (os : List Output)
      → unit.authors ≡ author ∷ rest
      → (db' : B.Db) × (save_outputs B unit i z db os ≡ returns db')
  unfolding save_outputs
  save_outputs-returns unit author rest i z db [] a = (db, refl)
  save_outputs-returns unit author rest i z db (o ∷ os) a =
      rw (a, save_outputs) (save_outputs-returns unit author rest i (z + 1) _ os a)

  -- The outputs that a message names are all in the database: those of stable units unspent, those
  -- of others in the pending pool; `us` lists them with the units' stability.
  abbrev pub Available : B.Db → List Input → List UtxoHelper → Type 0
  Available db [] us = us ≡ []
  Available db (x ∷ xs) us =
      (u : DagUnit) × (rest : List UtxoHelper) × (B.get_unit_by_hash db x.unit_hash ≡ some u)
      × (us ≡ record { utxo = future_spent B u x; is_stable = u.is_stable } ∷ rest)
      × ((if u.is_stable
            then B.is_exist_unspent_output db (future_spent B u x)
            else B.is_exist_pending_utxo db (future_spent B u x))
          ≡ true)
      × Available db xs rest

  collect_inputs-Available :
      (db : B.Db) (xs : List Input) (before us : List UtxoHelper)
      → Available db xs us
      → collect_inputs B db before xs ≡ collected (before ++ us)
  unfolding collect_inputs
  collect_inputs-Available db [] before us a = rw (a, append-nil)
  collect_inputs-Available db (x ∷ xs) before us (u, rest, e, e', t, a) = ground (
    arith,
    collect_inputs-Available db xs
        (before ++ (record { utxo = future_spent B u x; is_stable = u.is_stable } ∷ [])) rest a,
    append_assoc before (record { utxo = future_spent B u x; is_stable = u.is_stable } ∷ []) rest,
  )

  -- If every output that the inputs of a unit's only message name is available and the unit has an
  -- author, HandleUnit returns without an error. Afterwards the pending pool holds
  -- the outputs that the message pays back to the author, and those that it held before less the
  -- unstable ones that the message names.
  pub handle_pending-effect :
      (db : B.Db) (unit : DagUnit) (author : Author) (rest : List Author) (m : Message)
      (us : List UtxoHelper)
      → unit.authors ≡ author ∷ rest
      → unit.messages ≡ m ∷ []
      → Available db m.payload.inputs us
      → (out : PendingOut B) × (handle_pending B db unit ≡ returns out)
        × (out.error ≡ none)
        × ((v : Utxo)
            → B.is_exist_pending_utxo out.db v ≡ (
                pays_back unit author.address 0 0 m.payload.outputs v
                || (not (takes us v) && B.is_exist_pending_utxo db v)))
  unfolding handle_pending pending_messages
  handle_pending-effect db unit author rest m us a e av = (
    record { db = saved.0; error = none },
    ground (arith, collect_inputs-Available db m.payload.inputs [] us av, saved.1),
    refl,
    λ v. ground (
      arith,
      save_outputs-pending unit author rest 0 0 (delete_spent B db us) saved.0 m.payload.outputs v a
          saved.1,
      delete_spent-pending us db v,
    ),
  )
    where
      saved :
          (db' : B.Db) × (save_outputs B unit 0 0 (delete_spent B db us) m.payload.outputs
            ≡ returns db')
      saved = save_outputs-returns unit author rest 0 0 (delete_spent B db us) m.payload.outputs a
