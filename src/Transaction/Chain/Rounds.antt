-- ===== src/Transaction/Chain/Rounds.antt =====
-- The loop of UpdateMainChain, as the rounds that it takes.
use babyboy.Prelude.{List, [], ◌++◌, Bool, true, false, ◌≡◌}
use babyboy.Interface.{returns}
use babyboy.Types.Hash.{Hash, Address}
use babyboy.Types.Payment.{Utxo, Commission}
use babyboy.Types.Unit.{DagUnit, reset_stable_state}
use babyboy.Transaction.Ledger.{Boydb}
use babyboy.Transaction.Chain.{LoopOut, handle_stable_units}
use babyboy.Transaction.Chain.Effect.{any, Ledgered}

module _ (B : Boydb) where
  module _ (visit : List (Address × List Commission) → List (Address × List Commission))
      (visits : (p : Address × List Commission → Bool) (groups : List (Address × List Commission))
        → any p (visit groups) ≡ any p groups)
      (Tips Updater : Type 0) (save_new_tip : Tips → Hash → Tips)
      (new_main_chain_updater : B.Db → DagUnit → Tips → Updater × B.Db)
      (extend : Updater → B.Db → Updater × B.Db × Bool × List DagUnit) where
    -- The updater that UpdateMainChain makes, and the database that it leaves.
    abbrev pub started : B.Db → Tips → DagUnit → Updater × B.Db
    started db pdb unit =
        let fresh = reset_stable_state unit in
        new_main_chain_updater (B.save_unit_to_db db fresh) fresh (save_new_tip pdb fresh.hash)

    -- The rounds from an updater and a database on: each extends the stable ball and handles the
    -- units that it made stable, until the ball cannot be extended. The outputs spent and paid are
    -- those of the rounds.
    pub data Rounds : Updater → B.Db → List Utxo → List Commission → B.Db → Type 0 where
      stop : {m : Updater} {db : B.Db} → (extend m db).2 ≡ false → Rounds m db [] [] (extend m db).1
      round :
          {m : Updater} {db last : B.Db} {l : LoopOut B} {us vs : List Utxo}
          {ps qs : List Commission}
          → (extend m db).2 ≡ true
          → handle_stable_units B visit (extend m db).1 (extend m db).3 ≡ returns l
          → Ledgered B (extend m db).1 (extend m db).3 us ps l
          → Rounds (extend m db).0 l.db vs qs last
          → Rounds m db (us ++ vs) (ps ++ qs) last

    -- The main chain updater leaves the unspent outputs as they are.
    pub record KeepsOutputs : Type 0 where
      pub starts :
          (db : B.Db) (unit : DagUnit) (pdb : Tips) (v : Utxo)
          → B.is_exist_unspent_output (new_main_chain_updater db unit pdb).1 v
            ≡ B.is_exist_unspent_output db v
      pub extends :
          (m : Updater) (db : B.Db) (v : Utxo)
          → B.is_exist_unspent_output (extend m db).1 v ≡ B.is_exist_unspent_output db v
