-- ===== src/Transaction/Chain.antt =====
-- transaction/consensus.go, and the commissions of transaction/transaction.go: what happens to the
-- units that have become stable. The lock is left out. The order in which Go goes through a map is
-- the parameter `visit`.
pub mod Total
pub mod Course
pub mod Earnings
pub mod Effect
pub mod Accounts
pub mod Rounds
use babyboy.Prelude.{
  ℕ, ◌++◌, ◌==◌, if◌then◌else◌, is_nil, none, some, [], ◌∷◌, true, false, List, map, Bool, suc,
  zero,
}
use babyboy.Interface.{Outcome, returns, panics, out_of_fuel}
use babyboy.Types.Hash.{Hash, Address}
use babyboy.Types.Payment.{Utxo, Commission}
use babyboy.Types.Unit.{DagUnit, Author, reset_stable_state}
use babyboy.Transaction.Ledger.{Boydb, TxError}
use babyboy.Transaction.Stable.{StableOut, handle_unit}

abbrev pub const_header_commission : ℕ
const_header_commission = 100

abbrev pub const_payload_commission : ℕ
const_payload_commission = 100

-- `Amount`, which the source sets, is no field of types.UTXO: it is the amount of the output here.
unfoldable pub witness_earning : Author → DagUnit → Commission
witness_earning author unit = record {
  address = author.address;
  utxo = record {
    unit_hash = unit.hash;
    message_index = 0;
    output_index = 0;
    output = record { address = 0; amount = unit.payload_commission };
    type_of = "wc";
  };
}

abbrev pub last_authors : List DagUnit → Outcome (List Author)
last_authors [] = panics
last_authors (unit ∷ []) = returns unit.authors
last_authors (unit ∷ next ∷ units) = last_authors (next ∷ units)

-- `units[len(units)-1]` and `Authors[0]`, which is read once for each unit.
unfoldable pub calc_witness_earnings : List DagUnit → Outcome (List Commission)
unfolding witness_earning
calc_witness_earnings units = elim (last_authors units) [
  | panics ↦ panics
  | out_of_fuel ↦ out_of_fuel
  | returns authors ↦ elim authors [
    | [] ↦ panics
    | author ∷ _ ↦ returns (map (witness_earning author) units)
  ]
]

unfoldable pub handle_commission : List DagUnit → Outcome (List Commission)
unfolding calc_witness_earnings
handle_commission units = calc_witness_earnings units

unfoldable pub give_miner_earnings : List DagUnit → List Commission
give_miner_earnings [] = []
give_miner_earnings (unit ∷ units) =
    record {
      address = unit.sub_stable_author;
      utxo = record {
        unit_hash = unit.sub_stable_min_hash;
        message_index = 0;
        output_index = 0;
        output = record { address = 0; amount = const_header_commission };
        type_of = "mc";
      };
    }
    ∷ give_miner_earnings units

-- `authorsCom[com.Address] = append(authorsCom[com.Address], commission)`.
abbrev pub add_commission :
    Commission → List (Address × List Commission) → List (Address × List Commission)
add_commission commission [] = (commission.address, commission ∷ []) ∷ []
add_commission commission (group ∷ groups) =
    if commission.address == group.0
    then (group.0, group.1 ++ (commission ∷ [])) ∷ groups
    else group ∷ add_commission commission groups

unfoldable pub group_commissions :
    List (Address × List Commission) → List Commission → List (Address × List Commission)
group_commissions groups [] = groups
group_commissions groups (commission ∷ commissions) =
    group_commissions (add_commission commission groups) commissions

module _ (B : Boydb) where
  unfoldable pub stable_tx : B.Db → DagUnit → Outcome (StableOut B)
  unfolding handle_unit
  stable_tx db unit = handle_unit B db unit

  unfoldable pub distribute_commission : B.Db → List (Address × List Commission) → B.Db
  distribute_commission db [] = db
  distribute_commission db (group ∷ groups) =
      distribute_commission (B.save_batch_unspent_output db group.1) groups

  -- What the loop over the units leaves: `aborted` if StableTx had an error.
  pub record LoopOut : Type 0 where
    pub db : B.Db
    pub valid_units : List DagUnit
    pub commissions : List Commission
    pub aborted : Bool

  unfoldable pub stable_loop : LoopOut → List DagUnit → Outcome LoopOut
  unfolding stable_tx
  stable_loop l [] = returns l
  stable_loop l (t_unit ∷ units) = elim (stable_tx l.db t_unit) [
    | panics ↦ panics
    | out_of_fuel ↦ out_of_fuel
    | returns out ↦ elim out.error [
      | some e ↦ returns (record l { db = out.db; aborted = true })
      | none ↦ elim out.valid [
        | true ↦
            stable_loop
              (record l {
                db = out.db;
                valid_units = l.valid_units ++ (t_unit ∷ []);
                commissions = l.commissions ++ out.commissions;
              })
              units
        | false ↦
            stable_loop
              (record l {
                db = B.save_unit_to_db out.db (record t_unit { invalid = true });
                commissions = l.commissions ++ out.commissions;
              })
              units
      ]
    ]
  ]

  module _ (visit : List (Address × List Commission) → List (Address × List Commission)) where
    -- After the loop: an aborted one distributes nothing.
    unfoldable pub settle_commissions : LoopOut → Outcome LoopOut
    unfolding group_commissions distribute_commission
    settle_commissions l =
        if l.aborted
        then returns l
        else (elim (if is_nil l.valid_units then returns [] else handle_commission l.valid_units) [
          | panics ↦ panics
          | out_of_fuel ↦ out_of_fuel
          | returns earnings ↦
              (let all_commissions = l.commissions ++ earnings in
                returns (record l {
                  db = distribute_commission l.db (visit (group_commissions [] all_commissions));
                  commissions = all_commissions;
                }))
        ])

    unfoldable pub handle_stable_units : B.Db → List DagUnit → Outcome LoopOut
    unfolding stable_loop settle_commissions
    handle_stable_units db units =
        elim (stable_loop (record { db = db; valid_units = []; commissions = []; aborted = false })
          units) [ panics ↦ panics | out_of_fuel ↦ out_of_fuel | returns l ↦ settle_commissions l ]

    -- `Tips` is ParentMemDB with SaveNewTip, and `Updater` the MainChainUpdater with
    -- StableBallCanExtend, neither of which the repository holds. Both functions of the updater can
    -- write to the database.
    module _ (Tips Updater : Type 0) (save_new_tip : Tips → Hash → Tips)
        (new_main_chain_updater : B.Db → DagUnit → Tips → Updater × B.Db)
        (stable_ball_can_extend : Updater → B.Db → Updater × B.Db × Bool × List DagUnit) where
      unfoldable pub extend_loop : ℕ → Updater → B.Db → Outcome B.Db
      unfolding handle_stable_units
      extend_loop zero main_chain db = out_of_fuel
      extend_loop (suc fuel) main_chain db =
          let extended = stable_ball_can_extend main_chain db in
          elim extended.2 [
            | false ↦ returns extended.1
            | true ↦ elim (handle_stable_units extended.1 extended.3) [
              | panics ↦ panics
              | out_of_fuel ↦ out_of_fuel
              | returns l ↦ extend_loop fuel extended.0 l.db
            ]
          ]

      unfoldable pub update_main_chain : ℕ → B.Db → Tips → DagUnit → Tips × Outcome B.Db
      unfolding extend_loop
      update_main_chain fuel db pdb unit =
          let fresh = reset_stable_state unit in
          let saved = B.save_unit_to_db db fresh in
          let tips = save_new_tip pdb fresh.hash in
          let main_chain = new_main_chain_updater saved fresh tips in
          (tips, extend_loop fuel main_chain.0 main_chain.1)
