-- ===== src/Transaction/Ledger.antt =====
-- What package transaction takes from `babyboy-dag/boydb`, which the repository does not hold, and
-- how its functions end. Several calls of the source give `boydb` one argument, the unspent output,
-- where leveldb/dbservice.go wants an address too: here they have the arguments of the call.
use babyboy.Prelude.{◌≡◌, Bool, false, not, ◌&&◌, ◌||◌, ◌==◌, Option, List, [], ◌∷◌}
use babyboy.Types.Hash.{Hash, Address}
use babyboy.Types.Payment.{Utxo, Commission}
use babyboy.Types.Unit.{DagUnit}

pub data TxError : Type 0 where
  err_not_find_from err_unit_info err_unit_amount_no_equal err_unit_author_address : TxError

-- A check passes, refuses the unit, or panics at an index that is out of range.
pub data Check : Type 0 where
  passes : Check
  refuses : TxError → Check
  crashes : Check

-- The keys of the outputs that a list of commissions pays.
abbrev pub pays : (Address → Utxo → Hash) → List Commission → Utxo → Bool
pays utxo_key [] u = false
pays utxo_key (c ∷ cs) u =
    utxo_key c.address c.utxo == utxo_key u.output.address u || pays utxo_key cs u

-- The database. The key of an output is made of an address and of the hash of the output's JSON text
-- (`ToHash`). It is saved and deleted under the address of the call, and where the call has none,
-- found and deleted under the one that is written in it.
pub record Boydb : Type 1 where
  pub Db : Type 0
  pub utxo_key : Address → Utxo → Hash
  pub get_unit_by_hash : Db → Hash → Option DagUnit
  pub is_exist_unspent_output : Db → Utxo → Bool
  pub del_unspent_output : Db → Address → Utxo → Db
  pub save_batch_unspent_output : Db → List Commission → Db
  pub is_exist_pending_utxo : Db → Utxo → Bool
  pub save_pending_utxo : Db → Address → Utxo → Db
  pub del_pending_unspent_output : Db → Utxo → Db
  pub save_unit_to_db : Db → DagUnit → Db
  pub unspent_key :
      (d : Db) (u v : Utxo)
      → utxo_key u.output.address u ≡ utxo_key v.output.address v
      → is_exist_unspent_output d u ≡ is_exist_unspent_output d v
  pub unspent_del :
      (d : Db) (a : Address) (u v : Utxo)
      → is_exist_unspent_output (del_unspent_output d a u) v
        ≡ (not (utxo_key a u == utxo_key v.output.address v) && is_exist_unspent_output d v)
  pub unspent_del_pending :
      (d : Db) (u v : Utxo)
      → is_exist_unspent_output (del_pending_unspent_output d u) v ≡ is_exist_unspent_output d v
  pub unspent_save :
      (d : Db) (cs : List Commission) (v : Utxo)
      → is_exist_unspent_output (save_batch_unspent_output d cs) v
        ≡ (pays utxo_key cs v || is_exist_unspent_output d v)
  pub unspent_save_unit :
      (d : Db) (u : DagUnit) (v : Utxo)
      → is_exist_unspent_output (save_unit_to_db d u) v ≡ is_exist_unspent_output d v
  pub unspent_save_pending :
      (d : Db) (a : Address) (u v : Utxo)
      → is_exist_unspent_output (save_pending_utxo d a u) v ≡ is_exist_unspent_output d v
  pub unit_del :
      (d : Db) (a : Address) (u : Utxo) (h : Hash)
      → get_unit_by_hash (del_unspent_output d a u) h ≡ get_unit_by_hash d h
  pub unit_del_pending :
      (d : Db) (u : Utxo) (h : Hash)
      → get_unit_by_hash (del_pending_unspent_output d u) h ≡ get_unit_by_hash d h
  pub unit_save_pending :
      (d : Db) (a : Address) (u : Utxo) (h : Hash)
      → get_unit_by_hash (save_pending_utxo d a u) h ≡ get_unit_by_hash d h
  pub pending_del :
      (d : Db) (u v : Utxo)
      → is_exist_pending_utxo (del_pending_unspent_output d u) v ≡ (
          not (utxo_key u.output.address u == utxo_key v.output.address v)
          && is_exist_pending_utxo d v)
  pub pending_save :
      (d : Db) (a : Address) (u v : Utxo)
      → is_exist_pending_utxo (save_pending_utxo d a u) v
        ≡ (utxo_key a u == utxo_key v.output.address v || is_exist_pending_utxo d v)

-- The key that an output is looked up by.
abbrev pub own_key : (B : Boydb) → Utxo → Hash
own_key B u = B.utxo_key u.output.address u

-- The three types of input that the switches of the package name, and any other.
pub data InputKind : Type 0 where
  witness_commission miner_commission payment unknown : InputKind
