-- ===== src/Leveldb/Outputs.antt =====
-- leveldb/dbservice.go: the tables of unspent outputs, of stable units and of pending ones.
use babyboy.Types.Payment.{Commission, Utxo, empty_utxo}
use babyboy.Types.Hash.{Address, Hash, hash_string}
use babyboy.Prelude.{List, [], ◌∷◌, ◌++◌, Bool, not, is_nil}
use babyboy.Leveldb.Store.{Bytes, Entries, Store, Prefixes, Codec, put_all, values}

module _ {V : Type 0} (S : Store V) (C : Codec V) (K : Prefixes) where
  -- The prefix, the address, a dot and a hash.
  unfoldable pub owned_key : Bytes → Address → Hash → Bytes
  owned_key table address h = table ++ (C.address_string address ++ (b'.' ∷ hash_string h))

  unfoldable pub save_unspent_output : S.Db → Address → Utxo → S.Db
  save_unspent_output db address utxo =
      S.put db (owned_key K.output_prefix address (C.utxo_to_hash utxo)) (C.utxo_text utxo)

  unfoldable pub del_unspent_output : S.Db → Address → Utxo → S.Db
  del_unspent_output db address utxo =
      S.delete db (owned_key K.output_prefix address (C.utxo_to_hash utxo))

  unfoldable pub commission_entries : List Commission → Entries V
  commission_entries [] = []
  commission_entries (c ∷ cs) =
      (owned_key K.output_prefix c.address (C.utxo_to_hash c.utxo), C.utxo_text c.utxo)
      ∷ commission_entries cs

  unfoldable pub save_batch_unspent_output : S.Db → List Commission → S.Db
  unfolding commission_entries
  save_batch_unspent_output db commissions = put_all S db (commission_entries commissions)

  unfoldable pub del_pending_unspent_output : S.Db → Address → Utxo → S.Db
  del_pending_unspent_output db address utxo =
      S.delete db (owned_key K.pending_prefix address (C.utxo_to_hash utxo))

  unfoldable pub get_unspent_output : S.Db → Address → List Utxo
  get_unspent_output db address =
      values (C.read_utxo empty_utxo) (S.scan db (K.output_prefix ++ C.address_string address))

  unfoldable pub is_exist_unspent_output : S.Db → Address → Utxo → Bool
  is_exist_unspent_output db address utxo =
      not (is_nil (S.scan db (owned_key K.output_prefix address (C.utxo_to_hash utxo))))

  unfoldable pub save_pending_utxo : S.Db → Address → Utxo → S.Db
  save_pending_utxo db address utxo =
      S.put db (owned_key K.pending_prefix address (C.utxo_to_hash utxo)) (C.utxo_text utxo)

  unfoldable pub del_pending_utxo : S.Db → Address → Utxo → S.Db
  del_pending_utxo db address utxo =
      S.delete db (owned_key K.pending_prefix address (C.utxo_to_hash utxo))

  abbrev pub last_read : Utxo → Entries V → Utxo
  last_read utxo [] = utxo
  last_read utxo (e ∷ es) = last_read (C.read_utxo empty_utxo e.1) es

  unfoldable pub get_pending_utxo : S.Db → Address → Hash → Utxo
  get_pending_utxo db address h =
      last_read empty_utxo (S.scan db (owned_key K.pending_prefix address h))

  unfoldable pub get_pending_utxo_by_author : S.Db → Address → List Utxo
  get_pending_utxo_by_author db address =
      values (C.read_utxo empty_utxo) (S.scan db (K.pending_prefix ++ C.address_string address))

  unfoldable pub is_exist_pending_utxo : S.Db → Address → Utxo → Bool
  is_exist_pending_utxo db address utxo =
      not (is_nil (S.scan db (owned_key K.pending_prefix address (C.utxo_to_hash utxo))))

  unfoldable pub get_all_pending_unspent : S.Db → Address → List Utxo
  get_all_pending_unspent db address =
      values (C.read_utxo empty_utxo)
        (S.scan db (K.pending_prefix ++ (C.address_string address ++ (b'.' ∷ []))))

  keyed_utxos : Entries V → List (Bytes × Utxo)
  keyed_utxos [] = []
  keyed_utxos (e ∷ es) = (e.0, C.read_utxo empty_utxo e.1) ∷ keyed_utxos es

  -- The map's entries, by key.
  unfoldable pub get_unspent_output_from_pending_pool : S.Db → Address → List (Bytes × Utxo)
  unfolding keyed_utxos
  get_unspent_output_from_pending_pool db address =
      keyed_utxos (S.scan db (K.pending_prefix ++ C.address_string address))
