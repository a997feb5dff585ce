-- ===== src/Leveldb/Store.antt =====
-- What leveldb/dbservice.go takes from elsewhere: LevelDB, encoding/json, and the prefixes that
-- package `config` gives to the keys. Keys are byte lists; `V` are the texts of values. A write is taken not to fail.
use babyboy.Prelude.{
  ℕ, ◌≡◌, List, [], ◌∷◌, Bool, true, false, ◌&&◌, ◌==◌, if◌then◌else◌, Option, none, some, All, ◌<◌,
  ◌^◌, length,
}
use babyboy.Types.Hash.{Hash, Address, string_eq}
use babyboy.Types.Payment.{Utxo}
use babyboy.Types.Unit.{DagUnit, Ball, HashArray, VoteResult}

abbrev pub Bytes : Type 0
Bytes = List ℕ

abbrev pub Entries : Type 0 → Type 0
Entries V = List (Bytes × V)

abbrev pub starts_with : Bytes → Bytes → Bool
starts_with [] k = true
starts_with (x ∷ xs) [] = false
starts_with (x ∷ xs) (y ∷ ys) = x == y && starts_with xs ys

abbrev pub find : {V : Type 0} → Bytes → Entries V → Option V
find k [] = none
find k ((j, v) ∷ es) = if string_eq j k then some v else find k es

-- `scan` lists the entries whose keys start with a prefix, as an iterator over it meets them.
pub record Store (V : Type 0) : Type 1 where
  pub Db : Type 0
  pub get : Db → Bytes → Option V
  pub put : Db → Bytes → V → Db
  pub delete : Db → Bytes → Db
  pub scan : Db → Bytes → Entries V
  pub get_put :
      (d : Db) (k : Bytes) (v : V) (j : Bytes)
      → get (put d k v) j ≡ (if string_eq k j then some v else get d j)
  pub get_delete :
      (d : Db) (k j : Bytes) → get (delete d k) j ≡ (if string_eq k j then none else get d j)
  pub find_scan :
      (d : Db) (p k : Bytes) → find k (scan d p) ≡ (if starts_with p k then get d k else none)
  pub scan_get :
      (d : Db) (p : Bytes)
      → All (λ e. (starts_with p e.0 ≡ true) × (get d e.0 ≡ some e.1)) (scan d p)

-- The prefixes of the tables.
pub record Prefixes : Type 0 where
  pub unit_prefix : Bytes
  pub ball_prefix : Bytes
  pub parent_list_prefix : Bytes
  pub witness_list_prefix : Bytes
  pub output_prefix : Bytes
  pub pending_prefix : Bytes
  pub children_hash : Bytes
  pub stable_units_prefix : Bytes
  pub vote_round : Bytes
  pub vote_result : Bytes
  pub cache_unit : Bytes

-- The texts of values. `read` functions take what the variable holds before `json.Unmarshal`,
-- which leaves a field that the text does not have. `hash_bytes` are the 32 bytes of a hash.
pub record Codec (V : Type 0) : Type 0 where
  pub hash_bytes : Hash → V
  pub bytes_to_hash : V → Hash
  pub address_string : Address → Bytes
  pub address_bytes : Address → V
  pub bytes_to_address : V → Address
  pub utxo_to_hash : Utxo → Hash
  pub unit_text : DagUnit → V
  pub read_unit : DagUnit → V → DagUnit
  pub ball_text : Ball → V
  pub read_ball : Ball → V → Ball
  pub utxo_text : Utxo → V
  pub read_utxo : Utxo → V → Utxo
  pub hash_array_text : HashArray → V
  pub read_hash_array : HashArray → V → HashArray
  pub vote_result_text : VoteResult → V
  pub read_vote_result : VoteResult → V → VoteResult
  pub int_text : ℕ → V
  pub read_int : ℕ → V → ℕ
  pub format_int : ℕ → Bytes
  pub address_string_eq :
      (a b : Address)
      → a < 2 ^ 160
      → b < 2 ^ 160
      → string_eq (address_string a) (address_string b) ≡ (a == b)
  pub address_string_length : (a : Address) → length (address_string a) ≡ 42
  pub utxo_to_hash_bound : (u : Utxo) → utxo_to_hash u < 2 ^ 256
  pub bytes_to_hash_bytes : (h : Hash) → h < 2 ^ 256 → bytes_to_hash (hash_bytes h) ≡ h
  pub read_unit_text : (v u : DagUnit) → read_unit v (unit_text u) ≡ u
  pub read_utxo_text : (v u : Utxo) → read_utxo v (utxo_text u) ≡ u
  pub read_hash_array_text : (v u : HashArray) → read_hash_array v (hash_array_text u) ≡ u
  pub read_int_text : (v n : ℕ) → read_int v (int_text n) ≡ n
  -- Two fields of one name, and one depth, are both left out of the text.
  pub read_vote_result_text :
      (v r : VoteResult)
      → read_vote_result v (vote_result_text r)
        ≡ record r { start_time = v.start_time; end_time = v.end_time }

-- A batch: its puts, in order.
abbrev pub put_all : {V : Type 0} → (S : Store V) → S.Db → Entries V → S.Db
put_all S d [] = d
put_all S d ((k, v) ∷ es) = put_all S (S.put d k v) es

-- What a loop over an iterator collects: each value read into a fresh variable, or all into one.
abbrev pub values {ℓ} : {V : Type 0} → {A : Type ℓ} → (V → A) → Entries V → List A
values read [] = []
values read (e ∷ es) = read e.1 ∷ values read es

abbrev pub read_all {ℓ} : {V : Type 0} → {A : Type ℓ} → (A → V → A) → A → Entries V → A
read_all read a [] = a
read_all read a (e ∷ es) = read_all read (read a e.1) es
