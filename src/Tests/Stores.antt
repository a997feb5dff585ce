-- ===== src/Tests/Stores.antt =====
-- A store that keeps its writes in a list, the last first, with values as they are for texts.
use babyboy.Types.Payment.{Utxo}
use babyboy.Types.Unit.{DagUnit, HashArray, VoteResult, Ball}
use babyboy.Types.Hash.{Hash, string_eq, Address, string_eq_refl}
use babyboy.Prelude.{
  refl, All, ℕ, ◌∷◌, ◌≡◌, if◌then◌else◌, true, [], none, some, arith, Bool-cases, inl, sym, inr, ap,
  false, ◌*◌, ◌<◌, ◌∙◌, ◌==◌, ◌+◌, ◌^◌, ◌%◌,
}
use babyboy.Leveldb.Store.{Bytes, Entries, Store, Prefixes, Codec, find, starts_with}
use babyboy.Leveldb.Keys.{string_eq_sound}

pub data Stored : Type 0 where
  of_hash : Hash → Stored
  of_unit : DagUnit → Stored
  of_ball : Ball → Stored
  of_utxo : Utxo → Stored
  of_hashes : HashArray → Stored
  of_vote : VoteResult → Stored
  of_int : ℕ → Stored

abbrev hash_of : Stored → Hash
hash_of (of_hash h) = h
hash_of _ = 0

abbrev unit_of : DagUnit → Stored → DagUnit
unit_of v (of_unit u) = u
unit_of v _ = v

abbrev ball_of : Ball → Stored → Ball
ball_of v (of_ball u) = u
ball_of v _ = v

abbrev utxo_of : Utxo → Stored → Utxo
utxo_of v (of_utxo u) = u
utxo_of v _ = v

abbrev hashes_of : HashArray → Stored → HashArray
hashes_of v (of_hashes u) = u
hashes_of v _ = v

abbrev vote_of : VoteResult → Stored → VoteResult
vote_of v (of_vote r) = record r { start_time = v.start_time; end_time = v.end_time }
vote_of v _ = v

abbrev int_of : ℕ → Stored → ℕ
int_of v (of_int n) = n
int_of v _ = v

abbrev without : {V : Type 0} → Bytes → Entries V → Entries V
without k [] = []
without k (e ∷ es) = if string_eq k e.0 then without k es else e ∷ without k es

abbrev visible : {V : Type 0} → Bytes → Entries V → Entries V
visible p [] = []
visible p (e ∷ es) = if starts_with p e.0 then e ∷ without e.0 (visible p es) else visible p es

pub find-without :
    {V : Type 0} (k j : Bytes) (es : Entries V)
    → find j (without k es) ≡ (if string_eq k j then none else find j es)
find-without k j [] = ground arith
find-without k j (e ∷ es) = elim (Bool-cases (string_eq k e.0)) [
  | inl t ↦ rw (t, sym (string_eq_sound k e.0 t), find-without k j es) (ground arith)
  | inr f ↦ elim (Bool-cases (string_eq e.0 j)) [
    | inl t ↦ rw (f, t, ap (string_eq k) (sym (string_eq_sound e.0 j t)) ∙ f) refl
    | inr g ↦ rw (f, g) (find-without k j es)
  ]
]

pub find-visible :
    {V : Type 0} (p k : Bytes) (es : Entries V)
    → find k (visible p es) ≡ (if starts_with p k then find k es else none)
find-visible p k [] = ground arith
find-visible p k (e ∷ es) = elim (Bool-cases (string_eq e.0 k)) [
  | inl t ↦ ground (
    arith,
    find-without e.0 k (visible p es),
    find-visible p k es,
    ap (starts_with p) (string_eq_sound e.0 k t),
  )
  | inr f ↦ ground (arith, find-without e.0 k (visible p es), find-visible p k es)
]

All-without :
    {V : Type 0} (P Q : Bytes × V → Type 0) (k : Bytes) (es : Entries V)
    → ((x : Bytes × V) → string_eq k x.0 ≡ false → P x → Q x)
    → All P es
    → All Q (without k es)
All-without P Q k [] f a = tt
All-without P Q k (e ∷ es) f a = elim (Bool-cases (string_eq k e.0)) [
  | inl t ↦ rw t (All-without P Q k es f a.1)
  | inr n ↦ rw n (f e n a.0, All-without P Q k es f a.1)
]

All-weaken :
    {V : Type 0} (P Q : Bytes × V → Type 0) (es : Entries V)
    → ((x : Bytes × V) → P x → Q x)
    → All P es
    → All Q es
All-weaken P Q [] f a = tt
All-weaken P Q (e ∷ es) f a = (f e a.0, All-weaken P Q es f a.1)

pub visible-find :
    {V : Type 0} (p : Bytes) (es : Entries V)
    → All (λ (e : Bytes × V). (starts_with p e.0 ≡ true) × (find e.0 es ≡ some e.1)) (visible p es)
visible-find p [] = tt
visible-find {V} p (e ∷ es) = elim (Bool-cases (starts_with p e.0)) [
  | inl t ↦ rw t (
    (t, rw (string_eq_refl e.0) refl),
    All-without Old New e.0 (visible p es) (λ x n h. (h.0, rw n (h.1))) (visible-find p es),
  )
  | inr f ↦ rw f (
      All-weaken Old New (visible p es) (λ x h. (h.0, rw (other x f h.0) (h.1)))
        (visible-find p es))
]
  where
    Old : Bytes × V → Type 0
    Old x = (starts_with p x.0 ≡ true) × (find x.0 es ≡ some x.1)

    New : Bytes × V → Type 0
    New x = (starts_with p x.0 ≡ true) × (find x.0 (e ∷ es) ≡ some x.1)

    other :
        (x : Bytes × V)
        → starts_with p e.0 ≡ false
        → starts_with p x.0 ≡ true
        → string_eq e.0 x.0 ≡ false
    other x f t = elim (Bool-cases (string_eq e.0 x.0)) [
      | inr n ↦ n
      | inl y ↦ absurd (cc (f, t, ap (starts_with p) (string_eq_sound e.0 x.0 y)))
    ]

abbrev pub list_store : Store Stored
list_store = record {
  Db = Entries Stored;
  get = λ d k. find k d;
  put = λ d k v. (k, v) ∷ d;
  delete = λ d k. without k d;
  scan = λ d p. visible p d;
  get_put = λ d k v j. refl;
  get_delete = λ d k j. find-without k j d;
  find_scan = λ d p k. find-visible p k d;
  scan_get = λ d p. visible-find p d;
}

-- An address as 42 characters, of which the last is its number.
abbrev address_text : Address → Bytes
address_text a =
    0 ∷ 0 ∷ 0 ∷ 0 ∷ 0 ∷ 0 ∷ 0 ∷ 0 ∷ 0 ∷ 0 ∷ 0 ∷ 0 ∷ 0 ∷ 0 ∷ 0 ∷ 0 ∷ 0 ∷ 0 ∷ 0 ∷ 0 ∷ 0 ∷ 0 ∷ 0 ∷ 0
    ∷ 0 ∷ 0 ∷ 0 ∷ 0 ∷ 0 ∷ 0 ∷ 0 ∷ 0 ∷ 0 ∷ 0 ∷ 0 ∷ 0 ∷ 0 ∷ 0 ∷ 0 ∷ 0 ∷ 0 ∷ a ∷ []

pub address_text-eq : (a b : Address) → string_eq (address_text a) (address_text b) ≡ (a == b)
unfolding string_eq
address_text-eq a b = ground arith

abbrev utxo_number : Utxo → Hash
utxo_number u = (u.unit_hash * 10000 + u.message_index * 100 + u.output_index) % 2 ^ 256

pub utxo_number_bound : (u : Utxo) → utxo_number u < 2 ^ 256
utxo_number_bound u = omega arith

abbrev pub plain_codec : Codec Stored
plain_codec = record {
  hash_bytes = of_hash;
  bytes_to_hash = hash_of;
  address_string = address_text;
  address_bytes = of_hash;
  bytes_to_address = hash_of;
  utxo_to_hash = utxo_number;
  unit_text = of_unit;
  read_unit = unit_of;
  ball_text = of_ball;
  read_ball = ball_of;
  utxo_text = of_utxo;
  read_utxo = utxo_of;
  hash_array_text = of_hashes;
  read_hash_array = hashes_of;
  vote_result_text = of_vote;
  read_vote_result = vote_of;
  int_text = of_int;
  read_int = int_of;
  format_int = λ n. n ∷ [];
  address_string_eq = λ a b ha hb. address_text-eq a b;
  address_string_length = λ a. refl;
  utxo_to_hash_bound = utxo_number_bound;
  bytes_to_hash_bytes = λ h b. refl;
  read_unit_text = λ v u. refl;
  read_utxo_text = λ v u. refl;
  read_hash_array_text = λ v u. refl;
  read_int_text = λ v n. refl;
  read_vote_result_text = λ v r. refl;
}

abbrev pub tables : Prefixes
tables = record {
  unit_prefix = 1 ∷ [];
  ball_prefix = 2 ∷ [];
  parent_list_prefix = 3 ∷ [];
  witness_list_prefix = 4 ∷ [];
  output_prefix = 5 ∷ [];
  pending_prefix = 6 ∷ [];
  children_hash = 7 ∷ [];
  stable_units_prefix = 8 ∷ [];
  vote_round = 9 ∷ [];
  vote_result = 10 ∷ [];
  cache_unit = 11 ∷ [];
}
