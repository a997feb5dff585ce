-- ===== src/Leveldb/Slots.antt =====
-- The keys of four tables of leveldb/dbservice.go: units, unspent outputs, pending outputs, tips.
pub mod Equal
use babyboy.Prelude.{
  ℕ, refl, List, [], ◌∷◌, ◌++◌, ◌≡◌, ◌<◌, ◌^◌, ◌==◌, ◌&&◌, not, true, false, Bool, Bool-cases, inl,
  inr, arith, ap, ap₂, sym, ◌∙◌, length, length-append, All,
}
use babyboy.Types.Hash.{Hash, Address, string_eq, hash_string, hash_string-length}
use babyboy.Leveldb.Store.{Bytes, Store, Prefixes, Codec, starts_with}
use babyboy.Leveldb.Keys.{
  starts_with-append, starts_with-longer, starts_with-apart, string_eq-prefix, string_eq_sound,
  starts_with_same, string_eq-append, string_eq-hash_string,
}

-- A place in one of the tables. An output is found by its owner and its hash.
pub data Slot : Type 0 where
  unit_slot : Hash → Slot
  unspent_slot : Address → Hash → Slot
  pending_slot : Address → Hash → Slot
  tip_slot : Hash → Slot

abbrev pub table : Slot → ℕ
table (unit_slot h) = 0
table (unspent_slot a h) = 1
table (pending_slot a h) = 2
table (tip_slot h) = 3

abbrev pub owner : Slot → Address
owner (unit_slot h) = 0
owner (unspent_slot a h) = a
owner (pending_slot a h) = a
owner (tip_slot h) = 0

abbrev pub slot_hash : Slot → Hash
slot_hash (unit_slot h) = h
slot_hash (unspent_slot a h) = h
slot_hash (pending_slot a h) = h
slot_hash (tip_slot h) = h

abbrev pub slot_eq : Slot → Slot → Bool
slot_eq s t = table s == table t && (owner s == owner t && slot_hash s == slot_hash t)

-- A hash of 32 bytes, and an owner of 20.
abbrev pub IsSlot : Slot → Type 0
IsSlot s = (owner s < 2 ^ 160) × (slot_hash s < 2 ^ 256)

-- None of the prefixes starts with another.
abbrev pub starts_none : Bytes → List Bytes → Bool
starts_none p [] = true
starts_none p (q ∷ qs) = (not (starts_with p q) && not (starts_with q p)) && starts_none p qs

abbrev pub are_apart : List Bytes → Bool
are_apart [] = true
are_apart (p ∷ ps) = starts_none p ps && are_apart ps

module _ {V : Type 0} (S : Store V) (C : Codec V) (K : Prefixes) where
  abbrev pub slot_prefix : Slot → Bytes
  slot_prefix (unit_slot h) = K.unit_prefix
  slot_prefix (unspent_slot a h) = K.output_prefix
  slot_prefix (pending_slot a h) = K.pending_prefix
  slot_prefix (tip_slot h) = K.parent_list_prefix

  abbrev pub slot_rest : Slot → Bytes
  slot_rest (unit_slot h) = hash_string h
  slot_rest (unspent_slot a h) = C.address_string a ++ (b'.' ∷ hash_string h)
  slot_rest (pending_slot a h) = C.address_string a ++ (b'.' ∷ hash_string h)
  slot_rest (tip_slot h) = hash_string h

  abbrev pub slot_key : Slot → Bytes
  slot_key s = slot_prefix s ++ slot_rest s

  abbrev pub slot_prefixes : List Bytes
  slot_prefixes = K.unit_prefix ∷ K.output_prefix ∷ K.pending_prefix ∷ K.parent_list_prefix ∷ []

  abbrev pub other_prefixes : List Bytes
  other_prefixes =
      K.ball_prefix ∷ K.witness_list_prefix ∷ K.children_hash ∷ K.stable_units_prefix ∷ K.vote_round
      ∷ K.vote_result ∷ K.cache_unit ∷ []

  -- The prefixes of the four tables start no other, and no other starts them.
  abbrev pub HasApartTables : Type 0
  HasApartTables =
      (are_apart slot_prefixes ≡ true)
      × All (λ p. starts_none p slot_prefixes ≡ true) other_prefixes

  four_apart :
      (s t : Slot)
      → are_apart slot_prefixes ≡ true
      → (table s == table t) ≡ false
      → starts_with (slot_prefix s) (slot_prefix t) ≡ false
  four_apart (unit_slot h) (unit_slot k) a n = absurd (ground arith)
  four_apart _ _ a n = ground arith

  prefixes_apart :
      (s t : Slot)
      → HasApartTables
      → (table s == table t) ≡ false
      → starts_with (slot_prefix s) (slot_prefix t) ≡ false
  prefixes_apart s t a n = four_apart s t a.0 n

  -- A key of another table is in none of the four.
  pub starts_with-other :
      (s : Slot) (p k : Bytes)
      → starts_none p slot_prefixes ≡ true
      → (starts_with p (slot_key s) ≡ false) × (starts_with (slot_prefix s) (p ++ k) ≡ false)
  starts_with-other s p k o = (
    starts_with-apart p (slot_prefix s) (slot_rest s) (both s).0 (both s).1,
    starts_with-apart (slot_prefix s) p k (both s).1 (both s).0,
  )
    where
      both :
          (s : Slot)
          → (starts_with p (slot_prefix s) ≡ false) × (starts_with (slot_prefix s) p ≡ false)
      both (unit_slot h) = (ground (arith, o), ground (arith, o))
      both (unspent_slot a h) = (ground (arith, o), ground (arith, o))
      both (pending_slot a h) = (ground (arith, o), ground (arith, o))
      both (tip_slot h) = (ground (arith, o), ground (arith, o))

  -- A key of one table does not start with the prefix of another.
  pub starts_with-slot_key :
      (s t : Slot)
      → HasApartTables
      → (table s == table t) ≡ false
      → starts_with (slot_prefix s) (slot_key t) ≡ false
  starts_with-slot_key s t a n =
      starts_with-apart (slot_prefix s) (slot_prefix t) (slot_rest t) (prefixes_apart s t a n)
        (prefixes_apart t s a (ground arith))
