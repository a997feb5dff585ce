-- ===== src/Leveldb/Slots/Equal.antt =====
-- When the keys of two slots are equal, and when one starts the other.
use babyboy.Prelude.{
  refl, ◌∷◌, ◌++◌, ◌≡◌, ◌<◌, ◌^◌, ◌==◌, ◌&&◌, true, false, Bool-cases, inl, inr, arith, ap, ap₂,
  sym, ◌∙◌, length, length-append,
}
use babyboy.Types.Hash.{Hash, Address, string_eq, hash_string, hash_string-length}
use babyboy.Leveldb.Store.{Bytes, Store, Prefixes, Codec, starts_with}
use babyboy.Leveldb.Keys.{
  starts_with-append, starts_with-longer, string_eq-prefix, string_eq_sound, starts_with_same,
  string_eq-append, string_eq-hash_string,
}
use babyboy.Leveldb.Slots.{
  Slot, unit_slot, unspent_slot, pending_slot, tip_slot, table, slot_eq, IsSlot, slot_prefix,
  slot_rest, slot_key, HasApartTables, starts_with-slot_key,
}

module _ {V : Type 0} (S : Store V) (C : Codec V) (K : Prefixes) where
  string_eq-other :
      (s t : Slot)
      → HasApartTables S C K
      → (table s == table t) ≡ false
      → string_eq (slot_key S C K s) (slot_key S C K t) ≡ false
  string_eq-other s t a n = elim (Bool-cases (string_eq (slot_key S C K s) (slot_key S C K t))) [
    | inr f ↦ f
    | inl e ↦ absurd (
        cc (
          starts_with-append (slot_prefix S C K s) (slot_rest S C K s),
          ap (starts_with (slot_prefix S C K s))
              (string_eq_sound (slot_key S C K s) (slot_key S C K t) e),
          starts_with-slot_key S C K s t a n,
        ))
  ]

  string_eq-owned :
      (a b : Address) (h k : Hash)
      → a < 2 ^ 160
      → b < 2 ^ 160
      → h < 2 ^ 256
      → k < 2 ^ 256
      → string_eq
          (C.address_string a ++ (b'.' ∷ hash_string h))
          (C.address_string b ++ (b'.' ∷ hash_string k))
        ≡ (a == b && h == k)
  unfolding string_eq
  string_eq-owned a b h k ha hb hh hk =
      string_eq-append (C.address_string a) (C.address_string b) (b'.' ∷ hash_string h)
        (b'.' ∷ hash_string k) (C.address_string_length a ∙ sym (C.address_string_length b))
      ∙ ap₂ ◌&&◌ (C.address_string_eq a b ha hb) (string_eq-hash_string h k hh hk)

  length-owned :
      (a b : Address) (h k : Hash)
      → length (C.address_string a ++ (b'.' ∷ hash_string h))
        ≡ length (C.address_string b ++ (b'.' ∷ hash_string k))
  length-owned a b h k = omega (
    arith,
    length-append (C.address_string a) (b'.' ∷ hash_string h),
    length-append (C.address_string b) (b'.' ∷ hash_string k),
    C.address_string_length a,
    C.address_string_length b,
    hash_string-length h,
    hash_string-length k,
  )

  -- Keys are equal exactly where the slots are.
  pub string_eq-slot_key :
      (s t : Slot)
      → HasApartTables S C K
      → IsSlot s
      → IsSlot t
      → string_eq (slot_key S C K s) (slot_key S C K t) ≡ slot_eq s t
  string_eq-slot_key (unit_slot h) (unit_slot k) a (_, hh) (_, hk) =
      string_eq-prefix K.unit_prefix (hash_string h) (hash_string k)
      ∙ string_eq-hash_string h k hh hk
  string_eq-slot_key (tip_slot h) (tip_slot k) a (_, hh) (_, hk) =
      string_eq-prefix K.parent_list_prefix (hash_string h) (hash_string k)
      ∙ string_eq-hash_string h k hh hk
  string_eq-slot_key (unspent_slot b h) (unspent_slot c k) a (hb, hh) (hc, hk) =
      string_eq-prefix K.output_prefix _ _ ∙ string_eq-owned b c h k hb hc hh hk
  string_eq-slot_key (pending_slot b h) (pending_slot c k) a (hb, hh) (hc, hk) =
      string_eq-prefix K.pending_prefix _ _ ∙ string_eq-owned b c h k hb hc hh hk
  string_eq-slot_key s t a hs ht = string_eq-other s t a refl

  length-slot_rest :
      (s t : Slot)
      → (table s == table t) ≡ true
      → length (slot_rest S C K s) ≡ length (slot_rest S C K t)
  length-slot_rest (unit_slot h) (unit_slot k) e = hash_string-length h ∙ sym (hash_string-length k)
  length-slot_rest (tip_slot h) (tip_slot k) e = hash_string-length h ∙ sym (hash_string-length k)
  length-slot_rest (unspent_slot a h) (unspent_slot b k) e = length-owned a b h k
  length-slot_rest (pending_slot a h) (pending_slot b k) e = length-owned a b h k
  length-slot_rest _ _ e = absurd (ground arith)

  same_prefix :
      (s t : Slot) → (table s == table t) ≡ true → slot_prefix S C K s ≡ slot_prefix S C K t
  same_prefix (unit_slot h) (unit_slot k) e = refl
  same_prefix (tip_slot h) (tip_slot k) e = refl
  same_prefix (unspent_slot a h) (unspent_slot b k) e = refl
  same_prefix (pending_slot a h) (pending_slot b k) e = refl
  same_prefix _ _ e = absurd (ground arith)

  -- A slot's key starts another's only where the slots are equal.
  pub starts_with-slot_eq :
      (s t : Slot)
      → HasApartTables S C K
      → IsSlot s
      → IsSlot t
      → starts_with (slot_key S C K s) (slot_key S C K t) ≡ slot_eq s t
  starts_with-slot_eq s t a hs ht = elim (Bool-cases (table s == table t)) [
    | inl e ↦
        starts_with_same (slot_key S C K s) (slot_key S C K t) (size e)
        ∙ string_eq-slot_key s t a hs ht
    | inr n ↦ elim (Bool-cases (starts_with (slot_key S C K s) (slot_key S C K t))) [
      | inr f ↦ ground arith
      | inl w ↦ absurd (
          cc (
            starts_with-slot_key S C K s t a n,
            starts_with-longer (slot_prefix S C K s) (slot_rest S C K s) (slot_key S C K t) w,
          ))
    ]
  ]
    where
      size : (table s == table t) ≡ true → length (slot_key S C K s) ≡ length (slot_key S C K t)
      size e = omega (
        arith,
        length-append (slot_prefix S C K s) (slot_rest S C K s),
        length-append (slot_prefix S C K t) (slot_rest S C K t),
        ap (λ (p : Bytes). length p) (same_prefix s t e),
        length-slot_rest s t e,
      )
