-- ===== src/Leveldb/Replay/OutputReads.antt =====
-- What the reads of both tables of outputs answer in a database that represents four functions.

use babyboy.Prelude.{
  ap₂, ==_iff, refl, [], ◌∷◌, ◌≡◌, ◌<◌, ◌^◌, true, inl, inr, arith, ap, sym, ◌∙◌, Option, none,
  some, All, get_or, Option-cases, not, is_nil,
}
use babyboy.Graphop.Assoc.{is_some}
use babyboy.Types.Hash.{Hash, Address}
use babyboy.Types.Payment.{Utxo, empty_utxo}
use babyboy.Leveldb.Store.{Bytes, Entries, Store, Prefixes, Codec, starts_with}
use babyboy.Leveldb.Outputs.{
  owned_key, is_exist_unspent_output, is_exist_pending_utxo, get_pending_utxo, last_read,
}
use babyboy.Leveldb.Keys.{occurs, occurs_get, occurs-entry, starts_with-longer}
use babyboy.Leveldb.Slots.Equal.{starts_with-slot_eq}
use babyboy.Leveldb.Slots.{
  Slot, unspent_slot, pending_slot, slot_eq, IsSlot, slot_key, slot_prefix, slot_rest,
  HasApartTables,
}
use babyboy.Leveldb.ParentTable.{All-weaken}
use babyboy.Leveldb.Replay.{Contents, Represents, cell, text_of, is_scanned}

module _ {V : Type 0} (S : Store V) (C : Codec V) (K : Prefixes) (apart : HasApartTables S C K)
    (db : S.Db) (t : Contents) (r : Represents S C K db t) where
  -- A key that a slot's key starts, in a scanned table, is the slot's.
  only_slot :
      (s : Slot) (k : Bytes) (v : V)
      → IsSlot s
      → (starts_with (slot_prefix S C K s) k ≡ true → is_scanned S C K k ≡ true)
      → starts_with (slot_key S C K s) k ≡ true
      → S.get db k ≡ some v
      → (u : Slot) × IsSlot u × (k ≡ slot_key S C K u) × (slot_eq s u ≡ true)
  only_slot s k v hs scanned w g =
      let (u, hu, e) =
        r.tidy k v (scanned (starts_with-longer (slot_prefix S C K s) (slot_rest S C K s) k w)) g in
      (
        u,
        hu,
        e,
        sym (starts_with-slot_eq S C K s u apart hs hu)
            ∙ ap (starts_with (slot_key S C K s)) (sym e)
            ∙ w,
      )

  -- A prefix that is a slot's whole key occurs if the slot holds something.
  occurs-slot :
      (s : Slot)
      → IsSlot s
      → ((k : Bytes) → starts_with (slot_prefix S C K s) k ≡ true → is_scanned S C K k ≡ true)
      → ((u : Slot) → slot_eq s u ≡ true → is_some (cell S C K t u) ≡ is_some (cell S C K t s))
      → occurs S db (slot_key S C K s) ≡ is_some (cell S C K t s)
  occurs-slot s hs scanned same = elim (occurs-entry S db (slot_key S C K s)) [
    | inr (k, v, w, g) ↦
        let (u, hu, e, q) = only_slot s k v hs (scanned k) w g in
        occurs_get S db (slot_key S C K s) k v w g
        ∙ sym (ap is_some (sym (r.cells u hu) ∙ ap (S.get db) (sym e) ∙ g))
        ∙ same u q
    | inl f ↦ elim (Option-cases (cell S C K t s)) [
      | inl n ↦ f ∙ sym (ap is_some n)
      | inr (v, c) ↦ absurd (
          cc (
            f,
            occurs_get S db (slot_key S C K s) (slot_key S C K s) v
                (starts_with-slot_eq S C K s s apart hs hs ∙ ground arith) (r.cells s hs ∙ c),
          ))
    ]
  ]

  unspent_same :
      (a : Address) (h : Hash) (u : Slot)
      → slot_eq (unspent_slot a h) u ≡ true
      → is_some (cell S C K t u) ≡ is_some (cell S C K t (unspent_slot a h))
  unspent_same a h (unspent_slot b j) e =
      ap₂ (λ c k. is_some (cell S C K t (unspent_slot c k))) ((==_iff b a).0 (ground arith))
        ((==_iff j h).0 (ground arith))
  unspent_same a h _ e = absurd (ground arith)

  pending_same :
      (a : Address) (h : Hash) (u : Slot)
      → slot_eq (pending_slot a h) u ≡ true
      → cell S C K t u ≡ cell S C K t (pending_slot a h)
  pending_same a h (pending_slot b j) e =
      ap₂ (λ c k. cell S C K t (pending_slot c k)) ((==_iff b a).0 (ground arith))
        ((==_iff j h).0 (ground arith))
  pending_same a h _ e = absurd (ground arith)

  is_some_text : {A : Type 0} (f : A → V) (o : Option A) → is_some (text_of S C K f o) ≡ is_some o
  is_some_text f none = refl
  is_some_text f (some a) = refl

  pub is_exist_unspent_output_cell :
      (a : Address) (u : Utxo)
      → a < 2 ^ 160
      → is_exist_unspent_output S C K db a u ≡ is_some (t.unspent a (C.utxo_to_hash u))
  unfolding is_exist_unspent_output owned_key
  is_exist_unspent_output_cell a u b =
      occurs-slot (unspent_slot a (C.utxo_to_hash u)) (b, C.utxo_to_hash_bound u)
        (λ k w. ground arith) (unspent_same a (C.utxo_to_hash u))
      ∙ is_some_text C.utxo_text (t.unspent a (C.utxo_to_hash u))

  occurs-pending :
      (a : Address) (h : Hash)
      → a < 2 ^ 160
      → h < 2 ^ 256
      → occurs S db (slot_key S C K (pending_slot a h)) ≡ is_some (t.pending a h)
  occurs-pending a h ba bh =
      occurs-slot (pending_slot a h) (ba, bh) (λ k w. ground arith)
        (λ u q. ap is_some (pending_same a h u q))
      ∙ is_some_text C.utxo_text (t.pending a h)

  pub is_exist_pending_utxo_cell :
      (a : Address) (u : Utxo)
      → a < 2 ^ 160
      → is_exist_pending_utxo S C K db a u ≡ is_some (t.pending a (C.utxo_to_hash u))
  unfolding is_exist_pending_utxo owned_key
  is_exist_pending_utxo_cell a u b = occurs-pending a (C.utxo_to_hash u) b (C.utxo_to_hash_bound u)

  last_read-text :
      (u : Utxo) (es : Entries V)
      → All (λ (e : Bytes × V). e.1 ≡ C.utxo_text u) es
      → last_read S C K u es ≡ u
  last_read-text u [] a = refl
  last_read-text u (e ∷ es) (x, a) =
      ap (λ v. last_read S C K v es) (ap (C.read_utxo empty_utxo) x ∙ C.read_utxo_text empty_utxo u)
      ∙ last_read-text u es a

  last_read_scan :
      (o : Option Utxo) (es : Entries V)
      → not (is_nil es) ≡ is_some o
      → ((u : Utxo) → o ≡ some u → All (λ (e : Bytes × V). e.1 ≡ C.utxo_text u) es)
      → last_read S C K empty_utxo es ≡ get_or o empty_utxo
  last_read_scan none [] n a = refl
  last_read_scan none (e ∷ es) n a = cc
  last_read_scan (some u) [] n a = cc
  last_read_scan (some u) (e ∷ es) n a =
      ap (λ v. last_read S C K v es)
        (ap (C.read_utxo empty_utxo) (a u refl).0 ∙ C.read_utxo_text empty_utxo u)
      ∙ last_read-text u es (a u refl).1

  pub get_pending_utxo_cell :
      (a : Address) (h : Hash)
      → a < 2 ^ 160
      → h < 2 ^ 256
      → get_pending_utxo S C K db a h ≡ get_or (t.pending a h) empty_utxo
  unfolding get_pending_utxo owned_key
  get_pending_utxo_cell a h ba bh =
      last_read_scan (t.pending a h) (S.scan db (slot_key S C K (pending_slot a h)))
        (occurs-pending a h ba bh)
        (λ u e.
          All-weaken _ (λ (x : Bytes × V). x.1 ≡ C.utxo_text u)
            (S.scan db (slot_key S C K (pending_slot a h))) (entry u e)
            (S.scan_get db (slot_key S C K (pending_slot a h))))
    where
      entry :
          (u : Utxo)
          → t.pending a h ≡ some u
          → (x : Bytes × V)
          → (starts_with (slot_key S C K (pending_slot a h)) x.0 ≡ true) × (S.get db x.0 ≡ some x.1)
          → x.1 ≡ C.utxo_text u
      entry u e x (w, g) =
          let (s, hs, k, q) =
            only_slot (pending_slot a h) x.0 x.1 (ba, bh) (λ w. ground arith) w g in
          cc (
            g,
            ap (S.get db) k,
            r.cells s hs,
            pending_same a h s q,
            ap (text_of S C K C.utxo_text) e,
          )
