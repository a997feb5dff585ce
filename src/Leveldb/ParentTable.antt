-- ===== src/Leveldb/ParentTable.antt =====
-- What GetParentsList lists in a table of hashes under their keys.
use babyboy.Types.Hash.{Hash, string_eq, hash_string, string_eq_refl}
use babyboy.Prelude.{
  refl, List, All, ◌≡◌, ◌∷◌, ◌<◌, [], arith, ◌^◌, ◌∙◌, ◌==◌, elem, ap, if◌then◌else◌, ◌&&◌, none,
}
use babyboy.Graphop.Assoc.{is_some}
use babyboy.Leveldb.Store.{Bytes, Entries, Store, Prefixes, Codec, find, values}
use babyboy.Leveldb.Units.{parent_key, get_parents_list}
use babyboy.Leveldb.Keys.{starts_with-append, string_eq-append, string_eq-hash_string}

pub All-weaken :
    {A : Type 0} (P Q : A → Type 0) (xs : List A) → ((x : A) → P x → Q x) → All P xs → All Q xs
All-weaken P Q [] f a = tt
All-weaken P Q (x ∷ xs) f a = (f x a.0, All-weaken P Q xs f a.1)

module _ {V : Type 0} (S : Store V) (C : Codec V) (K : Prefixes) where
  string_eq-parent_key :
      (a b : Hash)
      → a < 2 ^ 256
      → b < 2 ^ 256
      → string_eq (parent_key S C K a) (parent_key S C K b) ≡ (a == b)
  unfolding parent_key
  string_eq-parent_key a b ha hb =
      string_eq-append K.parent_list_prefix K.parent_list_prefix (hash_string a) (hash_string b)
        refl
      ∙ ap (λ t. t && string_eq (hash_string a) (hash_string b))
          (string_eq_refl K.parent_list_prefix)
      ∙ string_eq-hash_string a b ha hb

  -- An entry of the table: a hash of 32 bytes under its key.
  abbrev pub IsParent : Bytes × V → Type 0
  IsParent e = (h : Hash) × (h < 2 ^ 256) × (e.0 ≡ parent_key S C K h) × (e.1 ≡ C.hash_bytes h)

  abbrev pub IsParentTable : S.Db → Type 0
  IsParentTable db = All IsParent (S.scan db K.parent_list_prefix)

  elem-values :
      (h : Hash) (es : Entries V)
      → h < 2 ^ 256
      → All IsParent es
      → elem h (values C.bytes_to_hash es) ≡ is_some (find (parent_key S C K h) es)
  elem-values h [] hh a = refl
  elem-values h (e ∷ es) hh ((g, bg, key, value), a) = ground (
    arith,
    ap C.bytes_to_hash value ∙ C.bytes_to_hash_bytes g bg,
    ap (λ k. string_eq k (parent_key S C K h)) key ∙ string_eq-parent_key g h bg hh,
    elem-values h es hh a,
  )

  pub elem-get_parents_list :
      (db : S.Db) (h : Hash)
      → h < 2 ^ 256
      → IsParentTable db
      → elem h (get_parents_list S C K db) ≡ is_some (S.get db (parent_key S C K h))
  unfolding get_parents_list parent_key
  elem-get_parents_list db h hh a =
      elem-values h (S.scan db K.parent_list_prefix) hh a
      ∙ ap is_some (S.find_scan db K.parent_list_prefix (parent_key S C K h))
      ∙ ap (λ t. is_some (if t then S.get db (parent_key S C K h) else none))
          (starts_with-append K.parent_list_prefix (hash_string h))
