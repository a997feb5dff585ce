-- ===== src/Leveldb/Replay/Others.antt =====
-- A write to another table leaves the four as they are.
use babyboy.Prelude.{
  List, [], ◌∷◌, ◌++◌, ◌≡◌, true, false, Bool-cases, inl, inr, arith, ap, sym, subst, map,
}
use mathlib.Core.List.{append-nil}
use babyboy.Types.Hash.{string_eq}
use babyboy.Leveldb.Store.{Bytes, Store, Prefixes, Codec, starts_with, put_all}
use babyboy.Leveldb.Units.{
  save_ball_to_db, save_balls_to_db, save_balls, del_ball, save_witness, save_witness_list,
  del_witness, save_cache_unit_to_db, del_cache_unit_from_db, ball_key, cache_key, witness_key,
}
use babyboy.Leveldb.Votes.{save_children_unit, save_stable_units, save_vote_round, save_vote_result}
use babyboy.Leveldb.Elsewhere.{
  Elsewhere, write_elsewhere, ball_saved, balls_saved, ball_hashes_saved, ball_deleted,
  witness_saved, witness_deleted, witnesses_saved, unit_cached, cached_deleted, children_saved,
  stable_units_saved, round_saved, result_saved,
}
use babyboy.Leveldb.Keys.{string_eq_sound, starts_with-append}
use babyboy.Leveldb.Slots.{
  Slot, unspent_slot, pending_slot, tip_slot, slot_key, slot_prefixes, starts_none, HasApartTables,
  starts_with-other,
}
use babyboy.Leveldb.Replay.{Contents, Represents, is_scanned}

module _ {V : Type 0} (S : Store V) (C : Codec V) (K : Prefixes) where
  other_key :
      (s : Slot) (p k : Bytes)
      → starts_none p (slot_prefixes S C K) ≡ true
      → string_eq (p ++ k) (slot_key S C K s) ≡ false
  other_key s p k o = elim (Bool-cases (string_eq (p ++ k) (slot_key S C K s))) [
    | inr f ↦ f
    | inl e ↦ absurd (
        cc (
          starts_with-append p k,
          ap (starts_with p) (string_eq_sound (p ++ k) (slot_key S C K s) e),
          (starts_with-other S C K s p k o).0,
        ))
  ]

  other_not_scanned :
      (p k j : Bytes)
      → starts_none p (slot_prefixes S C K) ≡ true
      → is_scanned S C K j ≡ true
      → string_eq (p ++ k) j ≡ false
  other_not_scanned p k j o scanned = elim (Bool-cases (string_eq (p ++ k) j)) [
    | inr f ↦ f
    | inl e ↦ absurd (
        ground (
          arith,
          sym (ap (is_scanned S C K) (string_eq_sound (p ++ k) j e)),
          (starts_with-other S C K (unspent_slot 0 0) p k o).1,
          (starts_with-other S C K (pending_slot 0 0) p k o).1,
          (starts_with-other S C K (tip_slot 0) p k o).1,
        ))
  ]

  put_other :
      (db : S.Db) (t : Contents) (p k : Bytes) (v : V)
      → starts_none p (slot_prefixes S C K) ≡ true
      → Represents S C K db t
      → Represents S C K (S.put db (p ++ k) v) t
  put_other db t p k v o r = record {
    cells = λ s hs.
        ground (arith, S.get_put db (p ++ k) v (slot_key S C K s), other_key s p k o, r.cells s hs);
    tidy = λ j w sc g.
        r.tidy j w sc (ground (arith, S.get_put db (p ++ k) v j, other_not_scanned p k j o sc));
  }

  delete_other :
      (db : S.Db) (t : Contents) (p k : Bytes)
      → starts_none p (slot_prefixes S C K) ≡ true
      → Represents S C K db t
      → Represents S C K (S.delete db (p ++ k)) t
  delete_other db t p k o r = record {
    cells = λ s hs.
        ground
          (arith, S.get_delete db (p ++ k) (slot_key S C K s), other_key s p k o, r.cells s hs);
    tidy = λ j w sc g.
        r.tidy j w sc (ground (arith, S.get_delete db (p ++ k) j, other_not_scanned p k j o sc));
  }

  put_all_other :
      {A : Type 0} (key : A → Bytes) (text : A → V) (db : S.Db) (t : Contents) (p : Bytes)
      (xs : List A)
      → starts_none p (slot_prefixes S C K) ≡ true
      → Represents S C K db t
      → Represents S C K (put_all S db (map (λ a. (p ++ key a, text a)) xs)) t
  put_all_other key text db t p [] o r = r
  put_all_other key text db t p (a ∷ xs) o r =
      put_all_other key text (S.put db (p ++ key a) (text a)) t p xs o
        (put_other db t p (key a) (text a) o r)

  pub elsewhere-Represents :
      (db : S.Db) (t : Contents) (w : Elsewhere)
      → HasApartTables S C K
      → Represents S C K db t
      → Represents S C K (write_elsewhere S C K db w) t
  unfolding save_ball_to_db save_balls_to_db save_balls del_ball save_witness save_witness_list
      del_witness save_cache_unit_to_db del_cache_unit_from_db save_children_unit save_stable_units
      save_vote_round save_vote_result ball_key cache_key witness_key
  elsewhere-Represents db t (ball_saved b) (_, (o, _)) r = put_other db t K.ball_prefix _ _ o r
  elsewhere-Represents db t (balls_saved bs) (_, (o, _)) r =
      put_all_other _ C.ball_text db t K.ball_prefix bs o r
  elsewhere-Represents db t (ball_hashes_saved hs) (_, (o, _)) r =
      put_all_other _ C.hash_bytes db t K.ball_prefix hs o r
  elsewhere-Represents db t (ball_deleted h) (_, (o, _)) r = delete_other db t K.ball_prefix _ o r
  elsewhere-Represents db t (witness_saved a) (_, (_, (o, _))) r =
      put_other db t K.witness_list_prefix _ _ o r
  elsewhere-Represents db t (witness_deleted a) (_, (_, (o, _))) r =
      delete_other db t K.witness_list_prefix _ o r
  elsewhere-Represents db t (witnesses_saved ws) (_, (_, (o, _))) r =
      put_all_other C.address_string C.address_bytes db t K.witness_list_prefix ws o r
  elsewhere-Represents db t (children_saved h hs) (_, (_, (_, (o, _)))) r =
      put_other db t K.children_hash _ _ o r
  elsewhere-Represents db t (stable_units_saved h hs) (_, (_, (_, (_, (o, _))))) r =
      put_other db t K.stable_units_prefix _ _ o r
  elsewhere-Represents db t (round_saved n) (_, (_, (_, (_, (_, (o, _)))))) r =
      subst (λ k. Represents S C K (S.put db k (C.int_text n)) t) (append-nil K.vote_round)
        (put_other db t K.vote_round [] _ o r)
  elsewhere-Represents db t (result_saved n v) (_, (_, (_, (_, (_, (_, (o, _))))))) r =
      put_other db t K.vote_result _ _ o r
  elsewhere-Represents db t (unit_cached u) (_, (_, (_, (_, (_, (_, (_, (o, _)))))))) r =
      put_other db t K.cache_unit _ _ o r
  elsewhere-Represents db t (cached_deleted u) (_, (_, (_, (_, (_, (_, (_, (o, _)))))))) r =
      delete_other db t K.cache_unit _ o r
