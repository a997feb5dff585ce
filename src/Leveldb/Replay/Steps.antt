-- ===== src/Leveldb/Replay/Steps.antt =====
-- Each write keeps the database a picture of the four functions.
use babyboy.Prelude.{List, [], ◌∷◌, ◌<◌, ◌^◌, true, false, arith, none, some, All}
use babyboy.Types.Hash.{Hash, Address}
use babyboy.Types.Payment.{Utxo, Commission}
use babyboy.Types.Unit.{DagUnit}
use babyboy.Leveldb.Store.{Store, Prefixes, Codec}
use babyboy.Leveldb.Units.{
  unit_key, parent_key, save_unit_to_db, save_units_to_db, del_unit_from_db, save_parent,
  save_parents_list, del_parent,
}
use babyboy.Leveldb.Replay.Cells.{
  put-Represents, delete-Represents, cell-set_unit, cell-set_unspent, cell-set_pending,
  cell-set_tip,
}
use babyboy.Leveldb.Replay.Others.{elsewhere-Represents}
use babyboy.Leveldb.Replay.{pending_unspent_deleted, elsewhere}
use babyboy.Leveldb.Outputs.{
  del_pending_unspent_output, owned_key, save_unspent_output, save_batch_unspent_output,
  del_unspent_output, save_pending_utxo, del_pending_utxo, commission_entries,
}
use babyboy.Leveldb.Slots.{unit_slot, unspent_slot, pending_slot, tip_slot, HasApartTables}
use babyboy.Leveldb.Replay.{
  Contents, Write, Represents, set_unit, set_unspent, set_pending, set_tip, step, replay, write,
  write_all, IsWrite, unit_saved, unit_deleted, units_saved, unspent_saved, unspent_deleted,
  commissions_saved, pending_saved, pending_deleted, tip_saved, tip_deleted, tips_saved, set_units,
  set_commissions, set_tips,
}

module _ {V : Type 0} (S : Store V) (C : Codec V) (K : Prefixes)
    (apart : HasApartTables S C K) where
  unit_saved-Represents :
      (db : S.Db) (t : Contents) (u : DagUnit)
      → u.hash < 2 ^ 256
      → Represents S C K db t
      → Represents S C K (save_unit_to_db S C K db u) (set_unit t u.hash (some u))
  unfolding save_unit_to_db unit_key
  unit_saved-Represents db t u b r =
      put-Represents S C K apart db t (set_unit t u.hash (some u)) (unit_slot u.hash)
        (C.unit_text u) (omega arith, b) r (cell-set_unit S C K apart t u.hash (some u))

  unspent_saved-Represents :
      (db : S.Db) (t : Contents) (a : Address) (u : Utxo)
      → a < 2 ^ 160
      → Represents S C K db t
      → Represents S C K
          (save_unspent_output S C K db a u)
          (set_unspent t a (C.utxo_to_hash u) (some u))
  unfolding save_unspent_output owned_key
  unspent_saved-Represents db t a u b r =
      put-Represents S C K apart db t (set_unspent t a (C.utxo_to_hash u) (some u))
        (unspent_slot a (C.utxo_to_hash u)) (C.utxo_text u) (b, C.utxo_to_hash_bound u) r
        (cell-set_unspent S C K apart t a (C.utxo_to_hash u) (some u))

  tip_saved-Represents :
      (db : S.Db) (t : Contents) (h : Hash)
      → h < 2 ^ 256
      → Represents S C K db t
      → Represents S C K (save_parent S C K db h) (set_tip t h true)
  unfolding save_parent parent_key
  tip_saved-Represents db t h b r =
      put-Represents S C K apart db t (set_tip t h true) (tip_slot h) (C.hash_bytes h)
        (omega arith, b) r (cell-set_tip S C K apart t h true)

  -- The batches: a write for each of their entries, in order.
  units_saved-Represents :
      (db : S.Db) (t : Contents) (us : List DagUnit)
      → All (λ (u : DagUnit). u.hash < 2 ^ 256) us
      → Represents S C K db t
      → Represents S C K (save_units_to_db S C K db us) (set_units S C K t us)
  unfolding save_units_to_db save_unit_to_db
  units_saved-Represents db t [] b r = r
  units_saved-Represents db t (u ∷ us) b r =
      units_saved-Represents (save_unit_to_db S C K db u) (set_unit t u.hash (some u)) us b.1
        (unit_saved-Represents db t u b.0 r)

  commissions_saved-Represents :
      (db : S.Db) (t : Contents) (cs : List Commission)
      → All (λ (c : Commission). c.address < 2 ^ 160) cs
      → Represents S C K db t
      → Represents S C K (save_batch_unspent_output S C K db cs) (set_commissions S C K t cs)
  unfolding save_batch_unspent_output commission_entries save_unspent_output
  commissions_saved-Represents db t [] b r = r
  commissions_saved-Represents db t (c ∷ cs) b r =
      commissions_saved-Represents (save_unspent_output S C K db c.address c.utxo)
        (set_unspent t c.address (C.utxo_to_hash c.utxo) (some c.utxo)) cs b.1
        (unspent_saved-Represents db t c.address c.utxo b.0 r)

  tips_saved-Represents :
      (db : S.Db) (t : Contents) (hs : List Hash)
      → All (λ h. h < 2 ^ 256) hs
      → Represents S C K db t
      → Represents S C K (save_parents_list S C K db hs) (set_tips S C K t hs)
  unfolding save_parents_list save_parent
  tips_saved-Represents db t [] b r = r
  tips_saved-Represents db t (h ∷ hs) b r =
      tips_saved-Represents (save_parent S C K db h) (set_tip t h true) hs b.1
        (tip_saved-Represents db t h b.0 r)

  pub write-Represents :
      (db : S.Db) (t : Contents) (w : Write)
      → IsWrite S C K w
      → Represents S C K db t
      → Represents S C K (write S C K db w) (step S C K t w)
  unfolding del_unit_from_db del_unspent_output save_pending_utxo del_pending_utxo
      del_pending_unspent_output del_parent unit_key owned_key parent_key
  write-Represents db t (unit_saved u) b r = unit_saved-Represents db t u b r
  write-Represents db t (unit_deleted u) b r =
      delete-Represents S C K apart db t (set_unit t u.hash none) (unit_slot u.hash)
        (omega arith, b) r (cell-set_unit S C K apart t u.hash none)
  write-Represents db t (units_saved us) b r = units_saved-Represents db t us b r
  write-Represents db t (unspent_saved a u) b r = unspent_saved-Represents db t a u b r
  write-Represents db t (unspent_deleted a u) b r =
      delete-Represents S C K apart db t (set_unspent t a (C.utxo_to_hash u) none)
        (unspent_slot a (C.utxo_to_hash u)) (b, C.utxo_to_hash_bound u) r
        (cell-set_unspent S C K apart t a (C.utxo_to_hash u) none)
  write-Represents db t (commissions_saved cs) b r = commissions_saved-Represents db t cs b r
  write-Represents db t (pending_saved a u) b r =
      put-Represents S C K apart db t (set_pending t a (C.utxo_to_hash u) (some u))
        (pending_slot a (C.utxo_to_hash u)) (C.utxo_text u) (b, C.utxo_to_hash_bound u) r
        (cell-set_pending S C K apart t a (C.utxo_to_hash u) (some u))
  write-Represents db t (pending_deleted a u) b r =
      delete-Represents S C K apart db t (set_pending t a (C.utxo_to_hash u) none)
        (pending_slot a (C.utxo_to_hash u)) (b, C.utxo_to_hash_bound u) r
        (cell-set_pending S C K apart t a (C.utxo_to_hash u) none)
  write-Represents db t (pending_unspent_deleted a u) b r =
      delete-Represents S C K apart db t (set_pending t a (C.utxo_to_hash u) none)
        (pending_slot a (C.utxo_to_hash u)) (b, C.utxo_to_hash_bound u) r
        (cell-set_pending S C K apart t a (C.utxo_to_hash u) none)
  write-Represents db t (elsewhere w) b r = elsewhere-Represents S C K db t w apart r
  write-Represents db t (tip_saved h) b r = tip_saved-Represents db t h b r
  write-Represents db t (tip_deleted h) b r =
      delete-Represents S C K apart db t (set_tip t h false) (tip_slot h) (omega arith, b) r
        (cell-set_tip S C K apart t h false)
  write-Represents db t (tips_saved hs) b r = tips_saved-Represents db t hs b r

  -- Any sequence of writes leaves a database that represents what the same writes
  -- make of the four functions.
  pub write_all-Represents :
      (db : S.Db) (t : Contents) (ws : List Write)
      → All (IsWrite S C K) ws
      → Represents S C K db t
      → Represents S C K (write_all S C K db ws) (replay S C K t ws)
  write_all-Represents db t [] b r = r
  write_all-Represents db t (w ∷ ws) b r =
      write_all-Represents (write S C K db w) (step S C K t w) ws b.1
        (write-Represents db t w b.0 r)
