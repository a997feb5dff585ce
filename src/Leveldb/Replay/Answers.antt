-- ===== src/Leveldb/Replay/Answers.antt =====
-- What the reads of the tables answer in a database that represents four functions.
use babyboy.Leveldb.Replay.Steps.{write_all-Represents}
use babyboy.Prelude.{◌≡◌, ◌<◌, ◌^◌, All, elem, get_or}
use babyboy.Graphop.Assoc.{is_some}
use babyboy.Types.Hash.{Hash, Address}
use babyboy.Types.Payment.{Utxo, empty_utxo}
use babyboy.Leveldb.Store.{Store, Prefixes, Codec}
use babyboy.Leveldb.Units.{get_unit_by_hash, get_parents_list}
use babyboy.Leveldb.Outputs.{is_exist_unspent_output, is_exist_pending_utxo, get_pending_utxo}
use babyboy.Leveldb.Slots.{HasApartTables}
use babyboy.Leveldb.Replay.{Contents, Represents, List, Write, IsWrite, write_all, replay}
use babyboy.Leveldb.Replay.OutputReads.{
  is_exist_unspent_output_cell, is_exist_pending_utxo_cell, get_pending_utxo_cell,
}
use babyboy.Leveldb.Replay.UnitReads.{get_unit_by_hash_cell, get_parents_list_cell}

module _ {V : Type 0} (S : Store V) (C : Codec V) (K : Prefixes) where
  -- The reads give what the functions hold; the zero output if none is pending.
  pub record Answers (db : S.Db) (t : Contents) : Type 0 where
    pub units : (h : Hash) → h < 2 ^ 256 → get_unit_by_hash S C K db h ≡ t.units h
    pub unspent :
        (a : Address) (u : Utxo)
        → a < 2 ^ 160
        → is_exist_unspent_output S C K db a u ≡ is_some (t.unspent a (C.utxo_to_hash u))
    pub exists_pending :
        (a : Address) (u : Utxo)
        → a < 2 ^ 160
        → is_exist_pending_utxo S C K db a u ≡ is_some (t.pending a (C.utxo_to_hash u))
    pub pending :
        (a : Address) (h : Hash)
        → a < 2 ^ 160
        → h < 2 ^ 256
        → get_pending_utxo S C K db a h ≡ get_or (t.pending a h) empty_utxo
    pub tips : (h : Hash) → h < 2 ^ 256 → elem h (get_parents_list S C K db) ≡ t.tips h

  pub Represents-Answers :
      (db : S.Db) (t : Contents) → HasApartTables S C K → Represents S C K db t → Answers db t
  Represents-Answers db t apart r = record {
    units = get_unit_by_hash_cell S C K apart db t r;
    unspent = is_exist_unspent_output_cell S C K apart db t r;
    exists_pending = is_exist_pending_utxo_cell S C K apart db t r;
    pending = get_pending_utxo_cell S C K apart db t r;
    tips = get_parents_list_cell S C K apart db t r;
  }

  -- Any sequence of writes of the database, all its Save and Del functions but SaveGenisisUnit and
  -- DelAllData, reads as the same writes on four functions: GetUnitByHash, IsExistUnspentOutput,
  -- IsExistPendingUTXO, GetPendingUTXO and GetParentsList return what the functions hold, and no
  -- write to one table, or to one of balls, witnesses, children, stable units, votes and cached
  -- units, shows in another. (The database represented the functions before; the prefixes of the
  -- four tables start no other prefix, and no other starts them; hashes have 32 bytes and
  -- addresses 20.)
  pub write_all-Answers :
      (db : S.Db) (t : Contents) (ws : List Write)
      → HasApartTables S C K
      → Represents S C K db t
      → All (IsWrite S C K) ws
      → Answers (write_all S C K db ws) (replay S C K t ws)
  write_all-Answers db t ws apart r b =
      Represents-Answers (write_all S C K db ws) (replay S C K t ws) apart
        (write_all-Represents S C K apart db t ws b r)
