-- ===== src/Graphop/HashMap.antt =====
-- common/graphop/hashmap.go: units by their hash, an association list with no key twice.
use babyboy.Prelude.{
  ℕ, ◌≡◌, List, [], map, Bool, true, not, ◌&&◌, ◌||◌, ◌==◌, if◌then◌else◌, arith, distinct, length,
  get_or,
}
use babyboy.Types.Hash.{Hash, hash_string}
use babyboy.Graphop.Assoc
use babyboy.Graphop.Assoc.{is_some}
use babyboy.Types.Unit.{DagUnit, new_empty_unit}

pub record HashMap : Type 0 where
  pub entries : List (Hash × DagUnit)

abbrev pub keys : HashMap → List Hash
keys hm = map (λ e. e.0) hm.entries

unfoldable pub new_hash_map : HashMap
new_hash_map = record { entries = [] }

unfoldable pub insert : HashMap → Hash → DagUnit → HashMap
insert hm h u = record { entries = Assoc.put h u hm.entries }

unfoldable pub remove : HashMap → Hash → HashMap
remove hm h = record { entries = Assoc.erase h hm.entries }

unfoldable pub size : HashMap → ℕ
size hm = length hm.entries

unfoldable pub empty : HashMap → Bool
unfolding size
empty hm = size hm == 0

-- A missing key reads as the zero unit.
unfoldable pub read : HashMap → Hash → DagUnit
read hm h = get_or (Assoc.lookup h hm.entries) new_empty_unit

unfoldable pub exists : HashMap → Hash → Bool
exists hm val = is_some (Assoc.lookup val hm.entries)

unfoldable pub get_all_value : HashMap → List DagUnit
get_all_value hm = map (λ e. e.1) hm.entries

unfoldable pub get_all_key : HashMap → List Hash
get_all_key hm = keys hm

unfoldable pub get_all_key_as_string : HashMap → List (List ℕ)
get_all_key_as_string hm = map hash_string (keys hm)

abbrev pub IsValid : HashMap → Type 0
IsValid hm = distinct (keys hm) ≡ true

-- What `Read` and `Exists` give after each operation, on every key.
pub read_after :
    (hm : HashMap) (h j : Hash) (u : DagUnit)
    → (read (insert hm h u) j ≡ (if h == j then u else read hm j))
      × (read (remove hm h) j ≡ (if h == j then new_empty_unit else read hm j))
      × (exists (insert hm h u) j ≡ (h == j || exists hm j))
      × (exists (remove hm h) j ≡ (not (h == j) && exists hm j))
unfolding read insert remove exists
read_after hm h j u =
    rw (Assoc.lookup-put h j u hm.entries, Assoc.lookup-erase h j hm.entries) (ground arith)

-- `Insert` and `Remove` keep one entry for a key.
pub operations-IsValid :
    (hm : HashMap) (h : Hash) (u : DagUnit)
    → IsValid hm
    → IsValid (insert hm h u) × IsValid (remove hm h)
unfolding insert remove
operations-IsValid hm h u d =
    (Assoc.distinct-put h u hm.entries d, Assoc.distinct-erase h hm.entries d)
