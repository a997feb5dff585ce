-- ===== src/Leveldb/Units.antt =====
-- leveldb/dbservice.go: the tables of units, balls, parents, witnesses and cached units.
use babyboy.Types.Unit.{DagUnit, Ball, new_empty_unit, ball_hash_key}
use babyboy.Prelude.{
  List, [], ◌∷◌, ◌++◌, Bool, not, map, Option, none, some, is_nil, ℕ, if◌then◌else◌, length, true,
  false, ◌&&◌, ◌||◌, ◌+◌,
}
use babyboy.Leveldb.Store.{Bytes, Store, Prefixes, Codec, put_all, values}
use babyboy.Types.Hash.{hash_string, Hash, Address}

abbrev pub empty_ball : Ball
empty_ball = record { unit_hash = 0; parent_balls = []; is_invalid = false }

module _ {V : Type 0} (S : Store V) (C : Codec V) (K : Prefixes) where
  unfoldable pub unit_key : Hash → Bytes
  unit_key h = K.unit_prefix ++ hash_string h

  unfoldable pub save_genesis_unit : S.Db → Bytes → V → S.Db
  save_genesis_unit db genesis_unit_hash json_unit =
      S.put db ((b'u' ∷ b'n' ∷ b'i' ∷ b't' ∷ b'.' ∷ []) ++ genesis_unit_hash) json_unit

  unfoldable pub save_unit_to_db : S.Db → DagUnit → S.Db
  unfolding unit_key
  save_unit_to_db db unit = S.put db (unit_key unit.hash) (C.unit_text unit)

  unfoldable pub del_unit_from_db : S.Db → DagUnit → S.Db
  del_unit_from_db db unit = S.delete db (unit_key unit.hash)

  unfoldable pub save_units_to_db : S.Db → List DagUnit → S.Db
  save_units_to_db db units =
      put_all S db (map (λ unit. (unit_key unit.hash, C.unit_text unit)) units)

  -- With an error the unit is what the empty text gives.
  unfoldable pub get_unit_by_hash : S.Db → Hash → Option DagUnit
  get_unit_by_hash db h = elim (S.get db (unit_key h)) [
    | none ↦ none
    | some text ↦ some (C.read_unit new_empty_unit text)
  ]

  unfoldable pub is_exist_unit : S.Db → Hash → Bool
  is_exist_unit db h = not (is_nil (S.scan db (unit_key h)))

  unfoldable pub ball_key : Hash → Bytes
  ball_key h = K.ball_prefix ++ hash_string h

  unfoldable pub save_ball_to_db : S.Db → Ball → S.Db
  unfolding ball_key
  save_ball_to_db db ball = S.put db (ball_key (ball_hash_key ball)) (C.ball_text ball)

  unfoldable pub save_balls_to_db : S.Db → List Ball → S.Db
  unfolding ball_key
  save_balls_to_db db balls =
      put_all S db (map (λ ball. (ball_key (ball_hash_key ball), C.ball_text ball)) balls)

  unfoldable pub get_ball_by_hash : S.Db → Hash → Option Ball
  unfolding ball_key
  get_ball_by_hash db h = elim (S.get db (ball_key h)) [
    | none ↦ none
    | some text ↦ some (C.read_ball empty_ball text)
  ]

  unfoldable pub get_all_balls : S.Db → List Ball
  get_all_balls db = values (C.read_ball empty_ball) (S.scan db K.ball_prefix)

  -- The hashes of balls share the prefix of the balls.
  unfoldable pub save_balls : S.Db → List Hash → S.Db
  unfolding ball_key
  save_balls db balls = put_all S db (map (λ h. (ball_key h, C.hash_bytes h)) balls)

  unfoldable pub get_balls : S.Db → List Hash
  get_balls db = values C.bytes_to_hash (S.scan db K.ball_prefix)

  unfoldable pub del_ball : S.Db → Hash → S.Db
  unfolding ball_key
  del_ball db h = S.delete db (ball_key h)

  unfoldable pub parent_key : Hash → Bytes
  parent_key h = K.parent_list_prefix ++ hash_string h

  unfoldable pub save_parents_list : S.Db → List Hash → S.Db
  save_parents_list db parents_list =
      put_all S db (map (λ h. (parent_key h, C.hash_bytes h)) parents_list)

  unfoldable pub get_parents_list : S.Db → List Hash
  get_parents_list db = values C.bytes_to_hash (S.scan db K.parent_list_prefix)

  unfoldable pub save_parent : S.Db → Hash → S.Db
  save_parent db h = S.put db (parent_key h) (C.hash_bytes h)

  unfoldable pub del_parent : S.Db → Hash → S.Db
  del_parent db h = S.delete db (parent_key h)

  unfoldable pub witness_key : Address → Bytes
  witness_key a = K.witness_list_prefix ++ C.address_string a

  unfoldable pub save_witness_list : S.Db → List Address → S.Db
  save_witness_list db witnesses =
      put_all S db (map (λ a. (witness_key a, C.address_bytes a)) witnesses)

  unfoldable pub get_witness_list : S.Db → List Address
  get_witness_list db = values C.bytes_to_address (S.scan db K.witness_list_prefix)

  unfoldable pub save_witness : S.Db → Address → S.Db
  save_witness db a = S.put db (witness_key a) (C.address_bytes a)

  unfoldable pub del_witness : S.Db → Address → S.Db
  del_witness db a = S.delete db (witness_key a)

  unfoldable pub cache_key : Hash → Bytes
  cache_key h = K.cache_unit ++ hash_string h

  unfoldable pub save_cache_unit_to_db : S.Db → DagUnit → S.Db
  unfolding cache_key
  save_cache_unit_to_db db unit = S.put db (cache_key unit.hash) (C.unit_text unit)

  unfoldable pub get_cache_unit_from_db : S.Db → List DagUnit
  get_cache_unit_from_db db = values (C.read_unit new_empty_unit) (S.scan db K.cache_unit)

  unfoldable pub del_cache_unit_from_db : S.Db → DagUnit → S.Db
  unfolding cache_key
  del_cache_unit_from_db db unit = S.delete db (cache_key unit.hash)

  unfoldable pub del_all_data : S.Db → Bytes → S.Db
  del_all_data db key = S.delete db (K.unit_prefix ++ key)

  stable_count : Bool → List DagUnit → ℕ
  stable_count is_stable [] = 0
  stable_count is_stable (unit ∷ units) =
      (if (unit.is_stable && is_stable) || (not unit.is_stable && not is_stable) then 1 else 0)
      + stable_count is_stable units

  unfoldable pub get_all_unit_count : S.Db → ℕ
  get_all_unit_count db = length (S.scan db K.unit_prefix)

  unfoldable pub get_all_stable_unit_count : S.Db → ℕ
  unfolding stable_count
  get_all_stable_unit_count db =
      stable_count true (values (C.read_unit new_empty_unit) (S.scan db K.unit_prefix))

  unfoldable pub get_all_unstable_unit_count : S.Db → ℕ
  unfolding stable_count
  get_all_unstable_unit_count db =
      stable_count false (values (C.read_unit new_empty_unit) (S.scan db K.unit_prefix))
