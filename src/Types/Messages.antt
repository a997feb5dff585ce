-- ===== src/Types/Messages.antt =====
-- core/types/p2pmsg.go: what nodes tell one another. A peer's id is a text.
use babyboy.Prelude.{ℕ, List, String}
use babyboy.Types.Unit.{DagUnit}

pub record NewUnitEntity : Type 0 where
  pub from_peer_id : String
  pub has_peer_ids : List String
  pub new_unit : DagUnit

-- `message` is the JSON text of a unit: here the unit.
pub record BroadUnitEntity : Type 0 where
  pub has_peers : List String
  pub message : DagUnit

pub record SyncDataEntity : Type 0 where
  pub state : ℕ
  pub stable_units : List DagUnit
  pub unstable_units : List DagUnit

pub record LightNewUnitEntity : Type 0 where
  pub from_address : String
  pub to_address : String
  pub amount : ℕ
