-- ===== src/Node/Network.antt =====
-- What node/node.go takes from packages that the repository does not hold (the protocol manager
-- `boy`, `boydb`), or that are modelled elsewhere: the world around the node's own fields.
use babyboy.Types.Unit.{DagUnit}
use babyboy.Types.Hash.{Hash, Address}
use babyboy.Dag.GraphInfo.{UnitTable}
use babyboy.Prelude.{ℕ, List, String, Bool, Option}
use babyboy.Types.Messages.{NewUnitEntity, BroadUnitEntity, SyncDataEntity}

-- `World` is the database, the peers and what was sent to them, and the transactions' channel.
-- `review_unit` says whether ReviewUnit finds no error; `handler_new_unit` is HandlerNewUnit, and
-- says whether it has none. `send` says whether the peer was reached. `tips` are GetDagAllTips.
pub record Network : Type 1 where
  pub World : Type 0
  pub Peer : Type 0
  pub db : World → UnitTable
  pub tips : World → List Hash
  pub witnesses : World → List Address
  pub peer_ids : World → List String
  pub save_cache_unit_to_db : World → DagUnit → World
  pub recv_unit : World → NewUnitEntity → World
  pub review_unit : World → DagUnit → Bool
  pub handler_new_unit : World → DagUnit → World × Bool
  pub send_sync : World → Peer → SyncDataEntity → World × Bool
  pub send_unit : World → Peer → BroadUnitEntity → World
  pub send_msg_to_peers : World → BroadUnitEntity → World
  pub broad_msg_exclude_peer : World → List String → BroadUnitEntity → World
  pub synchronise : World → World
  pub parse_int : String → Option ℕ
