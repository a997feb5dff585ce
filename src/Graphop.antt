-- ===== src/Graphop.antt =====
-- common/graphop: the sets and the map that the graph code keeps. Each method holds the lock for
-- its whole body, so a call is one step. Go fixes no order for the keys of a map: the list that
-- stands for it is one order in which a `range` may run.
pub mod Keys
pub mod Assoc
pub mod HashSet
pub mod AddressSet
pub mod HashMap
