-- ===== src/Shards.antt =====
-- The controller of sharded clusters (internal/controller/mongodbsharded_controller.go) with the
-- database side of it that this repository writes itself (internal/mongodb/sharding.go and
-- replicaset.go): initialization and registration of the shards, removal of shards, sharded
-- collections, the reported status, and the order of a whole pass.
pub mod Services
pub mod Flags
pub mod Hosts
pub mod Init
pub mod Initialized
pub mod Settled
pub mod Namespaces
pub mod Keys
pub mod Drift
pub mod ScaleIn
pub mod Drain
pub mod Reset
pub mod Restart
pub mod Backoff
pub mod Conditions
pub mod Report
pub mod Collections
pub mod Autoscalers
pub mod Pass
pub mod Union
pub mod Ready
pub mod Agree
pub mod Waiting
pub mod Exposed
