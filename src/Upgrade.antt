-- ===== src/Upgrade.antt =====
-- internal/controller/upgrade.go and sharded_upgrade.go: the version upgrade of a cluster, a state
-- machine whose state is kept in the status of the object.
pub mod Status
pub mod Config
pub mod Machine
pub mod Sharded
pub mod Seeded
pub mod Fcv
pub mod Terminal
pub mod Progress
pub mod Moves
pub mod Store
pub mod Faults
