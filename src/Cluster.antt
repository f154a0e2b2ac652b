-- ===== src/Cluster.antt =====
-- internal/controller/mongodb_controller.go and helpers.go: a pass over a MongoDB object.
pub mod Lease
pub mod Mutex
pub mod Outside
pub mod Conditions
pub mod Report
pub mod AdminUser
pub mod Verified
pub mod Pass
pub mod Order
pub mod Round
pub mod Stale
pub mod Unready
