-- ===== src/Topology.antt =====
-- internal/topology: the plans that the sharded controller makes before it moves data. The texts of
-- the reasons are left out, or kept as the constructor of their place.
pub mod Balancer
pub mod Preflight
pub mod Throttle
pub mod Zones
