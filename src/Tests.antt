-- ===== src/Tests.antt =====
-- The theorems at concrete inputs, over an API server and a database that are plain values.
mod Server
mod Upgrade
mod Versions
mod Admission
mod Topology
mod Cluster
mod Lease
mod Fleet
mod Shards
mod Sharding
mod ScaleIn
mod Backup
mod Verification
mod Search
mod SearchIndex
mod Insights
mod Federation
