-- ===== src/Admission.antt =====
-- The validating webhooks: internal/webhook/v1alpha1, and the checks of single sections of a spec
-- that they call.
pub mod Fields
pub mod Encryption
pub mod Security
pub mod Sections
pub mod ReplicaSet
pub mod Sharded
pub mod Keys
pub mod Quorum
pub mod Chain
