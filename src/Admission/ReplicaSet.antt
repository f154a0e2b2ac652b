-- ===== src/Admission/ReplicaSet.antt =====
-- internal/webhook/v1alpha1/mongodb_webhook.go: the webhook of MongoDB.
use mongodb_operator.Common.{
  ℕ, ◌%◌, String, Bool, false, not, ◌&&◌, ◌||◌, Option, none, some, List, [], ◌∷◌, ◌==◌, str_eq,
  if◌then◌else◌, is_empty,
}
use mongodb_operator.Versions.{is_valid_upgrade_path}
use mongodb_operator.Admission.Fields.{FieldPath, child, FieldError, invalid, ◌/◌, report, concat}
use mongodb_operator.Admission.Encryption.{EncryptionSpec, is_set, validate_encryption_spec}
use mongodb_operator.Admission.Security.{
  LdapSpec, OidcSpec, AuditLogSpec, validate_ldap_spec, validate_oidc_spec, validate_audit_log_spec,
}
use mongodb_operator.Admission.Sections.{
  Packages, TlsSpec, BackupSpec, validate_tls_spec, validate_backup_spec, validate_auth_secret_ref,
  validate_storage_size, validate_version,
}

-- The fields of MongoDBSpec that the webhook reads; `auto_scaling` is the `enabled` of the block, and
-- the members are an `int32` that the CRD keeps from 0 on.
pub record MongoDbSpec (Q : Type 0) : Type 0 where
  pub version : String
  pub members : ℕ
  pub auto_scaling : Option Bool
  pub ldap : Option LdapSpec
  pub oidc : Option OidcSpec
  pub encryption : Option EncryptionSpec
  pub audit_log : Option AuditLogSpec
  pub storage_size : Q
  pub admin_secret : String
  pub tls : Option TlsSpec
  pub backup : Option BackupSpec

abbrev pub spec_path : FieldPath
spec_path = child "spec" ∷ []

abbrev pub is_on : Option Bool → Bool
is_on none = false
is_on (some b) = b

-- `if block != nil { if err := validate(block); err != nil { … } }`
abbrev pub fails {ℓ κ} : {A : Type ℓ} {E : Type κ} → (A → Option E) → Option A → Bool
fails validate none = false
fails validate (some a) = is_set (validate a)

-- `members != 0 && members != 1 && members%2 == 0`
abbrev pub is_even_quorum : ℕ → Bool
is_even_quorum n = not (n == 0) && (not (n == 1) && n % 2 == 0)

module _ {Q : Type 0} (k : Packages Q) where
  -- The checks of validateMongoDBSpec, in their order.
  abbrev pub mongodb_checks : MongoDbSpec Q → List (List FieldError)
  mongodb_checks s =
      validate_version k (spec_path / child "version" / child "version") s.version
      ∷ report (s.members == 1 && is_on s.auto_scaling) invalid
          (spec_path / child "autoScaling" / child "enabled")
      ∷ report (fails validate_ldap_spec s.ldap) invalid (spec_path / child "auth" / child "ldap")
      ∷ report (fails validate_oidc_spec s.oidc) invalid (spec_path / child "auth" / child "oidc")
      ∷ report (fails validate_encryption_spec s.encryption) invalid
          (spec_path / child "storage" / child "encryption")
      ∷ report (fails validate_audit_log_spec s.audit_log) invalid (spec_path / child "auditLog")
      ∷ report (is_even_quorum s.members) invalid (spec_path / child "members")
      ∷ validate_storage_size k (spec_path / child "storage" / child "size") s.storage_size
      ∷ validate_auth_secret_ref
          (spec_path / child "auth" / child "adminCredentialsSecretRef" / child "name")
          s.admin_secret
      ∷ validate_tls_spec (spec_path / child "tls") s.tls
      ∷ validate_backup_spec (spec_path / child "backup") s.backup
      ∷ []

  -- validateMongoDBSpec
  unfoldable pub validate_mongodb_spec : MongoDbSpec Q → List FieldError
  unfolding concat
  validate_mongodb_spec s = concat (mongodb_checks s)

  -- ValidateCreate: an empty list is a nil error.
  unfoldable pub validate_create : MongoDbSpec Q → List FieldError
  validate_create s = validate_mongodb_spec s

  -- The guard of ValidateUpdate on the path from the old version to the new one.
  unfoldable pub validate_path : String → String → List FieldError
  unfolding is_valid_upgrade_path
  validate_path old new =
      if is_empty old || str_eq old new
      then []
      else report (is_set (is_valid_upgrade_path k.versions old new)) invalid
          (spec_path / child "version" / child "version")

  abbrev pub or_path : List FieldError → List FieldError → List FieldError
  or_path [] path = path
  or_path (e ∷ es) path = e ∷ es

  -- ValidateUpdate, on an old object that is not nil
  unfoldable pub validate_update : MongoDbSpec Q → MongoDbSpec Q → List FieldError
  unfolding validate_mongodb_spec validate_path
  validate_update old new =
      or_path (validate_mongodb_spec new) (validate_path old.version new.version)
