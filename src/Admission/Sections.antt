-- ===== src/Admission/Sections.antt =====
-- internal/webhook/v1alpha1/mongodb_webhook.go: the checks of single sections that both webhooks use.
use mongodb_operator.Common.{
  String, Bool, true, false, not, Option, none, some, List, [], ◌∷◌, ◌++◌, str_eq, if◌then◌else◌,
  is_empty,
}
use mongodb_operator.Versions.{VersionList, is_supported_version}
use mongodb_operator.Admission.Fields.{FieldPath, child, FieldError, invalid, required, ◌/◌, report}

-- The packages that the webhooks call: the quantities of k8s.io/apimachinery/pkg/api/resource with
-- `IsZero`, `Cmp(…) < 0` and `MustParse("1Gi")`, and `ValidateWithPredicate` of keiailab-commons,
-- whose error is nil or a field error.
pub record Packages (Q : Type 0) : Type 0 where
  pub is_zero : Q → Bool
  pub less : Q → Q → Bool
  pub one_gi : Q
  pub versions : VersionList
  pub validate_with_predicate :
      FieldPath → String → (String → Bool) → List String → Option FieldError

-- `tls.certManager` by the name of its issuer, and `tls.customCert` by the name of its secret.
pub record TlsSpec : Type 0 where
  pub cert_manager : Option String
  pub custom_cert : Option String

pub record S3StorageSpec : Type 0 where
  pub bucket : String
  pub credentials_ref : String

pub record BackupSpec : Type 0 where
  pub enabled : Bool
  pub schedule : String
  pub storage_type : String
  pub s3 : Option S3StorageSpec

abbrev pub is_set_empty : Option String → Bool
is_set_empty none = false
is_set_empty (some s) = is_empty s

-- validateTLSSpec
unfoldable pub validate_tls_spec : FieldPath → Option TlsSpec → List FieldError
validate_tls_spec path none = []
validate_tls_spec path (some tls) =
    report (is_set_empty tls.cert_manager) invalid
      (path / child "certManager" / child "issuerRef" / child "name")
    ++ report (is_set_empty tls.custom_cert) invalid
        (path / child "customCert" / child "secretName")

abbrev validate_s3 : FieldPath → Option S3StorageSpec → List FieldError
validate_s3 path none = report true required path
validate_s3 path (some s3) =
    report (is_empty s3.bucket) invalid (path / child "bucket")
    ++ report (is_empty s3.credentials_ref) invalid (path / child "credentialsRef" / child "name")

abbrev validate_enabled_backup : FieldPath → BackupSpec → List FieldError
validate_enabled_backup path b =
    report (is_empty b.schedule) invalid (path / child "schedule")
    ++ (if str_eq b.storage_type "s3"
        then validate_s3 (path / child "storage" / child "s3") b.s3
        else [])

-- validateBackupSpec
unfoldable pub validate_backup_spec : FieldPath → Option BackupSpec → List FieldError
validate_backup_spec path none = []
validate_backup_spec path (some b) = if not b.enabled then [] else validate_enabled_backup path b

-- validateAuthSecretRef
unfoldable pub validate_auth_secret_ref : FieldPath → String → List FieldError
validate_auth_secret_ref path name = report (is_empty name) invalid path

module _ {Q : Type 0} (k : Packages Q) where
  -- validateStorageSize
  unfoldable pub validate_storage_size : FieldPath → Q → List FieldError
  validate_storage_size path size =
      if k.is_zero size then [] else report (k.less size k.one_gi) invalid path

  abbrev option_list : Option FieldError → List FieldError
  option_list none = []
  option_list (some e) = e ∷ []

  -- The check of `spec.version.version`.
  unfoldable pub validate_version : FieldPath → String → List FieldError
  validate_version path version =
      option_list (
        k.validate_with_predicate path version (is_supported_version k.versions) k.versions.strings)
