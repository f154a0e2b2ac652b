-- ===== src/Admission/Encryption.antt =====
-- internal/controller/encryption/kms.go: the validation of the encryption section and the arguments
-- of mongod.
use mongodb_operator.Common.{
  ℕ, ◌+◌, String, Bool, true, false, not, ◌||◌, Option, none, some, List, [], ◌∷◌, ltb, str_eq,
  if◌then◌else◌, is_empty, is_blank, has_prefix, is_one_of,
}
use mongodb_operator.Common.Int.{ℤ, pos, ltb_ℤ, ◌-ℤ◌, wrap64, scale}
use mongodb_operator.Upgrade.Status.{◌+++◌}

-- The fields that are validated.
pub record VaultKmsConfig : Type 0 where
  pub address : String
  pub key_name : String
  pub auth_secret : String

pub record GcpKmsConfig : Type 0 where
  pub project_id : String
  pub keyring : String
  pub key : String

-- KMSConfigSpec; the `secret` block is its secret name, `aws_kms` the key ARN, `azure_kv` the URL.
pub record KmsConfig : Type 0 where
  pub secret : Option String
  pub vault : Option VaultKmsConfig
  pub aws_kms : Option String
  pub gcp_kms : Option GcpKmsConfig
  pub azure_kv : Option String

pub record EncryptionSpec : Type 0 where
  pub enabled : Bool
  pub key_provider : String
  pub kms_config : Option KmsConfig
  pub cipher_mode : String
  pub key_rotation_days : ℤ

-- The errors of ValidateEncryptionSpec, by the place that makes them.
pub data EncryptionError : Type 0 where
  many_providers secret_missing vault_missing vault_address vault_key_name vault_auth_secret
        aws_missing aws_key_arn gcp_missing gcp_fields azure_missing azure_vault_url
        unknown_provider rotation_days :
      EncryptionError

abbrev pub is_set {ℓ} : {A : Type ℓ} → Option A → Bool
is_set none = false
is_set (some _) = true

abbrev one_if : Bool → ℕ
one_if b = if b then 1 else 0

-- countConfiguredProviders
unfoldable pub count_configured_providers : Option KmsConfig → ℕ
count_configured_providers none = 0
count_configured_providers (some c) =
    one_if (is_set c.secret)
    + one_if (is_set c.vault)
    + one_if (is_set c.aws_kms)
    + one_if (is_set c.gcp_kms)
    + one_if (is_set c.azure_kv)

abbrev check_rotation : EncryptionSpec → Option EncryptionError
check_rotation s = if ltb_ℤ s.key_rotation_days (pos 0) then some rotation_days else none

abbrev check_secret : Option String → Option EncryptionError → Option EncryptionError
check_secret none rest = some secret_missing
check_secret (some name) rest = if is_empty name then some secret_missing else rest

abbrev check_vault : Option VaultKmsConfig → Option EncryptionError → Option EncryptionError
check_vault none rest = some vault_missing
check_vault (some v) rest =
    if is_blank v.address
    then some vault_address
    else if is_empty v.key_name
    then some vault_key_name
    else if is_empty v.auth_secret
    then some vault_auth_secret
    else rest

abbrev check_aws : Option String → Option EncryptionError → Option EncryptionError
check_aws none rest = some aws_missing
check_aws (some arn) rest = if has_prefix "arn:aws:kms:" arn then rest else some aws_key_arn

abbrev check_gcp : Option GcpKmsConfig → Option EncryptionError → Option EncryptionError
check_gcp none rest = some gcp_missing
check_gcp (some g) rest =
    if is_empty g.project_id || (is_empty g.keyring || is_empty g.key)
    then some gcp_fields
    else rest

abbrev check_azure : Option String → Option EncryptionError → Option EncryptionError
check_azure none rest = some azure_missing
check_azure (some url) rest = if has_prefix "https://" url then rest else some azure_vault_url

-- A block of the configuration: missing if the configuration is.
abbrev pub block {ℓ} : {A : Type ℓ} → (KmsConfig → Option A) → Option KmsConfig → Option A
block f none = none
block f (some c) = f c

abbrev pub provider_of : EncryptionSpec → String
provider_of s = if is_empty s.key_provider then "secret" else s.key_provider

-- The `switch` on the provider, and the check behind it.
abbrev check_provider : EncryptionSpec → Option EncryptionError
check_provider s =
    let provider = provider_of s in
    let rest = check_rotation s in
    if str_eq provider "secret"
    then check_secret (block (λ c. c.secret) s.kms_config) rest
    else if str_eq provider "vault"
    then check_vault (block (λ c. c.vault) s.kms_config) rest
    else if str_eq provider "aws-kms"
    then check_aws (block (λ c. c.aws_kms) s.kms_config) rest
    else if str_eq provider "gcp-kms"
    then check_gcp (block (λ c. c.gcp_kms) s.kms_config) rest
    else if str_eq provider "azure-kv"
    then check_azure (block (λ c. c.azure_kv) s.kms_config) rest
    else some unknown_provider

-- ValidateEncryptionSpec, on a spec that is not nil
unfoldable pub validate_encryption_spec : EncryptionSpec → Option EncryptionError
unfolding count_configured_providers
validate_encryption_spec s =
    if not s.enabled
    then none
    else if ltb 1 (count_configured_providers s.kms_config)
    then some many_providers
    else check_provider s

abbrev cipher_of : String → String
cipher_of c = if is_empty c then "AES256-GCM" else c

abbrev pub key_args : String → List String
key_args provider =
    if is_one_of ("" ∷ "secret" ∷ []) provider
    then "--encryptionKeyFile=/etc/mongodb-encryption/keyfile" ∷ []
    else if is_one_of ("vault" ∷ "aws-kms" ∷ "gcp-kms" ∷ "azure-kv" ∷ []) provider
    then "--kmipServerName=localhost" ∷ "--kmipPort=5696" ∷ []
    else []

-- MongodArgs, on a spec that is not nil
unfoldable pub mongod_args : EncryptionSpec → List String
mongod_args s =
    if not s.enabled
    then []
    else "--enableEncryption"
      ∷ ("--encryptionCipherMode=" +++ cipher_of s.cipher_mode)
      ∷ key_args s.key_provider

-- NeedsKeyRotation, on a spec that is not nil; an `int32` of days times 86400 fits an `int64`.
unfoldable pub needs_key_rotation : ℤ → ℤ → EncryptionSpec → Bool
unfolding wrap64 scale ◌-ℤ◌
needs_key_rotation last now s =
    if not s.enabled || not (ltb_ℤ (pos 0) s.key_rotation_days)
    then false
    else not (ltb_ℤ (wrap64 (now -ℤ last)) (scale 86400 s.key_rotation_days))
