-- ===== src/Tests/Admission.antt =====
-- The webhooks at concrete objects. Quantities are bytes.
use mongodb_operator.Mongo.{ShardedCollectionSpec}
use mongodb_operator.Common.{
  ℕ, String, Bool, true, false, none, some, [], ◌∷◌, ◌≡◌, refl, arith, ltb, ◌==◌, if◌then◌else◌,
  split_n,
}
use mongodb_operator.Common.Int.{pos}
use mongodb_operator.Versions.{parse_mongo_version, is_supported_version}
use mongodb_operator.Admission.Fields.{FieldError, invalid, child}
use mongodb_operator.Admission.Sections.{
  validate_storage_size, validate_auth_secret_ref, validate_tls_spec, validate_backup_spec,
  validate_version, Packages,
}
use mongodb_operator.Admission.ReplicaSet.{
  validate_update, MongoDbSpec, validate_mongodb_spec, validate_create,
}
use mongodb_operator.Admission.Sharded.{ShardArbiterSpec, ShardedSpec, validate_sharded_collections}
use mongodb_operator.Admission.Encryption.{EncryptionSpec}
use mongodb_operator.Admission.Keys.{null, sharded_collections_admitted}
use mongodb_operator.Admission.Chain.{IsPackages, created, updated, updates_climb}
use mongodb_operator.Tests.Versions.{must_list, must_list-IsMustList}

abbrev packages : Packages ℕ
packages = record {
  is_zero = λ n. n == 0;
  less = ltb;
  one_gi = 1073741824;
  versions = must_list;
  validate_with_predicate =
      λ p v f l. if f v then none else some (record { kind = invalid; path = p });
}

checks_value : (b : Bool) (e : FieldError) → (if b then none else some e) ≡ none → b ≡ true
checks_value b e h = ground (arith, h)

packages-IsPackages : IsPackages packages
packages-IsPackages = record {
  is_must_list = must_list-IsMustList;
  checks = λ p v f l h. checks_value (f v) (record { kind = invalid; path = p }) h;
}

abbrev db_at : String → MongoDbSpec ℕ
db_at v = record {
  version = v;
  members = 3;
  auto_scaling = none;
  ldap = none;
  oidc = none;
  encryption = none;
  audit_log = none;
  storage_size = 10737418240;
  admin_secret = "db-admin";
  tls = none;
  backup = none;
}

updates_climb_example : is_supported_version must_list "8.2.1" ≡ true
unfolding validate_create validate_mongodb_spec validate_version is_supported_version split_n
    validate_storage_size validate_auth_secret_ref validate_tls_spec validate_backup_spec
    parse_mongo_version validate_update
updates_climb_example =
    (updates_climb packages packages-IsPackages {a = db_at "8.0.5"} {r = 0} refl refl
      (updated {b = db_at "8.0.5"} {c = db_at "8.2.1"} created refl)).0

abbrev orders : ShardedCollectionSpec
orders = record {
  database = "shop";
  collection = "orders";
  shard_key = record { field = "customer"; order = "hashed" } ∷ [];
  unique = false;
  timeseries = none;
}

sharded_collections_admitted_example :
    null (validate_sharded_collections (child "spec" ∷ []) (orders ∷ orders ∷ [])) ≡ false
sharded_collections_admitted_example =
    sharded_collections_admitted (child "spec" ∷ []) (orders ∷ orders ∷ [])

abbrev vault_encryption : EncryptionSpec
vault_encryption = record {
  enabled = true;
  key_provider = "vault";
  kms_config = some (record {
    secret = none;
    vault =
        some (record { address = "https://vault"; key_name = "mongo"; auth_secret = "vault-auth" });
    aws_kms = none;
    gcp_kms = none;
    azure_kv = none;
  });
  cipher_mode = "";
  key_rotation_days = pos 90;
}

abbrev arbiter : ShardArbiterSpec
arbiter = record { enabled = true; replicas = 1 }

abbrev shards : ShardedSpec ℕ
shards = record {
  version = "8.0.5";
  shard_count = 2;
  members_per_shard = 2;
  config_storage_size = 10737418240;
  shard_storage_size = 10737418240;
  admin_secret = "admin";
  tls = none;
  backup = none;
  arbiter = some arbiter;
  sharded_collections = orders ∷ [];
}
