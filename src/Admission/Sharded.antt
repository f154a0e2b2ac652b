-- ===== src/Admission/Sharded.antt =====
-- internal/webhook/v1alpha1/mongodbsharded_webhook.go: the webhook of MongoDBSharded.
use mongodb_operator.Common.{
  ℕ, ◌+◌, ◌%◌, ◌^◌, String, Bool, true, false, not, ◌&&◌, Option, none, some, List, [], ◌∷◌, ◌++◌,
  ltb, ◌==◌, str_eq, if◌then◌else◌, is_empty, is_one_of,
}
use mongodb_operator.Mongo.{ShardKeyField, TimeseriesSpec, ShardedCollectionSpec}
use mongodb_operator.Admission.Fields.{
  FieldPath, child, index, FieldError, invalid, duplicate, not_supported, ◌/◌, report, concat,
}
use mongodb_operator.Admission.Sections.{
  Packages, TlsSpec, BackupSpec, validate_tls_spec, validate_backup_spec, validate_auth_secret_ref,
  validate_storage_size, validate_version,
}
use mongodb_operator.Admission.ReplicaSet.{spec_path, is_even_quorum, validate_path, or_path}
use mongodb_operator.Upgrade.Status.{◌+++◌}

pub record ShardArbiterSpec : Type 0 where
  pub enabled : Bool
  pub replicas : ℕ

pub record ShardedSpec (Q : Type 0) : Type 0 where
  pub version : String
  pub shard_count : ℕ
  pub members_per_shard : ℕ
  pub config_storage_size : Q
  pub shard_storage_size : Q
  pub admin_secret : String
  pub tls : Option TlsSpec
  pub backup : Option BackupSpec
  pub arbiter : Option ShardArbiterSpec
  pub sharded_collections : List ShardedCollectionSpec

abbrev validate_enabled_arbiter : FieldPath → ℕ → ℕ → List FieldError
validate_enabled_arbiter path replicas members =
    report (replicas == 0) invalid path
    ++ report (ltb 1 replicas) invalid path
    ++ report (ltb 0 members && (ltb 0 replicas && ((members + replicas) % 2 ^ 32) % 2 == 0))
        invalid path

-- validateShardArbiter
unfoldable pub validate_shard_arbiter : FieldPath → Option ShardArbiterSpec → ℕ → List FieldError
validate_shard_arbiter path none members = []
validate_shard_arbiter path (some arb) members =
    if not arb.enabled
    then []
    else validate_enabled_arbiter (path / child "replicas") arb.replicas members

abbrev pub key_orders : List String
key_orders = "1" ∷ "-1" ∷ "hashed" ∷ []

-- The loop over the fields of a shard key.
unfoldable pub validate_shard_key : FieldPath → ℕ → List ShardKeyField → List FieldError
validate_shard_key path j [] = []
validate_shard_key path j (f ∷ fs) =
    report (is_empty f.field) invalid (path / child "shardKey" / index j / child "field")
    ++ report (not (is_one_of key_orders f.order)) not_supported
        (path / child "shardKey" / index j / child "order")
    ++ validate_shard_key path (j + 1) fs

-- The loop that looks for the time field among the hashed ones.
unfoldable pub validate_time_key : FieldPath → ℕ → String → List ShardKeyField → List FieldError
validate_time_key path j time [] = []
validate_time_key path j time (f ∷ fs) =
    report (str_eq f.field time && str_eq f.order "hashed") invalid
      (path / child "shardKey" / index j / child "order")
    ++ validate_time_key path (j + 1) time fs

abbrev pub validate_timeseries :
    FieldPath → Bool → List ShardKeyField → Option TimeseriesSpec → List FieldError
validate_timeseries path unique key none = []
validate_timeseries path unique key (some t) =
    report unique invalid (path / child "unique")
    ++ report (is_empty t.time_field) invalid (path / child "timeseries" / child "timeField")
    ++ validate_time_key path 0 t.time_field key

abbrev is_nil_key : List ShardKeyField → Bool
is_nil_key [] = true
is_nil_key (_ ∷ _) = false

-- The name of a collection with its database's.
abbrev pub namespace : ShardedCollectionSpec → String
namespace sc = sc.database +++ "." +++ sc.collection

-- The body of the loop over the collections, with the names that were seen.
unfoldable pub validate_collection :
    FieldPath → List String → ShardedCollectionSpec → List FieldError
unfolding validate_shard_key validate_time_key
validate_collection path seen sc =
    report (is_empty sc.database) invalid (path / child "database")
    ++ report (is_empty sc.collection) invalid (path / child "collection")
    ++ report (is_one_of seen (namespace sc)) duplicate path
    ++ report (is_nil_key sc.shard_key) invalid (path / child "shardKey")
    ++ validate_shard_key path 0 sc.shard_key
    ++ validate_timeseries path sc.unique sc.shard_key sc.timeseries

unfoldable pub validate_collections_from :
    FieldPath → ℕ → List String → List ShardedCollectionSpec → List FieldError
validate_collections_from path i seen [] = []
validate_collections_from path i seen (sc ∷ scs) =
    validate_collection (path / index i) seen sc
    ++ validate_collections_from path (i + 1) (namespace sc ∷ seen) scs

-- validateShardedCollections
unfoldable pub validate_sharded_collections :
    FieldPath → List ShardedCollectionSpec → List FieldError
unfolding validate_collections_from
validate_sharded_collections path scs = validate_collections_from path 0 [] scs

module _ {Q : Type 0} (k : Packages Q) where
  -- The checks of validateMongoDBShardedSpec, in their order.
  abbrev pub sharded_checks : ShardedSpec Q → List (List FieldError)
  sharded_checks s =
      validate_version k (spec_path / child "version" / child "version") s.version
      ∷ report (ltb 64 s.shard_count) invalid (spec_path / child "shards" / child "count")
      ∷ report (is_even_quorum s.members_per_shard) invalid
          (spec_path / child "shards" / child "membersPerShard")
      ∷ validate_storage_size k (spec_path / child "configServer" / child "storage" / child "size")
          s.config_storage_size
      ∷ validate_storage_size k (spec_path / child "shards" / child "storage" / child "size")
          s.shard_storage_size
      ∷ validate_auth_secret_ref
          (spec_path / child "auth" / child "adminCredentialsSecretRef" / child "name")
          s.admin_secret
      ∷ validate_tls_spec (spec_path / child "tls") s.tls
      ∷ validate_backup_spec (spec_path / child "backup") s.backup
      ∷ validate_shard_arbiter (spec_path / child "shards" / child "arbiter") s.arbiter
          s.members_per_shard
      ∷ validate_sharded_collections (spec_path / child "shardedCollections") s.sharded_collections
      ∷ []

  -- validateMongoDBShardedSpec
  unfoldable pub validate_mongodb_sharded_spec : ShardedSpec Q → List FieldError
  unfolding concat
  validate_mongodb_sharded_spec s = concat (sharded_checks s)

  -- ValidateUpdate, on an old object that is not nil
  unfoldable pub validate_sharded_update : ShardedSpec Q → ShardedSpec Q → List FieldError
  unfolding validate_mongodb_sharded_spec validate_path
  validate_sharded_update old new =
      or_path k (validate_mongodb_sharded_spec new) (validate_path k old.version new.version)
