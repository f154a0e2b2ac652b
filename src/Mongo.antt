-- ===== src/Mongo.antt =====
-- api/v1alpha1: the spec and status of a MongoDB, as far as its controller reads and writes them.
use mongodb_operator.Common.{ℕ, String, Bool, Option, List}
use mongodb_operator.Common.Int.{ℤ}
use mongodb_operator.Kube.{Condition}

-- The `UpgradePhase` strings; `idle` is "".
pub data UpgradePhase : Type 0 where
  idle backing_up upgrading validating rolling_back : UpgradePhase
  other_phase : String → UpgradePhase

-- UpgradeStrategySpec; its `Type` and `MaxRetries` are read by no code.
pub record UpgradeStrategy : Type 0 where
  pub pre_upgrade_backup : Bool
  pub validation_interval : String
  pub rollback_on_failure : Bool

-- The fields of MongoDBStatus that the upgrade code reads and writes. MongoDBShardedStatus has the
-- same. `upgrade_retry_count` is an int32, kept as its bit pattern.
pub record UpgradeStatus : Type 0 where
  pub version : String
  pub effective_version : String
  pub previous_version : String
  pub upgrade_phase : UpgradePhase
  pub upgrade_start_time : Option ℤ
  pub rollback_active : Bool
  pub upgrade_retry_count : ℕ
  pub observed_upgrade_generation : ℕ
  pub fcv_version : String
  pub conditions : List Condition

-- The `Phase` of a MongoDB; `unset` is "".
pub data Phase : Type 0 where
  unset pending initializing running failed : Phase

pub record PendingScale : Type 0 where
  pub current_members : ℕ
  pub desired_members : ℕ

pub record MongoDbStatus : Type 0 where
  pub upgrade : UpgradeStatus
  pub open upgrade use *
  pub phase : Phase
  pub ready_members : ℕ
  pub replica_set_initialized : Bool
  pub admin_user_created : Bool
  pub current_primary : String
  pub connection_string : String
  pub observed_generation : ℕ
  pub pending_scale : Option PendingScale

-- `auth_secret_hash` is the annotation "mongodb.keiailab.com/auth-secret-hash".
pub record MongoDb : Type 0 where
  pub name : String
  pub namespace : String
  pub generation : ℕ
  pub spec_version : String
  pub spec_image : String
  pub members : ℕ
  pub replica_set_name : String
  pub admin_secret : String
  pub auth_secret_hash : String
  pub upgrade_strategy : Option UpgradeStrategy
  pub scale_deliberate : Option Bool
  pub auto_scaling : Option Bool
  pub status : MongoDbStatus

-- ComponentStatus and ShardStatus
pub record ComponentStatus : Type 0 where
  pub ready : ℕ
  pub total : ℕ
  pub phase : Phase

pub record ShardStatus : Type 0 where
  pub name : String
  pub ready : ℕ
  pub total : ℕ
  pub phase : Phase

pub record ShardedStatus : Type 0 where
  pub upgrade : UpgradeStatus
  pub open upgrade use *
  pub phase : Phase
  pub config_server : ComponentStatus
  pub mongos : ComponentStatus
  pub shards : List ShardStatus
  pub config_server_initialized : Bool
  pub shards_initialized : List Bool
  pub shards_added : List Bool
  pub admin_user_created : Bool
  pub connection_string : String
  pub sharded_collections : List String
  pub observed_generation : ℕ

-- One field of a shard key: its path, and "1", "-1" or "hashed".
pub record ShardKeyField : Type 0 where
  pub field : String
  pub order : String

pub record TimeseriesSpec : Type 0 where
  pub time_field : String
  pub meta_field : String
  pub granularity : String

pub record ShardedCollectionSpec : Type 0 where
  pub database : String
  pub collection : String
  pub shard_key : List ShardKeyField
  pub unique : Bool
  pub timeseries : Option TimeseriesSpec

pub record BackupSpec : Type 0 where
  pub enabled : Bool
  pub schedule : String
  pub storage_type : String

-- An `Option Bool` is a pointer to an AutoScalingSpec, TLSSpec or ScalePolicySpec, with its flag.
pub record MongoDbSharded : Type 0 where
  pub name : String
  pub namespace : String
  pub generation : ℕ
  pub spec_version : String
  pub config_members : ℕ
  pub shard_count : ℕ
  pub members_per_shard : ℕ
  pub mongos_replicas : ℕ
  pub config_auto_scaling : Option Bool
  pub config_scale_deliberate : Option Bool
  pub mongos_auto_scaling : Option Bool
  pub tls : Option Bool
  pub backup : Option BackupSpec
  pub admin_secret : String
  pub sharded_collections : List ShardedCollectionSpec
  pub upgrade_strategy : Option UpgradeStrategy
  pub status : ShardedStatus
