-- ===== src/Shards/Services.antt =====
-- What a pass over a MongoDBSharded object calls: the API server, the commands of the driver, the
-- packages of conditions, and the methods that only build and apply Kubernetes objects.
use mongodb_operator.Common.{ℕ, String, Bool, Option, List}
use mongodb_operator.Common.Int.{ℤ}
use mongodb_operator.Kube.{Api, ApiError, Error, Outcome, Condition}
use mongodb_operator.Kube.Exec.{Exec}
use mongodb_operator.Mongo.{MongoDbSharded, ShardedStatus}
use mongodb_operator.Cluster.Outside.{Requeue}

-- The objects that a pass builds from the spec and applies; a shard's come with its index.
pub data Resource : Type 0 where
  tls_certificate keyfile_secret config_server_scripts config_server_service
        config_server_stateful_set mongos_config_map mongos_service mongos_deployment
        pod_disruption_budgets network_policies mongos_hpa config_server_hpa :
      Resource
  shard_scripts shard_service shard_stateful_set : ℕ → Resource

-- The kinds of the objects that are deleted by name.
pub data Kind : Type 0 where
  stateful_set service config_map pod_disruption_budget network_policy persistent_volume_claim
        horizontal_pod_autoscaler :
      Kind

-- The fields of an appsv1.Deployment that are read.
pub record Deployment : Type 0 where
  pub spec_replicas : Option ℕ
  pub ready_replicas : ℕ

-- RemoveShardResult, without its text and the name of the shard
pub record RemoveShardResult : Type 0 where
  pub state : String
  pub chunks : ℕ
  pub databases : ℕ

-- ReplicaSetMember and ReplicaSetConfig: the fields that are set when a replica set is initiated.
pub record ReplicaSetMember : Type 0 where
  pub id : ℕ
  pub host : String

pub record ReplicaSetConfig : Type 0 where
  pub id : String
  pub members : List ReplicaSetMember

-- A value of a shard key in a `bson.D`: a text, or a number of one of three types. A float64 is
-- either an integer or `fraction`, with its text.
pub data KeyValue : Type 0 where
  string : String → KeyValue
  int32 int64 float64 : ℤ → KeyValue
  fraction : String → KeyValue

abbrev pub ShardKey : Type 0
ShardKey = List (String × KeyValue)

-- A document of config.collections.
pub record ConfigCollection : Type 0 where
  pub id : String
  pub key : ShardKey
  pub dropped : Bool

-- TimeseriesOptions and ShardCollectionOptions
pub record TimeseriesOptions : Type 0 where
  pub time_field : String
  pub meta_field : String
  pub granularity : String

pub record ShardCollectionOptions : Type 0 where
  pub unique : Bool
  pub timeseries : Option TimeseriesOptions

pub record Services (W : Type 0) : Type 0 where
  pub kube : Api W ShardedStatus
  -- r.EnableAutoscaling
  pub enable_autoscaling : Bool
  pub apply : Resource → MongoDbSharded → W → Option ApiError × W
  pub get_deployment : String → W → Outcome Deployment
  -- r.Get of a HorizontalPodAutoscaler: its error, if any
  pub get_hpa : String → W → Option ApiError
  pub delete : Kind → String → W → Option ApiError × W
  -- r.List of the claims with the two labels (component, instance): their names
  pub list_pvcs : String → String → W → Outcome (List String)
  -- meta.SetStatusCondition, at the current time, and meta.RemoveStatusCondition
  pub set_status_condition : W → Condition → List Condition → List Condition
  pub remove_status_condition : String → List Condition → List Condition
  -- `fmt.Sprintf("%d", n)` of an integer, and `fmt.Sprintf("%q", s)`
  pub decimal : ℤ → String
  pub quoted : String → String
  pub error_text : Error → String
  pub apply_error_condition : String → Error → Exec MongoDbSharded W Requeue
  -- ReplicaSetManager.IsInitialized and Initiate of the service, port and password, on a pod
  pub is_initialized : String → ℕ → String → String → W → Outcome Bool
  pub initiate : String → ℕ → String → String → ReplicaSetConfig → W → Option ApiError × W
  -- The commands that go through mongos, each with the admin password: usersInfo, addShard,
  -- removeShard of a named pod, a find in config.collections by its id (`none`: ErrNoDocuments) or
  -- for all that are not dropped, enableSharding, and shardCollection.
  pub user_exists : String → String → W → Outcome Bool
  pub add_shard : String → String → W → Option ApiError × W
  pub remove_shard : String → String → String → W → Outcome RemoveShardResult × W
  pub find_collection : String → String → W → Outcome (Option ConfigCollection)
  pub find_collections : String → W → Outcome (List ConfigCollection)
  pub enable_sharding : String → String → W → Option ApiError × W
  pub shard_collection :
      String → String → ShardKey → Option ShardCollectionOptions → W → Option ApiError × W
