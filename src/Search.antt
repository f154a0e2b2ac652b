-- ===== src/Search.antt =====
-- internal/controller/mongodbsearch_controller.go: the controller that puts a mongot beside each mongod
-- of a database, with a privileged user for it.
pub mod Gone
pub mod Sidecars
pub mod Report
pub mod Secret
pub mod User
pub mod Pass
pub mod Trust
pub mod Rounds
pub mod Dropped
use mongodb_operator.Common.{ℕ, String, Bool, Option, List}
use mongodb_operator.Common.Int.{ℤ}
use mongodb_operator.SearchIndex.{DriverError}
use mongodb_operator.Kube.{ApiError, Error, Outcome, Requeue, Condition, StatefulSet}

-- The `Phase` of a MongoDBSearch; `unset` is "".
pub data SearchPhase : Type 0 where
  unset pending provisioning syncing ready degraded failed : SearchPhase

-- MongoDBSearchStatus
pub record SearchStatus : Type 0 where
  pub phase : SearchPhase
  pub mongot_endpoint : String
  pub ready_replicas : ℕ
  pub observed_generation : ℕ
  pub error : String
  pub conditions : List Condition

-- MongoDBSearch
pub record Search : Type 0 where
  pub name : String
  pub namespace : String
  pub generation : ℕ
  pub finalizers : List String
  pub is_deleted : Bool
  pub source_kind : String
  pub resource : Option String
  pub sync_user_secret : Option String
  pub image : String
  pub version : String
  pub mongot_shard : Option String
  pub status : SearchStatus

-- A MongoDB or a MongoDBSharded, as far as it is read.
pub record Source : Type 0 where
  pub name : String
  pub namespace : String
  pub admin_secret : String
  pub has_tls : Bool
  pub is_running : Bool
  pub annotations : List (String × String)
  pub shards : ℕ

-- The secret of the sync user: the controller that owns it, its labels and its data
pub record SyncSecret : Type 0 where
  pub name : String
  pub owner : Option String
  pub labels : List (String × String)
  pub entries : List (String × String)

-- What r.Create of a secret answers: `exists` is an error for which IsAlreadyExists holds.
pub data CreateResult : Type 0 where
  created exists : CreateResult
  refused : ApiError → CreateResult

-- Where the factories connect to: a mongod through a pod and a headless service, or a mongos.
pub record Endpoint : Type 0 where
  pub pod : String
  pub service : String
  pub namespace : String
  pub port : ℕ

-- The arguments of BuildMongotConfigMap
pub record MongotConfig : Type 0 where
  pub database : String
  pub namespace : String
  pub search : String
  pub sync_user : String
  pub tls : Bool
  pub port : ℕ
  pub router : String

-- A container of a pod, with its readiness
pub record Container : Type 0 where
  pub name : String
  pub is_ready : Bool

pub record SearchApi (W : Type 0) : Type 0 where
  -- commonsstatus.UpdateWithRetry, given the mutated status
  pub update_status : SearchStatus → W → Option ApiError × W
  pub set_status_condition : W → Condition → List Condition → List Condition
  pub has_finalizer : List String → Bool
  pub add_finalizer : List String → List String
  pub update_finalizers : List String → W → Option ApiError × W
  -- commonsreconcile.HandleFinalizerCleanup of a cleanup, with the finalizers that are left
  pub handle_finalizer_cleanup :
      (W → Option Error × W) → List String → W → Outcome Requeue × List String × W
  pub get_source : String → W → Outcome Source
  pub get_sharded_source : String → W → Outcome Source
  pub get_secret : String → W → Outcome SyncSecret
  pub update_secret : SyncSecret → W → Option ApiError × W
  pub create_secret : SyncSecret → W → CreateResult × W
  -- metav1.IsControlledBy and SetControllerReference, for this object
  pub is_controlled : SyncSecret → Bool
  pub set_controller : SyncSecret → Outcome SyncSecret
  -- generateSyncPassword
  pub generate_password : W → String × W
  pub apply_config_map : MongotConfig → W → Option ApiError × W
  pub apply_service : String → W → Option ApiError × W
  -- r.Patch of the annotations of a source
  pub patch_annotations : String → List (String × String) → W → Option ApiError × W
  pub get_stateful_set : String → W → Outcome StatefulSet
  -- r.List of the pods with these labels, for their containers
  pub list_pods : String → W → Outcome (List (List Container))
  -- the commands of a client for an endpoint, with the password of the admin; and the connection
  pub connect : Endpoint → String → W → Option Error × W
  pub create_user : Endpoint → String → String → W → Option DriverError × W
  pub update_user : Endpoint → String → String → W → Option Error × W
  pub drop_user : Endpoint → String → W → Option DriverError × W
  pub decimal : ℕ → String
  pub error_text : Error → String

abbrev pub default_sync_user : String
default_sync_user = "search-sync"

abbrev pub with_status : SearchStatus → Search → Search
with_status s x = record x { status = s }
