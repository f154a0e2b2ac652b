-- ===== src/Cluster/Outside.antt =====
-- What a pass over a MongoDB object calls: the API server and the database, the packages of
-- conditions, and the methods of the reconciler that only build and apply Kubernetes objects.
use mongodb_operator.Common.{ℕ, String, Bool, Option, List}
use mongodb_operator.Common.Int.{ℤ}
use mongodb_operator.Kube.{Api, ApiError, Error, Outcome, Condition, Secret}
use mongodb_operator.Kube.Exec.{Exec}
use mongodb_operator.Mongo.{MongoDb, MongoDbStatus}
use mongodb_operator.Cluster.Lease.{LeaseApi}

-- A `ctrl.Result`: `requeue_after` 0 is `Result{}`.
pub data Requeue : Type 0 where
  requeue_after : ℤ → Requeue

-- The steps of Reconcile that apply objects built from the spec, and change nothing of the status. A
-- step whose object the spec does not ask for does nothing.
pub data Resource : Type 0 where
  keyfile_secret tls_certificate config_map custom_config_map headless_service client_service
        stateful_set_object data_volumes pod_disruption_budget network_policy exporter_secret
        autoscaler backup_cron_job :
      Resource

pub record Outside (W : Type 0) : Type 0 where
  pub kube : Api W MongoDbStatus
  pub apply : Resource → MongoDb → W → Option ApiError × W
  -- meta.SetStatusCondition of k8s.io/apimachinery, at the current time
  pub set_status_condition : W → Condition → List Condition → List Condition
  -- `fmt.Sprintf("%d", n)`
  pub decimal : ℕ → String
  -- `err.Error()`
  pub error_text : Error → String
  -- commonsreconcile.ApplyErrorCondition(ctx, client, obj, component, err, recorder)
  pub apply_error_condition : String → Error → Exec MongoDb W Requeue
  -- ReplicaSetManager with the password, or anonymous: IsInitialized, Initiate, HasPrimary and
  -- GetPrimaryPod of the first pod
  pub is_initialized : String → W → Outcome Bool
  pub initiate : MongoDb → W → Option ApiError × W
  pub has_primary : Option String → String → W → Outcome Bool
  pub get_primary_pod : String → String → W → Outcome String
  -- mongodb.IsAuthRequiredErr
  pub is_auth_required : Error → Bool
  -- The coordination API, and this process as a holder of a lease (bootstrapLeaseHolder).
  pub lease : LeaseApi W
  pub holder : String
  -- mongodb.BootstrapAdminUser on a host, and AuthManager.UserExists of "admin" through a pod
  pub bootstrap_admin_user : String → String → W → Option ApiError × W
  pub user_exists : String → String → W → Outcome Bool × W
  -- A wait of a second, or until the context is done: whether it is done.
  pub wait_second : W → Bool × W
  -- The first 16 characters of commonssecrethash.Hash(secret.Data)
  pub secret_hash : Secret → String
  -- r.Update(ctx, mdb)
  pub update_object : MongoDb → W → Option ApiError × W
