-- ===== src/Kube.antt =====
-- What the controllers see of Kubernetes and of the database: the API objects that they read, the
-- calls that may fail, and Go functions that mutate an object, call the outside and may return an
-- error (the `client.Client` and mongo-driver calls of internal/controller).
pub mod Exec
use mongodb_operator.Common.{ℕ, String, Bool, true, false, Option, List}
use mongodb_operator.Common.Int.{ℤ}

-- An error of the API server or of the driver: `apierrors.IsNotFound` tells one apart.
pub data ApiError : Type 0 where
  not_found : ApiError
  other : String → ApiError

-- An `error` that a handler returns: one of the outside, perhaps wrapped with `%w`, or its own.
-- `joined` is `errors.Join` of two; a longer join nests to the right.
pub data Error : Type 0 where
  api : ApiError → Error
  wrapped : String → Error → Error
  text : String → String → Error
  joined : Error → Error → Error

pub data Outcome {ℓ} (A : Type ℓ) : Type ℓ where
  ok : A → Outcome A
  err : Error → Outcome A

-- What a pass returns beside its error, ctrl.Result: nothing, `Requeue: true`, or `RequeueAfter`.
pub data Requeue : Type 0 where
  stop again : Requeue
  after : ℤ → Requeue

-- metav1.ConditionStatus
pub data CondStatus : Type 0 where
  cond_true cond_false cond_unknown : CondStatus

-- metav1.Condition; an instant is a count of nanoseconds.
pub record Condition : Type 0 where
  pub type : String
  pub status : CondStatus
  pub reason : String
  pub message : String
  pub last_transition_time : ℤ
  pub observed_generation : ℕ

-- The fields of an appsv1.StatefulSet that the controllers read.
pub record StatefulSet : Type 0 where
  pub spec_replicas : Option ℕ
  pub updated_replicas : ℕ
  pub ready_replicas : ℕ
  pub current_revision : String
  pub update_revision : String
  pub match_labels : String

-- corev1.ContainerStatus: `waiting` is `State.Waiting.Reason`, if the container waits.
pub record ContainerStatus : Type 0 where
  pub name : String
  pub waiting : Option String

pub record Pod : Type 0 where
  pub name : String
  -- `Status.Phase == corev1.PodRunning`
  pub is_running : Bool
  pub container_statuses : List ContainerStatus

-- corev1.Secret, its `Data` as an association list.
pub record Secret : Type 0 where
  pub name : String
  pub entries : List (String × String)

-- What is outside of this repository, for one object under reconcile whose status has the type `S`:
-- a world `W` that the calls read and change. A call that changes it returns its error, if any.
pub record Api (W S : Type 0) : Type 0 where
  pub now : W → ℤ
  -- commonsstatus.UpdateWithRetry(ctx, r.Client, obj, mutate), given the mutated status
  pub update_status : S → W → Option ApiError × W
  -- r.Get of a MongoDBBackup, for its `Status.Phase`
  pub get_backup : String → W → Outcome String
  -- r.Create of a MongoDBBackup, with its name and its `ClusterRef` (name, kind)
  pub create_backup : String → String → String → W → Option ApiError × W
  pub get_stateful_set : String → W → Outcome StatefulSet
  pub list_pods : String → W → Outcome (List Pod)
  pub get_secret : String → W → Outcome Secret
  -- ReplicaSetManager.SetFCV(ctx, pod, namespace, version), with the admin password
  pub set_fcv : String → String → String → W → Option ApiError × W
  -- time.ParseDuration, in nanoseconds
  pub parse_duration : String → Option ℤ
  -- time.Duration.String
  pub format_duration : ℤ → String
