-- ===== src/Upgrade/Config.antt =====
-- The helpers of upgrade.go: the FCV of a version, the validation interval, the admin password, and
-- what the StatefulSet and its pods say of a rollout.
use Prim.Native.Nat.{◌*◌}
use mongodb_operator.Common.{
  ℕ, String, Bool, ◌&&◌, ◌||◌, Option, none, some, List, [], ◌∷◌, str_eq, ◌==◌, if◌then◌else◌,
  is_empty, split, lookup, ltb,
}
use mongodb_operator.Common.Int.{ℤ, pos, ◌+ℤ◌, wrap64}
use mongodb_operator.Kube.{
  Api, wrapped, text, Outcome, ok, err, StatefulSet, ContainerStatus, Pod, Secret,
}
use mongodb_operator.Mongo.{UpgradeStrategy}
use mongodb_operator.Upgrade.Status.{◌+++◌}

-- "8.2" of "8.2.1", and "" if there is no dot.
abbrev join_major_minor : List String → String
join_major_minor (major ∷ minor ∷ _) = major +++ "." +++ minor
join_major_minor _ = ""

-- fcvMajorMinor
unfoldable pub fcv_major_minor : String → String
unfolding split
fcv_major_minor version = join_major_minor (split b'.' version)

-- defaultValidationInterval, upgradeRequeueInterval, perMemberRolloutBudget and the other requeue
-- times, in nanoseconds.
abbrev pub seconds : ℕ → ℕ
seconds n = n * 1000000000

abbrev pub default_validation_interval : ℤ
default_validation_interval = pos (seconds 60)

abbrev pub upgrade_requeue_interval : ℤ
upgrade_requeue_interval = pos (seconds 30)

abbrev pub one_second : ℤ
one_second = pos (seconds 1)

-- `ctrl.Result{}`
abbrev pub no_requeue : ℤ
no_requeue = pos 0

abbrev pub per_member_rollout_budget : ℕ
per_member_rollout_budget = seconds 180

-- `interval + time.Duration(members) * perMemberRolloutBudget`, for at least one member
unfoldable pub validation_timeout : ℤ → ℕ → ℤ
unfolding wrap64 ◌+ℤ◌
validation_timeout interval members =
    let counted = if ltb members 1 then 1 else members in
    wrap64 (interval +ℤ pos (counted * per_member_rollout_budget))

module _ {W S : Type 0} (api : Api W S) where
  abbrev parsed_or_default : Option ℤ → ℤ
  parsed_or_default none = default_validation_interval
  parsed_or_default (some d) = d

  -- parseValidationInterval
  unfoldable pub parse_validation_interval : Option UpgradeStrategy → ℤ
  parse_validation_interval none = default_validation_interval
  parse_validation_interval (some u) =
      if is_empty u.validation_interval
      then default_validation_interval
      else parsed_or_default (api.parse_duration u.validation_interval)

  abbrev password_of : String → Outcome Secret → Outcome String
  password_of name (err e) = err (wrapped "failed to get admin credentials secret" e)
  password_of name (ok secret) = elim (lookup "password" secret.entries) [
    | none ↦ err (text "password key not found in secret" name)
    | some password ↦ ok password
  ]

  -- getAdminPassword
  unfoldable pub get_admin_password : String → W → Outcome String
  unfolding lookup
  get_admin_password name w = password_of name (api.get_secret name w)

  abbrev rollout_complete_of : ℕ → Outcome StatefulSet → Outcome Bool
  rollout_complete_of members (err e) = err e
  rollout_complete_of members (ok sts) = ok (
      sts.updated_replicas == members
      && (sts.ready_replicas == members && str_eq sts.current_revision sts.update_revision))

  -- stsRolloutComplete
  unfoldable pub sts_rollout_complete : String → ℕ → W → Outcome Bool
  sts_rollout_complete name members w = rollout_complete_of members (api.get_stateful_set name w)

-- The reasons for which a waiting container means that the rollout is stuck.
unfoldable pub is_stuck_reason : String → Bool
is_stuck_reason r =
    str_eq r "ImagePullBackOff"
    || (str_eq r "ErrImagePull" || (str_eq r "CrashLoopBackOff" || str_eq r "InvalidImageName"))

abbrev stuck_container : Option String → Option String
stuck_container none = none
stuck_container (some reason) = if is_stuck_reason reason then some reason else none

abbrev or_else {ℓ} : {A : Type ℓ} → Option A → Option A → Option A
or_else (some a) _ = some a
or_else none o = o

-- The inner loop of stsRolloutStuck, over the containers of a pod.
unfoldable pub first_stuck_container : String → List ContainerStatus → Option String
unfolding is_stuck_reason
first_stuck_container pod [] = none
first_stuck_container pod (c ∷ cs) =
    let rest = first_stuck_container pod cs in
    elim (stuck_container c.waiting) [
      | none ↦ rest
      | some reason ↦ some (pod +++ "/" +++ c.name +++ ": " +++ reason)
    ]

-- The outer loop, over the pods.
unfoldable pub first_stuck : List Pod → Option String
unfolding first_stuck_container
first_stuck [] = none
first_stuck (p ∷ ps) = or_else (first_stuck_container p.name p.container_statuses) (first_stuck ps)

-- The labels of the pods of the mongos.
abbrev pub mongos_labels : String → String
mongos_labels name = "app.kubernetes.io/component=mongos,app.kubernetes.io/instance=" +++ name

-- The loop of getMongosPodName.
abbrev first_running : List Pod → Outcome String
first_running [] = err (text "no running mongos pod found" "")
first_running (p ∷ ps) = if p.is_running then ok p.name else first_running ps

abbrev running_of : Outcome (List Pod) → Outcome String
running_of (err e) = err e
running_of (ok pods) = first_running pods

module _ {W S : Type 0} (api : Api W S) where
  -- getMongosPodName
  abbrev pub get_mongos_pod : String → W → Outcome String
  get_mongos_pod name w = running_of (api.list_pods (mongos_labels name) w)

  abbrev stuck_pods : Outcome (List Pod) → Option String
  stuck_pods (err _) = none
  stuck_pods (ok pods) = first_stuck pods

  abbrev stuck_of : Outcome StatefulSet → W → Option String
  stuck_of (err _) w = none
  stuck_of (ok sts) w = stuck_pods (api.list_pods sts.match_labels w)

  -- stsRolloutStuck: the reason, if the rollout is stuck.
  unfoldable pub sts_rollout_stuck : String → W → Option String
  unfolding first_stuck
  sts_rollout_stuck name w = stuck_of (api.get_stateful_set name w) w
