-- ===== src/Cluster/Pass.antt =====
-- Reconcile of mongodb_controller.go, behind the finalizer: its steps in their order. A step gets the
-- rest of the pass as an argument, since any step may end it.
use mongodb_operator.Common.{String, Bool, true, false, Option, none, some, if◌then◌else◌}
use mongodb_operator.Common.Int.{pos}
use mongodb_operator.Kube.{ApiError, Error, api, wrapped, Outcome, ok, err}
use mongodb_operator.Kube.Exec.{Exec, or_error}
use mongodb_operator.Mongo.{
  MongoDb, Phase, unset, pending, initializing, running, failed, UpgradePhase, upgrading,
}
use mongodb_operator.Upgrade.Status.{◌+++◌, set_validating}
use mongodb_operator.Upgrade.Config.{seconds, get_admin_password, parse_validation_interval}
use mongodb_operator.Upgrade.Machine.{Step, proceed, handled, with_upgrade, reconcile_upgrade}
use mongodb_operator.Cluster.Outside.{
  Outside, Requeue, requeue_after, Resource, keyfile_secret, tls_certificate, config_map,
  custom_config_map, headless_service, client_service, stateful_set_object, data_volumes,
  pod_disruption_budget, network_policy, exporter_secret, autoscaler, backup_cron_job,
}
use mongodb_operator.Cluster.Conditions.{
  set_primary_unreachable_condition, clear_primary_unreachable_condition,
}
use mongodb_operator.Cluster.AdminUser.{
  is_bootstrap_busy, reconcile_admin_user, reconcile_password_rotation,
}
use mongodb_operator.Cluster.Report.{
  with_status, record_pending_scale, are_all_pods_ready, update_status,
}

abbrev requeue_steady : Requeue
requeue_steady = requeue_after (pos (seconds 30))

abbrev pub requeue_provisioning : Requeue
requeue_provisioning = requeue_after (pos (seconds 10))

abbrev requeue_wait_for_external : Requeue
requeue_wait_for_external = requeue_after (pos (seconds 5))

abbrev pub is_new : Phase → Bool
is_new unset = true
is_new pending = true
is_new initializing = false
is_new running = false
is_new failed = false

abbrev pub is_upgrading : UpgradePhase → Bool
is_upgrading upgrading = true
is_upgrading _ = false

module _ {W : Type 0} (o : Outside W) where
  abbrev pub Pass : Type 0
  Pass = Exec MongoDb W Requeue

  -- `commonsstatus.UpdateWithRetry(ctx, r.Client, mdb, mutate)`, whose error ends the pass.
  abbrev pub stored : Option ApiError × W → Pass → MongoDb → Outcome Requeue × MongoDb × W
  stored (some e, w) rest m = (err (api e), m, w)
  stored (none, w) rest m = rest m w

  abbrev pub write : MongoDb → Pass → W → Outcome Requeue × MongoDb × W
  write m rest w = stored (o.kube.update_status m.status w) rest m

  abbrev pub applied : String → Pass → Option ApiError × W → MongoDb → Outcome Requeue × MongoDb × W
  applied name rest (none, w) m = rest m w
  applied name rest (some e, w) m = o.apply_error_condition name (api e) m w

  -- A step whose error goes to updateStatusError.
  abbrev pub step : Resource → String → Pass → Pass
  step r name rest m w = applied name rest (o.apply r m w) m

  -- A step whose error is only logged.
  abbrev pub best_effort : Resource → Pass → Pass
  best_effort r rest m w = let (_, w') = o.apply r m w in rest m w'

  abbrev reported : Outcome Bool × MongoDb × W → Outcome Requeue × MongoDb × W
  reported (err e, m, w) = (err e, m, w)
  reported (ok _, m, w) = (ok requeue_steady, m, w)

  -- Steps 9.5 to 10.
  abbrev finish : Pass
  finish = step autoscaler "RSHPA" (λ m w.
      step backup_cron_job "BackupCronJob" (λ m' w'. reported (update_status o m' w'))
        (record_pending_scale o m w) w)

  abbrev rotated : Outcome Bool × MongoDb × W → Outcome Requeue × MongoDb × W
  rotated (_, m, w) = best_effort exporter_secret finish m w

  abbrev bootstrapped : Outcome Bool × MongoDb × W → Outcome Requeue × MongoDb × W
  bootstrapped (ok _, m, w) = rotated (reconcile_password_rotation o m w)
  bootstrapped (err e, m, w) =
      if is_bootstrap_busy e
      then (ok requeue_wait_for_external, m, w)
      else o.apply_error_condition "AdminUser" e m w

  -- Steps 9 to 10.
  abbrev admin_user : Pass
  admin_user m w =
      if m.status.admin_user_created
      then rotated (reconcile_password_rotation o m w)
      else bootstrapped (reconcile_admin_user o m w)

  abbrev ended : Requeue → MongoDb × W → Outcome Requeue × MongoDb × W
  ended r (m, w) = (ok r, m, w)

  abbrev go_on : Pass → MongoDb × W → Outcome Requeue × MongoDb × W
  go_on rest (m, w) = rest m w

  abbrev elected : Requeue → Bool → Pass
  elected waiting true m w = go_on admin_user (clear_primary_unreachable_condition o m w)
  elected waiting false m w = ended waiting (clear_primary_unreachable_condition o m w)

  abbrev unreachable : Error → Pass
  unreachable e m w = ended requeue_provisioning (set_primary_unreachable_condition o e m w)

  abbrev has_primary_with : Outcome String → MongoDb → W → Outcome Bool
  has_primary_with (err e) m w = err (wrapped "get admin password" e)
  has_primary_with (ok password) m w = o.has_primary (some password) (m.name +++ "-0") w

  abbrev known_primary : Outcome Bool → Pass
  known_primary (err e) m w = unreachable e m w
  known_primary (ok b) m w = elected requeue_provisioning b m w

  abbrev anonymous_primary : Outcome Bool → Pass
  anonymous_primary (err e) m w =
      if o.is_auth_required e
      then go_on admin_user (clear_primary_unreachable_condition o m w)
      else unreachable e m w
  anonymous_primary (ok b) m w = elected requeue_wait_for_external b m w

  -- Steps 8 to 10.
  abbrev primary_election : Pass
  primary_election m w =
      if m.status.admin_user_created
      then known_primary (has_primary_with (get_admin_password o.kube m.admin_secret w) m w) m w
      else anonymous_primary (o.has_primary none (m.name +++ "-0") w) m w

  abbrev set_initialized : MongoDb → MongoDb
  set_initialized m = with_status (record m.status { replica_set_initialized = true }) m

  abbrev write_initialized : MongoDb → W → Outcome Bool × MongoDb × W
  write_initialized m w = let (e, w') = o.kube.update_status m.status w in (or_error e true, m, w')

  abbrev initiated : Option ApiError × W → MongoDb → Outcome Bool × MongoDb × W
  initiated (some e, w) m = (err (wrapped "failed to initiate replica set" (api e)), m, w)
  initiated (none, w) m = write_initialized (set_initialized m) w

  abbrev on_initialized : Outcome Bool → Exec MongoDb W Bool
  on_initialized (err e) m w = (err (wrapped "check replica set init" e), m, w)
  on_initialized (ok true) m w = write_initialized (set_initialized m) w
  on_initialized (ok false) m w = initiated (o.initiate m w) m

  -- reconcileReplicaSetInitialization
  unfoldable pub reconcile_replica_set_initialization : Exec MongoDb W Bool
  reconcile_replica_set_initialization m w =
      on_initialized (o.is_initialized (m.name +++ "-0") w) m w

  abbrev replica_set_ready : Outcome Bool × MongoDb × W → Outcome Requeue × MongoDb × W
  replica_set_ready (err e, m, w) = o.apply_error_condition "ReplicaSetInit" e m w
  replica_set_ready (ok _, m, w) = primary_election m w

  -- Steps 7 to 10.
  abbrev replica_set : Pass
  replica_set m w =
      if m.status.replica_set_initialized
      then primary_election m w
      else replica_set_ready (reconcile_replica_set_initialization m w)

  abbrev pub on_pods : Outcome Bool → Pass
  on_pods (err e) m w = o.apply_error_condition "PodReadiness" e m w
  on_pods (ok false) m w = (ok requeue_provisioning, m, w)
  on_pods (ok true) m w = replica_set m w

  -- Steps 5.1 to 10.
  abbrev pub provision : Pass
  provision = best_effort data_volumes (
      step pod_disruption_budget "PodDisruptionBudget"
        (step network_policy "NetworkPolicy" (λ m w. on_pods (are_all_pods_ready o m w) m w)))

  -- Step 5.0.1, and the rest.
  abbrev pub validate_or_provision : Pass
  validate_or_provision m w =
      if is_upgrading m.status.upgrade_phase
      then write (with_upgrade (set_validating (o.kube.now w) m.status.upgrade) m)
          (λ m' w'.
            (ok (requeue_after (parse_validation_interval o.kube m'.upgrade_strategy)), m', w'))
          w
      else provision m w

  abbrev pub on_upgrade : Outcome Step × MongoDb × W → Outcome Requeue × MongoDb × W
  on_upgrade (err e, m, w) = o.apply_error_condition "Upgrade" e m w
  on_upgrade (ok (handled d), m, w) = (ok (requeue_after d), m, w)
  on_upgrade (ok proceed, m, w) = step stateful_set_object "StatefulSet" validate_or_provision m w

  -- Steps 1 to 10.
  abbrev pub resources : Pass
  resources = step keyfile_secret "KeyfileSecret" (
      step tls_certificate "TLS" (
        step config_map "ConfigMap" (
          step custom_config_map "CustomConfigMap" (
            step headless_service "HeadlessService" (
              step client_service "ClientService"
                (λ m w. on_upgrade (reconcile_upgrade o.kube m w)))))))

  -- Reconcile, of an object that has the finalizer and is not being deleted
  unfoldable pub reconcile : Pass
  unfolding reconcile_upgrade are_all_pods_ready reconcile_replica_set_initialization
      set_primary_unreachable_condition clear_primary_unreachable_condition update_status
      record_pending_scale get_admin_password parse_validation_interval set_validating
  reconcile m w =
      if is_new m.status.phase
      then write (with_status (record m.status { phase = initializing }) m) resources w
      else resources m w
