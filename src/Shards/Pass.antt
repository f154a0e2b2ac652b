-- ===== src/Shards/Pass.antt =====
-- Reconcile of mongodbsharded_controller.go, behind the finalizer: its steps in their order, with
-- reconcileConfigServer, reconcileShard and reconcileMongos. A step gets the rest of the pass as an
-- argument, since any step may end it.
use mongodb_operator.Common.{
  ℕ, zero, suc, String, Bool, not, Option, none, some, if◌then◌else◌, is_empty,
}
use mongodb_operator.Common.Int.{ℤ, pos, ltb_ℤ}
use mongodb_operator.Kube.{ApiError, api, Outcome, ok, err}
use mongodb_operator.Kube.Exec.{Exec}
use mongodb_operator.Mongo.{MongoDbSharded, validating, UpgradeStatus, initializing}
use mongodb_operator.Upgrade.Status.{◌+++◌}
use mongodb_operator.Upgrade.Config.{seconds, parse_validation_interval}
use mongodb_operator.Upgrade.Machine.{Step, proceed, handled}
use mongodb_operator.Upgrade.Sharded.{with_upgrade, reconcile_sharded_upgrade}
use mongodb_operator.Cluster.Outside.{Requeue, requeue_after}
use mongodb_operator.Cluster.Pass.{is_new, is_upgrading}
use mongodb_operator.Shards.Services.{
  Services, Resource, tls_certificate, keyfile_secret, config_server_scripts, config_server_service,
  config_server_stateful_set, mongos_config_map, mongos_service, mongos_deployment,
  pod_disruption_budgets, network_policies, shard_scripts, shard_service, shard_stateful_set,
}
use mongodb_operator.Shards.Init.{
  with_status, reconcile_config_server_init, reconcile_shards_init, reconcile_sharded_admin_user,
  reconcile_add_shards,
}
use mongodb_operator.Shards.ScaleIn.{reconcile_scale_in}
use mongodb_operator.Shards.Collections.{reconcile_sharded_collections, requeue_provisioning}
use mongodb_operator.Shards.Autoscalers.{reconcile_mongos_hpa, reconcile_config_server_hpa}
use mongodb_operator.Shards.Report.{
  is_config_server_ready, are_shards_ready, is_mongos_ready, update_status,
}

abbrev requeue_steady : Requeue
requeue_steady = requeue_after (pos (seconds 30))

-- ensureShardedUpgradeStartTime
unfoldable pub ensure_start_time : ℤ → Option ℤ → Option ℤ
ensure_start_time now none = some now
ensure_start_time now (some start) = some start

-- setValidating
unfoldable pub set_validating : ℤ → UpgradeStatus → UpgradeStatus
unfolding ensure_start_time
set_validating now u = record u {
  upgrade_phase = validating;
  upgrade_start_time = ensure_start_time now u.upgrade_start_time;
}

module _ {W : Type 0} (s : Services W) where
  abbrev pub Pass : Type 0
  Pass = Exec MongoDbSharded W Requeue

  -- `commonsstatus.UpdateWithRetry(ctx, r.Client, mdbsh, mutate)`, whose error ends the pass.
  abbrev pub stored :
      Option ApiError × W → Pass → MongoDbSharded → Outcome Requeue × MongoDbSharded × W
  stored (some e, w) rest m = (err (api e), m, w)
  stored (none, w) rest m = rest m w

  abbrev pub write : MongoDbSharded → Pass → W → Outcome Requeue × MongoDbSharded × W
  write m rest w = stored (s.kube.update_status m.status w) rest m

  abbrev pub applied :
      String → Pass → Option ApiError × W → MongoDbSharded → Outcome Requeue × MongoDbSharded × W
  applied name rest (none, w) m = rest m w
  applied name rest (some e, w) m = s.apply_error_condition name (api e) m w

  -- A step whose error goes to updateStatusError.
  abbrev pub step : Resource → String → Pass → Pass
  step r name rest m w = applied name rest (s.apply r m w) m

  abbrev pub checked :
      String → Pass → Outcome Bool × MongoDbSharded × W → Outcome Requeue × MongoDbSharded × W
  checked name rest (ok _, m, w) = rest m w
  checked name rest (err e, m, w) = s.apply_error_condition name e m w

  -- A method that may end the pass with a requeue.
  abbrev pub timed :
      String → Pass → Outcome ℤ × MongoDbSharded × W → Outcome Requeue × MongoDbSharded × W
  timed name rest (err e, m, w) = s.apply_error_condition name e m w
  timed name rest (ok d, m, w) = if ltb_ℤ (pos 0) d then (ok (requeue_after d), m, w) else rest m w

  abbrev reported : Outcome Bool × MongoDbSharded × W → Outcome Requeue × MongoDbSharded × W
  reported (err e, m, w) = (err e, m, w)
  reported (ok _, m, w) = (ok requeue_steady, m, w)

  -- Step 12.
  abbrev pub report : Pass
  report m w = reported (update_status s m w)

  -- Steps 11.5 to 12.
  abbrev pub autoscalers : Pass
  autoscalers m w =
      applied "MongosHPA"
        (λ m' w'. applied "ConfigServerHPA" report (reconcile_config_server_hpa s m' w') m')
        (reconcile_mongos_hpa s m w) m

  -- Steps 10.5 to 12.
  abbrev pub membership : Pass
  membership m w =
      timed "ScaleIn"
        (λ m1 w1.
          checked "AddShards"
            (λ m2 w2.
              timed "ShardedCollections" autoscalers (reconcile_sharded_collections s m2 w2))
            (reconcile_add_shards s m1 w1))
        (reconcile_scale_in s m w)

  -- Steps 10 to 12.
  abbrev pub admin_user : Pass
  admin_user m w =
      if m.status.admin_user_created
      then membership m w
      else checked "AdminUser" membership (reconcile_sharded_admin_user s m w)

  -- Steps 9 to 12.
  abbrev pub on_mongos : Pass
  on_mongos m w =
      if not (is_mongos_ready s m w)
      then (ok (requeue_after requeue_provisioning), m, w)
      else admin_user m w

  -- Steps 8 to 12.
  abbrev pub shards_init : Pass
  shards_init m w = checked "ShardsInit" on_mongos (reconcile_shards_init s m w)

  -- Steps 7 to 12.
  abbrev pub replica_sets : Pass
  replica_sets m w =
      if m.status.config_server_initialized
      then shards_init m w
      else checked "ConfigServerInit" shards_init (reconcile_config_server_init s m w)

  -- Steps 6.5 to 12.
  abbrev pub policies : Pass
  policies =
      step pod_disruption_budgets "PodDisruptionBudgets"
        (step network_policies "NetworkPolicies" replica_sets)

  -- Step 6.1, and the rest.
  abbrev pub validate_or_go_on : Pass
  validate_or_go_on m w =
      if is_upgrading m.status.upgrade_phase
      then write (with_upgrade (set_validating (s.kube.now w) m.status.upgrade) m)
          (λ m' w'.
            (ok (requeue_after (parse_validation_interval s.kube m'.upgrade_strategy)), m', w'))
          w
      else policies m w

  -- Steps 6 to 12.
  abbrev pub mongos : Pass
  mongos =
      step mongos_config_map "Mongos"
        (step mongos_service "Mongos" (step mongos_deployment "Mongos" validate_or_go_on))

  -- Steps 5 to 12.
  abbrev pub on_shards : Pass
  on_shards m w =
      if not (are_shards_ready s m w)
      then (ok (requeue_after requeue_provisioning), m, w)
      else mongos m w

  -- A step that is left out if there is no secret with the admin's credentials.
  abbrev pub scripts : Resource → String → Pass → Pass
  scripts r name rest m w = if is_empty m.admin_secret then rest m w else step r name rest m w

  -- reconcileShard
  abbrev pub reconcile_shard : ℕ → Pass → Pass
  reconcile_shard i rest =
      let name = "Shard-" +++ s.decimal (pos i) in
      scripts (shard_scripts i) name
        (step (shard_service i) name (step (shard_stateful_set i) name rest))

  -- Step 4, for `n` shards from the index `i` on, and the rest.
  unfoldable pub shards_from : ℕ → ℕ → Pass
  unfolding are_shards_ready parse_validation_interval set_validating is_mongos_ready
      reconcile_config_server_init reconcile_shards_init reconcile_sharded_admin_user
      reconcile_scale_in reconcile_add_shards reconcile_sharded_collections reconcile_mongos_hpa
      reconcile_config_server_hpa update_status
  shards_from zero i m w = on_shards m w
  shards_from (suc n) i m w = reconcile_shard i (shards_from n (suc i)) m w

  -- Steps 3 to 12.
  abbrev pub on_config_server : Pass
  on_config_server m w =
      if not (is_config_server_ready s m w)
      then (ok (requeue_after requeue_provisioning), m, w)
      else shards_from m.shard_count 0 m w

  -- Steps 2 to 12: reconcileConfigServer, and the rest.
  abbrev pub config_server : Pass
  config_server = scripts config_server_scripts "ConfigServer" (
      step config_server_service "ConfigServer"
        (step config_server_stateful_set "ConfigServer" on_config_server))

  abbrev pub on_upgrade : Outcome Step × MongoDbSharded × W → Outcome Requeue × MongoDbSharded × W
  on_upgrade (err e, m, w) = s.apply_error_condition "Upgrade" e m w
  on_upgrade (ok (handled d), m, w) = (ok (requeue_after d), m, w)
  on_upgrade (ok proceed, m, w) = config_server m w

  -- Steps 0.5 to 12.
  abbrev pub resources : Pass
  resources = step tls_certificate "TLSCertificate" (
      step keyfile_secret "KeyfileSecret"
        (λ m w. on_upgrade (reconcile_sharded_upgrade s.kube m w)))

  -- Reconcile, of an object that has the finalizer and is not being deleted
  unfoldable pub reconcile : Pass
  unfolding reconcile_sharded_upgrade is_config_server_ready shards_from
  reconcile m w =
      if is_new m.status.phase
      then write (with_status (record m.status { phase = initializing }) m) resources w
      else resources m w
