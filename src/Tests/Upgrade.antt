-- ===== src/Tests/Upgrade.antt =====
-- The theorems on upgrades, at a cluster of three members that goes from 8.0.5 to 8.2.1.
use mongodb_operator.Common.{
  String, List, if◌then◌else◌, str_eq, true, false, none, some, [], ◌∷◌, ◌≡◌, inl, refl, arith,
  Option, eq_iff, sym, ◌∙◌,
}
use mongodb_operator.Common.Int.{pos, ◌-ℤ◌}
use mongodb_operator.Kube.{Pod, Outcome, Api, ok, other}
use mongodb_operator.Mongo.{
  MongoDb, MongoDbStatus, MongoDbSharded, ShardedStatus, UpgradeStrategy, idle, validating, running,
  backing_up,
}
use mongodb_operator.Upgrade.Config.{
  sts_rollout_complete, sts_rollout_stuck, parse_validation_interval, fcv_major_minor,
  get_admin_password, mongos_labels,
}
use mongodb_operator.Upgrade.Machine.{
  proceed, reconcile_upgrade, orchestrate, dispatch, reconcile_upgrade_validation, commit_fcv,
  commit, upgrade_validation_failed,
}
use mongodb_operator.Upgrade.Status.{complete_upgrade, fail_upgrade}
use mongodb_operator.Upgrade.Fcv.{MayCommit, fcv_needs_rollout, fcv_call_needs_rollout}
use mongodb_operator.Upgrade.Terminal.{ended_stays_ended}
use mongodb_operator.Upgrade.Store.{InSync, reconcile_upgrade-InSync}
use mongodb_operator.Upgrade.Moves.{IsCoherent, here, next, pass, Reach-IsCoherent}
use mongodb_operator.Upgrade.Progress.{IsValidating, incomplete_rollout_decides, rollback_restores}
use mongodb_operator.Upgrade.Faults.{
  HasFailedBackup, failed_backup_restarts, completes_undeployed_version, cancelled_keeps_effective,
}
use mongodb_operator.Tests.Server.{
  Server, server_api, server_api-IsStore, upgrade_at, cluster_of, rollback_strategy,
  backup_strategy, rolled_out, crash_loop, server_with, validated, half_rolled,
}

abbrev k : Api (Server MongoDbStatus) MongoDbStatus
k = server_api

abbrev m0 : MongoDb
m0 = validated none

abbrev w0 : Server MongoDbStatus
w0 = server_with rolled_out [] m0

may_commit : MayCommit k m0 w0
unfolding sts_rollout_complete parse_validation_interval ◌-ℤ◌
may_commit = record {
  phase = refl;
  start = pos 0;
  started = refl;
  complete = refl;
  observed = refl;
}

fcv_raised : (orchestrate k m0 w0).1.status.fcv_version ≡ "8.2"
unfolding orchestrate dispatch reconcile_upgrade_validation sts_rollout_complete
    parse_validation_interval ◌-ℤ◌ commit_fcv fcv_major_minor get_admin_password commit
    complete_upgrade
fcv_raised = refl

fcv_needs_rollout_example : MayCommit k m0 w0
unfolding orchestrate dispatch reconcile_upgrade_validation sts_rollout_complete
    parse_validation_interval ◌-ℤ◌ commit_fcv fcv_major_minor get_admin_password commit
    complete_upgrade
fcv_needs_rollout_example = fcv_needs_rollout k m0 w0 (λ e. ground (arith, eq_iff "8.2" "8.0"))

-- A rollout that is not complete: SetFCV is not called.
abbrev w_half : Server MongoDbStatus
w_half = server_with half_rolled [] m0

half_incomplete : sts_rollout_complete k "db" 3 w_half ≡ ok false
unfolding sts_rollout_complete
half_incomplete = refl

no_commit : (c : MayCommit k m0 w_half) → ok true ≡ ok false
no_commit c = sym c.complete ∙ half_incomplete

fcv_call_needs_rollout_example :
    orchestrate (record k { set_fcv = λ p f s w. (some (other "down"), w) }) m0 w_half
    ≡ orchestrate k m0 w_half
fcv_call_needs_rollout_example =
    fcv_call_needs_rollout k (λ p f s w. (some (other "down"), w)) m0 w_half (λ c. cc (no_commit c))

-- A stuck rollout with no rollback ends; nothing starts it again.
abbrev w_stuck : Server MongoDbStatus
w_stuck = server_with half_rolled (crash_loop ∷ []) m0

ended_stays_ended_example :
    reconcile_upgrade k (reconcile_upgrade k m0 w_stuck).1 w0
    ≡ (ok proceed, (reconcile_upgrade k m0 w_stuck).1, w0)
unfolding reconcile_upgrade orchestrate dispatch reconcile_upgrade_validation sts_rollout_complete
    sts_rollout_stuck upgrade_validation_failed commit fail_upgrade
ended_stays_ended_example =
    ended_stays_ended k k m0 w_stuck w0
      (record {
        version_set = refl;
        effective_set = refl;
        previous_set = refl;
        spec_set = refl;
        generation_set = refl;
      })
      (inl refl) refl

reconcile_upgrade-InSync_example :
    InSync k (λ w. w.stored) server_api-IsStore m0 (reconcile_upgrade k m0 w_stuck)
reconcile_upgrade-InSync_example =
    reconcile_upgrade-InSync k (λ w. w.stored) server_api-IsStore m0 w_stuck refl

coherent : IsCoherent (cluster_of none upgrade_at)
coherent = record {
  previous_set = λ e. cc;
  started = λ e. cc;
  observed = omega arith;
  rolled_back = λ e. cc;
  rolled_back_set = λ e. cc;
}

Reach-IsCoherent_example : IsCoherent (reconcile_upgrade k (cluster_of none upgrade_at) w0).1
Reach-IsCoherent_example =
    Reach-IsCoherent coherent (next here (pass k (cluster_of none upgrade_at) w0))

v0 : (strategy : Option UpgradeStrategy) → IsValidating (validated strategy)
v0 strategy = record {
  phase = refl;
  start = pos 0;
  started = refl;
  effective_set = refl;
  version_set = refl;
  differ = refl;
}

incomplete_rollout_decides_example : (reconcile_upgrade k m0 w_half).1.status.version ≡ "8.0.5"
incomplete_rollout_decides_example =
    (incomplete_rollout_decides k m0 w_half (v0 none) half_incomplete).1

abbrev m_back : MongoDb
m_back = validated (some rollback_strategy)

stuck : sts_rollout_stuck k "db" w_stuck ≡ some "db-2/mongod: CrashLoopBackOff"
unfolding sts_rollout_stuck
stuck = refl

stuck_incomplete : sts_rollout_complete k "db" 3 w_stuck ≡ ok false
unfolding sts_rollout_complete
stuck_incomplete = refl

rollback_restores_example :
    (reconcile_upgrade k (reconcile_upgrade k m_back w_stuck).1 w_stuck).1.status.effective_version
    ≡ "8.0.5"
rollback_restores_example =
    (rollback_restores k m_back w_stuck w_stuck (v0 (some rollback_strategy))
      "db-2/mongod: CrashLoopBackOff" stuck_incomplete stuck refl refl).0

abbrev m_backup : MongoDb
m_backup =
    cluster_of (some backup_strategy)
      (record upgrade_at { effective_version = "8.2.1"; upgrade_phase = backing_up })

abbrev k_failed : Api (Server MongoDbStatus) MongoDbStatus
k_failed = record k { get_backup = λ name w. ok "Failed" }

failed_backup : HasFailedBackup k_failed m_backup
failed_backup = record {
  waits = refl;
  wanted = refl;
  failed = λ w. refl;
  writes = λ s w. refl;
  effective_set = refl;
  version_set = refl;
  spec_set = refl;
  differ = refl;
  not_observed = refl;
}

failed_backup_restarts_example :
    (reconcile_upgrade k_failed m_backup w0).1.status.upgrade_phase ≡ idle
failed_backup_restarts_example = (failed_backup_restarts k_failed m_backup w0 w0 failed_backup).0

-- 8.2.1 was rolled out and is validated, and the spec now asks for 8.2.3.
abbrev m_edited : MongoDb
m_edited =
    record (cluster_of none (record upgrade_at {
      effective_version = "8.2.1";
      previous_version = "8.2.0";
      version = "8.2.0";
      fcv_version = "8.2";
      upgrade_phase = validating;
      upgrade_start_time = some (pos 0);
    })) { spec_version = "8.2.3" }

completes_undeployed_version_example : (orchestrate k m_edited w0).1.status.version ≡ "8.2.3"
unfolding sts_rollout_complete parse_validation_interval ◌-ℤ◌ fcv_major_minor
completes_undeployed_version_example =
    (completes_undeployed_version k m_edited w0
      (record { phase = refl; start = pos 0; started = refl; complete = refl; observed = refl })
      refl refl refl refl (λ e. ground (arith, eq_iff "8.2.1" "8.2.3"))).0

abbrev m_reverted : MongoDb
m_reverted = record m_edited { spec_version = "8.2.0" }

cancelled_keeps_effective_example :
    reconcile_upgrade k (reconcile_upgrade k m_reverted w0).1 w_half
    ≡ (ok proceed, (reconcile_upgrade k m_reverted w0).1, w_half)
cancelled_keeps_effective_example =
    (cancelled_keeps_effective k k m_reverted w0 w_half refl refl refl
      (λ e. ground (arith, eq_iff "8.2.1" "8.2.0"))).0

abbrev pub sharded0 : MongoDbSharded
sharded0 = record {
  name = "shards";
  namespace = "prod";
  generation = 2;
  spec_version = "8.2.1";
  config_members = 3;
  shard_count = 2;
  members_per_shard = 3;
  mongos_replicas = 2;
  config_auto_scaling = none;
  config_scale_deliberate = none;
  mongos_auto_scaling = none;
  tls = none;
  backup = none;
  admin_secret = "admin";
  sharded_collections = [];
  upgrade_strategy = none;
  status = record {
    upgrade = record upgrade_at {
      effective_version = "8.2.1";
      previous_version = "8.0.5";
      upgrade_phase = validating;
      upgrade_start_time = some (pos 0);
    };
    phase = running;
    config_server = record { ready = 3; total = 3; phase = running };
    mongos = record { ready = 2; total = 2; phase = running };
    shards = record { name = "shard-0"; ready = 3; total = 3; phase = running } ∷ [];
    config_server_initialized = true;
    shards_initialized = true ∷ true ∷ [];
    shards_added = true ∷ true ∷ [];
    admin_user_created = true;
    connection_string = "";
    sharded_collections = [];
    observed_generation = 2;
  };
}

abbrev sharded_server : Server ShardedStatus
sharded_server = record {
  stored = sharded0.status;
  time = pos 120000000000;
  sets = ok half_rolled;
  pods = crash_loop ∷ [];
  backup = ok "Failed";
  fcv = "8.0";
}

abbrev only_mongos : String → Server ShardedStatus → Outcome (List Pod)
only_mongos labels w = if str_eq labels (mongos_labels sharded0.name) then ok w.pods else ok []
