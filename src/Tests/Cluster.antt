-- ===== src/Tests/Cluster.antt =====
-- Passes over a MongoDB object, against the outside of Server.
use mongodb_operator.Common.Int.{pos, ◌+ℤ◌, ◌-ℤ◌}
use mongodb_operator.Upgrade.Config.{
  seconds, fcv_major_minor, get_admin_password, sts_rollout_complete, parse_validation_interval,
}
use mongodb_operator.Cluster.AdminUser.{verify_rounds, deadline_of}
use mongodb_operator.Cluster.Verified.{IsTicking, has_ended, verify_rounds_end}
use mongodb_operator.Common.{
  if◌then◌else◌, ◌==◌, true, false, none, [], ◌∷◌, ◌≡◌, refl, arith, eq_iff,
}
use mongodb_operator.Kube.{ok, err}
use mongodb_operator.Mongo.{validating, MongoDb, MongoDbStatus}
use mongodb_operator.Cluster.Lease.{accepted, conflict}
use mongodb_operator.Cluster.Outside.{Outside}
use mongodb_operator.Cluster.Pass.{reconcile}
use mongodb_operator.Cluster.Report.{update_status}
use mongodb_operator.Cluster.Order.{other_apply, held_pass_applies_nothing}
use mongodb_operator.Cluster.Round.{IsWorking, IsUpgraded, upgrade_round}
use mongodb_operator.Upgrade.Machine.{reconcile_upgrade, orchestrate, dispatch, commit, commit_fcv}
use mongodb_operator.Upgrade.Status.{init_upgrade, set_validating}
use mongodb_operator.Cluster.Stale.{after_report, failed_version_reported}
use mongodb_operator.Cluster.Unready.{IsApplying}
use mongodb_operator.Tests.Server.{
  Server, server_api, upgrade_at, cluster_of, rolled_out, half_rolled, server_with, validated,
}

abbrev outside : Outside (Server MongoDbStatus)
outside = record {
  kube = server_api;
  apply = λ r m w. (none, w);
  set_status_condition = λ w c cs. c ∷ cs;
  decimal = λ n. if n == 3 then "3" else "2";
  error_text = λ e. "error";
  apply_error_condition = λ name e m w. (err e, m, w);
  is_initialized = λ pod w. ok true;
  initiate = λ m w. (none, w);
  has_primary = λ password pod w. ok true;
  get_primary_pod = λ password pod w. ok "db-1";
  is_auth_required = λ e. false;
  lease = record {
    now = λ w. w.time;
    get_lease = λ name w. (ok none, w);
    create_lease = λ name l w. (accepted l, w);
    update_lease = λ name l w. (conflict, w);
    delete_lease = λ name w. w;
  };
  holder = "operator-1";
  bootstrap_admin_user = λ host password w. (none, w);
  user_exists = λ password pod w. (ok true, w);
  wait_second = λ w. (false, w);
  secret_hash = λ secret. "0123456789abcdef";
  update_object = λ m w. (none, w);
}

outside-IsWorking : IsWorking outside
outside-IsWorking = record { applies = λ r m w. refl; writes = λ s w. refl }

abbrev idle_cluster : MongoDb
idle_cluster = cluster_of none upgrade_at

abbrev steady : Server MongoDbStatus
steady = server_with rolled_out [] idle_cluster

-- The third pass comes an hour later.
abbrev hour_later : Server MongoDbStatus
hour_later = record steady { time = pos (seconds 3600) }

abbrev after_two : MongoDb
after_two = (reconcile outside (reconcile outside idle_cluster steady).1 steady).1

upgrade_round_example :
    ((reconcile outside idle_cluster steady).1.status.effective_version ≡ "8.2.1")
    × (after_two.status.upgrade_phase ≡ validating)
    × IsUpgraded idle_cluster (reconcile outside after_two hour_later).1
unfolding reconcile reconcile_upgrade orchestrate dispatch commit init_upgrade set_validating
    commit_fcv fcv_major_minor get_admin_password sts_rollout_complete parse_validation_interval
    ◌-ℤ◌
upgrade_round_example =
    upgrade_round outside idle_cluster steady steady hour_later "8.2" outside-IsWorking refl refl
      refl refl refl refl refl refl
      (record {
        phase = refl;
        start = steady.time;
        started = refl;
        complete = refl;
        observed = refl;
      })
      refl

abbrev held : MongoDb
held = validated none

held_pass_applies_nothing_example :
    reconcile
      (other_apply outside (λ r m w. (none, record w { fcv = "changed" })))
      held
      (server_with rolled_out [] held)
    ≡ reconcile outside held (server_with rolled_out [] held)
held_pass_applies_nothing_example =
    held_pass_applies_nothing outside (λ r m w. (none, record w { fcv = "changed" })) held
      (server_with rolled_out [] held)
      (record { holding = refl; effective_set = refl; version_set = refl; differ = refl })

-- The upgrade to 8.2.1 was rolled back to 8.0.5.
abbrev rolled_back : MongoDb
rolled_back = cluster_of none (record upgrade_at {
  previous_version = "8.0.5";
  rollback_active = true;
  observed_upgrade_generation = 2;
})

abbrev w_ready : Server MongoDbStatus
w_ready = server_with rolled_out [] rolled_back

failed_version_reported_example :
    (after_report outside rolled_back w_ready).status.version ≡ "8.2.1"
unfolding update_status
failed_version_reported_example =
    (failed_version_reported outside rolled_back w_ready w_ready "8.2.3" refl refl (ground arith)
      (λ e. ground (arith, eq_iff "8.0.5" "8.2.1")) refl refl refl).0

-- A running cluster at 8.0.5, and an outside whose StatefulSet has two of three members ready.
abbrev running_db : MongoDb
running_db = record (cluster_of none upgrade_at) { spec_version = "8.0.5" }

abbrev w_lost : Server MongoDbStatus
w_lost = server_with half_rolled [] running_db

abbrev lost : Outside (Server MongoDbStatus)
lost = record outside { kube = record server_api { get_stateful_set = λ name w. ok half_rolled } }

lost-IsApplying : IsApplying lost half_rolled (λ w. w.stored)
lost-IsApplying = record {
  applies = λ r m w. refl;
  keeps = λ r m w. refl;
  reports = λ name w. refl;
}

-- The admin user is never seen, and a second is a second.
abbrev blind : Outside (Server MongoDbStatus)
blind = record outside {
  user_exists = λ password pod w. (ok false, w);
  wait_second = λ w. (false, record w { time = w.time +ℤ pos (seconds 1) });
}

blind-IsTicking : IsTicking blind
blind-IsTicking = record { looking = λ password pod w. omega arith; waiting = λ w h. omega arith }

verify_rounds_end_example :
    has_ended
      (verify_rounds blind 6
        (deadline_of blind (server_with rolled_out [] held))
        "secret"
        "db-0"
        (server_with rolled_out [] held)).0
    ≡ true
verify_rounds_end_example =
    verify_rounds_end blind blind-IsTicking "secret" "db-0" (server_with rolled_out [] held)
