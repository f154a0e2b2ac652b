-- ===== src/Tests/Verification.antt =====
-- A verification whose counts are met, and one of a completed backup.
use mongodb_operator.Common.{none, [], ◌∷◌, ◌≡◌, refl}
use mongodb_operator.Common.Int.{ℤ, pos}
use mongodb_operator.Kube.{api, not_found, wrapped, ok, err, after}
use mongodb_operator.Backup.{MongoDbBackup, reconcile as reconcile_backup}
use mongodb_operator.Backup.Phases.{here, pass as pass_backup}
use mongodb_operator.Verification.{
  VerificationPhase, BackupVerification, VerificationApi, verifying, pending, retry_slow,
}
use mongodb_operator.Verification.Pass.{reconcile}
use mongodb_operator.Verification.Verdict.{Reach, here, pass, IsCounted, Reach-IsCounted}
use mongodb_operator.Verification.Stuck.{started, no_restore_error, completed_backup_is_stuck}
use mongodb_operator.Tests.Backup.{backup_api, nightly}

-- The backup of the tests of its controller, after the pass that sees its job complete.
abbrev completed_backup : MongoDbBackup
completed_backup = (reconcile_backup backup_api nightly (pos 5)).1

-- The world is the time; no job is ever found.
abbrev verification_api : VerificationApi ℤ
verification_api = record {
  now = λ w. w;
  update_status = λ s w. (none, w);
  get_backup = λ name w. ok completed_backup;
  apply_queryable = λ name b w. (none, w);
  apply_restore_job = λ name b w. (none, w);
  get_job = λ name w. err (api not_found);
  get_secret =
      λ name w. ok (record { name = name; entries = ("connectionString", "mongodb://db") ∷ [] });
  connect = λ s w. none;
  count = λ s db collection filter w. (pos 3, none);
}

abbrev drill : VerificationPhase → BackupVerification
drill p = record {
  name = "drill";
  backup_name = "nightly";
  sample_queries = [];
  queryable = none;
  status = record {
    phase = p;
    start_time = none;
    completion_time = none;
    query_results = [];
    queryable_instance = "";
  };
}

Reach-IsCounted_example :
    (u : BackupVerification) × (w : ℤ) × Reach verification_api (drill verifying) u
    × IsCounted verification_api u w
unfolding reconcile
Reach-IsCounted_example = Reach-IsCounted verification_api (cc) (pass here (pos 9)) refl

completed_backup_is_stuck_example :
    (reconcile verification_api (drill pending) (pos 7) ≡ (
      err (wrapped "build restore job" (no_restore_error completed_backup)),
      started verification_api (drill pending) (pos 7),
      pos 7,
    ))
    × (reconcile verification_api (started verification_api (drill pending) (pos 7)) (pos 9)
        ≡ (ok (after retry_slow), started verification_api (drill pending) (pos 7), pos 9))
unfolding reconcile_backup
completed_backup_is_stuck_example =
    completed_backup_is_stuck verification_api backup_api {a = nightly} {b = completed_backup}
      (drill pending) (pos 7) (pos 9) refl (pass_backup here (pos 5)) refl refl refl refl refl refl
