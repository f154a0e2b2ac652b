-- ===== src/Tests/Backup.antt =====
-- Passes over a backup whose job is complete, and over one whose cluster cannot be read.
use mongodb_operator.Common.{true, none, some, [], ◌∷◌, ◌≡◌, refl}
use mongodb_operator.Common.Int.{ℤ, pos}
use mongodb_operator.Kube.{api, other, wrapped, ok, err}
use mongodb_operator.Upgrade.Config.{no_requeue}
use mongodb_operator.Backup.{
  MongoDbBackup, BackupApi, job_complete, pending, failed, reconcile, get_cluster_connection_string,
}
use mongodb_operator.Backup.Phases.{here, pass, IsAdvance, Reach-IsAdvance}
use mongodb_operator.Backup.Final.{failed_look_up_is_final}

-- The world is the time.
abbrev pub backup_api : BackupApi ℤ
backup_api = record {
  now = λ w. w;
  update_status = λ s w. (none, w);
  get_cluster = λ name w. ok "admin";
  get_sharded_cluster = λ name w. ok "admin";
  get_secret = λ name w.
      ok (record { name = name; entries = ("username", "root") ∷ ("password", "secret") ∷ [] });
  own_uri_secret = λ b name. none;
  apply_uri_secret = λ name uri w. (none, w);
  apply_backup_job = λ b uri w. (none, w);
  apply_restore_job = λ b uri w. (none, w);
  get_job = λ name w. ok (record {
    conditions =
        record { type = job_complete; is_true = true; message = ""; last_transition_time = pos 9 }
        ∷ [];
    active = 0;
  });
  error_text = λ e. "error";
}

abbrev pub nightly : MongoDbBackup
nightly = record {
  name = "nightly";
  namespace = "prod";
  cluster_name = "db";
  cluster_kind = "MongoDB";
  storage_type = "pvc";
  s3 = none;
  restore = none;
  status = record {
    phase = pending;
    start_time = some (pos 1);
    completion_time = none;
    location = "";
    error = "";
  };
}

Reach-IsAdvance_example :
    IsAdvance backup_api nightly
      (reconcile backup_api (reconcile backup_api nightly (pos 5)).1 (pos 7)).1
Reach-IsAdvance_example = Reach-IsAdvance backup_api (pass (pass here (pos 5)) (pos 7))

-- The API server does not answer.
abbrev unanswered : BackupApi ℤ
unanswered = record backup_api { get_cluster = λ name w. err (api (other "timeout")) }

failed_look_up_is_final_example :
    let b = (reconcile unanswered nightly (pos 5)).1 in
    (b.status.phase ≡ failed) × (reconcile unanswered b (pos 7) ≡ (ok no_requeue, b, pos 7))
unfolding get_cluster_connection_string
failed_look_up_is_final_example =
    failed_look_up_is_final unanswered nightly (pos 5) (pos 7)
      (wrapped "failed to get MongoDB cluster" (api (other "timeout"))) refl refl refl refl refl
