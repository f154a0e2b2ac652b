-- ===== src/Backup.antt =====
-- internal/controller/mongodbbackup_controller.go: the controller of a MongoDBBackup, which runs a
-- backup as a job, or a restore. The upgrades wait for the phase of such an object.
pub mod Phases
pub mod Final
use mongodb_operator.Common.{
  ℕ, String, Bool, true, false, ◌&&◌, ◌||◌, Option, none, some, List, [], ◌∷◌, str_eq, ltb,
  if◌then◌else◌, is_empty, lookup,
}
use mongodb_operator.Common.Int.{ℤ, pos}
use mongodb_operator.Kube.{ApiError, Error, api, wrapped, text, Outcome, ok, err, Secret}
use mongodb_operator.Kube.Exec.{Exec, or_error}
use mongodb_operator.Upgrade.Status.{◌+++◌}
use mongodb_operator.Upgrade.Config.{seconds, no_requeue}

-- The `Phase` of a backup; `unset` is "".
pub data BackupPhase : Type 0 where
  unset pending running restoring completed failed : BackupPhase

-- MongoDBBackupStatus, without the fields that no code writes.
pub record BackupStatus : Type 0 where
  pub phase : BackupPhase
  pub start_time : Option ℤ
  pub completion_time : Option ℤ
  pub location : String
  pub error : String

-- S3Spec: bucket and prefix.
pub record S3Storage : Type 0 where
  pub bucket : String
  pub prefix : String

-- MongoDBBackup; `restore` is the name of the source backup, if the object asks for a restore.
pub record MongoDbBackup : Type 0 where
  pub name : String
  pub namespace : String
  pub cluster_name : String
  pub cluster_kind : String
  pub storage_type : String
  pub s3 : Option S3Storage
  pub restore : Option String
  pub status : BackupStatus

-- The conditions of a batchv1.Job, and its count of active pods.
pub data JobConditionType : Type 0 where
  job_complete job_failed job_other : JobConditionType

pub record JobCondition : Type 0 where
  pub type : JobConditionType
  pub is_true : Bool
  pub message : String
  pub last_transition_time : ℤ

pub record Job : Type 0 where
  pub conditions : List JobCondition
  pub active : ℕ

pub record BackupApi (W : Type 0) : Type 0 where
  pub now : W → ℤ
  pub update_status : BackupStatus → W → Option ApiError × W
  -- r.Get of a MongoDB or a MongoDBSharded, for the name of the secret with its credentials
  pub get_cluster : String → W → Outcome String
  pub get_sharded_cluster : String → W → Outcome String
  pub get_secret : String → W → Outcome Secret
  -- SetControllerReference of the secret with the connection string
  pub own_uri_secret : MongoDbBackup → String → Option ApiError
  -- createOrUpdateSecret of the secret with the connection string
  pub apply_uri_secret : String → String → W → Option ApiError × W
  -- createOrUpdate of the job that BuildBackupJob or BuildRestoreJob builds for the secret with the
  -- connection string
  pub apply_backup_job : MongoDbBackup → String → W → Option ApiError × W
  pub apply_restore_job : MongoDbBackup → String → W → Option ApiError × W
  -- r.Get of the backup's job
  pub get_job : String → W → Outcome Job
  pub error_text : Error → String

abbrev pub with_status : BackupStatus → MongoDbBackup → MongoDbBackup
with_status s b = record b { status = s }

abbrev pub set_phase : BackupPhase → ℤ → MongoDbBackup → MongoDbBackup
set_phase p now b = with_status (record b.status { phase = p; start_time = some now }) b

-- The first loop of applyJobStatus: the first condition that is true and final decides.
unfoldable pub apply_job_conditions : List JobCondition → BackupStatus → BackupStatus
apply_job_conditions [] s = s
apply_job_conditions (c ∷ cs) s =
    let rest = apply_job_conditions cs s in
    let time = some c.last_transition_time in
    elim c.type [
      | job_complete ↦
          if c.is_true then record s { phase = completed; completion_time = time } else rest
      | job_failed ↦
          if c.is_true
          then record s { phase = failed; error = c.message; completion_time = time }
          else rest
      | job_other ↦ rest
    ]

abbrev set_running : Job → BackupStatus → BackupStatus
set_running j s = if ltb 0 j.active then record s { phase = running } else s

abbrev located : MongoDbBackup → Option S3Storage → BackupStatus → BackupStatus
located b none s = s
located b (some s3) s =
    if str_eq b.storage_type "s3"
    then record s { location = "s3://" +++ s3.bucket +++ "/" +++ s3.prefix +++ b.name }
    else s

-- applyJobStatus
unfoldable pub apply_job_status : Job → MongoDbBackup → BackupStatus
unfolding apply_job_conditions
apply_job_status j b = located b b.s3 (set_running j (apply_job_conditions j.conditions b.status))

abbrev pub entry : String → Secret → String
entry key secret = elim (lookup key secret.entries) [ none ↦ "" | some v ↦ v ]

abbrev pub is_final : BackupPhase → Bool
is_final completed = true
is_final failed = true
is_final _ = false

abbrev pub is_completed : BackupPhase → Bool
is_completed completed = true
is_completed _ = false

abbrev pub is_waiting : BackupPhase → Bool
is_waiting unset = true
is_waiting pending = true
is_waiting _ = false

abbrev pub is_unset : BackupPhase → Bool
is_unset unset = true
is_unset _ = false

abbrev is_unfinished : BackupPhase → Bool
is_unfinished running = true
is_unfinished pending = true
is_unfinished _ = false

-- `backup.Spec.Restore != nil`
abbrev pub is_restore : Option String → Bool
is_restore none = false
is_restore (some _) = true

-- BuildRestoreJob, for its error: only an object that asks for a restore has such a job.
unfoldable pub build_restore_job : MongoDbBackup → Option Error
build_restore_job b =
    if is_restore b.restore
    then none
    else some (text ("backup " +++ b.name) ": Spec.Restore is nil")

abbrev pub requeue_provisioning : ℤ
requeue_provisioning = pos (seconds 10)

module _ {W : Type 0} (k : BackupApi W) where
  abbrev pub Pass : Type 0
  Pass = Exec MongoDbBackup W ℤ

  abbrev pub stored : Option ApiError × W → Pass → MongoDbBackup → Outcome ℤ × MongoDbBackup × W
  stored (some e, w) rest b = (err (api e), b, w)
  stored (none, w) rest b = rest b w

  abbrev pub write : MongoDbBackup → Pass → W → Outcome ℤ × MongoDbBackup × W
  write b rest w = stored (k.update_status b.status w) rest b

  abbrev pub failed_with : Error → W → MongoDbBackup → MongoDbBackup
  failed_with e w b =
      with_status
        (record b.status {
          phase = failed;
          error = k.error_text e;
          completion_time = some (k.now w);
        })
        b

  -- updateStatusError: an error of the write is only logged.
  unfoldable pub update_status_error : Error → Pass
  update_status_error e b w =
      let b' = failed_with e w b in let (_, w') = k.update_status b'.status w in (err e, b', w')

  abbrev uri_written : String → Option ApiError × W → Outcome String × W
  uri_written name (none, w) = (ok name, w)
  uri_written name (some e, w) = (err (wrapped "failed to create backup URI secret" (api e)), w)

  abbrev owned : String → String → Option ApiError → W → Outcome String × W
  owned name uri (some e) w =
      (err (wrapped "failed to set owner reference on backup URI secret" (api e)), w)
  owned name uri none w = uri_written name (k.apply_uri_secret name uri w)

  abbrev with_credentials :
      MongoDbBackup → String → Outcome Secret → String → W → Outcome String × W
  with_credentials b host (err e) auth w =
      (err (wrapped ("failed to get auth secret " +++ auth) e), w)
  with_credentials b host (ok secret) auth w =
      let user = entry "username" secret in
      let password = entry "password" secret in
      let name = b.name +++ "-backup-uri" in
      if is_empty user || is_empty password
      then (err (text ("auth secret " +++ auth) " missing username or password"), w)
      else owned name
          ("mongodb://" +++ user +++ ":" +++ password +++ "@" +++ host +++ "/?authSource=admin")
          (k.own_uri_secret b name) w

  abbrev of_cluster : MongoDbBackup → String → String → Outcome String → W → Outcome String × W
  of_cluster b what host (err e) w = (err (wrapped what e), w)
  of_cluster b what host (ok auth) w = with_credentials b host (k.get_secret auth w) auth w

  -- getClusterConnectionString: the name of the secret with the connection string.
  unfoldable pub get_cluster_connection_string : MongoDbBackup → W → Outcome String × W
  unfolding lookup
  get_cluster_connection_string b w =
      let address = "." +++ b.namespace +++ ".svc.cluster.local:27017" in
      if str_eq b.cluster_kind "MongoDB"
      then of_cluster b "failed to get MongoDB cluster" (b.cluster_name +++ address)
          (k.get_cluster b.cluster_name w) w
      else if str_eq b.cluster_kind "MongoDBSharded"
      then of_cluster b "failed to get MongoDBSharded cluster"
          (b.cluster_name +++ "-mongos" +++ address) (k.get_sharded_cluster b.cluster_name w) w
      else (err (text "unknown cluster kind" b.cluster_kind), w)

  abbrev pub restore_applied : Option ApiError × W → MongoDbBackup → Outcome ℤ × MongoDbBackup × W
  restore_applied (some e, w) b = update_status_error (api e) b w
  restore_applied (none, w) b = (ok requeue_provisioning, b, w)

  abbrev pub restore_built : Option Error → String → Pass
  restore_built (some e) uri b w = update_status_error e b w
  restore_built none uri b w = restore_applied (k.apply_restore_job b uri w) b

  abbrev pub restore_with : Outcome String × W → MongoDbBackup → Outcome ℤ × MongoDbBackup × W
  restore_with (err e, w) b = (ok requeue_provisioning, b, w)
  restore_with (ok uri, w) b = restore_built (build_restore_job b) uri b w

  abbrev pub restore_job : Pass
  restore_job b w = restore_with (get_cluster_connection_string b w) b

  -- The branch of a restore.
  abbrev pub restore_pass : Pass
  restore_pass b w =
      if is_waiting b.status.phase
      then write (set_phase restoring (k.now w) b) restore_job w
      else restore_job b w

  abbrev pub finished : Pass
  finished b w =
      if is_unfinished b.status.phase
      then (ok requeue_provisioning, b, w)
      else (ok no_requeue, b, w)

  -- updateBackupStatus, and the end of the pass.
  abbrev pub report_job : Outcome Job → Pass
  report_job (err e) b w = (err e, b, w)
  report_job (ok j) b w = write (with_status (apply_job_status j b) b) finished w

  abbrev pub job_applied : Option ApiError × W → MongoDbBackup → Outcome ℤ × MongoDbBackup × W
  job_applied (some e, w) b = update_status_error (api e) b w
  job_applied (none, w) b = report_job (k.get_job b.name w) b w

  abbrev pub job_with : Outcome String × W → MongoDbBackup → Outcome ℤ × MongoDbBackup × W
  job_with (err e, w) b = update_status_error e b w
  job_with (ok uri, w) b = job_applied (k.apply_backup_job b uri w) b

  abbrev pub backup_job : Pass
  backup_job b w = job_with (get_cluster_connection_string b w) b

  -- The branch of a backup.
  abbrev pub backup_pass : Pass
  backup_pass b w =
      if is_unset b.status.phase
      then write (set_phase pending (k.now w) b) backup_job w
      else backup_job b w

  -- Reconcile, of an object that has the finalizer and is not being deleted
  unfoldable pub reconcile : Pass
  unfolding apply_job_status get_cluster_connection_string update_status_error
  reconcile b w =
      if is_final b.status.phase
      then (ok no_requeue, b, w)
      else if is_restore b.restore
      then restore_pass b w
      else backup_pass b w
