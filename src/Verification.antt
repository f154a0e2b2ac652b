-- ===== src/Verification.antt =====
-- internal/controller/mongodbbackupverification_controller.go: the controller that restores a backup
-- and counts documents in what it restored.
pub mod Pass
pub mod Verdict
pub mod Stuck
use mongodb_operator.Common.{
  ℕ, String, Bool, true, false, ◌&&◌, not, Option, none, some, List, [], ◌∷◌, ◌++◌, if◌then◌else◌,
  is_empty, lookup,
}
use mongodb_operator.Common.Int.{ℤ, pos, ltb_ℤ}
use mongodb_operator.Kube.{
  ApiError, Error, api, wrapped, text, Outcome, ok, err, Secret, Requeue, stop, again, after,
}
use mongodb_operator.Upgrade.Status.{◌+++◌}
use mongodb_operator.Upgrade.Config.{seconds}
use mongodb_operator.Cluster.Report.{is_not_found}
use mongodb_operator.Backup.{
  MongoDbBackup, BackupPhase, is_completed, Job, JobCondition, job_complete, job_failed, job_other,
  build_restore_job, entry,
}

-- The `Phase` of a verification; `unset` is "".
pub data VerificationPhase : Type 0 where
  unset pending restoring verifying passed failed : VerificationPhase

-- VerificationQuery
pub record VerificationQuery : Type 0 where
  pub db : String
  pub collection : String
  pub filter_json : String
  pub min_expected_docs : ℤ

-- VerificationQueryResult
pub record QueryResult : Type 0 where
  pub db : String
  pub collection : String
  pub doc_count : ℤ
  pub passed : Bool

-- MongoDBBackupVerificationStatus, without the fields that no code writes
pub record VerificationStatus : Type 0 where
  pub phase : VerificationPhase
  pub start_time : Option ℤ
  pub completion_time : Option ℤ
  pub query_results : List QueryResult
  pub queryable_instance : String

-- MongoDBBackupVerification; `queryable` is `Enabled` of `Spec.Queryable`, if that is given.
pub record BackupVerification : Type 0 where
  pub name : String
  pub backup_name : String
  pub sample_queries : List VerificationQuery
  pub queryable : Option Bool
  pub status : VerificationStatus

pub record VerificationApi (W : Type 0) : Type 0 where
  pub now : W → ℤ
  -- r.Status().Update
  pub update_status : VerificationStatus → W → Option ApiError × W
  pub get_backup : String → W → Outcome MongoDbBackup
  -- CreateOrUpdate of the StatefulSet that BuildQueryableStatefulSet builds, with its name
  pub apply_queryable : String → MongoDbBackup → W → Option ApiError × W
  -- CreateOrUpdate of the job that BuildRestoreJob builds for the backup, with its name
  pub apply_restore_job : String → MongoDbBackup → W → Option ApiError × W
  pub get_job : String → W → Outcome Job
  pub get_secret : String → W → Outcome Secret
  -- newCounter, for a connection string
  pub connect : String → W → Option Error
  -- counter.Count of such a counter: the count, and the error if there is one
  pub count : String → String → String → String → W → ℤ × Option Error

abbrev pub with_status : VerificationStatus → BackupVerification → BackupVerification
with_status s v = record v { status = s }

abbrev pub retry_slow : ℤ
retry_slow = pos (seconds 30)

abbrev pub retry_fast : ℤ
retry_fast = pos (seconds 15)

abbrev pub is_queryable : Option Bool → Bool
is_queryable none = false
is_queryable (some enabled) = enabled

-- The verdict of the first condition of a job that is true and final.
pub data JobVerdict : Type 0 where
  succeeded broken undecided : JobVerdict

unfoldable pub job_verdict : List JobCondition → JobVerdict
job_verdict [] = undecided
job_verdict (c ∷ cs) =
    let rest = job_verdict cs in
    elim c.type [
      | job_complete ↦ if c.is_true then succeeded else rest
      | job_failed ↦ if c.is_true then broken else rest
      | job_other ↦ rest
    ]

-- The query that stands for an empty list.
abbrev pub sanity_query : VerificationQuery
sanity_query = record {
  db = "admin";
  collection = "system.version";
  filter_json = "{}";
  min_expected_docs = pos 1;
}

abbrev pub queries_of : List VerificationQuery → List VerificationQuery
queries_of [] = sanity_query ∷ []
queries_of (q ∷ qs) = q ∷ qs

abbrev pub is_no_error : Option Error → Bool
is_no_error none = true
is_no_error (some _) = false
