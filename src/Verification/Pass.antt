-- ===== src/Verification/Pass.antt =====
-- Reconcile of a backup verification, phase by phase.
use mongodb_operator.Common.{
  String, Bool, true, false, ◌&&◌, not, Option, none, some, List, [], ◌∷◌, ◌++◌, if◌then◌else◌,
  is_empty, lookup,
}
use mongodb_operator.Common.Int.{ℤ, pos, ltb_ℤ}
use mongodb_operator.Kube.{
  ApiError, Error, api, wrapped, text, Outcome, ok, err, Secret, Requeue, stop, again, after,
}
use mongodb_operator.Upgrade.Status.{◌+++◌}
use mongodb_operator.Cluster.Report.{is_not_found}
use mongodb_operator.Backup.{MongoDbBackup, is_completed, Job, build_restore_job, entry}
use mongodb_operator.Verification.{
  VerificationPhase, unset, pending, restoring, verifying, passed, failed, VerificationQuery,
  QueryResult, BackupVerification, VerificationApi, with_status, retry_slow, retry_fast,
  is_queryable, JobVerdict, succeeded, broken, undecided, job_verdict, queries_of, is_no_error,
}

module _ {W : Type 0} (k : VerificationApi W) where
  -- The object in a result is the stored one: what a pass changes in memory only is lost with it.
  abbrev pub Pass : Type 0
  Pass = BackupVerification → W → Outcome Requeue × BackupVerification × W

  -- A pass that returns once the status is written, and what it does then.
  abbrev pub stored :
      Option ApiError × W
      → BackupVerification
      → BackupVerification
      → Pass
      → Outcome Requeue × BackupVerification × W
  stored (some e, w) old new rest = (err (api e), old, w)
  stored (none, w) old new rest = rest new w

  abbrev pub write : BackupVerification → Pass → Pass
  write new rest old w = stored (k.update_status new.status w) old new rest

  abbrev pub returns : Requeue → Pass
  returns d v w = (ok d, v, w)

  abbrev pub job_name : BackupVerification → String
  job_name v = v.name +++ "-verify-restore"

  -- readRestoreConnString
  abbrev pub conn_string : String → Outcome Secret → Outcome String
  conn_string name (err e) = err e
  conn_string name (ok secret) =
      let s = entry "connectionString" secret in
      if is_empty s then err (text ("secret " +++ name) " has no connectionString") else ok s

  unfoldable pub read_restore_conn_string : BackupVerification → W → Outcome String
  unfolding lookup
  read_restore_conn_string v w =
      let name = v.backup_name +++ "-backup-uri" in conn_string name (k.get_secret name w)

  abbrev pub has_passed : VerificationQuery → ℤ × Option Error → Bool
  has_passed q (n, e) = is_no_error e && not (ltb_ℤ n q.min_expected_docs)

  abbrev pub counted : String → W → VerificationQuery → ℤ × Option Error
  counted s w q = k.count s q.db q.collection q.filter_json w

  -- The loop over the queries: the results, and whether all have passed.
  unfoldable pub run_queries : String → W → List VerificationQuery → List QueryResult × Bool
  run_queries s w [] = ([], true)
  run_queries s w (q ∷ qs) =
      let (results, all_passed) = run_queries s w qs in
      let passed = has_passed q (counted s w q) in
      (
        record {
          db = q.db;
          collection = q.collection;
          doc_count = (counted s w q).0;
          passed = passed;
        }
            ∷ results,
        passed && all_passed,
      )

  abbrev pub judged : ℤ → List QueryResult × Bool → BackupVerification → BackupVerification
  judged now (results, all_passed) v =
      with_status
        (record v.status {
          phase = if all_passed then passed else failed;
          query_results = v.status.query_results ++ results;
          completion_time = some now;
        })
        v

  abbrev pub count_documents : String → Option Error → Pass
  count_documents s (some e) v w = (ok (after retry_fast), v, w)
  count_documents s none v w =
      write (judged (k.now w) (run_queries s w (queries_of v.sample_queries)) v) (returns stop) v w

  abbrev pub verify_with : Outcome String → Pass
  verify_with (err e) v w =
      if is_not_found e
      then (ok (after retry_fast), v, w)
      else (err (wrapped "read restore connectionString" e), v, w)
  verify_with (ok s) v w = count_documents s (k.connect s w) v w

  -- The phase Verifying
  unfoldable pub verify : Pass
  unfolding read_restore_conn_string run_queries
  verify v w = verify_with (read_restore_conn_string v w) v w

  abbrev pub restore_failed : ℤ → BackupVerification → BackupVerification
  restore_failed now v =
      with_status
        (record v.status {
          phase = failed;
          completion_time = some now;
          query_results =
              v.status.query_results
              ++ record { db = "restore"; collection = "job"; doc_count = pos 0; passed = false }
                ∷ [];
        })
        v

  abbrev pub on_verdict : JobVerdict → Pass
  on_verdict succeeded v w =
      write (with_status (record v.status { phase = verifying }) v) (returns again) v w
  on_verdict broken v w = write (restore_failed (k.now w) v) (returns stop) v w
  on_verdict undecided v w = (ok (after retry_slow), v, w)

  abbrev pub await_with : Outcome Job → Pass
  await_with (err e) v w = if is_not_found e then (ok (after retry_slow), v, w) else (err e, v, w)
  await_with (ok j) v w = on_verdict (job_verdict j.conditions) v w

  -- The phase Restoring
  unfoldable pub await_restore : Pass
  unfolding job_verdict
  await_restore v w = await_with (k.get_job (job_name v) w) v w

  abbrev pub restore_applied :
      Option ApiError × W → BackupVerification → Outcome Requeue × BackupVerification × W
  restore_applied (some e, w) v = (err (wrapped "create restore job" (api e)), v, w)
  restore_applied (none, w) v = (ok (after retry_slow), v, w)

  abbrev pub restore_built : Option Error → MongoDbBackup → Pass
  restore_built (some e) b v w = (err (wrapped "build restore job" e), v, w)
  restore_built none b v w = restore_applied (k.apply_restore_job (job_name v) b w) v

  abbrev pub start_restore : MongoDbBackup → Pass
  start_restore b v w = restore_built (build_restore_job b) b v w

  abbrev pub restoring_since : ℤ → BackupVerification → BackupVerification
  restoring_since now v =
      with_status (record v.status { phase = restoring; start_time = some now }) v

  abbrev pub queryable_applied :
      MongoDbBackup
      → BackupVerification
      → BackupVerification
      → String
      → Option ApiError × W
      → Outcome Requeue × BackupVerification × W
  queryable_applied b old new name (some e, w) =
      (err (wrapped "create queryable statefulset" (api e)), old, w)
  queryable_applied b old new name (none, w) =
      write (with_status (record new.status { queryable_instance = name }) new) (start_restore b)
        old w

  abbrev pub begin : MongoDbBackup → Pass
  begin b v w =
      let new = restoring_since (k.now w) v in
      let name = b.name +++ "-queryable" in
      if is_queryable v.queryable
      then queryable_applied b v new name (k.apply_queryable name b w)
      else write new (start_restore b) v w

  abbrev pub begin_with : Outcome MongoDbBackup → Pass
  begin_with (err e) v w = if is_not_found e then (ok (after retry_slow), v, w) else (err e, v, w)
  begin_with (ok b) v w =
      if is_completed b.status.phase then begin b v w else (ok (after retry_slow), v, w)

  -- The phases "" and Pending
  unfoldable pub await_backup : Pass
  unfolding build_restore_job
  await_backup v w = begin_with (k.get_backup v.backup_name w) v w

  abbrev pub dispatch : VerificationPhase → Pass
  dispatch unset = await_backup
  dispatch pending = await_backup
  dispatch restoring = await_restore
  dispatch verifying = verify
  dispatch passed = returns stop
  dispatch failed = returns stop

  -- Reconcile of an object that is there
  unfoldable pub reconcile : Pass
  unfolding await_backup await_restore verify
  reconcile v w = dispatch v.status.phase v w
