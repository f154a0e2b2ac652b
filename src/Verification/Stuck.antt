-- ===== src/Verification/Stuck.antt =====
-- A verification of a backup that the backup controller has completed.
use mongodb_operator.Common.{
  Bool, true, false, none, ◌≡◌, refl, ap, ◌∙◌, arith, Bool-cases, inl, inr,
}
use mongodb_operator.Kube.{api, not_found, wrapped, text, Error, ok, err, after}
use mongodb_operator.Upgrade.Status.{◌+++◌}
use mongodb_operator.Backup.{MongoDbBackup, BackupApi, is_completed, is_restore}
use mongodb_operator.Backup.Phases.{Reach, Reach-IsAdvance}
use mongodb_operator.Verification.{
  VerificationPhase, unset, pending, restoring, BackupVerification, VerificationApi, is_queryable,
  retry_slow,
}
use mongodb_operator.Verification.Pass.{
  restoring_since, job_name, await_backup, await_restore, reconcile,
}

abbrev pub is_new : VerificationPhase → Bool
is_new unset = true
is_new pending = true
is_new _ = false

-- The error of BuildRestoreJob for a backup that asks for no restore.
abbrev pub no_restore_error : MongoDbBackup → Error
no_restore_error b = text ("backup " +++ b.name) ": Spec.Restore is nil"

-- What the backup controller completes is a backup, not a restore.
completed_is_no_restore :
    {W : Type 0} (kb : BackupApi W) {b b' : MongoDbBackup}
    → is_completed b.status.phase ≡ false
    → Reach kb b b'
    → is_completed b'.status.phase ≡ true
    → is_restore b'.restore ≡ false
completed_is_no_restore kb {b} {b'} open_phase r done =
    let moved = (Reach-IsAdvance kb r).forward in
    elim (Bool-cases (is_restore b.restore)) [
      | inl restores ↦ cc (moved.restored restores done)
      | inr plain ↦ ap (λ (x : MongoDbBackup). is_restore x.restore) moved.spec ∙ plain
    ]

module _ {W : Type 0} (k : VerificationApi W) where
  new_reconcile :
      (v : BackupVerification) (w : W)
      → is_new v.status.phase ≡ true
      → reconcile k v w ≡ await_backup k v w
  unfolding reconcile
  new_reconcile v w h = ground arith

  restoring_reconcile :
      (v : BackupVerification) (w : W)
      → v.status.phase ≡ restoring
      → reconcile k v w ≡ await_restore k v w
  unfolding reconcile
  restoring_reconcile v w h = ground arith

  missing_job :
      (v : BackupVerification) (w : W)
      → k.get_job (job_name k v) w ≡ err (api not_found)
      → await_restore k v w ≡ (ok (after retry_slow), v, w)
  unfolding await_restore
  missing_job v w h = ground arith

  abbrev pub started : BackupVerification → W → BackupVerification
  started v w = restoring_since k (k.now w) v

  plain_backup :
      (b : MongoDbBackup) (v : BackupVerification) (w : W)
      → is_completed b.status.phase ≡ true
      → is_restore b.restore ≡ false
      → k.get_backup v.backup_name w ≡ ok b
      → is_queryable v.queryable ≡ false
      → (k.update_status (started v w).status w).0 ≡ none
      → await_backup k v w ≡ (
        err (wrapped "build restore job" (no_restore_error b)),
        started v w,
        (k.update_status (started v w).status w).1,
      )
  unfolding await_backup
  plain_backup b v w done plain got q written = ground arith

  -- A new verification of a backup that the backup controller has brought to Completed gets stuck. Its
  -- first pass, if the status can be written and no queryable instance is asked for, stores the phase
  -- Restoring and then fails, since the backup is not a restore, without having applied a job; each
  -- later pass that finds no job of that name changes nothing and asks for another one.
  pub completed_backup_is_stuck :
      (kb : BackupApi W) {a b : MongoDbBackup} (v : BackupVerification) (w w' : W)
      → is_completed a.status.phase ≡ false
      → Reach kb a b
      → is_completed b.status.phase ≡ true
      → is_new v.status.phase ≡ true
      → k.get_backup v.backup_name w ≡ ok b
      → is_queryable v.queryable ≡ false
      → (k.update_status (started v w).status w).0 ≡ none
      → k.get_job (job_name k v) w' ≡ err (api not_found)
      → (reconcile k v w ≡ (
        err (wrapped "build restore job" (no_restore_error b)),
        started v w,
        (k.update_status (started v w).status w).1,
      ))
        × (reconcile k (started v w) w' ≡ (ok (after retry_slow), started v w, w'))
  completed_backup_is_stuck kb {b = b} v w w' open_phase r done new got q written gone = (
    new_reconcile v w new
        ∙ plain_backup b v w done (completed_is_no_restore kb open_phase r done) got q written,
    restoring_reconcile (started v w) w' refl ∙ missing_job (started v w) w' gone,
  )
