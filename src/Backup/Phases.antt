-- ===== src/Backup/Phases.antt =====
-- The phases of a backup along passes of its controller.
use mongodb_operator.Common.{
  ℕ, ◌≤◌, String, Bool, true, false, Option, none, some, List, [], ◌∷◌, ◌≡◌, refl, ap, ◌∙◌, arith,
  if◌then◌else◌, Bool-cases, inl, inr,
}
use mongodb_operator.Common.Int.{ℤ}
use mongodb_operator.Kube.{ApiError, Error, api, Outcome, ok, err}
use mongodb_operator.Backup.{
  BackupPhase, unset, pending, running, restoring, completed, failed, BackupStatus, MongoDbBackup,
  Job, JobCondition, BackupApi, with_status, set_phase, apply_job_conditions, apply_job_status,
  is_final, is_completed, is_waiting, is_unset, is_restore, stored, write, failed_with,
  update_status_error, get_cluster_connection_string, restore_applied, restore_with, restore_built,
  build_restore_job, restore_job, restore_pass, finished, report_job, job_applied, job_with,
  backup_job, backup_pass, reconcile, Pass,
}

-- How far a backup or a restore has got.
abbrev pub rank : BackupPhase → ℕ
rank unset = 0
rank pending = 1
rank running = 2
rank restoring = 2
rank completed = 3
rank failed = 3

-- Only the status has changed, the phase has not gone back, and a restore has not become complete.
pub record IsForward (b b' : MongoDbBackup) : Type 0 where
  pub spec : b' ≡ with_status b'.status b
  pub climbs : rank b.status.phase ≤ rank b'.status.phase
  pub restored :
      is_restore b.restore ≡ true
      → is_completed b'.status.phase ≡ true
      → is_completed b.status.phase ≡ true

same-IsForward : (b : MongoDbBackup) → IsForward b b
same-IsForward b = record { spec = refl; climbs = omega arith; restored = λ r c. c }

trans-IsForward : (a b c : MongoDbBackup) → IsForward a b → IsForward b c → IsForward a c
trans-IsForward a b c h g = record {
  spec = g.spec ∙ ap (with_status c.status) h.spec;
  climbs = omega (arith, h.climbs, g.climbs);
  restored = λ r d.
      h.restored r (g.restored (ap (λ (x : MongoDbBackup). is_restore x.restore) h.spec ∙ r) d);
}

conditions-rank :
    (cs : List JobCondition) (s : BackupStatus)
    → rank s.phase ≤ rank (apply_job_conditions cs s).phase
unfolding apply_job_conditions
conditions-rank [] s = omega arith
conditions-rank (c ∷ cs) s = ground (arith, conditions-rank cs s)

module _ {W : Type 0} (k : BackupApi W) where
  failed-IsForward : (e : Error) (w : W) (b : MongoDbBackup) → IsForward b (failed_with k e w b)
  failed-IsForward e w b = record {
    spec = refl;
    climbs = ground arith;
    restored = λ r c. ground arith;
  }

  -- The job of an object that asks for no restore, and whose phase is not final.
  job-IsForward :
      (j : Job) (b : MongoDbBackup)
      → is_final b.status.phase ≡ false
      → is_restore b.restore ≡ false
      → IsForward b (with_status (apply_job_status j b) b)
  unfolding apply_job_status
  job-IsForward j b open_phase no_restore = record {
    spec = refl;
    climbs = ground (arith, conditions-rank j.conditions b.status);
    restored = λ r c. ground arith;
  }

  -- A pass from an object that is not final.
  abbrev Forward : MongoDbBackup → Outcome ℤ × MongoDbBackup × W → Type 0
  Forward b x = IsForward b x.1

  error-Forward : (e : Error) (b : MongoDbBackup) (w : W) → Forward b (update_status_error k e b w)
  unfolding update_status_error
  error-Forward e b w = failed-IsForward e w b

  stored-Forward :
      (b b' : MongoDbBackup) (x : Option ApiError × W) (rest : Pass k)
      → IsForward b b'
      → ((w : W) → Forward b (rest b' w))
      → Forward b (stored k x rest b')
  stored-Forward b b' (some e, w) rest h r = h
  stored-Forward b b' (none, w) rest h r = r w

  restore_applied-Forward :
      (x : Option ApiError × W) (b : MongoDbBackup) → Forward b (restore_applied k x b)
  restore_applied-Forward (some e, w) b = error-Forward (api e) b w
  restore_applied-Forward (none, w) b = same-IsForward b

  restore_built-Forward :
      (x : Option Error) (uri : String) (b : MongoDbBackup) (w : W)
      → Forward b (restore_built k x uri b w)
  restore_built-Forward (some e) uri b w = error-Forward e b w
  restore_built-Forward none uri b w = restore_applied-Forward (k.apply_restore_job b uri w) b

  restore_with-Forward :
      (x : Outcome String × W) (b : MongoDbBackup) → Forward b (restore_with k x b)
  restore_with-Forward (err e, w) b = same-IsForward b
  restore_with-Forward (ok uri, w) b = restore_built-Forward (build_restore_job b) uri b w

  restoring-IsForward :
      (now : ℤ) (b : MongoDbBackup)
      → is_waiting b.status.phase ≡ true
      → IsForward b (set_phase restoring now b)
  restoring-IsForward now b h = record {
    spec = refl;
    climbs = ground arith;
    restored = λ r c. ground arith;
  }

  restore-Forward :
      (waits : Bool) (b : MongoDbBackup) (w : W)
      → is_waiting b.status.phase ≡ waits
      → Forward b (
          if waits
          then write k (set_phase restoring (k.now w) b) (restore_job k) w
          else restore_job k b w)
  restore-Forward true b w h =
      let b' = set_phase restoring (k.now w) b in
      let first = restoring-IsForward (k.now w) b h in
      stored-Forward b b' (k.update_status b'.status w) (restore_job k) first (λ v.
        trans-IsForward b b' (restore_job k b' v).1 first
          (restore_with-Forward (get_cluster_connection_string k b' v) b'))
  restore-Forward false b w h = restore_with-Forward (get_cluster_connection_string k b w) b

  finished-Forward : (b b' : MongoDbBackup) (w : W) → IsForward b b' → Forward b (finished k b' w)
  finished-Forward b b' w h = ground arith

  module _ (b : MongoDbBackup) (open_phase : is_final b.status.phase ≡ false)
      (no_restore : is_restore b.restore ≡ false) where
    report-Forward : (j : Outcome Job) (w : W) → Forward b (report_job k j b w)
    report-Forward (err e) w = same-IsForward b
    report-Forward (ok j) w =
        let b' = with_status (apply_job_status j b) b in
        let done = job-IsForward j b open_phase no_restore in
        stored-Forward b b' (k.update_status b'.status w) (finished k) done
          (λ v. finished-Forward b b' v done)

    applied-Forward : (x : Option ApiError × W) → Forward b (job_applied k x b)
    applied-Forward (some e, w) = error-Forward (api e) b w
    applied-Forward (none, w) = report-Forward (k.get_job b.name w) w

    job-Forward : (x : Outcome String × W) → Forward b (job_with k x b)
    job-Forward (err e, w) = error-Forward e b w
    job-Forward (ok uri, w) = applied-Forward (k.apply_backup_job b uri w)

  pending-IsForward :
      (now : ℤ) (b : MongoDbBackup)
      → is_unset b.status.phase ≡ true
      → IsForward b (set_phase pending now b)
  pending-IsForward now b h = record {
    spec = refl;
    climbs = ground arith;
    restored = λ r c. ground arith;
  }

  backup-Forward :
      (new : Bool) (b : MongoDbBackup) (w : W)
      → is_unset b.status.phase ≡ new
      → is_final b.status.phase ≡ false
      → is_restore b.restore ≡ false
      → Forward b (
          if new
          then write k (set_phase pending (k.now w) b) (backup_job k) w
          else backup_job k b w)
  backup-Forward true b w h open_phase no_restore =
      let b' = set_phase pending (k.now w) b in
      let first = pending-IsForward (k.now w) b h in
      stored-Forward b b' (k.update_status b'.status w) (backup_job k) first (λ v.
        trans-IsForward b b' (backup_job k b' v).1 first
          (job-Forward b' refl no_restore (get_cluster_connection_string k b' v)))
  backup-Forward false b w h open_phase no_restore =
      job-Forward b open_phase no_restore (get_cluster_connection_string k b w)

  branch-Forward :
      (asks : Bool) (b : MongoDbBackup) (w : W)
      → is_restore b.restore ≡ asks
      → is_final b.status.phase ≡ false
      → Forward b (if asks then restore_pass k b w else backup_pass k b w)
  branch-Forward true b w r open_phase = restore-Forward (is_waiting b.status.phase) b w refl
  branch-Forward false b w r open_phase =
      backup-Forward (is_unset b.status.phase) b w refl open_phase r

  pass-Forward : (b : MongoDbBackup) (w : W) → Forward b (reconcile k b w)
  unfolding reconcile
  pass-Forward b w = elim (Bool-cases (is_final b.status.phase)) [
    | inl e ↦ rw e (same-IsForward b)
    | inr e ↦ rw e (branch-Forward (is_restore b.restore) b w refl e)
  ]

  final_is_kept :
      (b : MongoDbBackup) (w : W) → is_final b.status.phase ≡ true → (reconcile k b w).1 ≡ b
  unfolding reconcile
  final_is_kept b w h = ground arith

  -- Passes of the controller over a backup; between two of them anything may happen outside.
  pub data Reach (b : MongoDbBackup) : MongoDbBackup → Type 0 where
    here : Reach b b
    pass : {b' : MongoDbBackup} → Reach b b' → (w : W) → Reach b (reconcile k b' w).1

  reached-IsForward : {b b' : MongoDbBackup} → Reach b b' → IsForward b b'
  reached-IsForward {b} here = same-IsForward b
  reached-IsForward {b} (pass {b' = b'} r w) =
      trans-IsForward b b' (reconcile k b' w).1 (reached-IsForward r) (pass-Forward b' w)

  reached_is_kept : {b b' : MongoDbBackup} → is_final b.status.phase ≡ true → Reach b b' → b' ≡ b
  reached_is_kept h here = refl
  reached_is_kept {b} h (pass {b' = b'} r w) =
      let same = reached_is_kept h r in rw same (final_is_kept b w h)

  -- What passes may do with a backup.
  pub record IsAdvance (b b' : MongoDbBackup) : Type 0 where
    pub forward : IsForward b b'
    pub final : is_final b.status.phase ≡ true → b' ≡ b

  -- Along every sequence of passes, whatever happens outside in between, the spec of a backup stays as
  -- it is and its phase never goes back in the order "", Pending, Running or Restoring, Completed or
  -- Failed; one that is Completed or Failed is never changed; and an object that asks for a restore never
  -- gets Completed.
  pub Reach-IsAdvance : {b b' : MongoDbBackup} → Reach b b' → IsAdvance b b'
  Reach-IsAdvance r = record { forward = reached-IsForward r; final = λ h. reached_is_kept h r }
