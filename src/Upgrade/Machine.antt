-- ===== src/Upgrade/Machine.antt =====
-- The handlers of upgrade.go. A handler returns `(ctrl.Result, handled, error)`: `proceed` is
-- `(Result{}, false, nil)`, and `handled d` is `(Result{RequeueAfter: d}, true, nil)`.
use mongodb_operator.Common.{
  String, Bool, true, false, not, ◌&&◌, ◌||◌, Option, none, some, str_eq, ◌==◌, if◌then◌else◌,
  is_empty,
}
use mongodb_operator.Common.Int.{ℤ, ltb_ℤ, ◌-ℤ◌}
use mongodb_operator.Kube.{Api, ApiError, wrapped, text, Outcome, ok, err}
use mongodb_operator.Kube.Exec.{Exec, or_error, ◌>>◌}
use mongodb_operator.Mongo.{
  MongoDb, MongoDbStatus, UpgradeStatus, UpgradePhase, idle, backing_up, upgrading, validating,
  rolling_back, other_phase,
}
use mongodb_operator.Upgrade.Status.{
  ◌+++◌, seed, clear_upgrade, wants_rollback, init_upgrade, set_upgrading, abort_upgrade,
  complete_upgrade, set_rolling_back, fail_upgrade, finish_rollback,
}
use mongodb_operator.Upgrade.Config.{
  fcv_major_minor, upgrade_requeue_interval, one_second, no_requeue, validation_timeout,
  parse_validation_interval, get_admin_password, sts_rollout_complete, sts_rollout_stuck,
}

pub data Step : Type 0 where
  proceed : Step
  handled : ℤ → Step

abbrev pub is_idle : UpgradePhase → Bool
is_idle idle = true
is_idle _ = false

abbrev pub with_upgrade : UpgradeStatus → MongoDb → MongoDb
with_upgrade u m = record m { status = record m.status { upgrade = u } }

-- The name of the backup that is taken before an upgrade.
abbrev pub backup_name : String → MongoDb → String
backup_name desired m = m.name +++ "-pre-upgrade-" +++ desired

-- An upgrade of this generation has ended.
abbrev pub is_terminal : MongoDb → Bool
is_terminal m =
    is_idle m.status.upgrade_phase
    && (m.status.observed_upgrade_generation == m.generation
        && not (m.status.observed_upgrade_generation == 0))

module _ {W : Type 0} (k : Api W MongoDbStatus) where
  -- `f(); if err := commonsstatus.UpdateWithRetry(ctx, r.Client, mdb, f); err != nil { return … }`,
  -- and then the given result.
  unfoldable pub commit : (UpgradeStatus → UpgradeStatus) → Step → Exec MongoDb W Step
  commit f step m w =
      let m' = with_upgrade (f m.status.upgrade) m in
      let (e, w') = k.update_status m'.status w in (or_error e step, m', w')

  abbrev set_fcv_result : String → Option ApiError × W → Outcome String × W
  set_fcv_result fcv (e, w) = (or_error e fcv, w)

  abbrev set_fcv_with : MongoDb → String → Outcome String → W → Outcome String × W
  set_fcv_with m fcv (err e) w =
      (err (wrapped "rs manager for FCV commit" (wrapped "get admin password" e)), w)
  set_fcv_with m fcv (ok password) w =
      set_fcv_result fcv (k.set_fcv (m.name +++ "-0") fcv password w)

  -- commitFCV
  unfoldable pub commit_fcv : String → MongoDb → W → Outcome String × W
  commit_fcv desired m w =
      let fcv = fcv_major_minor desired in
      if is_empty fcv
      then (err (text "cannot derive FCV from version" desired), w)
      else if str_eq m.status.fcv_version fcv
      then (ok fcv, w)
      else set_fcv_with m fcv (get_admin_password k m.admin_secret w) w

  abbrev pub created : MongoDb → Option ApiError × W → Outcome Step × MongoDb × W
  created m (e, w) = (or_error e (handled upgrade_requeue_interval), m, w)

  abbrev pub on_backup_phase : String → Exec MongoDb W Step
  on_backup_phase phase m w =
      if str_eq phase "Completed"
      then commit set_upgrading (handled one_second) m w
      else if str_eq phase "Failed"
      then commit (abort_upgrade (k.now w)) (handled no_requeue) m w
      else (ok (handled upgrade_requeue_interval), m, w)

  abbrev pub on_backup : String → Outcome String → Exec MongoDb W Step
  on_backup desired (err _) m w =
      created m (k.create_backup (backup_name desired m) m.name "MongoDB" w)
  on_backup desired (ok phase) m w = on_backup_phase phase m w

  -- reconcileUpgradeBackup
  unfoldable pub reconcile_upgrade_backup : String → Exec MongoDb W Step
  reconcile_upgrade_backup desired m w =
      on_backup desired (k.get_backup (backup_name desired m) w) m w

  -- upgradeValidationFailed
  unfoldable pub upgrade_validation_failed : String → String → Exec MongoDb W Step
  upgrade_validation_failed desired reason m w =
      if wants_rollback m.upgrade_strategy
      then commit set_rolling_back (handled one_second) m w
      else commit
          (fail_upgrade (k.now w) m.generation "ValidationFailed" (
            "Upgrade to " +++ desired +++ " failed (" +++ reason
            +++ "), manual intervention required"))
          (handled no_requeue) m w

  abbrev pub finish_upgrade : String → Outcome String × W → MongoDb → Outcome Step × MongoDb × W
  finish_upgrade desired (err _, w) m = (ok (handled upgrade_requeue_interval), m, w)
  finish_upgrade desired (ok fcv, w) m =
      commit (complete_upgrade (k.now w) m.generation desired fcv) (handled no_requeue) m w

  abbrev pub on_stuck : String → ℤ → ℤ → Option String → Exec MongoDb W Step
  on_stuck desired elapsed timeout (some reason) m w =
      upgrade_validation_failed desired ("rollout stuck: " +++ reason) m w
  on_stuck desired elapsed timeout none m w =
      if ltb_ℤ elapsed timeout
      then (ok (handled upgrade_requeue_interval), m, w)
      else upgrade_validation_failed desired ("timed out after " +++ k.format_duration timeout) m w

  abbrev pub on_rollout : String → ℤ → ℤ → Outcome Bool → Exec MongoDb W Step
  on_rollout desired interval elapsed (err _) m w = (ok (handled upgrade_requeue_interval), m, w)
  on_rollout desired interval elapsed (ok true) m w =
      if ltb_ℤ elapsed interval
      then (ok (handled (interval -ℤ elapsed)), m, w)
      else finish_upgrade desired (commit_fcv desired m w) m
  on_rollout desired interval elapsed (ok false) m w =
      on_stuck desired elapsed (validation_timeout interval m.members)
        (sts_rollout_stuck k m.name w) m w

  abbrev pub on_start_time : String → Option ℤ → Exec MongoDb W Step
  on_start_time desired none m w = (ok (handled upgrade_requeue_interval), m, w)
  on_start_time desired (some start) m w =
      on_rollout desired (parse_validation_interval k m.upgrade_strategy) (k.now w -ℤ start)
        (sts_rollout_complete k m.name m.members w) m w

  -- reconcileUpgradeValidation
  unfoldable pub reconcile_upgrade_validation : String → Exec MongoDb W Step
  reconcile_upgrade_validation desired m w = on_start_time desired m.status.upgrade_start_time m w

  -- reconcileUpgradeRollback
  unfoldable pub reconcile_upgrade_rollback : Exec MongoDb W Step
  reconcile_upgrade_rollback m w =
      if is_empty m.status.previous_version
      then commit clear_upgrade (handled no_requeue) m w
      else if not (wants_rollback m.upgrade_strategy)
      then commit
          (fail_upgrade (k.now w) m.generation "ValidationFailed"
            "Upgrade validation failed, manual intervention required")
          (handled no_requeue) m w
      else commit (finish_rollback (k.now w) m.generation m.spec_version) (handled no_requeue) m w

  -- The `switch` of reconcileUpgrade.
  unfoldable pub dispatch : UpgradePhase → Exec MongoDb W Step
  dispatch idle m w =
      commit (init_upgrade (k.now w) m.status.version m.spec_version m.upgrade_strategy)
        (handled one_second) m w
  dispatch backing_up m w = reconcile_upgrade_backup m.spec_version m w
  dispatch upgrading m w = (ok proceed, m, w)
  dispatch validating m w = reconcile_upgrade_validation m.spec_version m w
  dispatch rolling_back m w = reconcile_upgrade_rollback m w
  dispatch (other_phase _) m w = (ok proceed, m, w)

  -- reconcileUpgrade, behind the seed
  unfoldable pub orchestrate : Exec MongoDb W Step
  orchestrate m w =
      if is_empty m.status.version || str_eq m.status.version m.spec_version
      then (if is_idle m.status.upgrade_phase
          then (ok proceed, m, w)
          else commit clear_upgrade proceed m w)
      else if is_terminal m
      then (ok proceed, m, w)
      else dispatch m.status.upgrade_phase m w

  -- reconcileUpgrade
  unfoldable pub reconcile_upgrade : Exec MongoDb W Step
  reconcile_upgrade m w =
      if is_empty m.status.effective_version || is_empty m.status.version
      then (do commit (seed m.spec_version) proceed; orchestrate) m w
      else orchestrate m w
