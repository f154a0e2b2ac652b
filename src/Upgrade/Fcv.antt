-- ===== src/Upgrade/Fcv.antt =====
-- The feature compatibility version is raised only behind a rollout that is complete.
use mongodb_operator.Common.{
  ap, String, true, false, Option, none, some, ◌≡◌, ◌≢◌, inl, inr, refl, arith, Option-cases,
  Bool-cases,
}
use mongodb_operator.Common.Int.{ℤ, ltb_ℤ, ◌-ℤ◌}
use mongodb_operator.Kube.{Api, ApiError, ok}
use mongodb_operator.Mongo.{
  MongoDb, MongoDbStatus, UpgradePhase, idle, backing_up, upgrading, validating, rolling_back,
  other_phase,
}
use mongodb_operator.Upgrade.Status.{
  clear_upgrade, init_upgrade, set_upgrading, abort_upgrade, set_rolling_back, fail_upgrade,
  finish_rollback,
}
use mongodb_operator.Upgrade.Config.{
  parse_validation_interval, sts_rollout_complete, sts_rollout_stuck,
}
use mongodb_operator.Upgrade.Machine.{
  commit, dispatch, orchestrate, reconcile_upgrade_backup, reconcile_upgrade_validation,
  upgrade_validation_failed, reconcile_upgrade_rollback,
}

module _ {W : Type 0} (k : Api W MongoDbStatus) where
  -- What a commit of the FCV needs: the phase, a start time, a complete rollout, and the interval.
  pub record MayCommit (m : MongoDb) (w : W) : Type 0 where
    pub phase : m.status.upgrade_phase ≡ validating
    pub start : ℤ
    pub started : m.status.upgrade_start_time ≡ some start
    pub complete : sts_rollout_complete k m.name m.members w ≡ ok true
    pub observed : ltb_ℤ (k.now w -ℤ start) (parse_validation_interval k m.upgrade_strategy) ≡ false

  rollback-fcv :
      (m : MongoDb) (w : W)
      → (reconcile_upgrade_rollback k m w).1.status.fcv_version ≡ m.status.fcv_version
  unfolding reconcile_upgrade_rollback commit clear_upgrade fail_upgrade finish_rollback
  rollback-fcv m w = ground arith

  backup-fcv :
      (desired : String) (m : MongoDb) (w : W)
      → (reconcile_upgrade_backup k desired m w).1.status.fcv_version ≡ m.status.fcv_version
  unfolding reconcile_upgrade_backup commit set_upgrading abort_upgrade
  backup-fcv desired m w = ground arith

  failed-fcv :
      (desired reason : String) (m : MongoDb) (w : W)
      → (upgrade_validation_failed k desired reason m w).1.status.fcv_version ≡ m.status.fcv_version
  unfolding upgrade_validation_failed commit set_rolling_back fail_upgrade
  failed-fcv desired reason m w = ground arith

  -- The validation raises the FCV only behind a complete rollout that was observed long enough.
  validation-fcv :
      (desired : String) (m : MongoDb) (w : W) (start : ℤ)
      → m.status.upgrade_start_time ≡ some start
      → (reconcile_upgrade_validation k desired m w).1.status.fcv_version ≢ m.status.fcv_version
      → (sts_rollout_complete k m.name m.members w ≡ ok true)
        × (ltb_ℤ (k.now w -ℤ start) (parse_validation_interval k m.upgrade_strategy) ≡ false)
  unfolding reconcile_upgrade_validation commit upgrade_validation_failed set_rolling_back
      fail_upgrade
  validation-fcv desired m w start e h = ground arith

  validation_unstarted :
      (desired : String) (m : MongoDb) (w : W)
      → m.status.upgrade_start_time ≡ none
      → (reconcile_upgrade_validation k desired m w).1 ≡ m
  unfolding reconcile_upgrade_validation
  validation_unstarted desired m w e = ground arith

  dispatch-fcv :
      (p : UpgradePhase) (m : MongoDb) (w : W)
      → m.status.upgrade_phase ≡ p
      → (dispatch k p m w).1.status.fcv_version ≢ m.status.fcv_version
      → MayCommit m w
  unfolding dispatch commit init_upgrade
  dispatch-fcv idle m w e h = absurd (h refl)
  dispatch-fcv backing_up m w e h = absurd (h (backup-fcv m.spec_version m w))
  dispatch-fcv upgrading m w e h = absurd (h refl)
  dispatch-fcv validating m w e h = elim (Option-cases m.status.upgrade_start_time) [
    | inl unset ↦ absurd (
        h (
          ap (λ (x : MongoDb). x.status.fcv_version)
            (validation_unstarted m.spec_version m w unset)))
    | inr (start, set) ↦
        let facts = validation-fcv m.spec_version m w start set h in
        record { phase = e; start = start; started = set; complete = facts.0; observed = facts.1 }
  ]
  dispatch-fcv rolling_back m w e h = absurd (h (rollback-fcv m w))
  dispatch-fcv (other_phase s) m w e h = absurd (h refl)

  -- A pass of reconcileUpgrade, behind the seed, changes the recorded FCV only if the cluster is in
  -- the phase Validating with a start time, the StatefulSet reports a complete rollout of all members,
  -- and the validation interval has passed since the start time.
  pub fcv_needs_rollout :
      (m : MongoDb) (w : W)
      → (orchestrate k m w).1.status.fcv_version ≢ m.status.fcv_version
      → MayCommit m w
  unfolding orchestrate commit clear_upgrade
  fcv_needs_rollout m w h = dispatch-fcv m.status.upgrade_phase m w refl (λ e. h (ground arith))

  module _ (f : String → String → String → W → Option ApiError × W) where
    abbrev other_fcv : Api W MongoDbStatus
    other_fcv = record k { set_fcv = f }

    -- Two passes of the validation agree if the branch that commits is not reached.
    started_without_fcv :
        (desired : String) (m : MongoDb) (w : W) (start : ℤ)
        → m.status.upgrade_start_time ≡ some start
        → (sts_rollout_complete k m.name m.members w ≡ ok true
            → ltb_ℤ (k.now w -ℤ start) (parse_validation_interval k m.upgrade_strategy) ≡ true)
        → reconcile_upgrade_validation other_fcv desired m w
          ≡ reconcile_upgrade_validation k desired m w
    unfolding reconcile_upgrade_validation commit upgrade_validation_failed sts_rollout_complete
        sts_rollout_stuck parse_validation_interval
    started_without_fcv desired m w start set h = ground arith

    unstarted_without_fcv :
        (desired : String) (m : MongoDb) (w : W)
        → m.status.upgrade_start_time ≡ none
        → reconcile_upgrade_validation other_fcv desired m w
          ≡ reconcile_upgrade_validation k desired m w
    unfolding reconcile_upgrade_validation
    unstarted_without_fcv desired m w e = ground arith

    validation_without_fcv :
        (desired : String) (m : MongoDb) (w : W)
        → m.status.upgrade_phase ≡ validating
        → ¬ MayCommit m w
        → reconcile_upgrade_validation other_fcv desired m w
          ≡ reconcile_upgrade_validation k desired m w
    validation_without_fcv desired m w e h = elim (Option-cases m.status.upgrade_start_time) [
      | inl unset ↦ unstarted_without_fcv desired m w unset
      | inr (start, set) ↦ started_without_fcv desired m w start set λ complete.
          elim (Bool-cases
            (ltb_ℤ (k.now w -ℤ start) (parse_validation_interval k m.upgrade_strategy))) [
              | inl early ↦ early
              | inr late ↦ absurd (
                  h (record {
                    phase = e;
                    start = start;
                    started = set;
                    complete = complete;
                    observed = late;
                  }))
            ]
    ]

    dispatch_without_fcv :
        (p : UpgradePhase) (m : MongoDb) (w : W)
        → m.status.upgrade_phase ≡ p
        → ¬ MayCommit m w
        → dispatch other_fcv p m w ≡ dispatch k p m w
    unfolding dispatch commit reconcile_upgrade_backup reconcile_upgrade_rollback
    dispatch_without_fcv idle m w e h = refl
    dispatch_without_fcv backing_up m w e h = ground arith
    dispatch_without_fcv upgrading m w e h = refl
    dispatch_without_fcv validating m w e h = validation_without_fcv m.spec_version m w e h
    dispatch_without_fcv rolling_back m w e h = ground arith
    dispatch_without_fcv (other_phase s) m w e h = refl

    -- SetFCV is not called unless MayCommit holds: with any other function in its place the pass,
    -- behind the seed, is the same.
    pub fcv_call_needs_rollout :
        (m : MongoDb) (w : W) → ¬ MayCommit m w → orchestrate other_fcv m w ≡ orchestrate k m w
    unfolding orchestrate commit
    fcv_call_needs_rollout m w h = rw (dispatch_without_fcv m.status.upgrade_phase m w refl h)
