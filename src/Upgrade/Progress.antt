-- ===== src/Upgrade/Progress.antt =====
-- What a validation decides, what a whole rollback arrives at, and the steps of an upgrade.
use mongodb_operator.Common.{
  String, Bool, true, false, not, ◌||◌, Option, none, some, ◌≡◌, refl, arith, is_empty, str_eq,
  if◌then◌else◌,
}
use mongodb_operator.Common.Int.{ℤ, pos, ltb_ℤ, ◌-ℤ◌}
use mongodb_operator.Kube.{Api, ok}
use mongodb_operator.Mongo.{MongoDb, MongoDbStatus, idle, validating, rolling_back}
use mongodb_operator.Upgrade.Status.{
  wants_rollback, wants_backup, set_rolling_back, fail_upgrade, finish_rollback, init_upgrade,
  set_validating, complete_upgrade,
}
use mongodb_operator.Upgrade.Config.{
  fcv_major_minor, sts_rollout_complete, sts_rollout_stuck, validation_timeout,
  parse_validation_interval, one_second, no_requeue,
}
use mongodb_operator.Upgrade.Fcv.{MayCommit}
use mongodb_operator.Upgrade.Machine.{
  handled, commit, dispatch, orchestrate, reconcile_upgrade, reconcile_upgrade_validation,
  upgrade_validation_failed, reconcile_upgrade_rollback, with_upgrade, commit_fcv, is_terminal,
}

abbrev is_some {ℓ} : {A : Type ℓ} → Option A → Bool
is_some none = false
is_some (some _) = true

-- `setValidating` of Reconcile at the time `t`.
abbrev pub in_validation : ℤ → MongoDb → MongoDb
in_validation t m = with_upgrade (set_validating t m.status.upgrade) m

-- An upgrade that is validated: the versions are recorded, and the spec asks for another.
pub record IsValidating (m : MongoDb) : Type 0 where
  pub phase : m.status.upgrade_phase ≡ validating
  pub start : ℤ
  pub started : m.status.upgrade_start_time ≡ some start
  pub effective_set : is_empty m.status.effective_version ≡ false
  pub version_set : is_empty m.status.version ≡ false
  pub differ : str_eq m.status.version m.spec_version ≡ false

module _ {W : Type 0} (k : Api W MongoDbStatus) where
  -- The rollout is given up: it is stuck, or its time is over.
  abbrev pub gives_up : ℤ → MongoDb → W → Bool
  gives_up start m w =
      is_some (sts_rollout_stuck k m.name w)
      || not (
          ltb_ℤ (k.now w -ℤ start)
            (validation_timeout (parse_validation_interval k m.upgrade_strategy) m.members))

  validation_gives_up :
      (m : MongoDb) (w : W) (start : ℤ)
      → m.status.upgrade_start_time ≡ some start
      → m.status.upgrade_phase ≡ validating
      → sts_rollout_complete k m.name m.members w ≡ ok false
      → let m' = (reconcile_upgrade_validation k m.spec_version m w).1 in
        (m'.status.upgrade_phase ≡ (
          if gives_up start m w
          then (if wants_rollback m.upgrade_strategy then rolling_back else idle)
          else validating))
        × (m'.status.version ≡ m.status.version)
        × (m'.status.effective_version ≡ m.status.effective_version)
  unfolding reconcile_upgrade_validation commit upgrade_validation_failed set_rolling_back
      fail_upgrade
  validation_gives_up m w start s p r = ground arith

  validating_pass :
      (m : MongoDb) (w : W)
      → IsValidating m
      → reconcile_upgrade k m w ≡ reconcile_upgrade_validation k m.spec_version m w
  unfolding reconcile_upgrade orchestrate dispatch
  validating_pass m w v = ground (arith, v.phase)

  -- While the rollout is readable and not complete, a pass over an upgrade in the phase Validating
  -- gives up exactly when the rollout is stuck or interval + members × budget has passed: it then goes
  -- to RollingBack if the strategy asks for it and to idle if not, and else it stays in Validating. In
  -- each case the recorded and the effective version stay as they are.
  pub incomplete_rollout_decides :
      (m : MongoDb) (w : W) (v : IsValidating m)
      → sts_rollout_complete k m.name m.members w ≡ ok false
      → let m' = (reconcile_upgrade k m w).1 in
        (m'.status.upgrade_phase ≡ (
          if gives_up v.start m w
          then (if wants_rollback m.upgrade_strategy then rolling_back else idle)
          else validating))
        × (m'.status.version ≡ m.status.version)
        × (m'.status.effective_version ≡ m.status.effective_version)
  incomplete_rollout_decides m w v r =
      rw (validating_pass m w v) (validation_gives_up m w v.start v.started v.phase r)

  rolls_back :
      (m : MongoDb) (w : W)
      → m.status.upgrade_phase ≡ rolling_back
      → is_empty m.status.effective_version ≡ false
      → is_empty m.status.version ≡ false
      → is_empty m.status.previous_version ≡ false
      → str_eq m.status.version m.spec_version ≡ false
      → wants_rollback m.upgrade_strategy ≡ true
      → reconcile_upgrade k m w
        ≡ commit k (finish_rollback (k.now w) m.generation m.spec_version) (handled (pos 0)) m w
  unfolding reconcile_upgrade orchestrate dispatch reconcile_upgrade_rollback
  rolls_back m w p e v q d r = ground arith

  stuck_validation :
      (m : MongoDb) (w : W) (v : IsValidating m) (reason : String)
      → sts_rollout_complete k m.name m.members w ≡ ok false
      → sts_rollout_stuck k m.name w ≡ some reason
      → wants_rollback m.upgrade_strategy ≡ true
      → reconcile_upgrade k m w ≡ commit k set_rolling_back (handled (pos 1000000000)) m w
  unfolding reconcile_upgrade orchestrate dispatch reconcile_upgrade_validation
      upgrade_validation_failed
  stuck_validation m w v reason r s b = ground (arith, v.started, v.phase)

  -- Two passes roll a stuck upgrade back, if the strategy asks for it and a previous version is
  -- recorded: the previous version is deployed, the rollback is flagged, the generation is recorded as
  -- ended, and the recorded version, the FCV and the spec are what they were.
  pub rollback_restores :
      (m : MongoDb) (w w' : W) (v : IsValidating m) (reason : String)
      → sts_rollout_complete k m.name m.members w ≡ ok false
      → sts_rollout_stuck k m.name w ≡ some reason
      → wants_rollback m.upgrade_strategy ≡ true
      → is_empty m.status.previous_version ≡ false
      → let m' = (reconcile_upgrade k (reconcile_upgrade k m w).1 w').1 in
        (m'.status.effective_version ≡ m.status.previous_version)
        × (m'.status.rollback_active ≡ true)
        × (m'.status.upgrade_phase ≡ idle)
        × (m'.status.observed_upgrade_generation ≡ m.generation)
        × (m'.status.version ≡ m.status.version)
        × (m'.status.fcv_version ≡ m.status.fcv_version)
        × (m'.spec_version ≡ m.spec_version)
  unfolding commit set_rolling_back finish_rollback
  rollback_restores m w w' v reason r s b q =
      let back = (commit k set_rolling_back (handled (pos 1000000000)) m w).1 in
      rw (stuck_validation m w v reason r s b) (
        rw (rolls_back back w' refl v.effective_set v.version_set q v.differ b)
          (refl, refl, refl, refl, refl, refl, refl))

  pub starts :
      (m : MongoDb) (w : W)
      → m.status.upgrade_phase ≡ idle
      → is_empty m.status.effective_version ≡ false
      → is_empty m.status.version ≡ false
      → str_eq m.status.version m.spec_version ≡ false
      → is_terminal m ≡ false
      → wants_backup m.upgrade_strategy ≡ false
      → reconcile_upgrade k m w
        ≡ commit k
            (init_upgrade (k.now w) m.status.version m.spec_version m.upgrade_strategy)
            (handled one_second)
            m
            w
  unfolding reconcile_upgrade orchestrate dispatch
  starts m w p e v d t b = ground arith

  pub completes :
      (m : MongoDb) (w : W) (fcv : String)
      → IsValidating m
      → MayCommit k m w
      → (commit_fcv k m.spec_version m w).0 ≡ ok fcv
      → let done = (commit_fcv k m.spec_version m w).1 in
        reconcile_upgrade k m w
        ≡ commit k
            (complete_upgrade (k.now done) m.generation m.spec_version fcv)
            (handled no_requeue)
            m
            done
  unfolding reconcile_upgrade orchestrate dispatch reconcile_upgrade_validation
  completes m w fcv v c f = ground (arith, v.started, v.phase, c.started, c.complete, c.observed)

  pub commit_fcv_value :
      (desired : String) (m : MongoDb) (w : W) {fcv : String}
      → (commit_fcv k desired m w).0 ≡ ok fcv
      → fcv_major_minor desired ≡ fcv
  unfolding commit_fcv
  commit_fcv_value desired m w e = ground arith

  -- What the first pass leaves.
  abbrev pub begun : MongoDb → W → MongoDb
  begun m w =
      with_upgrade
        (init_upgrade (k.now w) m.status.version m.spec_version m.upgrade_strategy m.status.upgrade)
        m

  pub begun-IsValidating :
      (m : MongoDb) (w : W) (t : ℤ)
      → is_empty m.spec_version ≡ false
      → is_empty m.status.version ≡ false
      → str_eq m.status.version m.spec_version ≡ false
      → IsValidating (in_validation t (begun m w))
  unfolding init_upgrade set_validating
  begun-IsValidating m w t s v d = record {
    phase = refl;
    start = t;
    started = refl;
    effective_set = s;
    version_set = v;
    differ = d;
  }
