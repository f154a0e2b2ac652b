-- ===== src/Upgrade/Terminal.antt =====
-- An upgrade that has ended is not started again for the same generation of the spec.
use mongodb_operator.Common.{true, false, ◌≡◌, ◌⊎◌, refl, arith, is_empty, str_eq, ◌==◌, ◌||◌}
use text.Mathlib.TextPositions.{eq_refl}
use mongodb_operator.Kube.{Api, ok}
use mongodb_operator.Mongo.{
  MongoDb, MongoDbStatus, UpgradePhase, idle, backing_up, upgrading, validating, rolling_back,
  other_phase,
}
use mongodb_operator.Upgrade.Status.{
  clear_upgrade, set_rolling_back, fail_upgrade, finish_rollback, complete_upgrade,
}
use mongodb_operator.Upgrade.Seeded.{reconcile_upgrade_seeded}
use mongodb_operator.Upgrade.Machine.{
  proceed, commit, dispatch, orchestrate, reconcile_upgrade, reconcile_upgrade_validation,
  upgrade_validation_failed, reconcile_upgrade_rollback, is_terminal,
}

-- The versions that an upgrade under way has recorded, and a generation of the spec.
pub record IsUnderWay (m : MongoDb) : Type 0 where
  pub version_set : is_empty m.status.version ≡ false
  pub effective_set : is_empty m.status.effective_version ≡ false
  pub previous_set : is_empty m.status.previous_version ≡ false
  pub spec_set : is_empty m.spec_version ≡ false
  pub generation_set : (m.generation == 0) ≡ false

-- Nothing is left to do: the phase is idle, and the version is the desired one or the attempt for
-- this generation has ended.
pub record IsSettled (m : MongoDb) : Type 0 where
  pub idle_phase : m.status.upgrade_phase ≡ idle
  pub version_set : is_empty m.status.version ≡ false
  pub effective_set : is_empty m.status.effective_version ≡ false
  pub ended : (str_eq m.status.version m.spec_version || is_terminal m) ≡ true

-- A pass over a settled object does nothing.
pub IsSettled-proceed :
    {W : Type 0} (k : Api W MongoDbStatus) (m : MongoDb) (w : W)
    → IsSettled m
    → reconcile_upgrade k m w ≡ (ok proceed, m, w)
unfolding reconcile_upgrade orchestrate
IsSettled-proceed k m w s = ground arith

module _ {W : Type 0} (k : Api W MongoDbStatus) where
  rollback-IsSettled :
      (m : MongoDb) (w : W)
      → IsUnderWay m
      → m.status.upgrade_phase ≡ rolling_back
      → IsSettled (reconcile_upgrade_rollback k m w).1
  unfolding reconcile_upgrade_rollback commit fail_upgrade finish_rollback clear_upgrade
  rollback-IsSettled m w u e = ground arith

  validation-IsSettled :
      (m : MongoDb) (w : W)
      → IsUnderWay m
      → m.status.upgrade_phase ≡ validating
      → (reconcile_upgrade_validation k m.spec_version m w).1.status.upgrade_phase ≡ idle
      → IsSettled (reconcile_upgrade_validation k m.spec_version m w).1
  unfolding reconcile_upgrade_validation commit upgrade_validation_failed set_rolling_back
      fail_upgrade complete_upgrade
  validation-IsSettled m w u e h = ground (arith, eq_refl m.spec_version)

  dispatch-IsSettled :
      (p : UpgradePhase) (m : MongoDb) (w : W)
      → IsUnderWay m
      → m.status.upgrade_phase ≡ p
      → (p ≡ validating) ⊎ (p ≡ rolling_back)
      → (dispatch k p m w).1.status.upgrade_phase ≡ idle
      → IsSettled (dispatch k p m w).1
  unfolding dispatch
  dispatch-IsSettled validating m w u e a h = validation-IsSettled m w u e h
  dispatch-IsSettled rolling_back m w u e a h = rollback-IsSettled m w u e
  dispatch-IsSettled idle m w u e a h = ground arith
  dispatch-IsSettled backing_up m w u e a h = ground arith
  dispatch-IsSettled upgrading m w u e a h = ground arith
  dispatch-IsSettled (other_phase s) m w u e a h = ground arith

  orchestrate-IsSettled :
      (m : MongoDb) (w : W)
      → IsUnderWay m
      → (m.status.upgrade_phase ≡ validating) ⊎ (m.status.upgrade_phase ≡ rolling_back)
      → (orchestrate k m w).1.status.upgrade_phase ≡ idle
      → IsSettled (orchestrate k m w).1
  unfolding orchestrate commit clear_upgrade
  orchestrate-IsSettled m w u a h =
      ground (arith, dispatch-IsSettled m.status.upgrade_phase m w u refl a)

-- When a pass over a cluster in the phase Validating or RollingBack leaves the phase idle, with any
-- outcome (completed, failed, rolled back, or cancelled), then every later pass with the same spec
-- generation does nothing: it proceeds, and leaves the object and the world as they are. It is
-- supposed that the status has a version, an effective and a previous version, that the spec has a
-- version, and that the generation is not 0.
pub ended_stays_ended :
    {W : Type 0} (k later : Api W MongoDbStatus) (m : MongoDb) (w w' : W)
    → IsUnderWay m
    → (m.status.upgrade_phase ≡ validating) ⊎ (m.status.upgrade_phase ≡ rolling_back)
    → (reconcile_upgrade k m w).1.status.upgrade_phase ≡ idle
    → reconcile_upgrade later (reconcile_upgrade k m w).1 w'
      ≡ (ok proceed, (reconcile_upgrade k m w).1, w')
ended_stays_ended k later m w w' u a h =
    let same = reconcile_upgrade_seeded k m w u.effective_set u.version_set in
    IsSettled-proceed later (reconcile_upgrade k m w).1 w'
      (rw same (orchestrate-IsSettled k m w u a (rw same at h)))
