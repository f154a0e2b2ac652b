-- ===== src/Upgrade/Moves.antt =====
-- The life of an upgrade: the passes of the operator, the edits of the user, and what Reconcile
-- does to the status between them. Every object that is reached satisfies an invariant.
use mongodb_operator.Common.{
  ◌+◌, ◌≤◌, String, Bool, true, false, Option, none, List, ◌≡◌, ◌≢◌, refl, arith, is_empty, ◌||◌,
  if◌then◌else◌,
}
use mongodb_operator.Common.Int.{ℤ}
use mongodb_operator.Kube.{Api, Condition, Outcome, ok, err}
use mongodb_operator.Kube.Exec.{resume}
use mongodb_operator.Mongo.{
  MongoDb, MongoDbStatus, UpgradeStrategy, UpgradePhase, idle, backing_up, upgrading, validating,
  rolling_back, other_phase,
}
use mongodb_operator.Upgrade.Status.{
  seed, clear_upgrade, init_upgrade, set_upgrading, abort_upgrade, set_rolling_back, fail_upgrade,
  finish_rollback, complete_upgrade, set_validating,
}
use mongodb_operator.Upgrade.Machine.{
  Step, proceed, commit, dispatch, orchestrate, reconcile_upgrade, reconcile_upgrade_backup,
  reconcile_upgrade_validation, upgrade_validation_failed, reconcile_upgrade_rollback, with_upgrade,
  is_idle,
}

-- An upgrade under way knows the version to go back to and its start time; no generation is
-- recorded that the spec has not had; and a rollback in effect deploys the previous version.
pub record IsCoherent (m : MongoDb) : Type 0 where
  pub previous_set :
      is_idle m.status.upgrade_phase ≡ false → is_empty m.status.previous_version ≡ false
  pub started : is_idle m.status.upgrade_phase ≡ false → m.status.upgrade_start_time ≢ none
  pub observed : m.status.observed_upgrade_generation ≤ m.generation
  pub rolled_back :
      m.status.rollback_active ≡ true → m.status.effective_version ≡ m.status.previous_version
  pub rolled_back_set : m.status.rollback_active ≡ true → is_empty m.status.previous_version ≡ false

-- One move. `pass` is reconcileUpgrade with any outside; `rolled_out` is step 5.0.1 of Reconcile,
-- behind the apply of the StatefulSet; `report` is updateStatus, which runs only when no upgrade is
-- under way; `edit` is a change of the spec by the user.
pub data Move : MongoDb → MongoDb → Type 1 where
  pass :
      {W : Type 0} (k : Api W MongoDbStatus) (m : MongoDb) (w : W)
      → Move m (reconcile_upgrade k m w).1
  rolled_out :
      (now : ℤ) (m : MongoDb)
      → m.status.upgrade_phase ≡ upgrading
      → Move m (with_upgrade (set_validating now m.status.upgrade) m)
  report :
      (conditions : List Condition) (m : MongoDb)
      → m.status.upgrade_phase ≡ idle
      → Move m (
          with_upgrade
            (record m.status.upgrade { version = m.spec_version; conditions = conditions })
            m)
  edit :
      (version : String) (strategy : Option UpgradeStrategy) (m : MongoDb)
      → Move m (record m {
        spec_version = version;
        upgrade_strategy = strategy;
        generation = m.generation + 1;
      })

pub data Reach (m : MongoDb) : MongoDb → Type 1 where
  here : Reach m m
  next : {a b : MongoDb} → Reach m a → Move a b → Reach m b

module _ {W : Type 0} (k : Api W MongoDbStatus) where
  commit-seed-IsCoherent :
      (m : MongoDb) (w : W)
      → IsCoherent m
      → IsCoherent (commit k (seed m.spec_version) proceed m w).1
  unfolding commit seed
  commit-seed-IsCoherent m w c = ground arith

  rollback-IsCoherent :
      (m : MongoDb) (w : W) → IsCoherent m → IsCoherent (reconcile_upgrade_rollback k m w).1
  unfolding reconcile_upgrade_rollback commit clear_upgrade fail_upgrade finish_rollback
  rollback-IsCoherent m w c = ground arith

  backup-IsCoherent :
      (m : MongoDb) (w : W)
      → m.status.upgrade_phase ≡ backing_up
      → IsCoherent m
      → IsCoherent (reconcile_upgrade_backup k m.spec_version m w).1
  unfolding reconcile_upgrade_backup commit set_upgrading abort_upgrade
  backup-IsCoherent m w e c = ground arith

  validation-IsCoherent :
      (m : MongoDb) (w : W)
      → m.status.upgrade_phase ≡ validating
      → IsCoherent m
      → IsCoherent (reconcile_upgrade_validation k m.spec_version m w).1
  unfolding reconcile_upgrade_validation commit upgrade_validation_failed set_rolling_back
      fail_upgrade complete_upgrade
  validation-IsCoherent m w e c = ground arith

  dispatch-IsCoherent :
      (p : UpgradePhase) (m : MongoDb) (w : W)
      → m.status.upgrade_phase ≡ p
      → is_empty m.status.version ≡ false
      → IsCoherent m
      → IsCoherent (dispatch k p m w).1
  unfolding dispatch commit init_upgrade
  dispatch-IsCoherent idle m w e v c = ground arith
  dispatch-IsCoherent backing_up m w e v c = backup-IsCoherent m w e c
  dispatch-IsCoherent upgrading m w e v c = c
  dispatch-IsCoherent validating m w e v c = validation-IsCoherent m w e c
  dispatch-IsCoherent rolling_back m w e v c = rollback-IsCoherent m w c
  dispatch-IsCoherent (other_phase s) m w e v c = c

  orchestrate-IsCoherent : (m : MongoDb) (w : W) → IsCoherent m → IsCoherent (orchestrate k m w).1
  unfolding orchestrate commit clear_upgrade
  orchestrate-IsCoherent m w c = ground (arith, dispatch-IsCoherent m.status.upgrade_phase m w refl)

  resume-IsCoherent :
      (o : Outcome Step) (m : MongoDb) (w : W)
      → IsCoherent m
      → IsCoherent (resume o (λ _. orchestrate k) m w).1
  resume-IsCoherent (ok step) m w c = orchestrate-IsCoherent m w c
  resume-IsCoherent (err e) m w c = c

  if-IsCoherent :
      (b : Bool) (x y : Outcome Step × MongoDb × W)
      → IsCoherent x.1
      → IsCoherent y.1
      → IsCoherent (if b then x else y).1
  if-IsCoherent true x y hx hy = hx
  if-IsCoherent false x y hx hy = hy

  reconcile_upgrade-IsCoherent :
      (m : MongoDb) (w : W) → IsCoherent m → IsCoherent (reconcile_upgrade k m w).1
  unfolding reconcile_upgrade
  reconcile_upgrade-IsCoherent m w c =
      let seeding = commit k (seed m.spec_version) proceed m w in
      if-IsCoherent (is_empty m.status.effective_version || is_empty m.status.version)
        (resume seeding.0 (λ _. orchestrate k) seeding.1 seeding.2) (orchestrate k m w)
        (resume-IsCoherent seeding.0 seeding.1 seeding.2 (commit-seed-IsCoherent m w c))
        (orchestrate-IsCoherent m w c)

Move-IsCoherent : {a b : MongoDb} → Move a b → IsCoherent a → IsCoherent b
unfolding set_validating
Move-IsCoherent (pass k m w) c = reconcile_upgrade-IsCoherent k m w c
Move-IsCoherent (rolled_out now m e) c = ground arith
Move-IsCoherent (report conditions m e) c = ground arith
Move-IsCoherent (edit version strategy m) c = ground arith

-- Whatever passes, edits and reports follow one another, with any answers and failures of the outside,
-- a coherent object stays coherent: an upgrade under way has a previous version to go back to and a
-- start time, so that its validation can time out; no generation is recorded as ended that the spec
-- has not had; and while a rollback is in effect the previous version is the deployed one.
pub Reach-IsCoherent : {a b : MongoDb} → IsCoherent a → Reach a b → IsCoherent b
Reach-IsCoherent c here = c
Reach-IsCoherent c (next r step) = Move-IsCoherent step (Reach-IsCoherent c r)
