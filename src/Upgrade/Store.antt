-- ===== src/Upgrade/Store.antt =====
-- The status in the API server follows the status in memory.
use mongodb_operator.Common.{
  String, Bool, true, false, Option, none, some, ◌≡◌, refl, ap, ◌∙◌, arith, is_empty, ◌||◌,
  if◌then◌else◌,
}
use mongodb_operator.Common.Int.{ℤ, ltb_ℤ, ◌-ℤ◌}
use mongodb_operator.Kube.{Api, Outcome, ok, err}
use mongodb_operator.Kube.Exec.{resume}
use mongodb_operator.Mongo.{
  MongoDb, MongoDbStatus, UpgradeStatus, UpgradePhase, idle, backing_up, upgrading, validating,
  rolling_back, other_phase,
}
use mongodb_operator.Upgrade.Status.{seed}
use mongodb_operator.Upgrade.Machine.{
  Step, proceed, handled, commit, dispatch, orchestrate, reconcile_upgrade,
  reconcile_upgrade_backup, reconcile_upgrade_validation, upgrade_validation_failed,
  reconcile_upgrade_rollback, commit_fcv, with_upgrade, on_backup, finish_upgrade, on_stuck,
  on_rollout, on_start_time, backup_name,
}

-- What is relied on of the API server: a successful UpdateWithRetry stores the mutated status, and
-- creating a backup or raising the FCV does not touch the stored status of the object.
pub record IsStore {W : Type 0} (k : Api W MongoDbStatus) (stored : W → MongoDbStatus)
    : Type 0 where
  pub update_stores :
      (s : MongoDbStatus) (w : W)
      → (k.update_status s w).0 ≡ none
      → stored (k.update_status s w).1 ≡ s
  pub create_backup_keeps :
      (name cluster kind : String) (w : W)
      → stored (k.create_backup name cluster kind w).1 ≡ stored w
  pub set_fcv_keeps :
      (pod fcv password : String) (w : W) → stored (k.set_fcv pod fcv password w).1 ≡ stored w

module _ {W : Type 0} (k : Api W MongoDbStatus) (stored : W → MongoDbStatus)
    (store : IsStore k stored) where
  -- A result with no error leaves the stored status equal to the one in memory, and of the object only
  -- the upgrade fields of the status are changed.
  pub record InSync (m : MongoDb) (r : Outcome Step × MongoDb × W) : Type 0 where
    pub synced : (step : Step) → r.0 ≡ ok step → stored r.2 ≡ r.1.status
    pub frame : r.1 ≡ with_upgrade r.1.status.upgrade m

  commit-InSync :
      (f : UpgradeStatus → UpgradeStatus) (step : Step) (m : MongoDb) (w : W)
      → InSync m (commit k f step m w)
  unfolding commit
  commit-InSync f step m w = record {
    synced =
        λ s e. ground (arith, store.update_stores (with_upgrade (f m.status.upgrade) m).status w);
    frame = refl;
  }

  -- A result that changes nothing.
  stay-InSync : (r : Outcome Step) (m : MongoDb) (w : W) → stored w ≡ m.status → InSync m (r, m, w)
  stay-InSync r m w h = record { synced = λ s e. h; frame = refl }

  if-InSync :
      (b : Bool) (m : MongoDb) (x y : Outcome Step × MongoDb × W)
      → InSync m x
      → InSync m y
      → InSync m (if b then x else y)
  if-InSync true m x y hx hy = hx
  if-InSync false m x y hx hy = hy

  ruleset in_sync = (commit-InSync, stay-InSync, if-InSync)

  commit_fcv_keeps :
      (desired : String) (m : MongoDb) (w : W) → stored (commit_fcv k desired m w).1 ≡ stored w
  unfolding commit_fcv
  commit_fcv_keeps desired m w = grind (arith, store.set_fcv_keeps)

  rollback-InSync : (m : MongoDb) (w : W) → InSync m (reconcile_upgrade_rollback k m w)
  unfolding reconcile_upgrade_rollback
  rollback-InSync m w = search in_sync

  failed-InSync :
      (desired reason : String) (m : MongoDb) (w : W)
      → InSync m (upgrade_validation_failed k desired reason m w)
  unfolding upgrade_validation_failed
  failed-InSync desired reason m w = search in_sync

  on_backup-InSync :
      (desired : String) (o : Outcome String) (m : MongoDb) (w : W)
      → stored w ≡ m.status
      → InSync m (on_backup k desired o m w)
  on_backup-InSync desired (ok phase) m w h = search in_sync
  on_backup-InSync desired (err e) m w h =
      stay-InSync _ m _ (store.create_backup_keeps (backup_name desired m) m.name "MongoDB" w ∙ h)

  finish-InSync :
      (desired : String) (r : Outcome String × W) (m : MongoDb)
      → stored r.1 ≡ m.status
      → InSync m (finish_upgrade k desired r m)
  finish-InSync desired (ok fcv, w) m h = commit-InSync _ _ m w
  finish-InSync desired (err e, w) m h = stay-InSync _ m w h

  on_stuck-InSync :
      (desired : String) (elapsed timeout : ℤ) (o : Option String) (m : MongoDb) (w : W)
      → stored w ≡ m.status
      → InSync m (on_stuck k desired elapsed timeout o m w)
  on_stuck-InSync desired elapsed timeout none m w h = search (in_sync, failed-InSync)
  on_stuck-InSync desired elapsed timeout (some r) m w h = search (in_sync, failed-InSync)

  on_rollout-InSync :
      (desired : String) (interval elapsed : ℤ) (o : Outcome Bool) (m : MongoDb) (w : W)
      → stored w ≡ m.status
      → InSync m (on_rollout k desired interval elapsed o m w)
  on_rollout-InSync desired interval elapsed (err e) m w h = stay-InSync _ m w h
  on_rollout-InSync desired interval elapsed (ok true) m w h =
      let early : Outcome Step = ok (handled (interval -ℤ elapsed)) in
      let committed = commit_fcv k desired m w in
      if-InSync (ltb_ℤ elapsed interval) m (early, m, w) (finish_upgrade k desired committed m)
        (stay-InSync early m w h)
        (finish-InSync desired committed m (commit_fcv_keeps desired m w ∙ h))
  on_rollout-InSync desired interval elapsed (ok false) m w h = search on_stuck-InSync

  on_start_time-InSync :
      (desired : String) (o : Option ℤ) (m : MongoDb) (w : W)
      → stored w ≡ m.status
      → InSync m (on_start_time k desired o m w)
  on_start_time-InSync desired none m w h = stay-InSync _ m w h
  on_start_time-InSync desired (some start) m w h = search on_rollout-InSync

  dispatch-InSync :
      (p : UpgradePhase) (m : MongoDb) (w : W) → stored w ≡ m.status → InSync m (dispatch k p m w)
  unfolding dispatch reconcile_upgrade_backup reconcile_upgrade_validation
  dispatch-InSync idle m w h = commit-InSync _ _ m w
  dispatch-InSync backing_up m w h = search on_backup-InSync
  dispatch-InSync upgrading m w h = stay-InSync _ m w h
  dispatch-InSync validating m w h = search on_start_time-InSync
  dispatch-InSync rolling_back m w h = rollback-InSync m w
  dispatch-InSync (other_phase s) m w h = stay-InSync _ m w h

  orchestrate-InSync : (m : MongoDb) (w : W) → stored w ≡ m.status → InSync m (orchestrate k m w)
  unfolding orchestrate
  orchestrate-InSync m w h = search (in_sync, dispatch-InSync)

  -- The rest of the pass, behind the seed.
  resume-InSync :
      (o : Outcome Step) (m m' : MongoDb) (w : W)
      → ((step : Step) → o ≡ ok step → stored w ≡ m'.status)
      → m' ≡ with_upgrade m'.status.upgrade m
      → InSync m (resume o (λ _. orchestrate k) m' w)
  resume-InSync (err e) m m' w synced frame = record { synced = λ s f. synced s f; frame = frame }
  resume-InSync (ok step) m m' w synced frame =
      let rest = orchestrate-InSync m' w (synced step refl) in
      record {
        synced = rest.synced;
        frame =
            rest.frame
            ∙ ap (λ (x : MongoDb). with_upgrade (orchestrate k m' w).1.status.upgrade x) frame;
      }

  -- A pass of reconcileUpgrade over an object whose status is the stored one: if it returns no error,
  -- the stored status is the one in memory again, so nothing that the pass decided is lost or only
  -- half written; and with an error or without, nothing of the object but the upgrade fields of its
  -- status is changed. The spec in particular stays as the user wrote it.
  pub reconcile_upgrade-InSync :
      (m : MongoDb) (w : W) → stored w ≡ m.status → InSync m (reconcile_upgrade k m w)
  unfolding reconcile_upgrade
  reconcile_upgrade-InSync m w h =
      let seeding = commit k (seed m.spec_version) proceed m w in
      let seeded = commit-InSync (seed m.spec_version) proceed m w in
      if-InSync (is_empty m.status.effective_version || is_empty m.status.version) m
        (resume seeding.0 (λ _. orchestrate k) seeding.1 seeding.2) (orchestrate k m w)
        (resume-InSync seeding.0 m seeding.1 seeding.2 seeded.synced seeded.frame)
        (orchestrate-InSync m w h)
