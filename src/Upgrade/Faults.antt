-- ===== src/Upgrade/Faults.antt =====
-- Cases in which the upgrade code does not do what its comments promise.
use mongodb_operator.Common.{
  String, true, false, none, ◌≡◌, ◌≢◌, sym, ap, ◌∙◌, arith, is_empty, eq_iff, str_eq, ◌==◌, ◌&&◌,
  not, List,
}
use mathlib.Core.Path.{subst}
use mongodb_operator.Kube.{Api, Outcome, ok, StatefulSet, Pod}
use mongodb_operator.Mongo.{MongoDb, MongoDbStatus, ShardedStatus, idle, backing_up}
use mongodb_operator.Upgrade.Status.{
  clear_upgrade, init_upgrade, abort_upgrade, complete_upgrade, wants_backup,
}
use mongodb_operator.Upgrade.Config.{no_requeue, one_second, fcv_major_minor}
use mongodb_operator.Upgrade.Fcv.{MayCommit}
use mongodb_operator.Upgrade.Machine.{
  Step, proceed, handled, commit, dispatch, orchestrate, reconcile_upgrade,
  reconcile_upgrade_backup, reconcile_upgrade_validation, backup_name, commit_fcv,
}
use mongodb_operator.Upgrade.Sharded

module _ {W : Type 0} (k : Api W MongoDbStatus) where
  -- An upgrade that waits for a backup which has failed: the writes of the status succeed, and the
  -- versions are recorded and differ from the spec.
  pub record HasFailedBackup (m : MongoDb) : Type 0 where
    pub waits : m.status.upgrade_phase ≡ backing_up
    pub wanted : wants_backup m.upgrade_strategy ≡ true
    pub failed : (w : W) → k.get_backup (backup_name m.spec_version m) w ≡ ok "Failed"
    pub writes : (s : MongoDbStatus) (w : W) → (k.update_status s w).0 ≡ none
    pub effective_set : is_empty m.status.effective_version ≡ false
    pub version_set : is_empty m.status.version ≡ false
    pub spec_set : is_empty m.spec_version ≡ false
    pub differ : str_eq m.status.version m.spec_version ≡ false
    pub not_observed :
        (m.status.observed_upgrade_generation == m.generation
          && not (m.status.observed_upgrade_generation == 0))
        ≡ false

  abbrev after : MongoDb → W → MongoDb
  after m w = (reconcile_upgrade k m w).1

  aborts :
      (m : MongoDb) (w : W)
      → HasFailedBackup m
      → reconcile_upgrade k m w ≡ commit k (abort_upgrade (k.now w)) (handled no_requeue) m w
  unfolding reconcile_upgrade orchestrate dispatch reconcile_upgrade_backup
  aborts m w h = ground (arith, h.failed w)

  restarts :
      (m : MongoDb) (w w' : W)
      → HasFailedBackup m
      → let m' = (commit k (abort_upgrade (k.now w)) (handled no_requeue) m w).1 in
        reconcile_upgrade k m' w'
        ≡ commit k
            (init_upgrade (k.now w') m'.status.version m'.spec_version m'.upgrade_strategy)
            (handled one_second)
            m'
            w'
  unfolding reconcile_upgrade orchestrate dispatch commit abort_upgrade
  restarts m w w' h = ground arith

  abbrev aborted : MongoDb → W → MongoDb
  aborted m w = (commit k (abort_upgrade (k.now w)) (handled no_requeue) m w).1

  abbrev restarted : MongoDb → W → W → MongoDb
  restarted m w w' =
      let m' = aborted m w in
      (commit k (init_upgrade (k.now w') m'.status.version m'.spec_version m'.upgrade_strategy)
        (handled one_second) m' w').1

  restarted-HasFailedBackup :
      (m : MongoDb) (w w' : W) → HasFailedBackup m → HasFailedBackup (restarted m w w')
  unfolding commit abort_upgrade init_upgrade
  restarted-HasFailedBackup m w w' h = record {
    waits = ground arith;
    wanted = h.wanted;
    failed = h.failed;
    writes = h.writes;
    effective_set = h.spec_set;
    version_set = h.version_set;
    spec_set = h.spec_set;
    differ = h.differ;
    not_observed = h.not_observed;
  }

  -- After a failed backup the upgrade is aborted and the next pass starts it again, for the same
  -- generation: the first pass goes to idle, and the second one is back in the phase BackingUp with
  -- the same generation and the same failed backup.
  pub failed_backup_restarts :
      (m : MongoDb) (w w' : W)
      → HasFailedBackup m
      → ((after m w).status.upgrade_phase ≡ idle)
        × (HasFailedBackup (after (after m w) w'))
        × ((after (after m w) w').generation ≡ m.generation)
  unfolding commit abort_upgrade init_upgrade
  failed_backup_restarts m w w' h =
      let first : after m w ≡ aborted m w =
        ap (λ (r : Outcome Step × MongoDb × W). r.1) (aborts m w h) in
      let second : after (after m w) w' ≡ restarted m w w' =
        ap (λ (x : MongoDb). after x w') first
        ∙ ap (λ (r : Outcome Step × MongoDb × W). r.1) (restarts m w w' h) in
      (
        ap (λ (x : MongoDb). x.status.upgrade_phase) first,
        subst (λ (x : MongoDb). HasFailedBackup x) (sym second)
            (restarted-HasFailedBackup m w w' h),
        ap (λ (x : MongoDb). x.generation) second,
      )

  -- A spec that is changed while the cluster is validated: `MayCommit` speaks of the StatefulSet that
  -- was built for the effective version. If the FCV of the new version is the recorded one (a patch
  -- release), then the pass records the new version as the upgraded one, though the version that was
  -- rolled out and validated is another.
  pub completes_undeployed_version :
      (m : MongoDb) (w : W)
      → MayCommit k m w
      → is_empty m.status.version ≡ false
      → str_eq m.status.version m.spec_version ≡ false
      → is_empty (fcv_major_minor m.spec_version) ≡ false
      → str_eq m.status.fcv_version (fcv_major_minor m.spec_version) ≡ true
      → m.status.effective_version ≢ m.spec_version
      → ((orchestrate k m w).1.status.version ≡ m.spec_version)
        × ((orchestrate k m w).1.status.upgrade_phase ≡ idle)
  unfolding orchestrate dispatch reconcile_upgrade_validation commit_fcv commit complete_upgrade
  completes_undeployed_version m w c set differ fcv same other =
      ground (arith, c.phase, c.started, c.complete, c.observed)

  -- A spec that is changed back to the current version while an upgrade is under way: the upgrade is
  -- cancelled, the effective version stays the abandoned one, and every later pass leaves it so.
  pub cancelled_keeps_effective :
      (later : Api W MongoDbStatus) (m : MongoDb) (w w' : W)
      → is_empty m.status.effective_version ≡ false
      → is_empty m.status.version ≡ false
      → m.status.version ≡ m.spec_version
      → m.status.effective_version ≢ m.spec_version
      → (reconcile_upgrade later (after m w) w' ≡ (ok proceed, after m w, w'))
        × ((after m w).status.effective_version ≢ (after m w).spec_version)
  unfolding reconcile_upgrade orchestrate commit clear_upgrade
  cancelled_keeps_effective later m w w' e v same other = (
    ground (arith, eq_iff m.status.version m.spec_version),
    ground (arith, eq_iff m.status.version m.spec_version),
  )

module _ {W : Type 0} (k : Api W ShardedStatus) (sets : String → W → Outcome StatefulSet)
    (pods : String → W → Outcome (List Pod)) where
  abbrev pub other_cluster : Api W ShardedStatus
  other_cluster = record k { get_stateful_set = sets; list_pods = pods }
