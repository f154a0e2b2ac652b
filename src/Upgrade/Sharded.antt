-- ===== src/Upgrade/Sharded.antt =====
-- The handlers of sharded_upgrade.go. They differ from those of upgrade.go in what a failed look-up
-- of the backup means, and in what the validation looks at.
use mongodb_operator.Common.{
  ℕ, ◌+◌, ◌*◌, ◌%◌, ◌^◌, String, Bool, true, false, not, ◌&&◌, ◌||◌, Option, none, some, List, [],
  ◌∷◌, str_eq, ◌==◌, leb, ltb, if◌then◌else◌, is_empty,
}
use mongodb_operator.Common.Int.{ℤ, ltb_ℤ, ◌-ℤ◌}
use mongodb_operator.Kube.{Api, ApiError, not_found, Error, api, wrapped, text, Outcome, ok, err}
use mongodb_operator.Kube.Exec.{Exec, or_error, ◌>>◌}
use mongodb_operator.Mongo.{
  MongoDbSharded, ShardedStatus, ShardStatus, UpgradeStatus, UpgradePhase, idle, backing_up,
  upgrading, validating, rolling_back, other_phase,
}
use mongodb_operator.Upgrade.Status.{
  ◌+++◌, seed, clear_upgrade, wants_rollback, init_upgrade, set_upgrading, abort_upgrade,
  complete_upgrade, set_rolling_back, fail_upgrade, finish_rollback,
}
use mongodb_operator.Upgrade.Config.{
  fcv_major_minor, upgrade_requeue_interval, one_second, no_requeue, validation_timeout,
  parse_validation_interval, get_admin_password, get_mongos_pod,
}
use mongodb_operator.Upgrade.Machine.{Step, proceed, handled, is_idle}

abbrev pub with_upgrade : UpgradeStatus → MongoDbSharded → MongoDbSharded
with_upgrade u m = record m { status = record m.status { upgrade = u } }

-- `allReady` of the validation: what the status has recorded of the components.
unfoldable pub shards_ready : List ShardStatus → Bool
shards_ready [] = true
shards_ready (s ∷ ss) = leb s.total s.ready && shards_ready ss

unfoldable pub all_ready : ShardedStatus → Bool
unfolding shards_ready
all_ready s =
    leb s.config_server.total s.config_server.ready
    && (leb s.mongos.total s.mongos.ready && shards_ready s.shards)

-- `IsNotFound(err)`, of the error of a Get.
abbrev pub is_not_found : Error → Bool
is_not_found (api not_found) = true
is_not_found _ = false

-- The name of the backup that is taken before an upgrade.
abbrev pub backup_name : String → MongoDbSharded → String
backup_name desired m = m.name +++ "-pre-upgrade-" +++ desired

-- An upgrade of this generation has ended.
abbrev pub is_terminal : MongoDbSharded → Bool
is_terminal m =
    is_idle m.status.upgrade_phase
    && (m.status.observed_upgrade_generation == m.generation
        && not (m.status.observed_upgrade_generation == 0))

module _ {W : Type 0} (k : Api W ShardedStatus) where
  unfoldable pub commit : (UpgradeStatus → UpgradeStatus) → Step → Exec MongoDbSharded W Step
  commit f step m w =
      let m' = with_upgrade (f m.status.upgrade) m in
      let (e, w') = k.update_status m'.status w in (or_error e step, m', w')

  abbrev set_fcv_result : String → Option ApiError × W → Outcome String × W
  set_fcv_result fcv (e, w) = (or_error e fcv, w)

  abbrev set_fcv_on : String → String → Outcome String → W → Outcome String × W
  set_fcv_on fcv password (err e) w = (err (wrapped "get mongos pod for FCV commit" e), w)
  set_fcv_on fcv password (ok pod) w = set_fcv_result fcv (k.set_fcv pod fcv password w)

  abbrev set_fcv_with : String → String → Outcome String → W → Outcome String × W
  set_fcv_with name fcv (err e) w = (err (wrapped "get admin password for FCV commit" e), w)
  set_fcv_with name fcv (ok password) w = set_fcv_on fcv password (get_mongos_pod k name w) w

  -- commitShardedFCV
  unfoldable pub commit_sharded_fcv : String → MongoDbSharded → W → Outcome String × W
  commit_sharded_fcv desired m w =
      let fcv = fcv_major_minor desired in
      if is_empty fcv
      then (err (text "cannot derive FCV from version" desired), w)
      else if str_eq m.status.fcv_version fcv
      then (ok fcv, w)
      else set_fcv_with m.name fcv (get_admin_password k m.admin_secret w) w

  abbrev pub created : MongoDbSharded → Option ApiError × W → Outcome Step × MongoDbSharded × W
  created m (e, w) = (or_error e (handled upgrade_requeue_interval), m, w)

  abbrev pub on_backup_phase : String → Exec MongoDbSharded W Step
  on_backup_phase phase m w =
      if str_eq phase "Completed"
      then commit set_upgrading (handled one_second) m w
      else if str_eq phase "Failed"
      then commit (abort_upgrade (k.now w)) (handled no_requeue) m w
      else (ok (handled upgrade_requeue_interval), m, w)

  abbrev pub on_backup : String → Outcome String → Exec MongoDbSharded W Step
  on_backup desired (err e) m w =
      if is_not_found e
      then created m (k.create_backup (backup_name desired m) m.name "MongoDBSharded" w)
      else (err e, m, w)
  on_backup desired (ok phase) m w = on_backup_phase phase m w

  -- reconcileShardedUpgradeBackup
  unfoldable pub reconcile_sharded_upgrade_backup : String → Exec MongoDbSharded W Step
  reconcile_sharded_upgrade_backup desired m w =
      on_backup desired (k.get_backup (backup_name desired m) w) m w

  abbrev pub finish_upgrade :
      String → Outcome String × W → MongoDbSharded → Outcome Step × MongoDbSharded × W
  finish_upgrade desired (err _, w) m = (ok (handled upgrade_requeue_interval), m, w)
  finish_upgrade desired (ok fcv, w) m =
      commit (complete_upgrade (k.now w) m.generation desired fcv) (handled no_requeue) m w

  -- The sum is an int32; a negative one counts as less than one member.
  abbrev total_members : MongoDbSharded → ℕ
  total_members m =
      let sum = (m.config_members + m.shard_count * m.members_per_shard) % 2 ^ 32 in
      if ltb sum (2 ^ 31) then sum else 0

  abbrev pub validate_after : String → ℤ → ℤ → Exec MongoDbSharded W Step
  validate_after desired interval elapsed m w =
      if ltb_ℤ elapsed interval
      then (ok (handled (interval -ℤ elapsed)), m, w)
      else if all_ready m.status
      then finish_upgrade desired (commit_sharded_fcv desired m w) m
      else if ltb_ℤ elapsed (validation_timeout interval (total_members m))
      then (ok (handled upgrade_requeue_interval), m, w)
      else if wants_rollback m.upgrade_strategy
      then commit set_rolling_back (handled one_second) m w
      else commit
          (fail_upgrade (k.now w) m.generation "ValidationTimeout"
            ("Upgrade to " +++ desired +++ " timed out, manual intervention required"))
          (handled no_requeue) m w

  abbrev pub on_start_time : String → Option ℤ → Exec MongoDbSharded W Step
  on_start_time desired none m w = (ok (handled upgrade_requeue_interval), m, w)
  on_start_time desired (some start) m w =
      validate_after desired (parse_validation_interval k m.upgrade_strategy) (k.now w -ℤ start) m w

  -- reconcileShardedUpgradeValidation
  unfoldable pub reconcile_sharded_upgrade_validation : String → Exec MongoDbSharded W Step
  reconcile_sharded_upgrade_validation desired m w =
      on_start_time desired m.status.upgrade_start_time m w

  -- reconcileShardedUpgradeRollback
  unfoldable pub reconcile_sharded_upgrade_rollback : Exec MongoDbSharded W Step
  reconcile_sharded_upgrade_rollback m w =
      if is_empty m.status.previous_version
      then commit clear_upgrade (handled no_requeue) m w
      else if not (wants_rollback m.upgrade_strategy)
      then commit
          (fail_upgrade (k.now w) m.generation "ValidationFailed"
            "Upgrade validation failed, manual intervention required")
          (handled no_requeue) m w
      else commit (finish_rollback (k.now w) m.generation m.spec_version) (handled no_requeue) m w

  -- The `switch` of reconcileShardedUpgrade.
  unfoldable pub dispatch : UpgradePhase → Exec MongoDbSharded W Step
  dispatch idle m w =
      commit (init_upgrade (k.now w) m.status.version m.spec_version m.upgrade_strategy)
        (handled one_second) m w
  dispatch backing_up m w = reconcile_sharded_upgrade_backup m.spec_version m w
  dispatch upgrading m w = (ok proceed, m, w)
  dispatch validating m w = reconcile_sharded_upgrade_validation m.spec_version m w
  dispatch rolling_back m w = reconcile_sharded_upgrade_rollback m w
  dispatch (other_phase _) m w = (ok proceed, m, w)

  unfoldable pub orchestrate : Exec MongoDbSharded W Step
  orchestrate m w =
      if is_empty m.status.version || str_eq m.status.version m.spec_version
      then (if is_idle m.status.upgrade_phase
          then (ok proceed, m, w)
          else commit clear_upgrade proceed m w)
      else if is_terminal m
      then (ok proceed, m, w)
      else dispatch m.status.upgrade_phase m w

  -- reconcileShardedUpgrade
  unfoldable pub reconcile_sharded_upgrade : Exec MongoDbSharded W Step
  reconcile_sharded_upgrade m w =
      if is_empty m.status.effective_version || is_empty m.status.version
      then (do commit (seed m.spec_version) proceed; orchestrate) m w
      else orchestrate m w
