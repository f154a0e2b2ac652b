-- ===== src/Upgrade/Status.antt =====
-- The closures of upgrade.go that mutate the status. sharded_upgrade.go has the same closures over
-- its own status type.
use Prim.Native.String.{◌++◌ as text_append}
use mongodb_operator.Common.{
  ℕ, ◌+◌, ◌%◌, ◌^◌, String, Bool, true, false, Option, none, some, List, [], ◌∷◌, str_eq,
  if◌then◌else◌, is_empty,
}
use mongodb_operator.Common.Int.{ℤ}
use mongodb_operator.Kube.{Condition, cond_true}
use mongodb_operator.Mongo.{
  UpgradeStatus, UpgradeStrategy, idle, backing_up, upgrading, validating, rolling_back,
}

infixl 65 ◌+++◌
abbrev pub ◌+++◌ : String → String → String
s +++ t = text_append s t

-- setUpgradeCondition (its status argument is ConditionTrue in every call): the first condition of
-- the type is overwritten, but for its observed generation; a new one goes to the end.
unfoldable pub set_upgrade_condition :
    ℤ → String → String → String → List Condition → List Condition
set_upgrade_condition now type reason message [] =
    record {
      type = type;
      status = cond_true;
      reason = reason;
      message = message;
      last_transition_time = now;
      observed_generation = 0;
    }
    ∷ []
set_upgrade_condition now type reason message (c ∷ cs) =
    if str_eq c.type type
    then record c {
      status = cond_true;
      reason = reason;
      message = message;
      last_transition_time = now;
    }
      ∷ cs
    else c ∷ set_upgrade_condition now type reason message cs

-- seed
unfoldable pub seed : String → UpgradeStatus → UpgradeStatus
seed desired s =
    let effective = if is_empty s.effective_version then desired else s.effective_version in
    record s {
      effective_version = effective;
      version = if is_empty s.version then effective else s.version;
    }

-- clearUpgrade
unfoldable pub clear_upgrade : UpgradeStatus → UpgradeStatus
clear_upgrade s = record s { upgrade_phase = idle; upgrade_start_time = none }

-- `mdb.Spec.UpgradeStrategy != nil && mdb.Spec.UpgradeStrategy.PreUpgradeBackup`
abbrev pub wants_backup : Option UpgradeStrategy → Bool
wants_backup none = false
wants_backup (some u) = u.pre_upgrade_backup

-- `mdb.Spec.UpgradeStrategy != nil && mdb.Spec.UpgradeStrategy.RollbackOnFailure`
abbrev pub wants_rollback : Option UpgradeStrategy → Bool
wants_rollback none = false
wants_rollback (some u) = u.rollback_on_failure

-- initUpgrade
unfoldable pub init_upgrade :
    ℤ → String → String → Option UpgradeStrategy → UpgradeStatus → UpgradeStatus
init_upgrade now current desired strategy s = record s {
  previous_version = current;
  effective_version = desired;
  rollback_active = false;
  upgrade_start_time = some now;
  upgrade_phase = if wants_backup strategy then backing_up else upgrading;
}

-- setUpgrading
unfoldable pub set_upgrading : UpgradeStatus → UpgradeStatus
set_upgrading s = record s { upgrade_phase = upgrading }

-- abortUpgrade
unfoldable pub abort_upgrade : ℤ → UpgradeStatus → UpgradeStatus
unfolding set_upgrade_condition
abort_upgrade now s = record s {
  upgrade_phase = idle;
  upgrade_start_time = none;
  conditions =
      set_upgrade_condition now "UpgradeFailed" "BackupFailed"
        "Pre-upgrade backup failed, upgrade aborted" s.conditions;
}

-- completeUpgrade
unfoldable pub complete_upgrade : ℤ → ℕ → String → String → UpgradeStatus → UpgradeStatus
unfolding set_upgrade_condition
complete_upgrade now generation desired fcv s = record s {
  version = desired;
  effective_version = desired;
  fcv_version = fcv;
  rollback_active = false;
  upgrade_phase = idle;
  upgrade_start_time = none;
  upgrade_retry_count = 0;
  observed_upgrade_generation = generation;
  conditions =
      set_upgrade_condition now "UpgradeComplete" "Upgraded"
        ("Successfully upgraded to " +++ desired +++ " (FCV " +++ fcv +++ " committed)")
        s.conditions;
}

-- setRollingBack
unfoldable pub set_rolling_back : UpgradeStatus → UpgradeStatus
set_rolling_back s = record s { upgrade_phase = rolling_back }

-- setValidating of the Reconcile methods
unfoldable pub set_validating : ℤ → UpgradeStatus → UpgradeStatus
set_validating now s = record s { upgrade_phase = validating; upgrade_start_time = some now }

-- failUpgrade, with the reason and the message of the call
unfoldable pub fail_upgrade : ℤ → ℕ → String → String → UpgradeStatus → UpgradeStatus
unfolding set_upgrade_condition
fail_upgrade now generation reason message s = record s {
  upgrade_phase = idle;
  upgrade_start_time = none;
  observed_upgrade_generation = generation;
  conditions = set_upgrade_condition now "UpgradeFailed" reason message s.conditions;
}

-- finishRollback
unfoldable pub finish_rollback : ℤ → ℕ → String → UpgradeStatus → UpgradeStatus
unfolding set_upgrade_condition
finish_rollback now generation desired s = record s {
  effective_version = s.previous_version;
  rollback_active = true;
  upgrade_phase = idle;
  upgrade_start_time = none;
  upgrade_retry_count = (s.upgrade_retry_count + 1) % 2 ^ 32;
  observed_upgrade_generation = generation;
  conditions =
      set_upgrade_condition now "UpgradeRolledBack" "RolledBack"
        ("Rolled back to " +++ s.previous_version +++ " (spec.Version " +++ desired
          +++ " preserved; change spec to retry)")
        s.conditions;
}
