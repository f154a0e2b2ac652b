-- ===== src/Insights/Actions.antt =====
-- internal/insights/auto_action.go and internal/controller/autopilot_advisory.go: the actions planned
-- for recommendations. The keys of an index that is planned are left out.
use mongodb_operator.Common.{
  ℕ, String, Bool, true, false, ◌&&◌, ◌||◌, not, Option, none, some, List, [], ◌∷◌, ◌++◌,
  if◌then◌else◌, leb, is_empty,
}
use mongodb_operator.Common.Int.{ℤ, pos, ltb_ℤ}
use mongodb_operator.Upgrade.Status.{◌+++◌}
use mongodb_operator.Insights.{
  Recommendation, RecType, missing_index, slow_query_pattern, Severity, info, warning, critical,
  unknown,
}

-- AutoIndexSpec; a severity that is "" is `none`.
pub record AutoIndexSpec : Type 0 where
  pub enabled : Bool
  pub min_severity : Option Severity
  pub dry_run : Bool

-- AutoQueryHintSpec
pub record AutoQueryHintSpec : Type 0 where
  pub enabled : Bool
  pub slow_query_threshold_ms : ℤ
  pub dry_run : Bool

-- IndexAction and QueryHintAction; the latter's pattern is its reason.
pub record PlannedAction : Type 0 where
  pub ns : String
  pub severity : Severity
  pub reason : String
  pub dry_run : Bool

-- The `Type` of an AutoPilotAction.
pub data ActionType : Type 0 where
  create_index query_hint : ActionType

pub record AutoPilotAction : Type 0 where
  pub type : ActionType
  pub ns : String
  pub severity : Severity
  pub detail : String
  pub dry_run : Bool

-- The order of the severities; a text that is none of them has no place in it.
abbrev rank : Severity → Option ℕ
rank info = some 0
rank warning = some 1
rank critical = some 2
rank unknown = none

abbrev reaches : Option ℕ → Option ℕ → Bool
reaches none _ = false
reaches (some g) none = false
reaches (some g) (some m) = leb m g

-- meetsSeverity
unfoldable pub meets_severity : Severity → Severity → Bool
meets_severity got min = reaches (rank got) (rank min)

-- joinNS
unfoldable pub join_ns : String → String → String
join_ns db coll = if is_empty db || is_empty coll then "" else db +++ "." +++ coll

abbrev planned : Bool → Recommendation → PlannedAction
planned dry_run r = record {
  ns = join_ns r.db r.collection;
  severity = r.severity;
  reason = r.detail;
  dry_run = dry_run;
}

abbrev is_missing_index : RecType → Bool
is_missing_index missing_index = true
is_missing_index _ = false

abbrev is_slow_pattern : RecType → Bool
is_slow_pattern slow_query_pattern = true
is_slow_pattern _ = false

abbrev or_warning : Option Severity → Severity
or_warning none = warning
or_warning (some s) = s

-- The recommendations that a test lets through, as actions.
abbrev plan_all : (Recommendation → Bool) → Bool → List Recommendation → List PlannedAction
plan_all test dry_run [] = []
plan_all test dry_run (r ∷ rs) =
    if test r then planned dry_run r ∷ plan_all test dry_run rs else plan_all test dry_run rs

-- `sort` is sort.Slice by the namespaces.
module _ (sort : List PlannedAction → List PlannedAction) where
  -- PlanMissingIndexActions
  unfoldable pub plan_missing_index_actions :
      List Recommendation → Option AutoIndexSpec → List PlannedAction
  unfolding meets_severity join_ns
  plan_missing_index_actions rs none = []
  plan_missing_index_actions rs (some spec) =
      if spec.enabled
      then sort (
          plan_all
            (λ r.
              is_missing_index r.type && meets_severity r.severity (or_warning spec.min_severity))
            spec.dry_run rs)
      else []

  -- PlanSlowQueryHints
  unfoldable pub plan_slow_query_hints :
      List Recommendation → Option AutoQueryHintSpec → List PlannedAction
  unfolding join_ns
  plan_slow_query_hints rs none = []
  plan_slow_query_hints rs (some spec) =
      if spec.enabled
      then sort (
          plan_all
            (λ r.
              is_slow_pattern r.type
              && not (ltb_ℤ (pos r.avg_latency_ms) spec.slow_query_threshold_ms))
            spec.dry_run rs)
      else []

  abbrev surfaced : ActionType → List PlannedAction → List AutoPilotAction
  surfaced type [] = []
  surfaced type (a ∷ as') =
      record {
        type = type;
        ns = a.ns;
        severity = a.severity;
        detail = a.reason;
        dry_run = a.dry_run;
      }
      ∷ surfaced type as'

  -- buildAutoPilotActions
  unfoldable pub build_auto_pilot_actions :
      List Recommendation → Option AutoIndexSpec → Option AutoQueryHintSpec → List AutoPilotAction
  unfolding plan_missing_index_actions plan_slow_query_hints
  build_auto_pilot_actions rs index hint =
      surfaced create_index (plan_missing_index_actions rs index)
      ++ surfaced query_hint (plan_slow_query_hints rs hint)
