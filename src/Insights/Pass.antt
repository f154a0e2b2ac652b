-- ===== src/Insights/Pass.antt =====
-- internal/controller/mongodbinsights_controller.go: a pass over a MongoDBInsights.
use mongodb_operator.Common.{
  ℕ, String, Bool, true, false, Option, none, some, List, [], ◌∷◌, ◌++◌, str_eq, if◌then◌else◌,
  length, suc,
}
use mongodb_operator.Common.Int.{ℤ, pos, ltb_ℤ}
use mongodb_operator.Kube.{
  ApiError, Error, Outcome, ok, err, Requeue, stop, again, after, Condition, CondStatus, cond_true,
  cond_false, cond_unknown,
}
use mongodb_operator.Upgrade.Status.{◌+++◌}
use mongodb_operator.Upgrade.Config.{seconds}
use mongodb_operator.Insights.{ProfileDoc, IndexStat, Recommendation, Runtime}
use mongodb_operator.Insights.Analysis.{analyze, analyze_index_usage}
use mongodb_operator.Insights.Actions.{
  AutoIndexSpec, AutoQueryHintSpec, AutoPilotAction, PlannedAction, build_auto_pilot_actions,
}
use mongodb_operator.Insights.Fetch.{fetch, fetch_sharded_profiles, fetch_index_stats}
use mongodb_operator.Insights.Connect.{FetchApi, FetchSpec}

-- The `Phase` of a MongoDBInsights; `unset` is "".
pub data InsightsPhase : Type 0 where
  unset pending analyzing ready failed : InsightsPhase

-- MongoDBInsightsStatus
pub record InsightsStatus : Type 0 where
  pub phase : InsightsPhase
  pub last_analysis_time : Option ℤ
  pub recommendations : List Recommendation
  pub slow_queries_sampled : ℕ
  pub actions : List AutoPilotAction
  pub conditions : List Condition

-- MongoDBInsights
pub record Insights : Type 0 where
  pub enabled : Bool
  pub target : FetchSpec
  pub sample_size : ℤ
  pub analysis_interval : String
  pub auto_index : Option AutoIndexSpec
  pub auto_query_hint : Option AutoQueryHintSpec
  pub status : InsightsStatus

pub record InsightsApi (W : Type 0) : Type 0 where
  pub now : W → ℤ
  -- r.Status().Update
  pub update_status : InsightsStatus → W → Option ApiError × W
  pub fetcher : FetchApi W
  pub runtime : Runtime
  pub sort_actions : List PlannedAction → List PlannedAction
  -- time.ParseDuration
  pub parse_duration : String → Option ℤ
  pub error_text : Error → String

abbrev pub with_status : InsightsStatus → Insights → Insights
with_status s i = record i { status = s }

abbrev same_status : CondStatus → CondStatus → Bool
same_status cond_true cond_true = true
same_status cond_false cond_false = true
same_status cond_unknown cond_unknown = true
same_status _ _ = false

-- setInsightsCondition
unfoldable pub set_insights_condition : Condition → List Condition → List Condition
set_insights_condition c [] = c ∷ []
set_insights_condition c (e ∷ es) =
    if str_eq e.type c.type
    then (if same_status e.status c.status
        then record c { last_transition_time = e.last_transition_time }
        else c)
      ∷ es
    else e ∷ set_insights_condition c es

abbrev analysis_condition : CondStatus → String → String → ℤ → Condition
analysis_condition status reason message now = record {
  type = "AnalysisHealthy";
  status = status;
  reason = reason;
  message = message;
  last_transition_time = now;
  observed_generation = 0;
}

abbrev pub quarter_of_an_hour : ℤ
quarter_of_an_hour = pos (seconds 900)

abbrev pub failed_requeue : ℤ
failed_requeue = pos (seconds 300)

abbrev or_default : Option ℤ → ℤ
or_default none = quarter_of_an_hour
or_default (some d) = if ltb_ℤ (pos 0) d then d else quarter_of_an_hour

module _ {W : Type 0} (k : InsightsApi W) where
  -- The object in a result is the stored one.
  abbrev pub Pass : Type 0
  Pass = Insights → W → Outcome Requeue × Insights × W

  -- parseAnalysisInterval; time.ParseDuration refuses "".
  unfoldable pub parse_analysis_interval : String → ℤ
  parse_analysis_interval s =
      if str_eq s "" then quarter_of_an_hour else or_default (k.parse_duration s)

  abbrev pub sample_of : ℤ → ℕ
  sample_of (pos (suc n)) = suc n
  sample_of _ = 500

  abbrev pub stored :
      Option ApiError × W → Insights → Insights → Requeue → Outcome Requeue × Insights × W
  stored (some e, w) old new r = (ok r, old, w)
  stored (none, w) old new r = (ok r, new, w)

  -- A write of the status whose error is dropped
  abbrev pub write : Insights → Requeue → Pass
  write new r old w = stored (k.update_status new.status w) old new r

  abbrev recommended :
      List ProfileDoc
      → List Recommendation
      → Outcome (List IndexStat) × W
      → Outcome (List Recommendation × ℕ) × W
  recommended docs rs (err e, w) = (ok (rs, length docs), w)
  recommended docs rs (ok stats, w) =
      (ok (rs ++ analyze_index_usage k.runtime stats, length docs), w)

  abbrev pub analyzed :
      Insights → Outcome (List ProfileDoc) × W → Outcome (List Recommendation × ℕ) × W
  analyzed i (err e, w) = (err e, w)
  analyzed i (ok docs, w) =
      recommended docs (analyze k.runtime docs i.target.slow_query_threshold_ms)
        (fetch_index_stats k.fetcher i.target w)

  -- Documents that come with an error are dropped.
  abbrev pub if_complete : (List ProfileDoc × Option Error) × W → Outcome (List ProfileDoc) × W
  if_complete ((docs, some e), w) = (err e, w)
  if_complete ((docs, none), w) = (ok docs, w)

  abbrev pub fetched : Insights → W → Outcome (List ProfileDoc) × W
  fetched i w =
      if str_eq i.target.cluster_kind "MongoDBSharded"
      then if_complete (fetch_sharded_profiles k.fetcher i.target (sample_of i.sample_size) w)
      else fetch k.fetcher i.target (sample_of i.sample_size) w

  -- runAnalysis
  unfoldable pub run_analysis : Insights → W → Outcome (List Recommendation × ℕ) × W
  unfolding fetch fetch_sharded_profiles fetch_index_stats analyze analyze_index_usage
  run_analysis i w = analyzed i (fetched i w)

  abbrev pub analysis_failed : Error → ℤ → Insights → Insights
  analysis_failed e now i =
      with_status
        (record i.status {
          phase = failed;
          last_analysis_time = some now;
          conditions =
              set_insights_condition
                (analysis_condition cond_false "AnalysisError" (k.error_text e) now)
                i.status.conditions;
        })
        i

  abbrev pub analysis_done : List Recommendation → ℕ → ℤ → Insights → Insights
  analysis_done rs sampled now i =
      with_status
        (record {
          phase = ready;
          last_analysis_time = some now;
          recommendations = rs;
          slow_queries_sampled = sampled;
          actions = build_auto_pilot_actions k.sort_actions rs i.auto_index i.auto_query_hint;
          conditions =
              set_insights_condition
                (analysis_condition cond_true "AnalysisSucceeded"
                  (k.runtime.decimal (pos (length rs))
                    +++ " recommendations from "
                    +++ k.runtime.decimal (pos sampled)
                    +++ " profile docs")
                  now)
                i.status.conditions;
        })
        i

  abbrev pub on_analysis :
      ℤ → Outcome (List Recommendation × ℕ) × W → Insights → Outcome Requeue × Insights × W
  on_analysis now (err e, w) i = write (analysis_failed e now i) (after failed_requeue) i w
  on_analysis now (ok (rs, sampled), w) i =
      write (analysis_done rs sampled now i) (after (parse_analysis_interval i.analysis_interval)) i
        w

  abbrev pub start : Pass
  start i w =
      write
        (with_status (record i.status { phase = analyzing; last_analysis_time = some (k.now w) }) i)
        again i w

  abbrev pub start_again : Pass
  start_again i w = write (with_status (record i.status { phase = analyzing }) i) again i w

  abbrev pub analysis : Pass
  analysis i w = on_analysis (k.now w) (run_analysis i w) i

  abbrev pub dispatch : InsightsPhase → Pass
  dispatch unset = start
  dispatch pending = start
  dispatch analyzing = analysis
  dispatch ready = start_again
  dispatch failed = start_again

  -- Reconcile of an object that is there
  unfoldable pub reconcile : Pass
  unfolding run_analysis set_insights_condition build_auto_pilot_actions parse_analysis_interval
  reconcile i w = if i.enabled then dispatch i.status.phase i w else (ok stop, i, w)
