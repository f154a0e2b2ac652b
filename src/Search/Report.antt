-- ===== src/Search/Report.antt =====
-- searchPhaseFromReadiness, setSearchConditions, pending and fail: the phase of a MongoDBSearch and how
-- a pass reports it.
use mongodb_operator.Common.{
  ℕ, String, Bool, true, false, Option, none, some, List, if◌then◌else◌, ltb, ◌==◌,
}
use mongodb_operator.Common.Int.{ℤ, pos}
use mongodb_operator.Kube.{
  ApiError, Outcome, ok, Requeue, after, Condition, CondStatus, cond_true, cond_false,
}
use mongodb_operator.Upgrade.Status.{◌+++◌}
use mongodb_operator.Upgrade.Config.{seconds}
use mongodb_operator.Cluster.Conditions.{condition}
use mongodb_operator.Search.{
  Search, SearchPhase, SearchApi, unset, pending, provisioning, syncing, ready, degraded, failed,
  with_status,
}

abbrev pub phase_text : SearchPhase → String
phase_text unset = ""
phase_text pending = "Pending"
phase_text provisioning = "Provisioning"
phase_text syncing = "Syncing"
phase_text ready = "Ready"
phase_text degraded = "Degraded"
phase_text failed = "Failed"

abbrev pub is_ready_phase : SearchPhase → Bool
is_ready_phase ready = true
is_ready_phase _ = false

abbrev pub is_progressing : SearchPhase → Bool
is_progressing provisioning = true
is_progressing syncing = true
is_progressing pending = true
is_progressing _ = false

abbrev pub is_degraded : SearchPhase → Bool
is_degraded degraded = true
is_degraded failed = true
is_degraded _ = false

-- searchPhaseFromReadiness
unfoldable pub search_phase_from_readiness : ℕ → ℕ → SearchPhase
search_phase_from_readiness n total =
    if total == 0
    then provisioning
    else if n == 0
    then degraded
    else if ltb n total
    then syncing
    else ready

module _ {W : Type 0} (k : SearchApi W) where
  abbrev pub status_of : Bool → CondStatus
  status_of b = if b then cond_true else cond_false

  -- setSearchConditions
  abbrev pub set_search_conditions : W → ℕ → SearchPhase → List Condition → List Condition
  set_search_conditions w generation p cs =
      let reason = "Phase" +++ phase_text p in
      let message = "mongot sidecar phase=" +++ phase_text p in
      k.set_status_condition w
        (condition "Degraded" (status_of (is_degraded p)) generation reason message)
        (k.set_status_condition w
          (condition "Progressing" (status_of (is_progressing p)) generation reason message)
          (k.set_status_condition w
            (condition "Available" (status_of (is_ready_phase p)) generation reason message) cs))

  abbrev pub with_phase : SearchPhase → String → W → Search → Search
  with_phase p msg w x =
      with_status
        (record x.status {
          phase = p;
          error = msg;
          conditions = set_search_conditions w x.generation p x.status.conditions;
        })
        x

  -- A write of the status whose error is dropped
  abbrev pub written : ℤ → Option ApiError × W → Search → Search → Outcome Requeue × Search × W
  written delay (some e, w) old new = (ok (after delay), old, w)
  written delay (none, w) old new = (ok (after delay), new, w)

  -- pending and fail
  unfoldable pub report : SearchPhase → ℤ → String → Search → W → Outcome Requeue × Search × W
  report p delay msg x w =
      let new = with_phase p msg w x in written delay (k.update_status new.status w) x new

  abbrev pub report_pending : String → Search → W → Outcome Requeue × Search × W
  report_pending = report pending (pos (seconds 30))

  abbrev pub report_failed : String → Search → W → Outcome Requeue × Search × W
  report_failed = report failed (pos (seconds 60))
