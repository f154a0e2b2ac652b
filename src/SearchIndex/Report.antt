-- ===== src/SearchIndex/Report.antt =====
-- applyStatus, pending, building and fail: how a pass over a search index reports its phase.
use mongodb_operator.Common.{String, Bool, true, false, Option, none, some, if◌then◌else◌, is_empty}
use mongodb_operator.Common.Int.{ℤ, pos}
use mongodb_operator.Kube.{ApiError, Outcome, ok, Requeue, after, cond_true, cond_false}
use mongodb_operator.Upgrade.Status.{◌+++◌}
use mongodb_operator.Upgrade.Config.{seconds}
use mongodb_operator.Cluster.Conditions.{condition}
use mongodb_operator.SearchIndex.{
  SearchIndex, IndexApi, with_status, IndexPhase, unset, pending, building, ready, failed, deleting,
}

abbrev pub phase_text : IndexPhase → String
phase_text unset = ""
phase_text pending = "Pending"
phase_text building = "Building"
phase_text ready = "Ready"
phase_text failed = "Failed"
phase_text deleting = "Deleting"

abbrev pub is_ready_phase : IndexPhase → Bool
is_ready_phase ready = true
is_ready_phase _ = false

abbrev pub phase_message : IndexPhase → String → String
phase_message p msg = if is_empty msg then "search index phase=" +++ phase_text p else msg

abbrev pub poll_slow : ℤ
poll_slow = pos (seconds 120)

abbrev pub poll_failed : ℤ
poll_failed = pos (seconds 60)

abbrev pub poll_building : ℤ
poll_building = pos (seconds 10)

abbrev pub poll_pending : ℤ
poll_pending = pos (seconds 30)

-- The delay after a status that comes from the listing.
abbrev pub poll_after : IndexPhase → ℤ
poll_after ready = poll_slow
poll_after failed = poll_failed
poll_after _ = poll_building

module _ {W D : Type 0} (k : IndexApi W D) where
  -- The object in a result is the stored one.
  abbrev pub Pass : Type 0
  Pass = SearchIndex → W → Outcome Requeue × SearchIndex × W

  -- The closure of applyStatus.
  abbrev pub with_phase : IndexPhase → String → Bool → String → W → SearchIndex → SearchIndex
  with_phase p id queryable msg w x =
      with_status
        (record {
          phase = p;
          index_id = id;
          queryable = queryable;
          observed_generation = x.generation;
          error = msg;
          conditions =
              k.set_status_condition w
                (condition "Ready" (if is_ready_phase p then cond_true else cond_false) x.generation
                  ("Phase" +++ phase_text p) (phase_message p msg))
                x.status.conditions;
        })
        x

  abbrev pub written :
      Option ApiError × W → SearchIndex → SearchIndex → Option ApiError × SearchIndex × W
  written (some e, w) old new = (some e, old, w)
  written (none, w) old new = (none, new, w)

  unfoldable pub apply_status :
      IndexPhase → String → Bool → String → SearchIndex → W → Option ApiError × SearchIndex × W
  apply_status p id queryable msg x w =
      let new = with_phase p id queryable msg w x in written (k.update_status new.status w) x new

  -- pending, building and fail: an error of the write is dropped.
  unfoldable pub report : IndexPhase → ℤ → String → Pass
  unfolding apply_status
  report p delay msg x w =
      let (_, x', w') = apply_status p x.status.index_id false msg x w in (ok (after delay), x', w')

  abbrev pub report_pending : String → Pass
  report_pending = report pending poll_pending

  abbrev pub report_building : String → Pass
  report_building = report building poll_building

  abbrev pub report_failed : String → Pass
  report_failed = report failed poll_failed
