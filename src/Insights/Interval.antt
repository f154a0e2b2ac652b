-- ===== src/Insights/Interval.antt =====
-- The interval between two analyses.
use mongodb_operator.Common.{
  ℕ, zero, suc, String, Bool, true, false, none, List, ◌≡◌, refl, arith, if◌then◌else◌,
}
use mongodb_operator.Common.Int.{ℤ}
use mongodb_operator.Kube.{Outcome, ok, err, Requeue}
use mongodb_operator.Insights.{Recommendation}
use mongodb_operator.Insights.Pass.{
  InsightsPhase, unset, pending, analyzing, ready, failed, Insights, InsightsStatus, InsightsApi,
  with_status, analysis_failed, analysis_done, on_analysis, run_analysis, dispatch, reconcile,
}

abbrev pub is_analyzing : InsightsPhase → Bool
is_analyzing analyzing = true
is_analyzing _ = false

abbrev pub is_done : InsightsPhase → Bool
is_done ready = true
is_done failed = true
is_done _ = false

abbrev pub twice : ℕ → ℕ
twice zero = zero
twice (suc n) = suc (suc (twice n))

-- The same object with another text for the interval.
abbrev pub with_interval : String → Insights → Insights
with_interval d i = record i { analysis_interval = d }

module _ {W : Type 0} (k : InsightsApi W) where
  -- What `n` passes in a row leave, of the object and of the outside.
  unfoldable pub passes : ℕ → Insights → W → Insights × W
  passes zero i w = (i, w)
  passes (suc n) i w = let r = reconcile k i w in passes n r.1 r.2

  -- How many of them analyze.
  unfoldable pub analyses : ℕ → Insights → W → ℕ
  analyses zero i w = 0
  analyses (suc n) i w =
      let r = reconcile k i w in
      let rest = analyses n r.1 r.2 in if is_analyzing i.status.phase then suc rest else rest

  -- A step whose result is that of the other, but for the interval and for the time of the next pass.
  abbrev Follows : String → Outcome Requeue × Insights × W → Outcome Requeue × Insights × W → Type 0
  Follows d r r' = (r'.1 ≡ with_interval d r.1) × (r'.2 ≡ r.2)

  analysis-Follows :
      (d : String) (now : ℤ) (x : Outcome (List Recommendation × ℕ) × W) (i : Insights)
      → Follows d (on_analysis k now x i) (on_analysis k now x (with_interval d i))
  analysis-Follows d now (err e, w) i = ground arith
  analysis-Follows d now (ok (rs, n), w) i = ground arith

  same_analysis :
      (d : String) (i : Insights) (w : W)
      → run_analysis k (with_interval d i) w ≡ run_analysis k i w
  unfolding run_analysis
  same_analysis d i w = refl

  dispatch-Follows :
      (d : String) (p : InsightsPhase) (i : Insights) (w : W)
      → Follows d (dispatch k p i w) (dispatch k p (with_interval d i) w)
  dispatch-Follows d unset i w = ground arith
  dispatch-Follows d pending i w = ground arith
  dispatch-Follows d analyzing i w =
      rw (same_analysis d i w) (analysis-Follows d (k.now w) (run_analysis k i w) i)
  dispatch-Follows d ready i w = ground arith
  dispatch-Follows d failed i w = ground arith

  reconcile-Follows :
      (d : String) (i : Insights) (w : W)
      → Follows d (reconcile k i w) (reconcile k (with_interval d i) w)
  unfolding reconcile
  reconcile-Follows d i w = ground (arith, dispatch-Follows d i.status.phase i w)

  passes-interval :
      (d : String) (n : ℕ) (i : Insights) (w : W)
      → passes n (with_interval d i) w ≡ (with_interval d (passes n i w).0, (passes n i w).1)
  unfolding passes
  passes-interval d zero i w = refl
  passes-interval d (suc n) i w =
      let one = reconcile-Follows d i w in
      let r = reconcile k i w in rw (one.0, one.1) (passes-interval d n r.1 r.2)

  module _ (writes : (s : InsightsStatus) (w : W) → (k.update_status s w).0 ≡ none) where
    analysis_ends :
        (now : ℤ) (x : Outcome (List Recommendation × ℕ) × W) (i : Insights)
        → (is_done (on_analysis k now x i).1.status.phase ≡ true)
          × ((on_analysis k now x i).1.enabled ≡ i.enabled)
    analysis_ends now (err e, w) i = ground (arith, writes (analysis_failed k e now i).status w)
    analysis_ends now (ok (rs, n), w) i =
        ground (arith, writes (analysis_done k rs n now i).status w)

    analyzing-done :
        (i : Insights) (w : W)
        → i.enabled ≡ true
        → i.status.phase ≡ analyzing
        → (is_done (reconcile k i w).1.status.phase ≡ true) × ((reconcile k i w).1.enabled ≡ true)
    unfolding reconcile
    analyzing-done i w on at =
        ground (arith, on, at, analysis_ends (k.now w) (run_analysis k i w) i)

    done-analyzing :
        (i : Insights) (w : W)
        → i.enabled ≡ true
        → is_done i.status.phase ≡ true
        → ((reconcile k i w).1.status.phase ≡ analyzing) × ((reconcile k i w).1.enabled ≡ true)
    unfolding reconcile
    done-analyzing i w on done =
        ground
          (arith, on, done, writes (with_status (record i.status { phase = analyzing }) i).status w)

    every_second_analyzes :
        (n : ℕ) (i : Insights) (w : W)
        → i.enabled ≡ true
        → i.status.phase ≡ analyzing
        → analyses (twice n) i w ≡ n
    unfolding analyses
    every_second_analyzes zero i w on at = refl
    every_second_analyzes (suc n) i w on at =
        let r = reconcile k i w in
        let q = reconcile k r.1 r.2 in
        let one = analyzing-done i w on at in
        let two = done-analyzing r.1 r.2 one.1 one.0 in
        ground (arith, at, one.0, every_second_analyzes n q.1 q.2 two.1 two.0)

  -- The interval between analyses is not awaited: when the status can be written, exactly every second
  -- pass over an enabled object that is to be analyzed is an analysis, whatever its interval says, and at
  -- whatever times the passes come; and with any other text for the interval the passes leave the same
  -- status and the same outside.
  pub interval_is_not_awaited :
      (d : String) (n : ℕ) (i : Insights) (w : W)
      → i.enabled ≡ true
      → i.status.phase ≡ analyzing
      → ((s : InsightsStatus) (v : W) → (k.update_status s v).0 ≡ none)
      → (analyses (twice n) i w ≡ n)
        × (passes n (with_interval d i) w ≡ (with_interval d (passes n i w).0, (passes n i w).1))
  interval_is_not_awaited d n i w on at writes =
      (every_second_analyzes writes n i w on at, passes-interval d n i w)
