-- ===== src/Insights/Lost.antt =====
-- The analysis of a sharded cluster of which one shard cannot be collected.
use mongodb_operator.Common.{
  ℕ, ◌+◌, ◌≤◌, ◌<◌, Bool, true, false, ◌&&◌, Option, none, some, List, [], ◌∷◌, ◌≡◌, refl, arith,
  str_eq, ◌==◌, length,
}
use mongodb_operator.Common.Int.{ℤ}
use mongodb_operator.Kube.{Error, Outcome, ok, err, after}
use mongodb_operator.Insights.{ProfileDoc, Recommendation}
use mongodb_operator.Insights.Fetch.{
  Tally, no_tally, connected, collect_all, incomplete, per_shard, resolve_shard_targets,
  fetch_sharded_profiles,
}
use mongodb_operator.Insights.Connect.{FetchApi, FetchSpec, ConnectTarget, connect_to}
use mongodb_operator.Insights.Pass.{
  Insights, InsightsApi, analyzing, failed_requeue, sample_of, run_analysis, if_complete, fetched,
  analyzed, on_analysis, reconcile,
}

abbrev is_clean : Option Error → Bool
is_clean none = true
is_clean (some _) = false

abbrev pub is_ok {ℓ} : {A : Type ℓ} → Outcome A → Bool
is_ok (ok _) = true
is_ok (err _) = false

module _ {W : Type 0} (k : FetchApi W) (s : FetchSpec) where
  -- What a round does to the tally: one more is collected, or there is an error.
  abbrev Counts : Tally → Tally → ℕ → Type 0
  Counts t t' n =
      (t'.collected ≤ t.collected + n)
      × (is_clean t'.last_error ≡ (is_clean t.last_error && t'.collected == t.collected + n))

  round-Counts :
      (at : ConnectTarget) (size : ℕ) (x : Option Error × W) (t : Tally)
      → Counts t (connected k s at size x t).0 1
  round-Counts at size x t = ground arith

  collect_all-Counts :
      (size : ℕ) (ats : List ConnectTarget) (t : Tally) (w : W)
      → Counts t (collect_all k s size ats t w).0 (length ats)
  unfolding collect_all
  collect_all-Counts size [] t w = ground arith
  collect_all-Counts size (at ∷ ats) t w =
      let r = connected k s at size (connect_to k s at w) t in
      ground
        (arith, round-Counts at size (connect_to k s at w) t, collect_all-Counts size ats r.0 r.1)

  -- The tally of the shards.
  abbrev pub tally : ℕ → List ConnectTarget → W → Tally × W
  tally size ats w = collect_all k s (per_shard k s size (length ats)) ats no_tally w

  incomplete_lost :
      (n : ℕ) (t : Tally)
      → t.collected < n
      → is_clean t.last_error ≡ (t.collected == n)
      → is_clean (incomplete k s n t t.last_error).1 ≡ false
  incomplete_lost n t h c = ground arith

  -- A shard that is not collected makes the whole collection fail.
  lost_fetch :
      (size : ℕ) (ats : List ConnectTarget) (w : W)
      → str_eq s.cluster_kind "MongoDBSharded" ≡ true
      → resolve_shard_targets k s w ≡ ok ats
      → (tally size ats w).0.collected < length ats
      → is_clean (fetch_sharded_profiles k s size w).0.1 ≡ false
  unfolding fetch_sharded_profiles
  lost_fetch size ats w kind found lost =
      let counts = collect_all-Counts (per_shard k s size (length ats)) ats no_tally w in
      rw (kind, found)
        (incomplete_lost (length ats) (tally size ats w).0 lost (ground (arith, counts)))

-- What an analysis without documents leaves of the last one.
abbrev pub SameFindings : Insights → Insights → Type 0
SameFindings i i' =
    (i'.status.recommendations ≡ i.status.recommendations)
    × (i'.status.slow_queries_sampled ≡ i.status.slow_queries_sampled)
    × (i'.status.actions ≡ i.status.actions)

module _ {W : Type 0} (k : InsightsApi W) where
  incomplete_fails :
      (x : (List ProfileDoc × Option Error) × W)
      → is_clean x.0.1 ≡ false
      → is_ok (if_complete k x).0 ≡ false
  incomplete_fails ((docs, some e), w) h = refl
  incomplete_fails ((docs, none), w) h = cc

  failed_analysis :
      (i : Insights) (now : ℤ) (x : Outcome (List Recommendation × ℕ) × W)
      → is_ok x.0 ≡ false
      → ((on_analysis k now x i).0 ≡ ok (after failed_requeue))
        × SameFindings i (on_analysis k now x i).1
  failed_analysis i now (err e, w) h = ground arith
  failed_analysis i now (ok r, w) h = cc

  lost_analyzed :
      (i : Insights) (x : Outcome (List ProfileDoc) × W)
      → is_ok x.0 ≡ false
      → is_ok (analyzed k i x).0 ≡ false
  lost_analyzed i (err e, w) h = refl
  lost_analyzed i (ok docs, w) h = cc

  lost_analysis :
      (i : Insights) (w : W)
      → is_ok (fetched k i w).0 ≡ false
      → is_ok (run_analysis k i w).0 ≡ false
  unfolding run_analysis
  lost_analysis i w h = lost_analyzed i (fetched k i w) h

  analyzing_reconcile :
      (i : Insights) (w : W)
      → i.enabled ≡ true
      → i.status.phase ≡ analyzing
      → reconcile k i w ≡ on_analysis k (k.now w) (run_analysis k i w) i
  unfolding reconcile
  analyzing_reconcile i w on at = rw (on, at) refl

  -- An analysis of a sharded cluster fails as a whole if the profile of one shard cannot be collected:
  -- the pass asks for another one in five minutes, and the recommendations, the planned actions and the
  -- count of samples stay those of the last analysis, whatever the other shards have delivered.
  pub lost_shard_fails_analysis :
      (i : Insights) (w : W) (ats : List ConnectTarget)
      → i.enabled ≡ true
      → i.status.phase ≡ analyzing
      → str_eq i.target.cluster_kind "MongoDBSharded" ≡ true
      → resolve_shard_targets k.fetcher i.target w ≡ ok ats
      → (tally k.fetcher i.target (sample_of k i.sample_size) ats w).0.collected < length ats
      → ((reconcile k i w).0 ≡ ok (after failed_requeue)) × SameFindings i (reconcile k i w).1
  lost_shard_fails_analysis i w ats on at kind found lost =
      let fetch_fails : is_ok (fetched k i w).0 ≡ false = rw kind (
        incomplete_fails (fetch_sharded_profiles k.fetcher i.target (sample_of k i.sample_size) w)
          (lost_fetch k.fetcher i.target (sample_of k i.sample_size) ats w kind found lost)) in
      rw (analyzing_reconcile i w on at)
        (failed_analysis i (k.now w) (run_analysis k i w) (lost_analysis i w fetch_fails))
