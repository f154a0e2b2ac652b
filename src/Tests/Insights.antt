-- ===== src/Tests/Insights.antt =====
-- Analyses of a few profile documents, and of a sharded cluster of which a shard is lost.
use mongodb_operator.Common.{
  ℕ, String, true, false, none, some, List, [], ◌∷◌, ◌≡◌, ◌⊎◌, refl, arith, lookup, length, str_eq,
  if◌then◌else◌, zero, suc,
}
use mongodb_operator.Common.Int.{ℤ, pos}
use mongodb_operator.Kube.{text, ok, after}
use mongodb_operator.Upgrade.Status.{◌+++◌}
use mongodb_operator.Insights.{ProfileDoc, Runtime, critical, info}
use mongodb_operator.Insights.Group.{occurrences}
use mongodb_operator.Insights.Analysis.{slow_keys, slow_groups, detect_missing_indexes}
use mongodb_operator.Insights.Shape.{filter_shape, suggest_index}
use mongodb_operator.Insights.Patterns.{count_of, millis_of, Holds, slow_keys_exact}
use mongodb_operator.Insights.Fetch.{collect_all, resolve_shard_targets}
use mongodb_operator.Insights.Connect.{FetchApi, ConnectTarget}
use mongodb_operator.Insights.Actions.{meets_severity}
use mongodb_operator.Insights.Pass.{
  Insights, InsightsApi, InsightsPhase, analyzing, failed_requeue, reconcile,
}
use mongodb_operator.Insights.Interval.{
  twice, analyses, passes, with_interval, interval_is_not_awaited,
}
use mongodb_operator.Insights.Lost.{SameFindings, lost_shard_fails_analysis}

abbrev runtime : Runtime
runtime = record {
  decimal = λ n. "0";
  quoted = λ s. s;
  exceeds_hundredfold = λ a b. false;
  sort_recommendations = λ key rs. rs;
  nul = " ";
}

abbrev query : ℕ → ProfileDoc
query millis = record {
  op = "query";
  ns = "shop.items";
  millis = millis;
  plan_summary = "COLLSCAN";
  filter = ("status", 0) ∷ ("age", 0) ∷ [];
  sort = "age" ∷ "name" ∷ [];
  docs_examined = pos 5;
  n_returned = pos 1;
}

-- Two slow queries and a fast one: 410 milliseconds on the average.
abbrev queries : List ProfileDoc
queries = query 600 ∷ query 30 ∷ query 600 ∷ []

shape_sorted : filter_shape ("status" ∷ "age" ∷ []) ≡ "age,status"
unfolding filter_shape
shape_sorted = refl

suggested :
    suggest_index ("status" ∷ "age" ∷ []) ("age" ∷ "name" ∷ []) ≡ "{age:1, status:1, name:1}"
unfolding suggest_index
suggested = refl

one_scan : length (detect_missing_indexes runtime queries) ≡ 1
unfolding detect_missing_indexes
one_scan = refl

severity_ranked : meets_severity info critical ≡ false
unfolding meets_severity
severity_ranked = refl

abbrev pattern_key : String
pattern_key = "shop.items|age,status"

slow_keys_exact_example :
    (occurrences pattern_key (slow_keys runtime queries (pos 400)) ≡ 1)
    × ((count_of runtime pattern_key queries ≡ 0)
        ⊎ Holds runtime
            (lookup pattern_key (slow_groups runtime queries))
            (count_of runtime pattern_key queries)
            (millis_of runtime pattern_key queries))
unfolding count_of millis_of filter_shape
slow_keys_exact_example = slow_keys_exact runtime pattern_key queries (pos 400)

-- A cluster with two shards; the second cannot be connected to. The world is the time.
abbrev fetch_api : FetchApi ℤ
fetch_api = record {
  get_cluster = λ name w. ok "admin";
  get_sharded_cluster = λ name w. ok ("admin", pos 2);
  get_secret = λ name w. ok (record { name = name; entries = ("password", "secret") ∷ [] });
  new_client =
      λ t c w. (if str_eq t.replica_set "db-shard-1" then some (text "no route" "") else none, w);
  list_database_names = λ t w. ok ("shop" ∷ []);
  set_profile = λ t n level slow_ms w. w;
  collect_profile_docs = λ t n w. (ok queries, w);
  collect_index_stats = λ t w. (ok [], w);
  decimal = λ n. elim n [ pos m ↦ elim m [ zero ↦ "0" | suc _ ↦ "1" ] | _ ↦ "-" ];
}

abbrev insights_api : InsightsApi ℤ
insights_api = record {
  now = λ w. w;
  update_status = λ s w. (none, w);
  fetcher = fetch_api;
  runtime = runtime;
  sort_actions = λ as'. as';
  parse_duration = λ s. none;
  error_text = λ e. "error";
}

abbrev shop_insights : InsightsPhase → Insights
shop_insights p = record {
  enabled = true;
  target = record {
    namespace = "prod";
    cluster_name = "db";
    cluster_kind = "MongoDBSharded";
    credentials_secret = none;
    profiling_level = pos 1;
    slow_query_threshold_ms = pos 100;
  };
  sample_size = pos 100;
  analysis_interval = "15m";
  auto_index = none;
  auto_query_hint = none;
  status = record {
    phase = p;
    last_analysis_time = some (pos 1);
    recommendations = [];
    slow_queries_sampled = 7;
    actions = [];
    conditions = [];
  };
}

interval_is_not_awaited_example :
    let i = shop_insights analyzing in
    (analyses insights_api (twice 2) i (pos 2) ≡ 2)
    × (passes insights_api 2 (with_interval "24h" i) (pos 2) ≡ (
      with_interval "24h" (passes insights_api 2 i (pos 2)).0,
      (passes insights_api 2 i (pos 2)).1,
    ))
interval_is_not_awaited_example =
    interval_is_not_awaited insights_api "24h" 2 (shop_insights analyzing) (pos 2) refl refl
      (λ s w. refl)

abbrev shard_target : String → ConnectTarget
shard_target shard = record {
  host = shard +++ "-headless.prod.svc.cluster.local:27017";
  replica_set = shard;
  admin_secret = "admin";
  namespace = "prod";
}

abbrev shard_targets : List ConnectTarget
shard_targets = shard_target "db-shard-0" ∷ shard_target "db-shard-1" ∷ []

lost_shard_fails_analysis_example :
    ((reconcile insights_api (shop_insights analyzing) (pos 9)).0 ≡ ok (after failed_requeue))
    × SameFindings
        (shop_insights analyzing)
        (reconcile insights_api (shop_insights analyzing) (pos 9)).1
unfolding collect_all resolve_shard_targets
lost_shard_fails_analysis_example =
    lost_shard_fails_analysis insights_api (shop_insights analyzing) (pos 9) shard_targets refl refl
      refl refl (omega arith)
