-- ===== src/Insights/Analysis.antt =====
-- internal/insights/analyzer.go: recommendations from profile documents and index statistics.
use mongodb_operator.Common.{
  ℕ, ◌+◌, ◌/◌, String, Bool, true, false, ◌&&◌, ◌||◌, not, none, some, List, [], ◌∷◌, ◌++◌, str_eq,
  if◌then◌else◌, ltb, is_one_of, lookup, sort_texts, zero, suc,
}
use mongodb_operator.Common.Int.{ℤ, pos, ltb_ℤ}
use mongodb_operator.Upgrade.Status.{◌+++◌}
use mongodb_operator.Insights.{
  ProfileDoc, Recommendation, missing_index, slow_query_pattern, unused_index, schema_hint, info,
  warning, IndexStat, Runtime,
}
use mongodb_operator.Insights.Group.{group}
use mongodb_operator.Insights.Shape.{
  split_ns, filter_shape, keys_of, is_nil, suggest_index, severity_from_latency, count_bool_clauses,
  add_sample,
}

-- The bucket of detectMissingIndexes, without the ratio that is not read.
pub record ScanBucket : Type 0 where
  pub ns : String
  pub filter : List String
  pub sort : List String
  pub samples : List String
  pub count : ℕ
  pub total_millis : ℕ
  pub collscan_seen : Bool

-- The bucket of detectSlowQueryPatterns
pub record SlowBucket : Type 0 where
  pub ns : String
  pub filter : List String
  pub samples : List String
  pub count : ℕ
  pub total : ℕ

abbrev is_zero : ℤ → Bool
is_zero (pos zero) = true
is_zero _ = false

module _ (o : Runtime) where
  -- summarizeQuery
  unfoldable pub summarize_query : ProfileDoc → String
  unfolding filter_shape
  summarize_query d =
      d.op
      +++ " ns="
      +++ d.ns
      +++ " filter="
      +++ filter_shape (keys_of d.filter)
      +++ " millis="
      +++ o.decimal (pos d.millis)
      +++ " examined="
      +++ o.decimal d.docs_examined
      +++ " returned="
      +++ o.decimal d.n_returned

  abbrev is_collscan : ProfileDoc → Bool
  is_collscan d = str_eq d.plan_summary "COLLSCAN"

  -- looksLikeMissingIndex
  unfoldable pub looks_like_missing_index : ProfileDoc → Bool
  looks_like_missing_index d =
      if is_collscan d
      then true
      else ltb_ℤ (pos 1000) d.docs_examined
        && o.exceeds_hundredfold d.docs_examined
            (if ltb_ℤ d.n_returned (pos 1) then pos 1 else d.n_returned)

  abbrev pub scan_key : ProfileDoc → String
  scan_key d = d.ns +++ "|" +++ filter_shape (keys_of d.filter) +++ "|" +++ filter_shape d.sort

  abbrev pub make_scan : ProfileDoc → ScanBucket
  make_scan d = record {
    ns = d.ns;
    filter = keys_of d.filter;
    sort = d.sort;
    samples = [];
    count = 0;
    total_millis = 0;
    collscan_seen = false;
  }

  abbrev pub add_scan : ProfileDoc → ScanBucket → ScanBucket
  add_scan d b = record b {
    samples = add_sample (summarize_query d) b.samples;
    count = b.count + 1;
    total_millis = b.total_millis + d.millis;
    collscan_seen = is_collscan d || b.collscan_seen;
  }

  abbrev scanned : List ProfileDoc → List ProfileDoc
  scanned [] = []
  scanned (d ∷ ds) = if looks_like_missing_index d then d ∷ scanned ds else scanned ds

  -- The average of a bucket, and 0 if it is empty
  abbrev pub average : ℕ → ℕ → ℕ
  average total zero = 0
  average total (suc n) = total / suc n

  abbrev scan_recommendation : ScanBucket → Recommendation
  scan_recommendation b =
      let avg = average b.total_millis b.count in
      let (db, coll) = split_ns b.ns in
      let reason = if b.collscan_seen then "COLLSCAN 감지" else "DocsExamined/NReturned 비율 과다" in
      record {
        type = missing_index;
        severity = severity_from_latency avg;
        db = db;
        collection = coll;
        detail = reason +++ " — filter " +++ filter_shape b.filter +++ " 에 대한 인덱스 권장";
        index_suggestion = suggest_index b.filter b.sort;
        avg_latency_ms = avg;
        query_samples = b.samples;
      }

  -- The buckets of a map, in the order of the keys.
  abbrev in_order :
      {B : Type 0} → (B → Recommendation) → List String → List (String × B) → List Recommendation
  in_order f [] m = []
  in_order f (k ∷ ks) m =
      let rest = in_order f ks m in elim (lookup k m) [ none ↦ rest | some b ↦ f b ∷ rest ]

  -- detectMissingIndexes
  unfoldable pub detect_missing_indexes : List ProfileDoc → List Recommendation
  unfolding looks_like_missing_index group lookup sort_texts filter_shape summarize_query
      suggest_index severity_from_latency split_ns
  detect_missing_indexes docs =
      let groups = group scan_key make_scan add_scan (scanned docs) [] in
      in_order scan_recommendation (sort_texts (keys_of groups)) groups

  abbrev pub slow_key : ProfileDoc → String
  slow_key d = d.ns +++ "|" +++ filter_shape (keys_of d.filter)

  abbrev pub make_slow : ProfileDoc → SlowBucket
  make_slow d = record { ns = d.ns; filter = keys_of d.filter; samples = []; count = 0; total = 0 }

  abbrev pub add_slow : ProfileDoc → SlowBucket → SlowBucket
  add_slow d b = record b {
    samples = add_sample (summarize_query d) b.samples;
    count = b.count + 1;
    total = b.total + d.millis;
  }

  abbrev pub is_slow : ℤ → SlowBucket → Bool
  is_slow threshold b = not (ltb b.count 3) && not (ltb_ℤ (pos (average b.total b.count)) threshold)

  -- The keys of the groups that are reported.
  abbrev pub slow_of : ℤ → List (String × SlowBucket) → List String
  slow_of threshold [] = []
  slow_of threshold ((k, b) ∷ m) =
      if is_slow threshold b then k ∷ slow_of threshold m else slow_of threshold m

  abbrev slow_recommendation : ℤ → SlowBucket → Recommendation
  slow_recommendation threshold b =
      let avg = average b.total b.count in
      let (db, coll) = split_ns b.ns in
      record {
        type = slow_query_pattern;
        severity = severity_from_latency avg;
        db = db;
        collection = coll;
        detail =
            "filter "
            +++ filter_shape b.filter
            +++ " — "
            +++ o.decimal (pos b.count)
            +++ "회 발생, 평균 "
            +++ o.decimal (pos avg)
            +++ "ms (임계 "
            +++ o.decimal threshold
            +++ "ms)";
        index_suggestion = "";
        avg_latency_ms = avg;
        query_samples = b.samples;
      }

  abbrev pub slow_groups : List ProfileDoc → List (String × SlowBucket)
  slow_groups docs = group slow_key make_slow add_slow docs []

  -- The sorted keys of detectSlowQueryPatterns, and its result.
  unfoldable pub slow_keys : List ProfileDoc → ℤ → List String
  slow_keys docs threshold = sort_texts (slow_of threshold (slow_groups docs))

  unfoldable pub detect_slow_query_patterns : List ProfileDoc → ℤ → List Recommendation
  unfolding slow_keys group lookup sort_texts filter_shape summarize_query severity_from_latency
      split_ns
  detect_slow_query_patterns docs threshold =
      in_order (slow_recommendation threshold) (slow_keys docs threshold) (slow_groups docs)

  -- detectSchemaHints, before the sort: the first document of each namespace with many clauses.
  abbrev hint : ProfileDoc → Recommendation
  hint d =
      let (db, coll) = split_ns d.ns in
      record {
        type = schema_hint;
        severity = info;
        db = db;
        collection = coll;
        detail =
            o.decimal (pos (count_bool_clauses d.filter))
            +++ "개 $or/$nor 절 감지 — 복합 인덱스 또는 schema 정규화 검토";
        index_suggestion = "";
        avg_latency_ms = 0;
        query_samples = [];
      }

  unfoldable pub hints_of : List String → List ProfileDoc → List Recommendation
  unfolding count_bool_clauses split_ns
  hints_of seen [] = []
  hints_of seen (d ∷ ds) =
      let fresh = hints_of (d.ns ∷ seen) ds in
      let rest = hints_of seen ds in
      if ltb (count_bool_clauses d.filter) 5 || is_one_of seen d.ns then rest else hint d ∷ fresh

  unfoldable pub detect_schema_hints : List ProfileDoc → List Recommendation
  unfolding hints_of
  detect_schema_hints docs =
      o.sort_recommendations (λ r. r.db +++ o.nul +++ r.collection) (hints_of [] docs)

  -- Analyze
  unfoldable pub analyze : List ProfileDoc → ℤ → List Recommendation
  unfolding detect_missing_indexes detect_slow_query_patterns detect_schema_hints
  analyze docs threshold =
      if is_nil docs
      then []
      else detect_missing_indexes docs
        ++ (detect_slow_query_patterns docs threshold ++ detect_schema_hints docs)

  abbrev unused : List IndexStat → List Recommendation
  unused [] = []
  unused (s ∷ ss) =
      if not (str_eq s.index_name "_id_") && is_zero s.accesses
      then record {
        type = unused_index;
        severity = warning;
        db = "";
        collection = "";
        detail =
            "Index "
            +++ o.quoted s.index_name
            +++ " on "
            +++ s.ns
            +++ " has 0 accesses — consider dropping";
        index_suggestion = "";
        avg_latency_ms = 0;
        query_samples = [];
      }
        ∷ unused ss
      else unused ss

  -- AnalyzeIndexUsage
  unfoldable pub analyze_index_usage : List IndexStat → List Recommendation
  analyze_index_usage stats = o.sort_recommendations (λ r. r.detail) (unused stats)
