-- ===== src/Insights/Fetch.antt =====
-- internal/insights/fetcher.go: where profiles are collected, with which credentials, and what is made
-- of the shards that fail. The collection from one server is outside.
use mongodb_operator.Common.{
  ℕ, ◌+◌, ◌/◌, String, Bool, ◌||◌, Option, none, some, List, [], ◌∷◌, ◌++◌, str_eq, if◌then◌else◌,
  ltb, ◌==◌, is_one_of, length, zero, suc,
}
use mongodb_operator.Common.Int.{ℤ, pos, ltb_ℤ}
use mongodb_operator.Kube.{Error, wrapped, text, Outcome, ok, err}
use mongodb_operator.Upgrade.Status.{◌+++◌}
use mongodb_operator.Cluster.Report.{is_not_found}
use mongodb_operator.Insights.{ProfileDoc, IndexStat}
use mongodb_operator.Insights.Connect.{ConnectTarget, FetchSpec, FetchApi, connect_to}

-- What the loop over the shards keeps.
pub record Tally : Type 0 where
  pub all : List ProfileDoc
  pub last_error : Option Error
  pub connected : ℕ
  pub collected : ℕ

abbrev pub no_tally : Tally
no_tally = record { all = []; last_error = none; connected = 0; collected = 0 }

abbrev pub failed_with : Error → Tally → Tally
failed_with e t = record t { last_error = some e }

module _ {W : Type 0} (k : FetchApi W) (s : FetchSpec) where
  abbrev is_skipped : String → Bool
  is_skipped = is_one_of ("admin" ∷ "local" ∷ "config" ∷ [])

  abbrev profile_all : ConnectTarget → ℤ → List String → W → W
  profile_all t slow_ms [] w = w
  profile_all t slow_ms (n ∷ ns) w =
      profile_all t slow_ms ns
        (if is_skipped n then w else k.set_profile t n s.profiling_level slow_ms w)

  abbrev profile_listed : ConnectTarget → Outcome (List String) → W → Option Error × W
  profile_listed t (err e) w = (some (wrapped "listDatabases" e), w)
  profile_listed t (ok ns) w = (
    none,
    profile_all t
        (if ltb_ℤ (pos 0) s.slow_query_threshold_ms then s.slow_query_threshold_ms else pos 100) ns
        w,
  )

  -- applyProfilingLevel
  unfoldable pub apply_profiling_level : ConnectTarget → W → Option Error × W
  apply_profiling_level t w =
      if ltb_ℤ s.profiling_level (pos 0) || ltb_ℤ (pos 2) s.profiling_level
      then (some (text "invalid ProfilingLevel " (k.decimal s.profiling_level)), w)
      else profile_listed t (k.list_database_names t w) w

  -- shardConnectTargets, from the shard `i` on
  unfoldable pub shard_connect_targets : String → ℕ → ℕ → List ConnectTarget
  shard_connect_targets secret i zero = []
  shard_connect_targets secret i (suc n) =
      let shard = s.cluster_name +++ "-shard-" +++ k.decimal (pos i) in
      record {
        host = shard +++ "-headless." +++ s.namespace +++ ".svc.cluster.local:27017";
        replica_set = shard;
        admin_secret = secret;
        namespace = s.namespace;
      }
      ∷ shard_connect_targets secret (i + 1) n

  abbrev targets_of : Outcome (String × ℤ) → Outcome (List ConnectTarget)
  targets_of (err e) =
      if is_not_found e
      then err (text ("ClusterRef MongoDBSharded/" +++ s.cluster_name) " not found")
      else err (wrapped "get MongoDBSharded" e)
  targets_of (ok (secret, pos (suc n))) = ok (shard_connect_targets secret 0 (suc n))
  targets_of (ok (secret, count)) =
      err (text ("MongoDBSharded/" +++ s.cluster_name +++ " shards.count=") (k.decimal count))

  -- resolveShardTargets
  unfoldable pub resolve_shard_targets : W → Outcome (List ConnectTarget)
  unfolding shard_connect_targets
  resolve_shard_targets w = targets_of (k.get_sharded_cluster s.cluster_name w)

  abbrev pub collected : Outcome (List ProfileDoc) × W → Tally → Tally × W
  collected (err e, w) t = (failed_with e t, w)
  collected (ok docs, w) t = (record t { all = t.all ++ docs; collected = t.collected + 1 }, w)

  abbrev pub profiled : ConnectTarget → ℕ → Option Error × W → Tally → Tally × W
  profiled at size (some e, w) t = (failed_with e t, w)
  profiled at size (none, w) t = collected (k.collect_profile_docs at size w) t

  abbrev pub connected : ConnectTarget → ℕ → Option Error × W → Tally → Tally × W
  connected at size (some e, w) t = (failed_with e t, w)
  connected at size (none, w) t =
      profiled at size (apply_profiling_level at w) (record t { connected = t.connected + 1 })

  -- The loop over the shards
  unfoldable pub collect_all : ℕ → List ConnectTarget → Tally → W → Tally × W
  unfolding connect_to apply_profiling_level
  collect_all size [] t w = (t, w)
  collect_all size (at ∷ ats) t w =
      let (t', w') = connected at size (connect_to k s at w) t in collect_all size ats t' w'

  -- The documents, with the error that may come beside them
  abbrev pub Collection : Type 0
  Collection = List ProfileDoc × Option Error

  abbrev pub incomplete : ℕ → Tally → Option Error → Collection
  incomplete n t none = (t.all, none)
  incomplete n t (some e) =
      if t.collected == 0
      then (
        [],
        some (
            wrapped
              ("all "
                +++ k.decimal (pos n)
                +++ " shards failed (connected="
                +++ k.decimal (pos t.connected)
                +++ ")")
              e),
      )
      else if ltb t.collected n
      then (
        t.all,
        some (
            wrapped
              ("partial shard failure ("
                +++ k.decimal (pos t.collected)
                +++ "/"
                +++ k.decimal (pos n)
                +++ " shards collected)")
              e),
      )
      else (t.all, none)

  abbrev pub summed : ℕ → Tally × W → Collection × W
  summed n (t, w) = (incomplete n t t.last_error, w)

  abbrev pub per_shard : ℕ → ℕ → ℕ
  per_shard size zero = 10
  per_shard size (suc n) = let share = size / suc n in if ltb share 10 then 10 else share

  abbrev pub fetch_from : ℕ → Outcome (List ConnectTarget) → W → Collection × W
  fetch_from size (err e) w = (([], some e), w)
  fetch_from size (ok ats) w =
      summed (length ats) (collect_all (per_shard size (length ats)) ats no_tally w)

  -- FetchShardedProfiles, for a positive sample size
  unfoldable pub fetch_sharded_profiles : ℕ → W → Collection × W
  unfolding collect_all resolve_shard_targets
  fetch_sharded_profiles size w =
      if str_eq s.cluster_kind "MongoDBSharded"
      then fetch_from size (resolve_shard_targets w) w
      else (
        ([], some (text "FetchShardedProfiles is for MongoDBSharded only, got " s.cluster_kind)),
        w,
      )

  abbrev target_found : String → String → Outcome String → Outcome ConnectTarget
  target_found kind suffix (err e) =
      if is_not_found e
      then err (text ("ClusterRef " +++ kind +++ "/" +++ s.cluster_name) " not found")
      else err (wrapped ("get " +++ kind) e)
  target_found kind suffix (ok secret) = ok (record {
    host = s.cluster_name +++ suffix +++ s.namespace +++ ".svc.cluster.local:27017";
    replica_set = if str_eq kind "MongoDB" then s.cluster_name else "";
    admin_secret = secret;
    namespace = s.namespace;
  })

  abbrev secret_only : Outcome (String × ℤ) → Outcome String
  secret_only (err e) = err e
  secret_only (ok (secret, _)) = ok secret

  -- resolveConnectTarget
  unfoldable pub resolve_connect_target : W → Outcome ConnectTarget
  resolve_connect_target w =
      if str_eq s.cluster_kind "MongoDB"
      then target_found "MongoDB" "-headless." (k.get_cluster s.cluster_name w)
      else if str_eq s.cluster_kind "MongoDBSharded"
      then target_found "MongoDBSharded" "-mongos."
          (secret_only (k.get_sharded_cluster s.cluster_name w))
      else err (text "unreachable: kind validation should have caught " s.cluster_kind)

  abbrev reached : ConnectTarget → Option Error × W → Outcome ConnectTarget × W
  reached t (some e, w) = (err e, w)
  reached t (none, w) = (ok t, w)

  abbrev connect_target : Outcome ConnectTarget → W → Outcome ConnectTarget × W
  connect_target (err e) w = (err e, w)
  connect_target (ok t) w = reached t (connect_to k s t w)

  -- connect
  unfoldable pub connect : W → Outcome ConnectTarget × W
  unfolding resolve_connect_target connect_to
  connect w =
      if str_eq s.cluster_kind "MongoDB" || str_eq s.cluster_kind "MongoDBSharded"
      then connect_target (resolve_connect_target w) w
      else (err (text "unsupported ClusterRef.Kind " s.cluster_kind), w)

  abbrev fetch_profiled : ConnectTarget → ℕ → Option Error × W → Outcome (List ProfileDoc) × W
  fetch_profiled t size (some e, w) = (err (wrapped "apply profiling level" e), w)
  fetch_profiled t size (none, w) = k.collect_profile_docs t size w

  abbrev fetch_on : ℕ → Outcome ConnectTarget × W → Outcome (List ProfileDoc) × W
  fetch_on size (err e, w) = (err e, w)
  fetch_on size (ok t, w) =
      if str_eq s.cluster_kind "MongoDB"
      then fetch_profiled t size (apply_profiling_level t w)
      else k.collect_profile_docs t size w

  -- Fetch, for a positive sample size
  unfoldable pub fetch : ℕ → W → Outcome (List ProfileDoc) × W
  unfolding connect apply_profiling_level
  fetch size w = fetch_on size (connect w)

  abbrev stats_on : Outcome ConnectTarget × W → Outcome (List IndexStat) × W
  stats_on (err e, w) = (err e, w)
  stats_on (ok t, w) = k.collect_index_stats t w

  -- FetchIndexStats
  unfoldable pub fetch_index_stats : W → Outcome (List IndexStat) × W
  unfolding connect
  fetch_index_stats w = stats_on (connect w)
