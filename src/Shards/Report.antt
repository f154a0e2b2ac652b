-- ===== src/Shards/Report.antt =====
-- The reported status of a sharded cluster: updateStatus and observeShardedCollections of
-- mongodbsharded_controller.go, and the readiness checks of a pass.
use mongodb_operator.Common.{
  ℕ, zero, suc, String, Bool, true, false, ◌&&◌, Option, none, some, List, [], ◌∷◌, ◌==◌, leb,
  if◌then◌else◌, has_prefix, sort_texts, ◌||◌,
}
use mongodb_operator.Common.Int.{pos}
use mongodb_operator.Kube.{Error, wrapped, Outcome, ok, err, StatefulSet, Condition}
use mongodb_operator.Kube.Exec.{Exec}
use mongodb_operator.Mongo.{MongoDbSharded, ShardStatus, ComponentStatus, running, initializing}
use mongodb_operator.Upgrade.Status.{◌+++◌}
use mongodb_operator.Upgrade.Config.{get_mongos_pod, get_admin_password}
use mongodb_operator.Cluster.Report.{is_not_found}
use mongodb_operator.Cluster.Conditions.{condition, has_type}
use mongodb_operator.Kube.{cond_false}
use mongodb_operator.Shards.Services.{Services, Deployment, ConfigCollection}
use mongodb_operator.Shards.Namespaces.{user_namespace_from_buckets}
use mongodb_operator.Shards.Init.{shard_name, with_status, write_status}
use mongodb_operator.Shards.ScaleIn.{with_conditions}
use mongodb_operator.Shards.Conditions.{
  is_config_server_hpa_active, is_mongos_hpa_active, get_component_phase, is_cluster_ready,
  evaluate_sharded_conditions,
}

-- CR.Spec is the truth of a total, but for a component that an autoscaler drives.
abbrev pub total_of : Bool → Option ℕ → ℕ → ℕ
total_of hpa_active none spec = spec
total_of hpa_active (some n) spec = if hpa_active then n else spec

abbrev pub component : ℕ → ℕ → ComponentStatus
component ready total = record {
  ready = ready;
  total = total;
  phase = get_component_phase ready total;
}

abbrev pub config_server_set : StatefulSet → MongoDbSharded → MongoDbSharded
config_server_set sts m =
    with_status
      (record m.status {
        config_server =
            component sts.ready_replicas
              (total_of (is_config_server_hpa_active m) sts.spec_replicas m.config_members);
      })
      m

abbrev config_server_of : Outcome StatefulSet → MongoDbSharded → Outcome MongoDbSharded
config_server_of (ok sts) m = ok (config_server_set sts m)
config_server_of (err e) m =
    if is_not_found e then ok m else err (wrapped "get cfg statefulset for status" e)

abbrev pub mongos_set : Deployment → MongoDbSharded → MongoDbSharded
mongos_set d m =
    with_status
      (record m.status {
        mongos =
            component d.ready_replicas
              (total_of (is_mongos_hpa_active m) d.spec_replicas m.mongos_replicas);
      })
      m

abbrev mongos_of : Outcome Deployment → MongoDbSharded → Outcome MongoDbSharded
mongos_of (ok d) m = ok (mongos_set d m)
mongos_of (err e) m =
    if is_not_found e then ok m else err (wrapped "get mongos deployment for status" e)

abbrev is_internal : String → Bool
is_internal ns = has_prefix "config." ns || has_prefix "admin." ns

-- The namespaces of the users, of the documents of config.collections: ListShardedNamespaces and the
-- loop of observeShardedCollections.
unfoldable pub user_namespaces : List ConfigCollection → List String
unfolding has_prefix user_namespace_from_buckets
user_namespaces [] = []
user_namespaces (d ∷ ds) =
    let ns = user_namespace_from_buckets d.id in
    if is_internal ns then user_namespaces ds else ns ∷ user_namespaces ds

module _ {W : Type 0} (s : Services W) where
  abbrev has_ready_replicas : ℕ → Outcome StatefulSet → Bool
  has_ready_replicas n (ok sts) = sts.ready_replicas == n
  has_ready_replicas n (err _) = false

  -- isConfigServerReady
  unfoldable pub is_config_server_ready : MongoDbSharded → W → Bool
  is_config_server_ready m w =
      has_ready_replicas m.config_members (s.kube.get_stateful_set (m.name +++ "-cfg") w)

  -- The loop of areShardsReady over `n` shards from the index `i` on.
  unfoldable pub shards_ready_from : MongoDbSharded → ℕ → ℕ → W → Bool
  shards_ready_from m zero i w = true
  shards_ready_from m (suc n) i w =
      has_ready_replicas m.members_per_shard (s.kube.get_stateful_set (shard_name s m i) w)
      && shards_ready_from m n (suc i) w

  -- areShardsReady
  unfoldable pub are_shards_ready : MongoDbSharded → W → Bool
  unfolding shards_ready_from
  are_shards_ready m w = shards_ready_from m m.shard_count 0 w

  abbrev is_mongos_up : Outcome Deployment → Bool
  is_mongos_up (ok d) = leb 1 d.ready_replicas
  is_mongos_up (err _) = false

  -- isMongosReady
  unfoldable pub is_mongos_ready : MongoDbSharded → W → Bool
  is_mongos_ready m w = is_mongos_up (s.get_deployment (m.name +++ "-mongos") w)

  abbrev listed : Outcome (List ConfigCollection) → Option (List String)
  listed (err _) = none
  listed (ok ds) = some (sort_texts (user_namespaces ds))

  abbrev observed_on : String → Outcome String → W → Option (List String)
  observed_on password (err _) w = none
  observed_on password (ok pod) w = listed (s.find_collections password w)

  abbrev observed_with : String → Outcome String → W → Option (List String)
  observed_with name (err _) w = none
  observed_with name (ok password) w = observed_on password (get_mongos_pod s.kube name w) w

  -- observeShardedCollections: `none` keeps what the status has.
  unfoldable pub observe_sharded_collections : MongoDbSharded → W → Option (List String)
  unfolding is_mongos_ready get_admin_password sort_texts user_namespaces
  observe_sharded_collections m w =
      if is_mongos_ready m w
      then observed_with m.name (get_admin_password s.kube m.admin_secret w) w
      else none

  abbrev Shards : Type 0
  Shards = Option Error × List ShardStatus

  abbrev shard_status_of : MongoDbSharded → ℕ → Outcome StatefulSet → Shards → Shards
  shard_status_of m i (ok sts) (e, xs) = (
    e,
    record {
      name = shard_name s m i;
      ready = sts.ready_replicas;
      total = m.members_per_shard;
      phase = get_component_phase sts.ready_replicas m.members_per_shard;
    }
        ∷ xs,
  )
  shard_status_of m i (err e) rest =
      if is_not_found e
      then rest
      else (some (wrapped ("get shard " +++ s.decimal (pos i) +++ " statefulset for status") e), [])

  -- The loop of updateStatus over `n` shards from the index `i` on: the error that ends it, if any, and
  -- the statuses of the shards that it found.
  unfoldable pub shard_statuses : MongoDbSharded → ℕ → ℕ → W → Shards
  unfolding get_component_phase
  shard_statuses m zero i w = (none, [])
  shard_statuses m (suc n) i w =
      shard_status_of m i (s.kube.get_stateful_set (shard_name s m i) w)
        (shard_statuses m n (suc i) w)

  -- `meta.SetStatusCondition` of one after the other.
  unfoldable pub set_all : W → List Condition → List Condition → List Condition
  set_all w [] cs = cs
  set_all w (n ∷ ns) cs = set_all w ns (s.set_status_condition w n cs)

  abbrev cleared_error : W → MongoDbSharded → List Condition
  cleared_error w m =
      if has_type "ReconcileError" m.status.conditions
      then s.set_status_condition w
          (condition "ReconcileError" cond_false m.generation "ReconcileSucceeded"
            "Last reconcile succeeded")
          m.status.conditions
      else m.status.conditions

  abbrev or_kept : Option (List String) → List String → List String
  or_kept none old = old
  or_kept (some new) old = new

  -- applyStatus of updateStatus
  unfoldable pub apply_status : W → MongoDbSharded → MongoDbSharded
  unfolding observe_sharded_collections has_type set_all is_cluster_ready
      evaluate_sharded_conditions
  apply_status w m =
      let ready = is_cluster_ready m in
      let m' =
        with_status
          (record m.status {
            phase = if ready then running else initializing;
            connection_string =
                "mongodb://" +++ m.name +++ "-mongos." +++ m.namespace
                +++ ".svc.cluster.local:27017";
            sharded_collections =
                or_kept (observe_sharded_collections m w) m.status.sharded_collections;
            observed_generation = m.generation;
          })
          m in
      with_conditions
        (set_all w (evaluate_sharded_conditions s.decimal s.quoted m' ready) (cleared_error w m'))
        m'

  abbrev mongos_reported : Outcome MongoDbSharded → Exec MongoDbSharded W Bool
  mongos_reported (err e) m w = (err e, m, w)
  mongos_reported (ok m') m w = write_status s (apply_status w m') w

  abbrev pub set_shards : List ShardStatus → MongoDbSharded → MongoDbSharded
  set_shards xs m = with_status (record m.status { shards = xs }) m

  abbrev pub shards_reported : Shards → Exec MongoDbSharded W Bool
  shards_reported (some e, xs) m w = (err e, set_shards xs m, w)
  shards_reported (none, xs) m w =
      let m' = set_shards xs m in
      mongos_reported (mongos_of (s.get_deployment (m.name +++ "-mongos") w) m') m' w

  abbrev config_server_reported : Outcome MongoDbSharded → Exec MongoDbSharded W Bool
  config_server_reported (err e) m w = (err e, m, w)
  config_server_reported (ok m') m w = shards_reported (shard_statuses m' m'.shard_count 0 w) m' w

  -- updateStatus
  unfoldable pub update_status : Exec MongoDbSharded W Bool
  unfolding apply_status is_config_server_hpa_active is_mongos_hpa_active get_component_phase
      shard_statuses
  update_status m w =
      config_server_reported (config_server_of (s.kube.get_stateful_set (m.name +++ "-cfg") w) m) m
        w
