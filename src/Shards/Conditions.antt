-- ===== src/Shards/Conditions.antt =====
-- Whether a sharded cluster is ready, and the conditions that say so: getComponentPhase,
-- isClusterReady and evaluateShardedConditions of mongodbsharded_controller.go, and the guards
-- IsConfigServerHPAActive and IsMongosHPAActive of internal/resources/builder_hpa.go.
use mongodb_operator.Common.{
  ℕ, ◌-◌, ◌^◌, String, Bool, true, false, not, ◌&&◌, Option, none, some, List, [], ◌∷◌, ◌++◌, ◌==◌,
  ltb, if◌then◌else◌, length,
}
use mongodb_operator.Common.Int.{ℤ, pos}
use mongodb_operator.Kube.{Condition, cond_true}
use mongodb_operator.Mongo.{
  MongoDbSharded, ShardStatus, ComponentStatus, BackupSpec, Phase, pending, initializing, running,
}
use mongodb_operator.Upgrade.Status.{◌+++◌}
use mongodb_operator.Cluster.Conditions.{condition, status_of_test}

-- `p != nil && p.Enabled`, and the same of `Deliberate`
abbrev pub is_set : Option Bool → Bool
is_set none = false
is_set (some b) = b

-- IsConfigServerHPAActive
unfoldable pub is_config_server_hpa_active : MongoDbSharded → Bool
is_config_server_hpa_active m = is_set m.config_auto_scaling && is_set m.config_scale_deliberate

-- IsMongosHPAActive
unfoldable pub is_mongos_hpa_active : MongoDbSharded → Bool
is_mongos_hpa_active m = is_set m.mongos_auto_scaling

-- getComponentPhase
unfoldable pub get_component_phase : ℕ → ℕ → Phase
get_component_phase ready total =
    if ready == total then running else if ltb 0 ready then initializing else pending

-- What the number of ready members of a component is compared with.
abbrev pub target : Bool → ComponentStatus → ℕ → ℕ
target hpa_active c spec = if hpa_active && ltb 0 c.total then c.total else spec

abbrev pub is_at : ComponentStatus → ℕ → Bool
is_at c n = not (n == 0) && c.ready == n

-- The last loop of isClusterReady.
unfoldable pub have_ready : ℕ → List ShardStatus → Bool
have_ready members [] = true
have_ready members (s ∷ ss) = s.ready == members && have_ready members ss

-- isClusterReady
unfoldable pub is_cluster_ready : MongoDbSharded → Bool
unfolding is_config_server_hpa_active is_mongos_hpa_active have_ready
is_cluster_ready m =
    not (ltb (2 ^ 31 - 1) (length m.status.shards))
    && (length m.status.shards == m.shard_count
        && (is_at m.status.config_server
              (target (is_config_server_hpa_active m) m.status.config_server m.config_members)
            && (is_at m.status.mongos
                  (target (is_mongos_hpa_active m) m.status.mongos m.mongos_replicas)
                && (not (m.members_per_shard == 0)
                    && have_ready m.members_per_shard m.status.shards))))

-- The tests of the conditions of the components.
abbrev pub is_component_ready : ComponentStatus → Bool
is_component_ready c = c.ready == c.total && ltb 0 c.total

unfoldable pub are_complete : List ShardStatus → Bool
are_complete [] = true
are_complete (s ∷ ss) = (s.ready == s.total && not (s.total == 0)) && are_complete ss

abbrev pub are_all_shards_ready : List ShardStatus → Bool
are_all_shards_ready ss = ltb 0 (length ss) && are_complete ss

abbrev reason : Bool → String
reason b = if b then "Available" else "Initializing"

abbrev ready_message : Bool → String
ready_message b =
    if b
    then "All components (config server, shards, mongos) ready"
    else "MongoDBSharded cluster is initializing components"

abbrev progressing_message : Bool → String
progressing_message b =
    if b then "Cluster reached desired state" else "Cluster components transitioning to ready state"

module _ (decimal : ℤ → String) (quoted : String → String) where
  abbrev tls_conditions : MongoDbSharded → List Condition
  tls_conditions m =
      if is_set m.tls
      then condition "TLSReady" cond_true m.generation "TLSEnabled"
          "TLS spec enabled (cert validation is operator-internal)"
        ∷ []
      else []

  abbrev backup_conditions : MongoDbSharded → Option BackupSpec → List Condition
  backup_conditions m none = []
  backup_conditions m (some b) =
      if b.enabled
      then condition "BackupReady" cond_true m.generation "BackupEnabled" (
          "Backup enabled (schedule: "
          +++ quoted b.schedule
          +++ ", type: "
          +++ b.storage_type
          +++ ")")
        ∷ []
      else []

  abbrev test_condition : MongoDbSharded → String → Bool → String → Condition
  test_condition m type test message =
      condition type (status_of_test test) m.generation (reason test) message

  abbrev ratio : ℕ → ℕ → String
  ratio a b = decimal (pos a) +++ "/" +++ decimal (pos b)

  abbrev component_condition : MongoDbSharded → String → String → ComponentStatus → Condition
  component_condition m type name c =
      test_condition m type (is_component_ready c)
        (name +++ " " +++ ratio c.ready c.total +++ " ready")

  -- evaluateShardedConditions
  unfoldable pub evaluate_sharded_conditions : MongoDbSharded → Bool → List Condition
  unfolding are_complete
  evaluate_sharded_conditions m ready =
      test_condition m "Ready" ready (ready_message ready)
      ∷ condition "Progressing" (status_of_test (not ready)) m.generation (reason ready)
          (progressing_message ready)
      ∷ component_condition m "ConfigServerReady" "ConfigServer" m.status.config_server
      ∷ test_condition m "ShardsReady" (are_all_shards_ready m.status.shards)
          (ratio (length m.status.shards) m.shard_count +++ " shards reporting all members ready")
      ∷ component_condition m "MongosReady" "Mongos" m.status.mongos
      ∷ (tls_conditions m ++ backup_conditions m m.backup)
