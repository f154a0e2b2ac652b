-- ===== src/Shards/Agree.antt =====
-- The phase that updateStatus reports, when the API server has all objects of the cluster.
use mongodb_operator.Common.{
  ℕ, zero, suc, ◌^◌, ◌<◌, ◌≡◌, refl, ap, arith, Option, none, some, List, All, length,
  if◌then◌else◌,
}
use mongodb_operator.Kube.{Error, ok, StatefulSet}
use mongodb_operator.Mongo.{MongoDbSharded, ShardStatus, running, initializing}
use mongodb_operator.Shards.Services.{Services}
use mongodb_operator.Shards.Init.{shard_name}
use mongodb_operator.Shards.Conditions.{is_config_server_hpa_active, is_mongos_hpa_active}
use mongodb_operator.Shards.Report.{
  shard_statuses, shards_reported, apply_status, update_status, set_shards, config_server_set,
  mongos_set,
}
use mongodb_operator.Shards.Ready.{
  IsReported, are_components_ready, ready_iff_components, IsFound, component-IsTotal,
}

-- The statuses of `n` shards that were all found.
record IsListed (members n : ℕ) (r : Option Error × List ShardStatus) : Type 0 where
  ended : r.0 ≡ none
  number : length r.1 ≡ n
  totals : All (λ (x : ShardStatus). x.total ≡ members) r.1

-- A spec that has shards with members, members of the config server, and mongos.
pub record IsProper (m : MongoDbSharded) : Type 0 where
  pub some_config : 0 < m.config_members
  pub some_mongos : 0 < m.mongos_replicas
  pub some_shard : 0 < m.shard_count
  pub few_shards : m.shard_count < 2 ^ 31
  pub some_member : 0 < m.members_per_shard

module _ {W : Type 0} (s : Services W) where
  shard_statuses-IsListed :
      (m : MongoDbSharded) (sts : ℕ → StatefulSet) (n i : ℕ) (w : W)
      → ((k : ℕ) → s.kube.get_stateful_set (shard_name s m k) w ≡ ok (sts k))
      → IsListed m.members_per_shard n (shard_statuses s m n i w)
  unfolding shard_statuses
  shard_statuses-IsListed m sts zero i w h = record { ended = refl; number = refl; totals = tt }
  shard_statuses-IsListed m sts (suc n) i w h =
      let rest = shard_statuses-IsListed m sts n (suc i) w h in
      rw (h i)
        (record { ended = rest.ended; number = ap suc rest.number; totals = (refl, rest.totals) })

  module _ (m : MongoDbSharded) (w : W) (f : IsFound s m w) (proper : IsProper m) where
    -- The object that applyStatus gets.
    abbrev observed : List ShardStatus → MongoDbSharded
    observed xs = mongos_set f.mongos (set_shards s xs (config_server_set f.config_server m))

    observed-IsReported :
        (r : Option Error × List ShardStatus)
        → IsListed m.members_per_shard m.shard_count r
        → IsReported (observed r.1)
    unfolding is_config_server_hpa_active is_mongos_hpa_active
    observed-IsReported r h = record {
      config_total =
          component-IsTotal (is_config_server_hpa_active m) f.config_server.ready_replicas
            f.config_server.spec_replicas m.config_members f.config_scaled proper.some_config;
      mongos_total =
          component-IsTotal (is_mongos_hpa_active m) f.mongos.ready_replicas f.mongos.spec_replicas
            m.mongos_replicas f.mongos_scaled proper.some_mongos;
      shard_totals = h.totals;
      shard_number = h.number;
      some_shard = proper.some_shard;
      few_shards = proper.few_shards;
      some_member = proper.some_member;
    }

    reported_phase :
        (r : Option Error × List ShardStatus)
        → IsListed m.members_per_shard m.shard_count r
        → let t = (shards_reported s r (config_server_set f.config_server m) w).1.status in
          t.phase ≡ (if are_components_ready t then running else initializing)
    unfolding apply_status
    reported_phase (some e, xs) h = ground (arith, h.ended)
    reported_phase (none, xs) h =
        rw (f.mongos_found, ready_iff_components (observed xs) (observed-IsReported (none, xs) h))
          refl

    -- When the API server has all objects of the cluster, and no autoscaler has scaled a component to
    -- zero, updateStatus reports the phase Running if and only if the conditions ConfigServerReady,
    -- ShardsReady and MongosReady that it sets are all true, and else Initializing. The spec has shards
    -- with members, members of the config server, and mongos.
    phase_iff_components :
        let t = (update_status s m w).1.status in
        t.phase ≡ (if are_components_ready t then running else initializing)
    unfolding update_status
    phase_iff_components = rw f.config_found (
        reported_phase (shard_statuses s (config_server_set f.config_server m) m.shard_count 0 w) (
          shard_statuses-IsListed (config_server_set f.config_server m) f.shard m.shard_count 0 w
            f.shard_found))
