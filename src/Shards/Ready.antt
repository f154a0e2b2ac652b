-- ===== src/Shards/Ready.antt =====
-- The phase of a sharded cluster and the conditions of its components agree.
use mongodb_operator.Common.{
  ℕ, ◌^◌, ◌<◌, ◌≡◌, ◌≢◌, refl, ap, arith, Bool, true, false, ◌&&◌, Option, none, some, List, [],
  ◌∷◌, All, length,
}
use mongodb_operator.Kube.{ok, StatefulSet}
use mongodb_operator.Mongo.{MongoDbSharded, ShardedStatus, ShardStatus, ComponentStatus}
use mongodb_operator.Upgrade.Status.{◌+++◌}
use mongodb_operator.Shards.Services.{Services, Deployment}
use mongodb_operator.Shards.Init.{shard_name}
use mongodb_operator.Shards.Conditions.{
  is_config_server_hpa_active, is_mongos_hpa_active, target, is_at, have_ready, is_cluster_ready,
  is_component_ready, are_complete, are_all_shards_ready,
}
use mongodb_operator.Shards.Report.{component, total_of}

-- A total that follows the spec, or an autoscaler that asks for some replica.
pub record IsTotal (hpa_active : Bool) (c : ComponentStatus) (spec : ℕ) : Type 0 where
  pub fixed : hpa_active ≡ false → c.total ≡ spec
  pub driven : hpa_active ≡ true → 0 < c.total

-- The status of a cluster whose components were all found, for a spec with shards that have members.
pub record IsReported (m : MongoDbSharded) : Type 0 where
  pub config_total : IsTotal (is_config_server_hpa_active m) m.status.config_server m.config_members
  pub mongos_total : IsTotal (is_mongos_hpa_active m) m.status.mongos m.mongos_replicas
  pub shard_totals : All (λ (x : ShardStatus). x.total ≡ m.members_per_shard) m.status.shards
  pub shard_number : length m.status.shards ≡ m.shard_count
  pub some_shard : 0 < m.shard_count
  pub few_shards : m.shard_count < 2 ^ 31
  pub some_member : 0 < m.members_per_shard

-- The tests of the conditions ConfigServerReady, ShardsReady and MongosReady.
abbrev pub are_components_ready : ShardedStatus → Bool
are_components_ready t =
    is_component_ready t.config_server
    && (is_component_ready t.mongos && are_all_shards_ready t.shards)

target_total :
    (b : Bool) (c : ComponentStatus) (spec : ℕ)
    → IsTotal b c spec
    → is_at c (target b c spec) ≡ is_component_ready c
target_total true c spec h = ground (arith, h.driven refl)
target_total false c spec h = ground (arith, h.fixed refl)

have_ready_complete :
    (n : ℕ) (xs : List ShardStatus)
    → 0 < n
    → All (λ (x : ShardStatus). x.total ≡ n) xs
    → have_ready n xs ≡ are_complete xs
unfolding have_ready are_complete
have_ready_complete n [] h all = refl
have_ready_complete n (x ∷ xs) h (e, all) = ground (arith, h, e, have_ready_complete n xs h all)

pub ready_iff_components :
    (m : MongoDbSharded) → IsReported m → is_cluster_ready m ≡ are_components_ready m.status
unfolding is_cluster_ready
ready_iff_components m h = ground (
  arith,
  h.shard_number,
  h.some_shard,
  h.few_shards,
  h.some_member,
  target_total (is_config_server_hpa_active m) m.status.config_server m.config_members
      h.config_total,
  target_total (is_mongos_hpa_active m) m.status.mongos m.mongos_replicas h.mongos_total,
  have_ready_complete m.members_per_shard m.status.shards h.some_member h.shard_totals,
)

-- What the API server answers, when it has the objects of the cluster and none of the autoscaled ones
-- is scaled to zero.
pub record IsFound {W : Type 0} (s : Services W) (m : MongoDbSharded) (w : W) : Type 0 where
  pub config_server : StatefulSet
  pub mongos : Deployment
  pub shard : ℕ → StatefulSet
  pub config_found : s.kube.get_stateful_set (m.name +++ "-cfg") w ≡ ok config_server
  pub mongos_found : s.get_deployment (m.name +++ "-mongos") w ≡ ok mongos
  pub shard_found : (i : ℕ) → s.kube.get_stateful_set (shard_name s m i) w ≡ ok (shard i)
  pub config_scaled : config_server.spec_replicas ≢ some 0
  pub mongos_scaled : mongos.spec_replicas ≢ some 0

pub component-IsTotal :
    (b : Bool) (ready : ℕ) (replicas : Option ℕ) (spec : ℕ)
    → replicas ≢ some 0
    → 0 < spec
    → IsTotal b (component ready (total_of b replicas spec)) spec
component-IsTotal b ready none spec h pos = record { fixed = λ e. refl; driven = λ e. pos }
component-IsTotal b ready (some n) spec h pos = record {
  fixed = λ e. ground (arith, e);
  driven = λ e. ground (arith, e, scaled);
}
  where
    scaled : n ≢ 0
    scaled e = h (ap some e)
