-- ===== src/Shards/Collections.antt =====
-- The declarative sharding of the collections of the spec: reconcileShardedCollections,
-- isNamespaceNotFound and isConnectError of mongodbsharded_controller.go.
use mongodb_operator.Common.{
  String, Bool, true, false, not, ◌||◌, Option, none, some, List, [], ◌∷◌, if◌then◌else◌, contains,
  ◌==◌, length,
}
use mongodb_operator.Common.Int.{ℤ, pos}
use mongodb_operator.Kube.{ApiError, Error, api, wrapped, Outcome, ok, err, cond_true}
use mongodb_operator.Kube.Exec.{Exec}
use mongodb_operator.Mongo.{MongoDbSharded, ShardedCollectionSpec}
use mongodb_operator.Upgrade.Status.{◌+++◌}
use mongodb_operator.Upgrade.Config.{get_mongos_pod, seconds, no_requeue, get_admin_password}
use mongodb_operator.Cluster.Conditions.{condition}
use mongodb_operator.Shards.Services.{Services}
use mongodb_operator.Shards.Flags.{all_true}
use mongodb_operator.Shards.Hosts.{join}
use mongodb_operator.Shards.Keys.{
  build_shard_key, build_shard_collection_options, ensure_sharded_collection,
}
use mongodb_operator.Shards.ScaleIn.{with_conditions}
use mongodb_operator.Shards.Report.{is_mongos_ready}

-- isNamespaceNotFound
unfoldable pub is_namespace_not_found : String → Bool
unfolding contains
is_namespace_not_found msg =
    contains msg "NamespaceNotFound"
    || (contains msg "ns not found" || contains msg "does not exist")

-- isConnectError
unfoldable pub is_connect_error : String → Bool
unfolding contains
is_connect_error msg =
    contains msg "connect for"
    || (contains msg "connection refused"
        || (contains msg "server selection error"
            || (contains msg "context deadline exceeded" || contains msg "no reachable servers")))

-- What the switch of the loop makes of an error.
pub data Verdict : Type 0 where
  drift transient fatal : Verdict

unfoldable pub verdict : String → Verdict
unfolding contains is_namespace_not_found is_connect_error
verdict msg =
    if contains msg "ShardKeyDrift"
    then drift
    else if is_namespace_not_found msg || is_connect_error msg
    then transient
    else fatal

abbrev pub requeue_provisioning : ℤ
requeue_provisioning = pos (seconds 10)

-- The messages of the drifted collections, and whether to requeue.
abbrev pub Findings : Type 0
Findings = List String × Bool

abbrev pub namespace_of : ShardedCollectionSpec → String
namespace_of c = c.database +++ "." +++ c.collection

module _ {W : Type 0} (s : Services W) where
  abbrev add_finding :
      ShardedCollectionSpec → Error → Verdict → Outcome Findings × W → Outcome Findings × W
  add_finding c e drift (ok (msgs, requeue), w) =
      (ok ((namespace_of c +++ ": " +++ s.error_text e) ∷ msgs, requeue), w)
  add_finding c e transient (ok (msgs, requeue), w) = (ok (msgs, true), w)
  add_finding c e v (r, w) = (r, w)

  abbrev pub checked :
      ShardedCollectionSpec → Option Error × W → (W → Outcome Findings × W) → Outcome Findings × W
  checked c (none, w) rest = rest w
  checked c (some e, w) rest = elim (verdict (s.error_text e)) [
    | drift ↦ add_finding c e drift (rest w)
    | transient ↦ add_finding c e transient (rest w)
    | fatal ↦ (err (wrapped ("ensure sharded collection " +++ namespace_of c) e), w)
  ]

  -- The loop of reconcileShardedCollections; a fatal error ends it.
  unfoldable pub ensure_all : String → List ShardedCollectionSpec → W → Outcome Findings × W
  unfolding build_shard_key build_shard_collection_options ensure_sharded_collection verdict
  ensure_all password [] w = (ok ([], false), w)
  ensure_all password (c ∷ cs) w =
      checked c
        (ensure_sharded_collection s password c.database c.collection (build_shard_key c.shard_key)
          (build_shard_collection_options c) w)
        (ensure_all password cs)

  abbrev pub remove_drift : MongoDbSharded → MongoDbSharded
  remove_drift m = with_conditions (s.remove_status_condition "ShardKeyDrift" m.status.conditions) m

  -- applyDrift
  abbrev pub apply_drift : List String → W → MongoDbSharded → MongoDbSharded
  apply_drift [] w m = remove_drift m
  apply_drift (msg ∷ msgs) w m =
      with_conditions
        (s.set_status_condition w
          (condition "ShardKeyDrift" cond_true m.generation "ShardKeyMismatch"
            (join "; " (msg ∷ msgs)))
          m.status.conditions)
        m

  abbrev pub stored_drift : Option ApiError × W → MongoDbSharded → Outcome ℤ × MongoDbSharded × W
  stored_drift (none, w) m = (ok requeue_provisioning, m, w)
  stored_drift (some e, w) m =
      (err (wrapped "persist ShardKeyDrift condition before requeue" (api e)), m, w)

  abbrev pub concluded : Outcome Findings × W → MongoDbSharded → Outcome ℤ × MongoDbSharded × W
  concluded (err e, w) m = (err e, m, w)
  concluded (ok (msgs, false), w) m = (ok no_requeue, apply_drift msgs w m, w)
  concluded (ok ([], true), w) m = (ok requeue_provisioning, apply_drift [] w m, w)
  concluded (ok (msg ∷ msgs, true), w) m =
      let m' = apply_drift (msg ∷ msgs) w m in stored_drift (s.kube.update_status m'.status w) m'

  abbrev pub collections_on : String → Outcome String → Exec MongoDbSharded W ℤ
  collections_on password (err _) m w = (ok requeue_provisioning, m, w)
  collections_on password (ok pod) m w = concluded (ensure_all password m.sharded_collections w) m

  abbrev pub collections_with : Outcome String → Exec MongoDbSharded W ℤ
  collections_with (err e) m w = (err (wrapped "get admin password" e), m, w)
  collections_with (ok password) m w = collections_on password (get_mongos_pod s.kube m.name w) m w

  -- reconcileShardedCollections: the time after which the pass is requeued, or 0.
  unfoldable pub reconcile_sharded_collections : Exec MongoDbSharded W ℤ
  unfolding is_mongos_ready all_true get_admin_password join ensure_all
  reconcile_sharded_collections m w =
      if length m.sharded_collections == 0
      then (ok no_requeue, remove_drift m, w)
      else if not (is_mongos_ready s m w)
      then (ok requeue_provisioning, m, w)
      else if not (all_true m.shard_count m.status.shards_added)
      then (ok requeue_provisioning, m, w)
      else collections_with (get_admin_password s.kube m.admin_secret w) m w
