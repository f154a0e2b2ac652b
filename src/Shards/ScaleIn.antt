-- ===== src/Shards/ScaleIn.antt =====
-- The removal of shards: reconcileScaleIn, scaleInPollInterval, recordShardDrainingCondition and
-- cleanupShardResources of mongodbsharded_controller.go.
use mongodb_operator.Common.{
  ℕ, zero, suc, ◌-◌, ◌*◌, ◌^◌, String, Bool, true, ◌&&◌, Option, none, some, List, [], ◌∷◌, map,
  str_eq, leb, ltb, if◌then◌else◌, length, contains,
}
use mongodb_operator.Common.Int.{ℤ, pos, ltb_ℤ, ◌-ℤ◌}
use mongodb_operator.Kube.{
  ApiError, not_found, other, Error, api, wrapped, Outcome, ok, err, Condition, cond_true,
}
use mongodb_operator.Kube.Exec.{Exec}
use mongodb_operator.Mongo.{MongoDbSharded}
use mongodb_operator.Upgrade.Status.{◌+++◌}
use mongodb_operator.Upgrade.Config.{seconds, no_requeue, get_admin_password}
use mongodb_operator.Upgrade.Sharded.{with_upgrade}
use mongodb_operator.Cluster.Conditions.{condition}
use mongodb_operator.Shards.Services.{
  Services, RemoveShardResult, Kind, stateful_set, service, config_map, pod_disruption_budget,
  network_policy, persistent_volume_claim,
}
use mongodb_operator.Shards.Flags.{clear_at}
use mongodb_operator.Shards.Init.{shard_name, with_status}

abbrev pub minutes : ℕ → ℤ
minutes n = pos (seconds (60 * n))

-- The switch of scaleInPollInterval on the time since the condition changed.
abbrev pub poll_interval_after : ℤ → ℤ
poll_interval_after elapsed =
    if ltb_ℤ elapsed (minutes 5)
    then pos (seconds 30)
    else if ltb_ℤ elapsed (minutes 30)
    then minutes 1
    else minutes 5

-- scaleInPollInterval, at an instant
unfoldable pub scale_in_poll_interval : ℤ → List Condition → String → ℤ
unfolding contains ◌-ℤ◌
scale_in_poll_interval now [] shard = pos (seconds 30)
scale_in_poll_interval now (c ∷ cs) shard =
    let rest = scale_in_poll_interval now cs shard in
    if str_eq c.type "ShardDraining" && contains c.message shard
    then poll_interval_after (now -ℤ c.last_transition_time)
    else rest

abbrev pub with_conditions : List Condition → MongoDbSharded → MongoDbSharded
with_conditions cs m = with_upgrade (record m.status.upgrade { conditions = cs }) m

abbrev pub reset_flags : ℕ → MongoDbSharded → MongoDbSharded
reset_flags i m =
    with_status
      (record m.status {
        shards_added = clear_at i m.status.shards_added;
        shards_initialized = clear_at i m.status.shards_initialized;
      })
      m

module _ {W : Type 0} (s : Services W) where
  abbrev pub draining_condition : String → RemoveShardResult → MongoDbSharded → Condition
  draining_condition shard r m = condition "ShardDraining" cond_true m.generation r.state (
      "shard "
      +++ shard
      +++ " state="
      +++ r.state
      +++ ", remaining chunks="
      +++ s.decimal (pos r.chunks)
      +++ ", dbs="
      +++ s.decimal (pos r.databases))

  -- recordShardDrainingCondition
  unfoldable pub record_shard_draining_condition :
      String → RemoveShardResult → MongoDbSharded → W → MongoDbSharded
  record_shard_draining_condition shard r m w =
      with_conditions (s.set_status_condition w (draining_condition shard r m) m.status.conditions)
        m

  abbrev pub remove_draining : MongoDbSharded → MongoDbSharded
  remove_draining m =
      with_conditions (s.remove_status_condition "ShardDraining" m.status.conditions) m

  abbrev deleted : String → (W → Option Error × W) → Option ApiError × W → Option Error × W
  deleted name rest (none, w) = rest w
  deleted name rest (some not_found, w) = rest w
  deleted name rest (some (other t), w) = (some (wrapped ("delete " +++ name) (api (other t))), w)

  -- The two loops of deletions: an object that is gone already is none to worry about.
  unfoldable pub delete_all : List (Kind × String) → W → Option Error × W
  delete_all [] w = (none, w)
  delete_all ((kind, name) ∷ rest) w = deleted name (delete_all rest) (s.delete kind name w)

  abbrev pub candidates : String → List (Kind × String)
  candidates prefix =
      (stateful_set, prefix)
      ∷ (service, prefix +++ "-headless")
      ∷ (config_map, prefix +++ "-scripts")
      ∷ (pod_disruption_budget, prefix +++ "-pdb")
      ∷ (network_policy, prefix +++ "-netpol")
      ∷ []

  abbrev pub reset : ℕ → Option Error × W → MongoDbSharded → Outcome Bool × MongoDbSharded × W
  reset i (some e, w) m = (err e, m, w)
  reset i (none, w) m = (ok true, reset_flags i m, w)

  abbrev pub claims_listed :
      ℕ → String → Outcome (List String) → MongoDbSharded → W → Outcome Bool × MongoDbSharded × W
  claims_listed i prefix (err e) m w = (err (wrapped ("list PVCs for " +++ prefix) e), m, w)
  claims_listed i prefix (ok claims) m w =
      reset i (delete_all (map (λ c. (persistent_volume_claim, c)) claims) w) m

  abbrev pub objects_deleted :
      ℕ → String → Option Error × W → MongoDbSharded → Outcome Bool × MongoDbSharded × W
  objects_deleted i prefix (some e, w) m = (err e, m, w)
  objects_deleted i prefix (none, w) m =
      claims_listed i prefix (s.list_pvcs ("shard-" +++ s.decimal (pos i)) m.name w) m w

  -- cleanupShardResources
  unfoldable pub cleanup_shard_resources : ℕ → Exec MongoDbSharded W Bool
  unfolding delete_all
  cleanup_shard_resources i m w =
      let prefix = shard_name s m i in objects_deleted i prefix (delete_all (candidates prefix) w) m

  abbrev pub Drain : Type 0
  Drain = Exec MongoDbSharded W ℤ

  abbrev pub cleaned :
      String → Drain → Outcome Bool × MongoDbSharded × W → Outcome ℤ × MongoDbSharded × W
  cleaned shard rest (err e, m, w) = (err (wrapped ("cleanup shard " +++ shard) e), m, w)
  cleaned shard rest (ok _, m, w) = rest m w

  abbrev pub removed :
      ℕ → Drain → Outcome RemoveShardResult × W → MongoDbSharded → Outcome ℤ × MongoDbSharded × W
  removed i rest (err e, w) m = (err (wrapped ("remove shard " +++ shard_name s m i) e), m, w)
  removed i rest (ok r, w) m =
      let m' = record_shard_draining_condition (shard_name s m i) r m w in
      if str_eq r.state "completed"
      then cleaned (shard_name s m i) rest (cleanup_shard_resources i m w)
      else (
        ok (scale_in_poll_interval (s.kube.now w) m'.status.conditions (shard_name s m i)),
        m',
        w,
      )

  -- The loop of reconcileScaleIn over `n` shards from the index `i` on.
  unfoldable pub scale_in_from : String → ℕ → ℕ → Drain
  unfolding record_shard_draining_condition cleanup_shard_resources scale_in_poll_interval
  scale_in_from password zero i m w = (ok no_requeue, remove_draining m, w)
  scale_in_from password (suc n) i m w =
      removed i (scale_in_from password n (suc i))
        (s.remove_shard password (m.name +++ "-mongos-0") (shard_name s m i) w) m

  abbrev pub scale_in_with : Outcome String → Drain
  scale_in_with (err e) m w = (err (wrapped "get admin password" e), m, w)
  scale_in_with (ok password) m w =
      scale_in_from password (length m.status.shards - m.shard_count) m.shard_count m w

  -- reconcileScaleIn: the time after which the pass is requeued, or 0.
  unfoldable pub reconcile_scale_in : Drain
  unfolding get_admin_password scale_in_from
  reconcile_scale_in m w =
      if ltb (2 ^ 31 - 1) (length m.status.shards)
      then (ok no_requeue, m, w)
      else if leb (length m.status.shards) m.shard_count
      then (ok no_requeue, remove_draining m, w)
      else scale_in_with (get_admin_password s.kube m.admin_secret w) m w
