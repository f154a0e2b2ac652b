-- ===== src/Shards/Autoscalers.antt =====
-- The autoscalers of a sharded cluster: reconcileMongosHPA and reconcileConfigServerHPA of
-- mongodbsharded_controller.go.
use mongodb_operator.Common.{String, Bool, not, ◌||◌, Option, none, some, if◌then◌else◌}
use mongodb_operator.Kube.{ApiError, not_found, other}
use mongodb_operator.Mongo.{MongoDbSharded}
use mongodb_operator.Upgrade.Status.{◌+++◌}
use mongodb_operator.Shards.Services.{
  Services, Resource, mongos_hpa, config_server_hpa, horizontal_pod_autoscaler,
}
use mongodb_operator.Shards.Init.{are_shards_initialized}
use mongodb_operator.Shards.Conditions.{is_config_server_hpa_active, is_mongos_hpa_active}

-- An error of a Get or a Delete that is no `IsNotFound`.
abbrev pub unless_gone : Option ApiError → Option ApiError
unless_gone none = none
unless_gone (some not_found) = none
unless_gone (some (other t)) = some (other t)

module _ {W : Type 0} (s : Services W) where
  abbrev looked_up : String → Option ApiError → W → Option ApiError × W
  looked_up name none w =
      let (e, w') = s.delete horizontal_pod_autoscaler name w in (unless_gone e, w')
  looked_up name (some e) w = (unless_gone (some e), w)

  -- An autoscaler is applied if it is active, and else deleted if it is there.
  abbrev pub autoscaler : Resource → String → Bool → MongoDbSharded → W → Option ApiError × W
  autoscaler r name active m w =
      if active then s.apply r m w else looked_up name (s.get_hpa name w) w

  -- reconcileMongosHPA
  unfoldable pub reconcile_mongos_hpa : MongoDbSharded → W → Option ApiError × W
  unfolding are_shards_initialized is_mongos_hpa_active
  reconcile_mongos_hpa m w =
      if not s.enable_autoscaling
      then (none, w)
      else if not m.status.config_server_initialized || not (are_shards_initialized m)
      then (none, w)
      else autoscaler mongos_hpa (m.name +++ "-mongos-hpa") (is_mongos_hpa_active m) m w

  -- reconcileConfigServerHPA
  unfoldable pub reconcile_config_server_hpa : MongoDbSharded → W → Option ApiError × W
  unfolding is_config_server_hpa_active
  reconcile_config_server_hpa m w =
      if not s.enable_autoscaling
      then (none, w)
      else if not m.status.config_server_initialized
      then (none, w)
      else autoscaler config_server_hpa (m.name +++ "-cfg-hpa") (is_config_server_hpa_active m) m w
