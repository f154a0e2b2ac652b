-- ===== src/Search/Sidecars.antt =====
-- The mongot beside each mongod: the annotations and the configuration that it gets, and how many of
-- them are ready.
use mongodb_operator.Common.{
  ℕ, ◌+◌, zero, suc, String, Bool, true, false, ◌&&◌, not, Option, none, some, List, [], ◌∷◌, ◌++◌,
  str_eq, if◌then◌else◌, is_empty, lookup,
}
use mongodb_operator.Kube.{ApiError, Outcome, ok, err, StatefulSet}
use mongodb_operator.Upgrade.Status.{◌+++◌}
use mongodb_operator.Cluster.Report.{is_not_found}
use mongodb_operator.Search.{Search, Source, SearchApi, MongotConfig, Container}
use mongodb_operator.Search.Secret.{value_of}

-- MongotImage
unfoldable pub mongot_image : Search → String
mongot_image x =
    if not (is_empty x.image)
    then x.image
    else if not (is_empty x.version)
    then "mongodb/mongodb-community-search:" +++ x.version
    else "mongodb/mongodb-community-search:latest"

-- routerShardOf
unfoldable pub router_shard_of : Search → String
router_shard_of x = elim x.mongot_shard [
  | none ↦ "shard-0"
  | some s ↦ if is_empty s then "shard-0" else s
]

-- The mongot containers that are ready, and all of them
unfoldable pub count_containers : List Container → ℕ × ℕ → ℕ × ℕ
count_containers [] t = t
count_containers (c ∷ cs) (n, total) =
    count_containers cs
      (if str_eq c.name "mongot" then (if c.is_ready then n + 1 else n, total + 1) else (n, total))

unfoldable pub count_pods : List (List Container) → ℕ × ℕ → ℕ × ℕ
unfolding count_containers
count_pods [] t = t
count_pods (p ∷ ps) t = count_pods ps (count_containers p t)

abbrev pub image_annotation : String
image_annotation = "search.mongodb.keiailab.com/mongot-image"

-- The annotations that a source is to have, of a shard for a sharded one
abbrev pub wanted_annotations : Bool → Search → String → List (String × String)
wanted_annotations sharded x secret =
    (image_annotation, mongot_image x)
    ∷ ("search.mongodb.keiailab.com/sync-secret", secret)
    ∷ ("search.mongodb.keiailab.com/tls-mode", "disabled")
    ∷ (if sharded then ("search.mongodb.keiailab.com/router-shard", router_shard_of x) ∷ [] else [])

abbrev pub has_all : List (String × String) → List (String × String) → Bool
has_all m [] = true
has_all m ((key, v) ∷ wanted) = str_eq (value_of key m) v && has_all m wanted

module _ {W : Type 0} (k : SearchApi W) where
  abbrev pub counted : ℕ × ℕ → Outcome (List (List Container)) → Outcome (ℕ × ℕ)
  counted t (err e) = err e
  counted t (ok pods) = ok (count_pods pods t)

  abbrev pub counted_set : ℕ × ℕ → W → Outcome StatefulSet → Outcome (ℕ × ℕ)
  counted_set t w (err e) = if is_not_found e then ok t else err e
  counted_set t w (ok sts) = counted t (k.list_pods sts.match_labels w)

  abbrev pub go_on : Outcome (ℕ × ℕ) → (ℕ × ℕ → Outcome (ℕ × ℕ)) → Outcome (ℕ × ℕ)
  go_on (err e) f = err e
  go_on (ok t) f = f t

  -- countReadyMongotSidecarsSharded, from the shard `i` on
  unfoldable pub count_shards : Source → W → ℕ → ℕ → ℕ × ℕ → Outcome (ℕ × ℕ)
  unfolding count_pods
  count_shards s w i zero t = ok t
  count_shards s w i (suc n) t =
      go_on (counted_set t w (k.get_stateful_set (s.name +++ "-shard-" +++ k.decimal i) w))
        (count_shards s w (i + 1) n)

  -- countReadyMongotSidecars, and its sharded version
  unfoldable pub count_ready_sidecars : Bool → Source → W → Outcome (ℕ × ℕ)
  unfolding count_shards count_pods
  count_ready_sidecars sharded s w =
      if sharded
      then count_shards s w 0 s.shards (0, 0)
      else counted_set (0, 0) w (k.get_stateful_set s.name w)

  -- annotateSource, annotateShardedSource
  unfoldable pub annotate_source : Bool → Search → Source → String → W → Option ApiError × W
  unfolding lookup mongot_image router_shard_of
  annotate_source sharded x s secret w =
      let wanted = wanted_annotations sharded x secret in
      if has_all s.annotations wanted
      then (none, w)
      else k.patch_annotations s.name (wanted ++ s.annotations) w

  abbrev pub mongot_config : Search → Source → String → String → ℕ → String → MongotConfig
  mongot_config x s database user port router = record {
    database = database;
    namespace = x.namespace;
    search = x.name;
    sync_user = user;
    tls = s.has_tls;
    port = port;
    router = router;
  }

  abbrev pub then_call : Option ApiError × W → (W → Option ApiError × W) → Option ApiError × W
  then_call (some e, w) rest = (some e, w)
  then_call (none, w) rest = rest w

  -- The loop over the shards, from the shard `i` on
  unfoldable pub apply_shard_configs : Search → Source → String → ℕ → ℕ → W → Option ApiError × W
  apply_shard_configs x s user i zero w = (none, w)
  apply_shard_configs x s user i (suc n) w =
      then_call
        (k.apply_config_map
          (mongot_config x s (s.name +++ "-shard-" +++ k.decimal i) user 27018
            (s.name +++ "-mongos." +++ x.namespace +++ ".svc.cluster.local:27017"))
          w)
        (apply_shard_configs x s user (i + 1) n)

  abbrev pub apply_configs : Bool → Search → Source → String → W → Option ApiError × W
  apply_configs true x s user w = apply_shard_configs x s user 0 s.shards w
  apply_configs false x s user w = k.apply_config_map (mongot_config x s s.name user 27017 "") w
