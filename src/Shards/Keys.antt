-- ===== src/Shards/Keys.antt =====
-- Shard keys and the declarative sharding of a collection: buildShardKey and
-- buildShardCollectionOptions of mongodbsharded_controller.go; normalizeShardKeyValue,
-- shardKeyEqual, decideEnsureAction, the look-ups in config.collections and EnsureShardedCollection
-- of internal/mongodb/sharding.go.
use mongodb_operator.Common.{
  String, Bool, true, false, ◌&&◌, Option, none, some, List, [], ◌∷◌, str_eq, if◌then◌else◌,
}
use mongodb_operator.Common.Int.{ℤ, pos, negsuc}
use mongodb_operator.Kube.{ApiError, Error, api, wrapped, text, Outcome, ok, err}
use mongodb_operator.Mongo.{ShardKeyField, TimeseriesSpec, ShardedCollectionSpec}
use mongodb_operator.Upgrade.Status.{◌+++◌}
use mongodb_operator.Shards.Services.{
  Services, KeyValue, string, int32, int64, float64, fraction, ShardKey, ConfigCollection,
  ShardCollectionOptions, TimeseriesOptions,
}
use mongodb_operator.Shards.Namespaces.{buckets_namespace}

abbrev pub order_value : String → KeyValue
order_value o =
    if str_eq o "hashed"
    then string "hashed"
    else if str_eq o "-1"
    then int32 (negsuc 0)
    else int32 (pos 1)

-- buildShardKey
unfoldable pub build_shard_key : List ShardKeyField → ShardKey
build_shard_key [] = []
build_shard_key (f ∷ fs) = (f.field, order_value f.order) ∷ build_shard_key fs

abbrev timeseries_options : Option TimeseriesSpec → Option TimeseriesOptions
timeseries_options none = none
timeseries_options (some t) =
    some
      (record { time_field = t.time_field; meta_field = t.meta_field; granularity = t.granularity })

abbrev shard_options : Bool → Option TimeseriesSpec → Option ShardCollectionOptions
shard_options false none = none
shard_options true none = some (record { unique = true; timeseries = none })
shard_options unique (some t) =
    some (record { unique = unique; timeseries = timeseries_options (some t) })

-- buildShardCollectionOptions
unfoldable pub build_shard_collection_options :
    ShardedCollectionSpec → Option ShardCollectionOptions
build_shard_collection_options c = shard_options c.unique c.timeseries

module _ (decimal : ℤ → String) where
  -- normalizeShardKeyValue
  unfoldable pub normalize_shard_key_value : KeyValue → String
  normalize_shard_key_value (string t) = t
  normalize_shard_key_value (int32 n) = decimal n
  normalize_shard_key_value (int64 n) = decimal n
  normalize_shard_key_value (float64 n) = decimal n
  normalize_shard_key_value (fraction t) = t

  -- shardKeyEqual
  unfoldable pub shard_key_equal : ShardKey → ShardKey → Bool
  unfolding normalize_shard_key_value
  shard_key_equal [] [] = true
  shard_key_equal [] (_ ∷ _) = false
  shard_key_equal (_ ∷ _) [] = false
  shard_key_equal ((f, v) ∷ a) ((g, u) ∷ b) =
      str_eq f g
      && (str_eq (normalize_shard_key_value v) (normalize_shard_key_value u) && shard_key_equal a b)

  -- decideEnsureAction, of the document that was found and whether it is that of the buckets. The
  -- text of the error leaves out the two keys.
  unfoldable pub decide_ensure_action :
      Option (ConfigCollection × Bool) → String → ShardKey → Outcome Bool
  unfolding shard_key_equal
  decide_ensure_action none ns key = ok true
  decide_ensure_action (some (_, true)) ns key = ok false
  decide_ensure_action (some (doc, false)) ns key =
      if shard_key_equal doc.key key
      then ok false
      else err
          (text ("collection " +++ ns +++ " already sharded with different key ") "ShardKeyDrift")

module _ {W : Type 0} (s : Services W) (password : String) where
  abbrev not_dropped : ConfigCollection → Option ConfigCollection
  not_dropped doc = if doc.dropped then none else some doc

  abbrev looked_up : String → Outcome (Option ConfigCollection) → Outcome (Option ConfigCollection)
  looked_up ns (err e) = err (wrapped ("lookup config.collections " +++ ns) e)
  looked_up ns (ok none) = ok none
  looked_up ns (ok (some doc)) = ok (not_dropped doc)

  -- lookupShardedCollection
  unfoldable pub lookup_sharded_collection : String → W → Outcome (Option ConfigCollection)
  lookup_sharded_collection ns w = looked_up ns (s.find_collection password ns w)

  abbrev found_in_buckets :
      Outcome (Option ConfigCollection) → Outcome (Option (ConfigCollection × Bool))
  found_in_buckets (err e) = err e
  found_in_buckets (ok none) = ok none
  found_in_buckets (ok (some doc)) = ok (some (doc, true))

  abbrev found_in_user :
      Outcome (Option ConfigCollection)
      → Outcome (Option ConfigCollection)
      → Outcome (Option (ConfigCollection × Bool))
  found_in_user (err e) buckets = err e
  found_in_user (ok (some doc)) buckets = ok (some (doc, false))
  found_in_user (ok none) buckets = found_in_buckets buckets

  -- lookupShardedCollectionAny
  unfoldable pub lookup_sharded_collection_any :
      String → String → W → Outcome (Option (ConfigCollection × Bool))
  unfolding lookup_sharded_collection buckets_namespace
  lookup_sharded_collection_any database collection w =
      found_in_user (lookup_sharded_collection (database +++ "." +++ collection) w)
        (lookup_sharded_collection (buckets_namespace database collection) w)

  abbrev pub sharded : Option ApiError × W → Option Error × W
  sharded (none, w) = (none, w)
  sharded (some e, w) = (some (wrapped "shardCollection" (api e)), w)

  abbrev pub enabled :
      String
      → String
      → ShardKey
      → Option ShardCollectionOptions
      → Option ApiError × W
      → Option Error × W
  enabled database ns key opts (some e, w) =
      (some (wrapped ("enableSharding " +++ database) (api e)), w)
  enabled database ns key opts (none, w) = sharded (s.shard_collection password ns key opts w)

  abbrev pub decided :
      String
      → String
      → ShardKey
      → Option ShardCollectionOptions
      → Outcome Bool
      → W
      → Option Error × W
  decided database ns key opts (err e) w = (some e, w)
  decided database ns key opts (ok false) w = (none, w)
  decided database ns key opts (ok true) w =
      enabled database ns key opts (s.enable_sharding password database w)

  abbrev pub ensured :
      String
      → String
      → ShardKey
      → Option ShardCollectionOptions
      → Outcome (Option (ConfigCollection × Bool))
      → W
      → Option Error × W
  ensured database ns key opts (err e) w = (some e, w)
  ensured database ns key opts (ok found) w =
      decided database ns key opts (decide_ensure_action s.decimal found ns key) w

  -- EnsureShardedCollection: its error, if any.
  unfoldable pub ensure_sharded_collection :
      String → String → ShardKey → Option ShardCollectionOptions → W → Option Error × W
  unfolding lookup_sharded_collection_any decide_ensure_action
  ensure_sharded_collection database collection key opts w =
      ensured database (database +++ "." +++ collection) key opts
        (lookup_sharded_collection_any database collection w) w
