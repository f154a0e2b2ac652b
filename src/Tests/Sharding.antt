-- ===== src/Tests/Sharding.antt =====
-- Sharded collections against Fleet.
use mongodb_operator.Common.{true, false, none, List, [], ◌∷◌, ◌≡◌, refl, arith, eq_iff, has_byte}
use mongodb_operator.Kube.{err, api, other}
use mongodb_operator.Mongo.{MongoDbSharded, ShardKeyField}
use mongodb_operator.Shards.Services.{
  Services, ShardKey, KeyValue, string, int32, int64, float64, fraction,
}
use mongodb_operator.Shards.Namespaces.{
  trim_prefix, buckets_namespace, user_namespace_from_buckets, user_namespace-buckets_namespace,
}
use mongodb_operator.Shards.Keys.{normalize_shard_key_value, build_shard_key, shard_key_equal}
use mongodb_operator.Shards.Drift.{IsDecoded, same, double, IsRegistry}
use mongodb_operator.Tests.Upgrade.{sharded0}
use mongodb_operator.Tests.Fleet.{Fleet, digit, services, fleet}

user_namespace-buckets_namespace_example :
    user_namespace_from_buckets (buckets_namespace "crypto" "klines") ≡ "crypto.klines"
unfolding has_byte trim_prefix
user_namespace-buckets_namespace_example = user_namespace-buckets_namespace "crypto" "klines" refl

-- The key of a spec, registered by a driver that reads numbers as float64.
abbrev key_fields : List ShardKeyField
key_fields =
    record { field = "user"; order = "hashed" } ∷ record { field = "at"; order = "-1" } ∷ []

abbrev as_double : KeyValue → KeyValue
as_double (int32 n) = float64 n
as_double v = v

as_double-IsDecoded : (v : KeyValue) → IsDecoded v (as_double v)
as_double-IsDecoded (string t) = same (string t)
as_double-IsDecoded (int32 n) = double n
as_double-IsDecoded (int64 n) = same (int64 n)
as_double-IsDecoded (float64 n) = same (float64 n)
as_double-IsDecoded (fraction t) = same (fraction t)

key_equal_self : (key : ShardKey) → shard_key_equal digit key key ≡ true
unfolding shard_key_equal
key_equal_self [] = refl
key_equal_self ((f, v) ∷ key) = ground (
  arith,
  eq_iff f f,
  eq_iff (normalize_shard_key_value digit v) (normalize_shard_key_value digit v),
  key_equal_self key,
)

services-IsRegistry : IsRegistry services
services-IsRegistry = record {
  registers = λ password ns key opts w done.
      (record { id = ns; key = key; dropped = false }, refl, refl, key_equal_self key);
}

abbrev key : ShardKey
key = build_shard_key key_fields

-- The fleet behind the first call.
abbrev sharded_fleet : Fleet
sharded_fleet = record fleet {
  registered = record { id = "app.events"; key = key; dropped = false } ∷ [];
}

-- A collection that is sharded with another key.
abbrev drifted : MongoDbSharded
drifted = record sharded0 {
  sharded_collections =
      record {
        database = "app";
        collection = "events";
        shard_key = record { field = "user"; order = "1" } ∷ [];
        unique = false;
        timeseries = none;
      }
      ∷ [];
}

-- The fleet cannot be reached.
abbrev cut_off : Services Fleet
cut_off = record services {
  find_collection = λ password id w. err (api (other "gone"));
  error_text = λ e. "connection refused";
}
