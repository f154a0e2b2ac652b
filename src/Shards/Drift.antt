-- ===== src/Shards/Drift.antt =====
-- When two shard keys count as the same, and what a second EnsureShardedCollection does.
use mathlib.Core.Path.{subst}
use mongodb_operator.Common.{
  String, Bool, true, false, ◌&&◌, Option, none, some, List, [], ◌∷◌, str_eq, ◌≡◌, refl, ap, arith,
  eq_iff, All, ◌∙◌, is_one_of,
}
use mongodb_operator.Common.Int.{ℤ, pos, negsuc}
use mongodb_operator.Kube.{ApiError, Error, Outcome, ok, err}
use mongodb_operator.Mongo.{ShardKeyField}
use mongodb_operator.Upgrade.Status.{◌+++◌}
use mongodb_operator.Shards.Services.{
  Services, KeyValue, int32, int64, float64, ShardKey, ConfigCollection, ShardCollectionOptions,
}
use mongodb_operator.Shards.Keys.{
  order_value, build_shard_key, shard_key_equal, normalize_shard_key_value, decide_ensure_action,
  ensure_sharded_collection, lookup_sharded_collection_any, lookup_sharded_collection, ensured,
  decided, enabled, sharded,
}

-- What the enumeration of the CRD allows.
abbrev pub IsOrder : ShardKeyField → Type 0
IsOrder f = is_one_of ("1" ∷ "-1" ∷ "hashed" ∷ []) f.order ≡ true

-- The fields and the orders are the same texts.
unfoldable pub same_fields : List ShardKeyField → List ShardKeyField → Bool
same_fields [] [] = true
same_fields [] (_ ∷ _) = false
same_fields (_ ∷ _) [] = false
same_fields (f ∷ fs) (g ∷ gs) =
    str_eq f.field g.field && (str_eq f.order g.order && same_fields fs gs)

-- A value as the driver may decode it: a number keeps its value, in another type.
pub data IsDecoded : KeyValue → KeyValue → Type 0 where
  same : (v : KeyValue) → IsDecoded v v
  long : (n : ℤ) → IsDecoded (int32 n) (int64 n)
  double : (n : ℤ) → IsDecoded (int32 n) (float64 n)

abbrev pub decoder : (KeyValue → KeyValue) → ShardKey → ShardKey
decoder f [] = []
decoder f ((field, v) ∷ key) = (field, f v) ∷ decoder f key

module _ (decimal : ℤ → String) (one : decimal (pos 1) ≡ "1")
    (minus_one : decimal (negsuc 0) ≡ "-1") where
  normalize-order_value :
      (f : ShardKeyField)
      → IsOrder f
      → normalize_shard_key_value decimal (order_value f.order) ≡ f.order
  unfolding normalize_shard_key_value
  normalize-order_value f h =
      ground
        (arith, h, one, minus_one, eq_iff f.order "1", eq_iff f.order "-1", eq_iff f.order "hashed")

  normalize-IsDecoded :
      (v u : KeyValue)
      → IsDecoded v u
      → normalize_shard_key_value decimal u ≡ normalize_shard_key_value decimal v
  unfolding normalize_shard_key_value
  normalize-IsDecoded v _ (same _) = refl
  normalize-IsDecoded _ _ (long n) = refl
  normalize-IsDecoded _ _ (double n) = refl

  module _ (f : KeyValue → KeyValue) (decodes : (v : KeyValue) → IsDecoded v (f v)) where
    normalize-decoded :
        (k : ShardKeyField)
        → IsOrder k
        → normalize_shard_key_value decimal (f (order_value k.order)) ≡ k.order
    normalize-decoded k h =
        normalize-IsDecoded (order_value k.order) (f (order_value k.order))
          (decodes (order_value k.order))
        ∙ normalize-order_value k h

    -- A shard key that is registered, and that the driver decodes with its numbers in other types,
    -- counts as equal to the key of a spec if and only if it was built from the same fields, with the
    -- same orders and in the same order of fields. The orders are "1", "-1" or "hashed".
    shard_key_equal-decoder :
        (fs gs : List ShardKeyField)
        → All IsOrder fs
        → All IsOrder gs
        → shard_key_equal decimal (decoder f (build_shard_key fs)) (build_shard_key gs)
          ≡ same_fields fs gs
    unfolding shard_key_equal build_shard_key same_fields
    shard_key_equal-decoder [] [] hf hg = refl
    shard_key_equal-decoder [] (g ∷ gs) hf hg = refl
    shard_key_equal-decoder (k ∷ ks) [] hf hg = refl
    shard_key_equal-decoder (k ∷ ks) (g ∷ gs) (hk, hf) (hg', hg) =
        rw
          (normalize-decoded k hk, normalize-order_value g hg', shard_key_equal-decoder ks gs hf hg)
          refl

-- What is relied on of MongoDB: after a successful shardCollection of a namespace, config.collections
-- has a document for the namespace with an equal key; enableSharding leaves it as it was.
pub record IsRegistry {W : Type 0} (s : Services W) : Type 0 where
  pub registers :
      (password ns : String) (key : ShardKey) (opts : Option ShardCollectionOptions) (w : W)
      → (s.shard_collection password ns key opts w).0 ≡ none
      → (doc : ConfigCollection) × (s.find_collection password ns
            (s.shard_collection password ns key opts w).1
          ≡ ok (some doc))
        × (doc.dropped ≡ false)
        × (shard_key_equal s.decimal doc.key key ≡ true)

module _ {W : Type 0} (s : Services W) (reg : IsRegistry s) (password : String) where
  ensured_registered :
      (database collection : String) (key : ShardKey) (opts : Option ShardCollectionOptions)
      (doc : ConfigCollection) (w : W)
      → s.find_collection password (database +++ "." +++ collection) w ≡ ok (some doc)
      → doc.dropped ≡ false
      → shard_key_equal s.decimal doc.key key ≡ true
      → ensure_sharded_collection s password database collection key opts w ≡ (none, w)
  unfolding ensure_sharded_collection lookup_sharded_collection_any lookup_sharded_collection
      decide_ensure_action
  ensured_registered d c key opts doc w found kept equal = rw (found, kept, equal) refl

  module _ (database collection : String) (key : ShardKey)
      (opts : Option ShardCollectionOptions) where
    -- A world in which the collection is as its spec asks: another call changes nothing.
    abbrev IsSettled : Option Error × W → Type 0
    IsSettled (e, w) =
        e ≡ none → ensure_sharded_collection s password database collection key opts w ≡ (none, w)

    sharded-IsSettled :
        (w : W)
        → IsSettled (
            sharded s password
              (s.shard_collection password (database +++ "." +++ collection) key opts w))
    sharded-IsSettled w =
        go (s.shard_collection password (database +++ "." +++ collection) key opts w) refl
      where
        go :
            (r : Option ApiError × W)
            → s.shard_collection password (database +++ "." +++ collection) key opts w ≡ r
            → IsSettled (sharded s password r)
        go (some e, w') r h = ground (arith, h)
        go (none, w') r h =
            let (doc, found, kept, equal) =
              reg.registers password (database +++ "." +++ collection) key opts w
                (ap (λ x. x.0) r) in
            ensured_registered database collection key opts doc w'
              (subst
                (λ (v : W).
                  s.find_collection password (database +++ "." +++ collection) v ≡ ok (some doc))
                (ap (λ x. x.1) r) found)
              kept equal

    enabled-IsSettled :
        (r : Option ApiError × W)
        → IsSettled (enabled s password database (database +++ "." +++ collection) key opts r)
    enabled-IsSettled (some e, w) h = ground (arith, h)
    enabled-IsSettled (none, w) h = sharded-IsSettled w h

    decided-IsSettled :
        (w : W) (r : Outcome Bool)
        → ensure_sharded_collection s password database collection key opts w
          ≡ decided s password database (database +++ "." +++ collection) key opts r w
        → IsSettled (decided s password database (database +++ "." +++ collection) key opts r w)
    decided-IsSettled w (err e) now h = ground (arith, h)
    decided-IsSettled w (ok false) now h = now
    decided-IsSettled w (ok true) now h =
        enabled-IsSettled (s.enable_sharding password database w) h

    found-IsSettled :
        (w : W) (found : Outcome (Option (ConfigCollection × Bool)))
        → ensure_sharded_collection s password database collection key opts w
          ≡ ensured s password database (database +++ "." +++ collection) key opts found w
        → IsSettled (ensured s password database (database +++ "." +++ collection) key opts found w)
    found-IsSettled w (err e) now h = ground (arith, h)
    found-IsSettled w (ok found) now h =
        decided-IsSettled w
          (decide_ensure_action s.decimal found (database +++ "." +++ collection) key) now h

    -- When a call of EnsureShardedCollection has no error, a second one sends nothing that changes the
    -- cluster and has no error either: the first one has sharded the collection with the key, or has found
    -- it sharded so, or has found its buckets.
    ensure_again_does_nothing :
        (w : W)
        → (ensure_sharded_collection s password database collection key opts w).0 ≡ none
        → let w' = (ensure_sharded_collection s password database collection key opts w).1 in
          ensure_sharded_collection s password database collection key opts w' ≡ (none, w')
    unfolding ensure_sharded_collection
    ensure_again_does_nothing w h =
        found-IsSettled w (lookup_sharded_collection_any s password database collection w) refl h
