-- ===== src/Shards/Exposed.antt =====
-- A pass that ends in reconcileShardedCollections has stored the condition that it found.
use mongodb_operator.Common.{
  String, Bool, true, false, not, Option, none, some, [], ◌∷◌, ◌≡◌, refl, arith, if◌then◌else◌,
  length, ◌==◌, ◌⊎◌, inl, inr,
}
use mongodb_operator.Common.Int.{ℤ}
use mongodb_operator.Kube.{ApiError, Outcome, ok, err}
use mongodb_operator.Mongo.{MongoDbSharded, ShardedStatus}
use mongodb_operator.Upgrade.Config.{get_mongos_pod, get_admin_password}
use mongodb_operator.Shards.Services.{Services}
use mongodb_operator.Shards.Flags.{all_true}
use mongodb_operator.Shards.Report.{is_mongos_ready}
use mongodb_operator.Shards.Collections.{
  Findings, requeue_provisioning, ensure_all, remove_drift, apply_drift, concluded, collections_on,
  collections_with, reconcile_sharded_collections, stored_drift,
}

-- A successful UpdateWithRetry stores the mutated status.
abbrev pub StoresUpdates : {W : Type 0} → Services W → (W → ShardedStatus) → Type 0
StoresUpdates {W} s stored =
    (t : ShardedStatus) (w : W)
    → (s.kube.update_status t w).0 ≡ none
    → stored (s.kube.update_status t w).1 ≡ t

module _ {W : Type 0} (s : Services W) (stored : W → ShardedStatus)
    (stores : StoresUpdates s stored) where
  -- With a requeue, the object is as it was, or only rid of the condition ShardKeyDrift, or what it has
  -- is stored.
  abbrev IsExposed : MongoDbSharded → Outcome ℤ × MongoDbSharded × W → Type 0
  IsExposed m x =
      x.0 ≡ ok requeue_provisioning
      → (x.1 ≡ m) ⊎ ((x.1 ≡ remove_drift s m) ⊎ (stored x.2 ≡ x.1.status))

  drift-IsExposed :
      (m m' : MongoDbSharded) (r : Option ApiError × W)
      → (r.0 ≡ none → stored r.1 ≡ m'.status)
      → IsExposed m (stored_drift s r m')
  drift-IsExposed m m' (none, w) h e = inr (inr (h refl))
  drift-IsExposed m m' (some x, w) h e = ground (arith, e)

  concluded-IsExposed :
      (r : Outcome Findings × W) (m : MongoDbSharded) → IsExposed m (concluded s r m)
  concluded-IsExposed (err e, w) m h = ground (arith, h)
  concluded-IsExposed (ok (msgs, false), w) m h = ground (arith, h)
  concluded-IsExposed (ok ([], true), w) m h = inr (inl refl)
  concluded-IsExposed (ok (msg ∷ msgs, true), w) m h =
      let m' = apply_drift s (msg ∷ msgs) w m in
      drift-IsExposed m m' (s.kube.update_status m'.status w) (stores m'.status w) h

  on-IsExposed :
      (password : String) (pod : Outcome String) (m : MongoDbSharded) (w : W)
      → IsExposed m (collections_on s password pod m w)
  on-IsExposed password (err e) m w h = inl refl
  on-IsExposed password (ok pod) m w h =
      concluded-IsExposed (ensure_all s password m.sharded_collections w) m h

  with-IsExposed :
      (p : Outcome String) (m : MongoDbSharded) (w : W) → IsExposed m (collections_with s p m w)
  with-IsExposed (err e) m w h = ground (arith, h)
  with-IsExposed (ok p) m w h = on-IsExposed p (get_mongos_pod s.kube m.name w) m w h

  if-IsExposed :
      (b : Bool) (m : MongoDbSharded) (x y : Outcome ℤ × MongoDbSharded × W)
      → IsExposed m x
      → IsExposed m y
      → IsExposed m (if b then x else y)
  if-IsExposed true m x y hx hy = hx
  if-IsExposed false m x y hx hy = hy

  reconciled-IsExposed :
      (m : MongoDbSharded) (w : W) → IsExposed m (reconcile_sharded_collections s m w)
  unfolding reconcile_sharded_collections
  reconciled-IsExposed m w =
      if-IsExposed (length m.sharded_collections == 0) m _ _ (λ h. ground (arith, h))
        (if-IsExposed (not (is_mongos_ready s m w)) m _ _ (λ h. inl refl)
          (if-IsExposed (not (all_true m.shard_count m.status.shards_added)) m _ _ (λ h. inl refl)
            (with-IsExposed (get_admin_password s.kube m.admin_secret w) m w)))

  -- When reconcileShardedCollections asks for a requeue, which ends the pass before the status is
  -- written, the condition that it has set in memory, if any, is stored: either the object is as it was,
  -- or only the condition ShardKeyDrift was taken away, or the stored status is the one in memory.
  requeued_drift_stored :
      (m : MongoDbSharded) (w : W)
      → (reconcile_sharded_collections s m w).0 ≡ ok requeue_provisioning
      → let (_, m', w') = reconcile_sharded_collections s m w in
        (m' ≡ m) ⊎ ((m' ≡ remove_drift s m) ⊎ (stored w' ≡ m'.status))
  requeued_drift_stored m w h = reconciled-IsExposed m w h
