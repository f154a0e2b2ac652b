-- ===== src/Shards/Backoff.antt =====
-- How often a drain is polled, when the condition ShardDraining has never been written.
use mongodb_operator.Common.{
  ℕ, zero, suc, ◌-◌, ◌≡◌, refl, arith, String, Bool, true, false, ◌||◌, List, [], ◌∷◌, ◌++◌, str_eq,
  length, Bool-cases, inl, inr, ◌==◌,
}
use mongodb_operator.Common.Int.{ℤ, pos, ◌-ℤ◌}
use mongodb_operator.Kube.{Outcome, ok, err, Condition}
use mongodb_operator.Mongo.{MongoDbSharded, ShardedStatus}
use mongodb_operator.Upgrade.Status.{◌+++◌}
use mongodb_operator.Upgrade.Config.{seconds, get_admin_password}
use mongodb_operator.Cluster.Conditions.{has_type}
use mongodb_operator.Shards.Services.{Services, RemoveShardResult}
use mongodb_operator.Shards.Init.{shard_name}
use mongodb_operator.Shards.ScaleIn.{
  Drain, draining_condition, cleaned, removed, cleanup_shard_resources,
  record_shard_draining_condition, scale_in_poll_interval, scale_in_from, scale_in_with,
  reconcile_scale_in, reset_flags,
}
use mongodb_operator.Shards.Reset.{IsReleased, cleanup_shard-IsReleased}
use mongodb_operator.Shards.Drain.{IsKept, scale_in-keeps}

abbrev pub is_draining : List Condition → Bool
is_draining cs = has_type "ShardDraining" cs

-- meta.SetStatusCondition: a condition whose type is not there yet goes to the end, with the time.
abbrev pub AppendsNew : {W : Type 0} → Services W → Type 0
AppendsNew {W} s =
    (w : W) (c : Condition) (cs : List Condition)
    → has_type c.type cs ≡ false
    → s.set_status_condition w c cs ≡ cs ++ record c { last_transition_time = s.kube.now w } ∷ []

-- A pass that is requeued for a drain, if at all, is requeued after 30 seconds.
abbrev pub is_poll_of_30s : Outcome ℤ → Bool
is_poll_of_30s (err _) = true
is_poll_of_30s (ok (pos n)) = n == 0 || n == seconds 30
is_poll_of_30s (ok _) = false

poll_interval-new :
    (now : ℤ) (cs : List Condition) (c : Condition) (shard : String)
    → has_type "ShardDraining" cs ≡ false
    → c.last_transition_time ≡ now
    → scale_in_poll_interval now (cs ++ c ∷ []) shard ≡ pos (seconds 30)
unfolding scale_in_poll_interval has_type ◌-ℤ◌
poll_interval-new now [] c shard h e = ground (arith, e)
poll_interval-new now (d ∷ cs) c shard h e =
    ground (arith, h, poll_interval-new now cs c shard (ground (arith, h)) e)

module _ {W : Type 0} (s : Services W) (appends : AppendsNew s) where
  cleaned_poll :
      (i : ℕ) (shard : String) (rest : Drain s) (m : MongoDbSharded)
      (r : Outcome Bool × MongoDbSharded × W)
      → IsReleased s i m r
      → ((w : W) → is_poll_of_30s (rest (reset_flags i m) w).0 ≡ true)
      → is_poll_of_30s (cleaned s shard rest r).0 ≡ true
  cleaned_poll i shard rest m (err e, m', w) c h = refl
  cleaned_poll i shard rest m (ok _, m', w) c h = rw (c.done refl) (h w)

  removed_poll :
      (i : ℕ) (rest : Drain s) (r : Outcome RemoveShardResult × W) (m : MongoDbSharded)
      → is_draining m.status.conditions ≡ false
      → ((w : W) → is_poll_of_30s (rest (reset_flags i m) w).0 ≡ true)
      → is_poll_of_30s (removed s i rest r m).0 ≡ true
  unfolding record_shard_draining_condition
  removed_poll i rest (err e, w) m none_there h = refl
  removed_poll i rest (ok r, w) m none_there h = elim (Bool-cases (str_eq r.state "completed")) [
    | inl e ↦ rw e (
        cleaned_poll i (shard_name s m i) rest m (cleanup_shard_resources s i m w)
          (cleanup_shard-IsReleased s i m w) h)
    | inr e ↦
        let c = draining_condition s (shard_name s m i) r m in
        rw
          (
            e,
            appends w c m.status.conditions none_there,
            poll_interval-new (s.kube.now w) m.status.conditions
                (record c { last_transition_time = s.kube.now w }) (shard_name s m i) none_there
                refl,
          )
          refl
  ]

  scale_in_from_poll :
      (password : String) (n i : ℕ) (m : MongoDbSharded) (w : W)
      → is_draining m.status.conditions ≡ false
      → is_poll_of_30s (scale_in_from s password n i m w).0 ≡ true
  unfolding scale_in_from
  scale_in_from_poll password zero i m w h = refl
  scale_in_from_poll password (suc n) i m w h =
      removed_poll i (scale_in_from s password n (suc i))
        (s.remove_shard password (m.name +++ "-mongos-0") (shard_name s m i) w) m h
        (λ w'. scale_in_from_poll password n (suc i) (reset_flags i m) w' h)

  with_poll :
      (p : Outcome String) (m : MongoDbSharded) (w : W)
      → is_draining m.status.conditions ≡ false
      → is_poll_of_30s (scale_in_with s p m w).0 ≡ true
  with_poll (err e) m w h = refl
  with_poll (ok p) m w h =
      scale_in_from_poll p (length m.status.shards - m.shard_count) m.shard_count m w h

  -- A drain never backs off: where the stored status has no condition ShardDraining, reconcileScaleIn
  -- returns an error, no requeue, or one after 30 seconds, however long the shard has been draining, and
  -- the stored status still has no such condition behind it. The removeShard commands and the deletions
  -- are supposed not to touch the stored status.
  drain_never_backs_off :
      (stored : W → ShardedStatus) (m : MongoDbSharded) (w : W)
      → IsKept s (λ v. is_draining (stored v).conditions ≡ false)
      → stored w ≡ m.status
      → is_draining m.status.conditions ≡ false
      → (is_poll_of_30s (reconcile_scale_in s m w).0 ≡ true)
        × (is_draining (stored (reconcile_scale_in s m w).2).conditions ≡ false)
  unfolding reconcile_scale_in
  drain_never_backs_off stored m w keeps fresh h = (
    ground (arith, with_poll (get_admin_password s.kube m.admin_secret w) m w h),
    scale_in-keeps s (λ v. is_draining (stored v).conditions ≡ false) keeps m w (rw fresh h),
  )
