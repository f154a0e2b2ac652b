-- ===== src/Shards/Drain.antt =====
-- What reconcileScaleIn promises: the rule for what it keeps of the outside, and the flags it resets.
use mongodb_operator.Common.{
  ℕ, zero, suc, ◌-◌, ◌≡◌, arith, String, Bool, true, false, List, [], ◌∷◌, str_eq, length,
  Bool-cases, inl, inr,
}
use mongodb_operator.Common.Int.{ℤ, pos, ◌≤ℤ◌, ◌-ℤ◌}
use mongodb_operator.Kube.{Outcome, ok, err, Condition}
use mongodb_operator.Mongo.{MongoDbSharded}
use mongodb_operator.Upgrade.Status.{◌+++◌}
use mongodb_operator.Upgrade.Config.{seconds, get_admin_password}
use mongodb_operator.Shards.Services.{Services, RemoveShardResult}
use mongodb_operator.Shards.Init.{shard_name}
use mongodb_operator.Shards.ScaleIn.{
  scale_in_poll_interval, minutes, cleanup_shard_resources, Drain, removed, cleaned, scale_in_from,
  scale_in_with, reconcile_scale_in,
}

-- A shard whose removal the answer says to be complete.
abbrev pub is_completed : Outcome RemoveShardResult → Bool
is_completed (err _) = false
is_completed (ok r) = str_eq r.state "completed"

-- The polls of a drain are at least 30 seconds and at most 5 minutes apart, and the distance does not
-- shrink as time goes on.
pub poll_interval_grows :
    (now later : ℤ) (cs : List Condition) (shard : String)
    → now ≤ℤ later
    → (pos (seconds 30) ≤ℤ scale_in_poll_interval now cs shard)
      × (scale_in_poll_interval now cs shard ≤ℤ minutes 5)
      × (scale_in_poll_interval now cs shard ≤ℤ scale_in_poll_interval later cs shard)
unfolding scale_in_poll_interval ◌-ℤ◌
poll_interval_grows now later [] shard h = ground (arith, h)
poll_interval_grows now later (c ∷ cs) shard h =
    ground (arith, h, poll_interval_grows now later cs shard h)

module _ {W : Type 0} (s : Services W) where
  -- Kept by every removeShard command, and by the cleanup behind one that is complete.
  pub record IsKept {ℓ} (I : W → Type ℓ) : Type ℓ where
    pub removing :
        (password pod shard : String) (w : W) → I w → I (s.remove_shard password pod shard w).1
    pub cleaning :
        (m : MongoDbSharded) (i : ℕ) (password pod : String) (w : W)
        → I (s.remove_shard password pod (shard_name s m i) w).1
        → is_completed (s.remove_shard password pod (shard_name s m i) w).0 ≡ true
        → I (cleanup_shard_resources s i m (s.remove_shard password pod (shard_name s m i) w).1).2

  module _ {ℓ} (I : W → Type ℓ) (k : IsKept I) where
    cleaned-keeps :
        (shard : String) (rest : Drain s) (r : Outcome Bool × MongoDbSharded × W)
        → I r.2
        → ((m : MongoDbSharded) (w : W) → I w → I (rest m w).2)
        → I (cleaned s shard rest r).2
    cleaned-keeps shard rest (err e, m, w) h keep = h
    cleaned-keeps shard rest (ok _, m, w) h keep = keep m w h

    pub removed-keeps :
        (i : ℕ) (rest : Drain s) (r : Outcome RemoveShardResult × W) (m : MongoDbSharded)
        → I r.1
        → (is_completed r.0 ≡ true → I (cleanup_shard_resources s i m r.1).2)
        → ((m : MongoDbSharded) (w : W) → I w → I (rest m w).2)
        → I (removed s i rest r m).2
    removed-keeps i rest (err e, w) m h clean keep = h
    removed-keeps i rest (ok r, w) m h clean keep = elim (Bool-cases (str_eq r.state "completed")) [
      | inl e ↦
          rw e
            (cleaned-keeps (shard_name s m i) rest (cleanup_shard_resources s i m w) (clean e) keep)
      | inr e ↦ rw e h
    ]

    pub scale_in_from-keeps :
        (password : String) (n i : ℕ) (m : MongoDbSharded) (w : W)
        → I w
        → I (scale_in_from s password n i m w).2
    unfolding scale_in_from
    scale_in_from-keeps password zero i m w h = h
    scale_in_from-keeps password (suc n) i m w h =
        removed-keeps i (scale_in_from s password n (suc i))
          (s.remove_shard password (m.name +++ "-mongos-0") (shard_name s m i) w) m
          (k.removing password (m.name +++ "-mongos-0") (shard_name s m i) w h)
          (k.cleaning m i password (m.name +++ "-mongos-0") w
            (k.removing password (m.name +++ "-mongos-0") (shard_name s m i) w h))
          (scale_in_from-keeps password n (suc i))

    with-keeps :
        (p : Outcome String) (m : MongoDbSharded) (w : W) → I w → I (scale_in_with s p m w).2
    with-keeps (err e) m w h = h
    with-keeps (ok p) m w h =
        scale_in_from-keeps p (length m.status.shards - m.shard_count) m.shard_count m w h

    -- The objects and the claims of a shard are deleted only right after MongoDB has answered that its
    -- removal is complete: whatever holds of the outside and is kept by the removeShard commands and by a
    -- cleanup behind such an answer is kept by reconcileScaleIn.
    pub scale_in-keeps : (m : MongoDbSharded) (w : W) → I w → I (reconcile_scale_in s m w).2
    unfolding reconcile_scale_in
    scale_in-keeps m w h =
        ground (arith, h, with-keeps (get_admin_password s.kube m.admin_secret w) m w h)
