-- ===== src/Shards/Reset.antt =====
-- The flags of the shards that reconcileScaleIn has removed.
use mongodb_operator.Common.{
  ℕ, zero, suc, ◌+◌, ◌-◌, ◌^◌, ◌≤◌, ◌<◌, ◌≡◌, ◌≢◌, refl, ap, arith, ◌∙◌, String, Bool, true, false,
  ltb, leb, length, Bool-cases, inl, inr, ◌==◌, if◌then◌else◌, str_eq, Option, none, some, List,
}
use mongodb_operator.Common.Int.{ℤ, pos}
use mongodb_operator.Kube.{Error, Outcome, ok, err}
use mongodb_operator.Mongo.{MongoDbSharded}
use mongodb_operator.Upgrade.Status.{◌+++◌}
use mongodb_operator.Upgrade.Config.{no_requeue, get_admin_password}
use mongodb_operator.Shards.Services.{Services, RemoveShardResult}
use mongodb_operator.Shards.Flags.{flag_at, flag_at-clear_at}
use mongodb_operator.Shards.Init.{shard_name}
use mongodb_operator.Shards.Initialized.{IsOrdered, is_ok}
use mongodb_operator.Shards.ScaleIn.{
  Drain, cleaned, removed, scale_in_poll_interval, cleanup_shard_resources, reset_flags, reset,
  claims_listed, objects_deleted, record_shard_draining_condition, scale_in_from, scale_in_with,
  reconcile_scale_in, remove_draining,
}
use mongodb_operator.Shards.Drain.{poll_interval_grows}

-- What the loop over the `n` shards from `i` on does with the flags: those below are kept, no shard
-- gets registered without being initialized, and when the loop is through the others are cleared.
pub record IsReset {W : Type 0} (i n : ℕ) (m : MongoDbSharded) (x : Outcome ℤ × MongoDbSharded × W)
    : Type 0 where
  pub added_kept :
      (j : ℕ) → j < i → flag_at j x.1.status.shards_added ≡ flag_at j m.status.shards_added
  pub initialized_kept :
      (j : ℕ)
      → j < i
      → flag_at j x.1.status.shards_initialized ≡ flag_at j m.status.shards_initialized
  pub ordered : IsOrdered m.status → IsOrdered x.1.status
  pub cleared :
      x.0 ≡ ok no_requeue
      → (j : ℕ) → i ≤ j
      → j < i + n
      → (flag_at j x.1.status.shards_added ≡ false)
        × (flag_at j x.1.status.shards_initialized ≡ false)

poll_interval-positive :
    (now : ℤ) (m : MongoDbSharded) (shard : String)
    → scale_in_poll_interval now m.status.conditions shard ≢ no_requeue
poll_interval-positive now m shard e =
    let (low, _, _) = poll_interval_grows now now m.status.conditions shard (omega arith) in
    ground (arith, low, e)

ok_value : Outcome ℤ → ℤ
ok_value (ok a) = a
ok_value (err _) = no_requeue

ok-injective : {a b : ℤ} → Path (Outcome ℤ) (ok a) (ok b) → a ≡ b
unfolding ok_value
ok-injective e = ap ok_value e

reset_flags-IsOrdered :
    (i : ℕ) (m : MongoDbSharded) → IsOrdered m.status → IsOrdered (reset_flags i m).status
reset_flags-IsOrdered i m h j a = ground (
  arith,
  a,
  h j,
  flag_at-clear_at i j m.status.shards_added,
  flag_at-clear_at i j m.status.shards_initialized,
)

module _ {W : Type 0} where
  -- A result that ends the loop before its end, and leaves the flags alone.
  ended-IsReset :
      (i n : ℕ) (m m' : MongoDbSharded) (r : Outcome ℤ) (w : W)
      → r ≢ ok no_requeue
      → m'.status.shards_added ≡ m.status.shards_added
      → m'.status.shards_initialized ≡ m.status.shards_initialized
      → IsReset i n m (r, m', w)
  ended-IsReset i n m m' r w h e e' = record {
    added_kept = λ j lt. ap (flag_at j) e;
    initialized_kept = λ j lt. ap (flag_at j) e';
    ordered = λ o j a. rw e' (o j (rw (← e) a));
    cleared = λ done. absurd (h done);
  }

  -- The loop behind the removal of the shard `i`.
  next-IsReset :
      (i n : ℕ) (m : MongoDbSharded) (x : Outcome ℤ × MongoDbSharded × W)
      → IsReset (suc i) n (reset_flags i m) x
      → IsReset i (suc n) m x
  next-IsReset i n m x h = record {
    added_kept = λ j lt.
        h.added_kept j (omega arith)
        ∙ ground (arith, flag_at-clear_at i j m.status.shards_added, lt);
    initialized_kept = λ j lt.
        h.initialized_kept j (omega arith)
        ∙ ground (arith, flag_at-clear_at i j m.status.shards_initialized, lt);
    ordered = λ o. h.ordered (reset_flags-IsOrdered i m o);
    cleared = λ done j low high. elim (Bool-cases (i == j)) [
      | inl e ↦ (
        h.added_kept j (ground (arith, e))
            ∙ ground (arith, flag_at-clear_at i j m.status.shards_added, e),
        h.initialized_kept j (ground (arith, e))
            ∙ ground (arith, flag_at-clear_at i j m.status.shards_initialized, e),
      )
      | inr e ↦ h.cleared done j (ground (arith, e, low)) (omega arith)
    ];
  }

  module _ (s : Services W) where
    -- Cleaning up a shard without an error resets its flags, and changes nothing else of the object; with
    -- an error it changes nothing of the object.
    pub record IsReleased (i : ℕ) (m : MongoDbSharded) (x : Outcome Bool × MongoDbSharded × W)
        : Type 0 where
      pub done : is_ok x.0 ≡ true → x.1 ≡ reset_flags i m
      pub failed : is_ok x.0 ≡ false → x.1 ≡ m

    reset-IsReleased :
        (i : ℕ) (r : Option Error × W) (m : MongoDbSharded) → IsReleased i m (reset s i r m)
    reset-IsReleased i (some e, w) m = record { done = λ h. ground (arith, h); failed = λ h. refl }
    reset-IsReleased i (none, w) m = record { done = λ h. refl; failed = λ h. ground (arith, h) }

    listed-IsReleased :
        (i : ℕ) (prefix : String) (claims : Outcome (List String)) (m : MongoDbSharded) (w : W)
        → IsReleased i m (claims_listed s i prefix claims m w)
    listed-IsReleased i prefix (err e) m w = record {
      done = λ h. ground (arith, h);
      failed = λ h. refl;
    }
    listed-IsReleased i prefix (ok claims) m w = reset-IsReleased i _ m

    deleted-IsReleased :
        (i : ℕ) (prefix : String) (r : Option Error × W) (m : MongoDbSharded)
        → IsReleased i m (objects_deleted s i prefix r m)
    deleted-IsReleased i prefix (some e, w) m = record {
      done = λ h. ground (arith, h);
      failed = λ h. refl;
    }
    deleted-IsReleased i prefix (none, w) m =
        listed-IsReleased i prefix (s.list_pvcs ("shard-" +++ s.decimal (pos i)) m.name w) m w

    pub cleanup_shard-IsReleased :
        (i : ℕ) (m : MongoDbSharded) (w : W) → IsReleased i m (cleanup_shard_resources s i m w)
    unfolding cleanup_shard_resources
    cleanup_shard-IsReleased i m w = deleted-IsReleased i (shard_name s m i) _ m

    cleaned-IsReset :
        (i n : ℕ) (shard : String) (rest : Drain s) (m : MongoDbSharded)
        (r : Outcome Bool × MongoDbSharded × W)
        → IsReleased i m r
        → ((m : MongoDbSharded) (w : W) → IsReset (suc i) n m (rest m w))
        → IsReset i (suc n) m (cleaned s shard rest r)
    cleaned-IsReset i n shard rest m (err e, m', w) c h =
        ended-IsReset i (suc n) m m' _ w (λ d. ground (arith, d))
          (ap (λ o. o.status.shards_added) (c.failed refl))
          (ap (λ o. o.status.shards_initialized) (c.failed refl))
    cleaned-IsReset i n shard rest m (ok _, m', w) c h =
        rw (c.done refl) (next-IsReset i n m (rest (reset_flags i m) w) (h (reset_flags i m) w))

    removed-IsReset :
        (i n : ℕ) (rest : Drain s) (r : Outcome RemoveShardResult × W) (m : MongoDbSharded)
        → ((m : MongoDbSharded) (w : W) → IsReset (suc i) n m (rest m w))
        → IsReset i (suc n) m (removed s i rest r m)
    unfolding record_shard_draining_condition
    removed-IsReset i n rest (err e, w) m h =
        ended-IsReset i (suc n) m m _ w (λ d. ground (arith, d)) refl refl
    removed-IsReset i n rest (ok r, w) m h = elim (Bool-cases (str_eq r.state "completed")) [
      | inl e ↦ rw e (
          cleaned-IsReset i n (shard_name s m i) rest m (cleanup_shard_resources s i m w)
            (cleanup_shard-IsReleased i m w) h)
      | inr e ↦
          let m' = record_shard_draining_condition s (shard_name s m i) r m w in
          rw e (
            ended-IsReset i (suc n) m m' _ w
              (λ d. poll_interval-positive (s.kube.now w) m' (shard_name s m i) (ok-injective d))
              refl refl)
    ]

    scale_in_from-IsReset :
        (password : String) (n i : ℕ) (m : MongoDbSharded) (w : W)
        → IsReset i n m (scale_in_from s password n i m w)
    unfolding scale_in_from
    scale_in_from-IsReset password zero i m w = record {
      added_kept = λ j lt. refl;
      initialized_kept = λ j lt. refl;
      ordered = λ o. o;
      cleared = λ d j low high. absurd (omega arith);
    }
    scale_in_from-IsReset password (suc n) i m w =
        removed-IsReset i n (scale_in_from s password n (suc i))
          (s.remove_shard password (m.name +++ "-mongos-0") (shard_name s m i) w) m
          (scale_in_from-IsReset password n (suc i))

    with-IsReset :
        (p : Outcome String) (m : MongoDbSharded) (w : W)
        → IsReset m.shard_count (length m.status.shards - m.shard_count) m (scale_in_with s p m w)
    with-IsReset (err e) m w = ended-IsReset _ _ m m _ w (λ d. ground (arith, d)) refl refl
    with-IsReset (ok p) m w =
        scale_in_from-IsReset p (length m.status.shards - m.shard_count) m.shard_count m w

    if-IsReset :
        (b c : Bool) (i n : ℕ) (m : MongoDbSharded) (x y z : Outcome ℤ × MongoDbSharded × W)
        → b ≡ false
        → (c ≡ true → IsReset i n m y)
        → IsReset i n m z
        → IsReset i n m (if b then x else if c then y else z)
    if-IsReset true c i n m x y z e hy hz = ground (arith, e)
    if-IsReset false true i n m x y z e hy hz = hy refl
    if-IsReset false false i n m x y z e hy hz = hz

    stable-IsReset :
        (i n : ℕ) (m m' : MongoDbSharded) (w : W)
        → n ≡ 0
        → m'.status.shards_added ≡ m.status.shards_added
        → m'.status.shards_initialized ≡ m.status.shards_initialized
        → IsReset i n m (ok no_requeue, m', w)
    stable-IsReset i n m m' w none_left e e' = record {
      added_kept = λ j lt. ap (flag_at j) e;
      initialized_kept = λ j lt. ap (flag_at j) e';
      ordered = λ o j a. rw e' (o j (rw (← e) a));
      cleared = λ d j low high. absurd (omega arith);
    }

    -- When the status has more shards than the spec, removing the surplus keeps the flags of the shards
    -- that the spec asks for, and registers no shard that is not initialized. If it returns neither an
    -- error nor a requeue, the flags of every surplus shard are false in both slices, so that a later
    -- scale-out starts it anew. A status has fewer than 2^31 shards.
    pub scale_in-IsReset :
        (m : MongoDbSharded) (w : W)
        → length m.status.shards < 2 ^ 31
        → IsReset m.shard_count
            (length m.status.shards - m.shard_count)
            m
            (reconcile_scale_in s m w)
    unfolding reconcile_scale_in
    scale_in-IsReset m w small =
        if-IsReset (ltb (2 ^ 31 - 1) (length m.status.shards))
          (leb (length m.status.shards) m.shard_count) m.shard_count
          (length m.status.shards - m.shard_count) m _ _ _ (ground (arith, small))
          (λ fits.
            stable-IsReset m.shard_count _ m (remove_draining s m) w (ground (arith, fits)) refl
              refl)
          (with-IsReset (get_admin_password s.kube m.admin_secret w) m w)
