-- ===== src/Shards/Initialized.antt =====
-- What reconcileShardsInit and reconcileAddShards promise of the flags of the shards.
use mongodb_operator.Common.{
  ℕ, ◌≤◌, String, Bool, true, false, Option, none, List, [], ◌∷◌, ◌≡◌, refl, arith, length,
  if◌then◌else◌, inl, inr, ◌==◌,
}
use mongodb_operator.Kube.{ApiError, Error, Outcome, ok, err}
use mongodb_operator.Mongo.{MongoDbSharded, ShardedStatus}
use mongodb_operator.Upgrade.Config.{get_mongos_pod, get_admin_password}
use mongodb_operator.Shards.Services.{Services}
use mongodb_operator.Shards.Flags.{
  flag_at, grown, work_off, length-grown, flag_at-grown, flag_at-work_off, length-work_off,
  all_true-work_off, work_off-new, flag_at-all_true,
}
use mongodb_operator.Shards.Init.{
  are_shards_initialized, reconcile_shards_init, reconcile_add_shards, init_shard, add_shard,
  shards_init_with, add_shards_with, add_shards_on, loop_result, set_shards_initialized,
  set_shards_added,
}

abbrev pub is_ok {ℓ} : {A : Type ℓ} → Outcome A → Bool
is_ok (ok _) = true
is_ok (err _) = false

-- The second slice has the flags of the first one, and is at least as long as `count`.
pub record IsGrowth (count : ℕ) (before after : List Bool) : Type 0 where
  pub long : count ≤ length after
  pub kept : (j : ℕ) → flag_at j before ≡ true → flag_at j after ≡ true

-- A shard that is registered was initialized.
abbrev pub IsOrdered : ShardedStatus → Type 0
IsOrdered s = (j : ℕ) → flag_at j s.shards_added ≡ true → flag_at j s.shards_initialized ≡ true

grown-IsGrowth : (count : ℕ) (bs : List Bool) → IsGrowth count bs (grown count bs)
grown-IsGrowth count bs = record {
  long = length-grown count bs;
  kept = λ j h. rw (flag_at-grown j count bs) h;
}

work_off-IsGrowth :
    {W : Type 0} (attempt : ℕ → W → Option Error × W) (count : ℕ) (bs : List Bool) (w : W)
    → IsGrowth count bs (work_off attempt count 0 (grown count bs) w).1
work_off-IsGrowth attempt count bs w =
    let g = grown-IsGrowth count bs in
    record {
      long = rw (length-work_off attempt count 0 (grown count bs) w) g.long;
      kept = λ j h. flag_at-work_off attempt count 0 j (grown count bs) w (g.kept j h);
    }

loop_result-ok :
    (es : List Error) (e : Option ApiError)
    → is_ok (loop_result es e) ≡ true
    → (length es == 0) ≡ true
loop_result-ok [] e h = refl
loop_result-ok (x ∷ es) e h = ground (arith, h)

loop_result-none : (es : List Error) → is_ok (loop_result es none) ≡ (length es == 0)
loop_result-none [] = refl
loop_result-none (x ∷ es) = ground arith

module _ {W : Type 0} (s : Services W) where
  init_with-IsGrowth :
      (p : Outcome String) (m : MongoDbSharded) (w : W)
      → let bs = grown m.shard_count m.status.shards_initialized in
        IsGrowth m.shard_count m.status.shards_initialized
          (shards_init_with s p (set_shards_initialized bs m) w).1.status.shards_initialized
  init_with-IsGrowth (err e) m w = grown-IsGrowth m.shard_count m.status.shards_initialized
  init_with-IsGrowth (ok p) m w =
      let m' = set_shards_initialized (grown m.shard_count m.status.shards_initialized) m in
      work_off-IsGrowth (init_shard s m' p) m.shard_count m.status.shards_initialized w

  -- Initializing the shards forgets none that is initialized, and leaves a flag for each of the
  -- shards, whatever fails.
  pub shards_init-IsGrowth :
      (m : MongoDbSharded) (w : W)
      → IsGrowth m.shard_count m.status.shards_initialized
          (reconcile_shards_init s m w).1.status.shards_initialized
  unfolding reconcile_shards_init
  shards_init-IsGrowth m w = init_with-IsGrowth (get_admin_password s.kube m.admin_secret w) m w

  init_with_complete :
      (p : Outcome String) (m : MongoDbSharded) (w : W)
      → m.shard_count ≤ length m.status.shards_initialized
      → is_ok (shards_init_with s p m w).0 ≡ true
      → are_shards_initialized (shards_init_with s p m w).1 ≡ true
  unfolding are_shards_initialized
  init_with_complete (err e) m w h done = ground (arith, done)
  init_with_complete (ok p) m w h done =
      let attempt = init_shard s m p in
      let bs = m.status.shards_initialized in
      rw (all_true-work_off attempt m.shard_count 0 bs w h)
        (loop_result-ok (work_off attempt m.shard_count 0 bs w).0 _ done)

  init_with_iff :
      (p : Outcome String) (m : MongoDbSharded) (w : W)
      → m.shard_count ≤ length m.status.shards_initialized
      → is_ok p ≡ true
      → ((t : ShardedStatus) (v : W) → (s.kube.update_status t v).0 ≡ none)
      → is_ok (shards_init_with s p m w).0 ≡ are_shards_initialized (shards_init_with s p m w).1
  unfolding are_shards_initialized
  init_with_iff (err e) m w h known writes = ground (arith, known)
  init_with_iff (ok p) m w h known writes =
      let attempt = init_shard s m p in
      let bs = m.status.shards_initialized in
      let r = work_off attempt m.shard_count 0 bs w in
      rw
        (
          all_true-work_off attempt m.shard_count 0 bs w h,
          writes (set_shards_initialized r.1 m).status r.2,
        )
        (loop_result-none r.0)

  -- With the password at hand and writes of the status that succeed, the initialization of the shards
  -- returns an error if and only if some shard of the spec is still not initialized behind it.
  pub shards_init_reports :
      (m : MongoDbSharded) (w : W)
      → is_ok (get_admin_password s.kube m.admin_secret w) ≡ true
      → ((t : ShardedStatus) (v : W) → (s.kube.update_status t v).0 ≡ none)
      → is_ok (reconcile_shards_init s m w).0
        ≡ are_shards_initialized (reconcile_shards_init s m w).1
  unfolding reconcile_shards_init
  shards_init_reports m w known writes =
      init_with_iff (get_admin_password s.kube m.admin_secret w)
        (set_shards_initialized (grown m.shard_count m.status.shards_initialized) m) w
        (length-grown m.shard_count m.status.shards_initialized) known writes

  -- Whatever else fails, it returns no error only if all shards are initialized behind it.
  pub shards_init_complete :
      (m : MongoDbSharded) (w : W)
      → is_ok (reconcile_shards_init s m w).0 ≡ true
      → are_shards_initialized (reconcile_shards_init s m w).1 ≡ true
  unfolding reconcile_shards_init
  shards_init_complete m w done =
      init_with_complete (get_admin_password s.kube m.admin_secret w)
        (set_shards_initialized (grown m.shard_count m.status.shards_initialized) m) w
        (length-grown m.shard_count m.status.shards_initialized) done

  -- The flags of registration have grown, and every registered shard is initialized.
  pub record IsRegistered (m m' : MongoDbSharded) : Type 0 where
    pub growth : IsGrowth m.shard_count m.status.shards_added m'.status.shards_added
    pub ordered : IsOrdered m'.status

  waiting-IsRegistered :
      (m : MongoDbSharded)
      → IsOrdered m.status
      → IsRegistered m (set_shards_added (grown m.shard_count m.status.shards_added) m)
  waiting-IsRegistered m h = record {
    growth = grown-IsGrowth m.shard_count m.status.shards_added;
    ordered = λ j a. h j (rw (← flag_at-grown j m.shard_count m.status.shards_added) a);
  }

  worked_off-ordered :
      (attempt : ℕ → W → Option Error × W) (m : MongoDbSharded) (w : W)
      → are_shards_initialized m ≡ true
      → IsOrdered m.status
      → (j : ℕ)
      → flag_at j (work_off attempt m.shard_count 0 (grown m.shard_count m.status.shards_added) w).1
        ≡ true
      → flag_at j m.status.shards_initialized ≡ true
  unfolding are_shards_initialized
  worked_off-ordered attempt m w all h j a =
      let bs = grown m.shard_count m.status.shards_added in
      elim (work_off-new attempt m.shard_count 0 j bs w a) [
        | inl old ↦ h j (rw (← flag_at-grown j m.shard_count m.status.shards_added) old)
        | inr lt ↦ flag_at-all_true m.shard_count j m.status.shards_initialized all lt
      ]

  add_on-IsRegistered :
      (p : String) (pod : Outcome String) (m : MongoDbSharded) (w : W)
      → are_shards_initialized m ≡ true
      → IsOrdered m.status
      → let m' = set_shards_added (grown m.shard_count m.status.shards_added) m in
        IsRegistered m (add_shards_on s p pod m' w).1
  add_on-IsRegistered p (err e) m w all h = waiting-IsRegistered m h
  add_on-IsRegistered p (ok pod) m w all h =
      let m' = set_shards_added (grown m.shard_count m.status.shards_added) m in
      record {
        growth = work_off-IsGrowth (add_shard s m' p) m.shard_count m.status.shards_added w;
        ordered = worked_off-ordered (add_shard s m' p) m w all h;
      }

  add_with-IsRegistered :
      (p : Outcome String) (m : MongoDbSharded) (w : W)
      → are_shards_initialized m ≡ true
      → IsOrdered m.status
      → let m' = set_shards_added (grown m.shard_count m.status.shards_added) m in
        IsRegistered m (add_shards_with s p m' w).1
  add_with-IsRegistered (err e) m w all h = waiting-IsRegistered m h
  add_with-IsRegistered (ok p) m w all h =
      add_on-IsRegistered p (get_mongos_pod s.kube m.name w) m w all h

  if-IsRegistered :
      (b : Bool) (m : MongoDbSharded) (x y : Outcome Bool × MongoDbSharded × W)
      → (b ≡ true → IsRegistered m x.1)
      → IsRegistered m y.1
      → IsRegistered m (if b then x else y).1
  if-IsRegistered true m x y hx hy = hx refl
  if-IsRegistered false m x y hx hy = hy

  -- Where every registered shard was initialized, registering the shards keeps it so, forgets none that
  -- is registered, and leaves a flag for each of the shards, whatever fails.
  pub add_shards-IsRegistered :
      (m : MongoDbSharded) (w : W)
      → IsOrdered m.status
      → IsRegistered m (reconcile_add_shards s m w).1
  unfolding reconcile_add_shards
  add_shards-IsRegistered m w h =
      let m' = set_shards_added (grown m.shard_count m.status.shards_added) m in
      if-IsRegistered (are_shards_initialized m') m _ _
        (λ all. add_with-IsRegistered (get_admin_password s.kube m.admin_secret w) m w all h)
        (waiting-IsRegistered m h)
