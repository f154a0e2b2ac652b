-- ===== src/Shards/Union.antt =====
-- The abstract view of reconcileShardsInit and reconcileAddShards: a set of shards, to which a call
-- adds those that answer well.
use mongodb_operator.Common.{
  ℕ, zero, suc, ◌+◌, ◌≤◌, ◌≡◌, refl, arith, String, Bool, true, false, ◌&&◌, ◌||◌, Option, List, [],
  ◌∷◌, length, ltb, ap,
}
use mongodb_operator.Kube.{Error, Outcome, ok, err}
use mongodb_operator.Mongo.{MongoDbSharded}
use mongodb_operator.Upgrade.Config.{get_admin_password}
use mongodb_operator.Shards.Services.{Services}
use mongodb_operator.Shards.Flags.{flag_at, grown, work_off, is_none, length-grown, flag_at-grown}
use mongodb_operator.Shards.Initialized.{is_ok}
use mongodb_operator.Shards.Init.{
  reconcile_shards_init, init_shard, shards_init_with, set_shards_initialized,
}

-- The shards whose flag is set.
abbrev pub ShardSet : Type 0
ShardSet = ℕ → Bool

abbrev pub set_of : List Bool → ShardSet
set_of bs i = flag_at i bs

-- What a call does to the set: the shards below `count` that are `good` come in.
abbrev pub joined_by : ℕ → ShardSet → ShardSet → ShardSet
joined_by count good set i = set i || (ltb i count && good i)

work_off_union :
    {W : Type 0} (attempt : ℕ → W → Option Error × W) (good : ShardSet) (count i : ℕ)
    (bs : List Bool) (w : W)
    → ((k : ℕ) (v : W) → is_none (attempt k v).0 ≡ good k)
    → count ≤ length bs
    → (j : ℕ)
    → flag_at j (work_off attempt count i bs w).1 ≡ (flag_at j bs || (ltb j count && good (i + j)))
unfolding flag_at work_off
work_off_union attempt good zero i bs w h long j = ground arith
work_off_union attempt good (suc count) i [] w h long j = absurd (omega arith)
work_off_union attempt good (suc count) i (true ∷ bs) w h long zero = refl
work_off_union attempt good (suc count) i (true ∷ bs) w h long (suc j) =
    let e : good (suc i + j) ≡ good (i + suc j) = ap good (omega arith) in
    ground (arith, e, work_off_union attempt good count (suc i) bs w h (omega arith) j)
work_off_union attempt good (suc count) i (false ∷ bs) w h long zero =
    let e : good (i + 0) ≡ good i = ap good (omega arith) in ground (arith, e, h i w)
work_off_union attempt good (suc count) i (false ∷ bs) w h long (suc j) =
    let e : good (suc i + j) ≡ good (i + suc j) = ap good (omega arith) in
    let w' = (attempt i w).1 in
    ground (arith, e, work_off_union attempt good count (suc i) bs w' h (omega arith) j)

module _ {W : Type 0} (s : Services W) (good : ShardSet) where
  init_with_union :
      (p : Outcome String) (m : MongoDbSharded) (w : W)
      → ((password : String) (bs : List Bool) (i : ℕ) (v : W)
          → is_none (init_shard s (set_shards_initialized bs m) password i v).0 ≡ good i)
      → is_ok p ≡ true
      → (j : ℕ)
      → let bs = grown m.shard_count m.status.shards_initialized in
        flag_at j (shards_init_with s p (set_shards_initialized bs m) w).1.status.shards_initialized
        ≡ joined_by m.shard_count good (set_of m.status.shards_initialized) j
  init_with_union (err e) m w h known j = ground (arith, known)
  init_with_union (ok p) m w h known j =
      let bs = m.status.shards_initialized in
      let m' = set_shards_initialized (grown m.shard_count bs) m in
      let e : good (0 + j) ≡ good j = ap good (omega arith) in
      ground (
        arith,
        e,
        flag_at-grown j m.shard_count bs,
        work_off_union (init_shard s m' p) good m.shard_count 0 (grown m.shard_count bs) w
            (h p (grown m.shard_count bs)) (length-grown m.shard_count bs) j,
      )

  -- Where it depends on the shard alone whether it can be initialized, and the password is at hand,
  -- reconcileShardsInit adds to the set of the initialized shards those of the spec that can be: their
  -- order, and the errors of others, do not matter.
  pub shards_init_union :
      (m : MongoDbSharded) (w : W)
      → ((password : String) (bs : List Bool) (i : ℕ) (v : W)
          → is_none (init_shard s (set_shards_initialized bs m) password i v).0 ≡ good i)
      → is_ok (get_admin_password s.kube m.admin_secret w) ≡ true
      → (j : ℕ)
      → set_of (reconcile_shards_init s m w).1.status.shards_initialized j
        ≡ joined_by m.shard_count good (set_of m.status.shards_initialized) j
  unfolding reconcile_shards_init
  shards_init_union m w h known j =
      init_with_union (get_admin_password s.kube m.admin_secret w) m w h known j
