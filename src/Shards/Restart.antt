-- ===== src/Shards/Restart.antt =====
-- A removal of shards that takes several passes. Each pass reads the object anew, and only what was
-- written to the API server is there.
use mongodb_operator.Common.{
  ℕ, suc, ◌-◌, ◌^◌, ◌<◌, ◌≡◌, refl, arith, String, true, false, length, ltb, leb,
}
use mongodb_operator.Common.Int.{ℤ}
use mongodb_operator.Kube.{Outcome, ok, err}
use mongodb_operator.Mongo.{MongoDbSharded}
use mongodb_operator.Upgrade.Status.{◌+++◌}
use mongodb_operator.Upgrade.Config.{get_admin_password}
use mongodb_operator.Shards.Services.{Services, RemoveShardResult}
use mongodb_operator.Shards.Init.{shard_name}
use mongodb_operator.Shards.Initialized.{is_ok}
use mongodb_operator.Shards.ScaleIn.{
  removed, scale_in_from, scale_in_with, reconcile_scale_in, Drain,
}
use mongodb_operator.Shards.Drain.{IsKept, is_completed, removed-keeps, scale_in_from-keeps}

-- An object with surplus shards and fewer than 2^31 of them.
pub record IsSurplus (m : MongoDbSharded) : Type 0 where
  pub more : m.shard_count < length m.status.shards
  pub small : length m.status.shards < 2 ^ 31

-- What is relied on of MongoDB: a removeShard that answers "completed" has taken the shard out of
-- the cluster, and from then on a removeShard of it is an error. `is_gone` says that it is out.
pub record IsForgetful {W : Type 0} (s : Services W) (IsGone : String → W → Type 0) : Type 0 where
  pub completes :
      (password pod shard : String) (w : W)
      → is_completed (s.remove_shard password pod shard w).0 ≡ true
      → IsGone shard (s.remove_shard password pod shard w).1
  pub refuses :
      (password pod shard : String) (w : W)
      → IsGone shard w
      → is_ok (s.remove_shard password pod shard w).0 ≡ false
  pub stays : (shard : String) → IsKept s (IsGone shard)

module _ {W : Type 0} (s : Services W) (IsGone : String → W → Type 0)
    (f : IsForgetful s IsGone) where
  -- The world behind the removal of the first surplus shard alone.
  abbrev pub first_asked : Outcome String → MongoDbSharded → W → W
  first_asked (err e) m w = w
  first_asked (ok p) m w =
      (s.remove_shard p (m.name +++ "-mongos-0") (shard_name s m m.shard_count) w).1

  -- A pass that fails at the first surplus shard: nothing but that one removal is asked for, and the
  -- object is left as it is.
  abbrev pub FailsAtFirst : MongoDbSharded → W → Type 0
  FailsAtFirst m w =
      (is_ok (reconcile_scale_in s m w).0 ≡ false)
      × ((reconcile_scale_in s m w).1 ≡ m)
      × ((reconcile_scale_in s m w).2
          ≡ first_asked (get_admin_password s.kube m.admin_secret w) m w)

  abbrev Fails : Outcome ℤ × MongoDbSharded × W → MongoDbSharded → W → Type 0
  Fails r m w = (is_ok r.0 ≡ false) × (r.1 ≡ m) × (r.2 ≡ w)

  removed-Fails :
      (i : ℕ) (rest : Drain s) (r : Outcome RemoveShardResult × W) (m : MongoDbSharded)
      → is_ok r.0 ≡ false
      → Fails (removed s i rest r m) m r.1
  removed-Fails i rest (err e, w) m h = (refl, refl, refl)
  removed-Fails i rest (ok r, w) m h = ground (arith, h)

  with-Fails :
      (p : Outcome String) (n : ℕ) (m : MongoDbSharded) (w : W)
      → IsGone (shard_name s m m.shard_count) w
      → length m.status.shards - m.shard_count ≡ suc n
      → Fails (scale_in_with s p m w) m (first_asked p m w)
  unfolding scale_in_from
  with-Fails (err e) n m w gone size = (refl, refl, refl)
  with-Fails (ok p) n m w gone size = rw size (
      removed-Fails m.shard_count (scale_in_from s p n (suc m.shard_count)) _ m
        (f.refuses p (m.name +++ "-mongos-0") (shard_name s m m.shard_count) w gone))

  -- When the first surplus shard is out of the cluster already, removing the surplus fails there.
  gone-FailsAtFirst :
      (m : MongoDbSharded) (w : W)
      → IsSurplus m
      → IsGone (shard_name s m m.shard_count) w
      → FailsAtFirst m w
  unfolding reconcile_scale_in
  gone-FailsAtFirst m w h gone =
      let few : ltb (2 ^ 31 - 1) (length m.status.shards) ≡ false = ground (arith, h.small) in
      let more : leb (length m.status.shards) m.shard_count ≡ false = ground (arith, h.more) in
      rw (few, more)
        (with-Fails (get_admin_password s.kube m.admin_secret w)
          (length m.status.shards - m.shard_count - 1) m w gone (ground (arith, h.more)))

  with-IsGone :
      (p : Outcome String) (n : ℕ) (m : MongoDbSharded) (w : W)
      → length m.status.shards - m.shard_count ≡ suc n
      → is_ok p ≡ true
      → ((password : String)
          → is_completed
              (s.remove_shard password (m.name +++ "-mongos-0") (shard_name s m m.shard_count) w).0
            ≡ true)
      → IsGone (shard_name s m m.shard_count) (scale_in_with s p m w).2
  unfolding scale_in_from
  with-IsGone (err e) n m w size known done = ground (arith, known)
  with-IsGone (ok p) n m w size known done =
      let shard = shard_name s m m.shard_count in
      let gone = f.completes p (m.name +++ "-mongos-0") shard w (done p) in
      let keeps = f.stays shard in
      rw size (
        removed-keeps s (IsGone shard) keeps m.shard_count (scale_in_from s p n (suc m.shard_count))
          (s.remove_shard p (m.name +++ "-mongos-0") shard w) m gone
          (keeps.cleaning m m.shard_count p (m.name +++ "-mongos-0") w gone)
          (scale_in_from-keeps s (IsGone shard) keeps p n (suc m.shard_count)))

  scale_in-IsGone :
      (m : MongoDbSharded) (w : W)
      → IsSurplus m
      → is_ok (get_admin_password s.kube m.admin_secret w) ≡ true
      → ((password : String)
          → is_completed
              (s.remove_shard password (m.name +++ "-mongos-0") (shard_name s m m.shard_count) w).0
            ≡ true)
      → IsGone (shard_name s m m.shard_count) (reconcile_scale_in s m w).2
  unfolding reconcile_scale_in
  scale_in-IsGone m w h known done =
      let few : ltb (2 ^ 31 - 1) (length m.status.shards) ≡ false = ground (arith, h.small) in
      let more : leb (length m.status.shards) m.shard_count ≡ false = ground (arith, h.more) in
      rw (few, more)
        (with-IsGone (get_admin_password s.kube m.admin_secret w)
          (length m.status.shards - m.shard_count - 1) m w (ground (arith, h.more)) known done)

  -- The object as a later pass reads it: with its surplus still.
  pub record IsReread (m next : MongoDbSharded) : Type 0 where
    pub surplus : IsSurplus next
    pub same_name : next.name ≡ m.name
    pub same_count : next.shard_count ≡ m.shard_count

  -- The worlds that later passes meet: behind the first pass, behind further passes over the object, and
  -- behind anything else that does not bring the first surplus shard back.
  pub data Later (m : MongoDbSharded) (w : W) : W → Type 0 where
    first : Later m w (reconcile_scale_in s m w).2
    pass :
        {v : W}
        → Later m w v
        → (next : MongoDbSharded) → IsReread m next
        → Later m w (reconcile_scale_in s next v).2
    outside :
        {v : W}
        → Later m w v
        → (u : W)
        → (IsGone (shard_name s m m.shard_count) v → IsGone (shard_name s m m.shard_count) u)
        → Later m w u

  reread-IsGone :
      (m next : MongoDbSharded) (v : W)
      → IsReread m next
      → IsGone (shard_name s m m.shard_count) v
      → IsGone (shard_name s next next.shard_count) v
  reread-IsGone m next v r gone = rw (r.same_name, r.same_count) gone

  asked-IsGone :
      (shard : String) (p : Outcome String) (m : MongoDbSharded) (w : W)
      → IsGone shard w
      → IsGone shard (first_asked p m w)
  asked-IsGone shard (err e) m w gone = gone
  asked-IsGone shard (ok p) m w gone =
      (f.stays shard).removing p (m.name +++ "-mongos-0") (shard_name s m m.shard_count) w gone

  Later-IsGone :
      {m : MongoDbSharded} {w v : W}
      → IsGone (shard_name s m m.shard_count) (reconcile_scale_in s m w).2
      → Later m w v
      → IsGone (shard_name s m m.shard_count) v
  Later-IsGone gone first = gone
  Later-IsGone {m} gone (pass {v = v} before next r) =
      let now = Later-IsGone gone before in
      let failed = gone-FailsAtFirst next v r.surplus (reread-IsGone m next v r now) in
      rw failed.2 (
        asked-IsGone (shard_name s m m.shard_count) (get_admin_password s.kube next.admin_secret v)
          next v now)
  Later-IsGone gone (outside before u keeps) = keeps (Later-IsGone gone before)

  -- A removal of surplus shards in which the first one is taken out of the cluster, but which does not
  -- end in the same pass, gets stuck: as long as nobody brings that shard back, every later pass that
  -- finds the status with its surplus still fails at that shard. It asks for no removal but the one of
  -- that shard, deletes nothing, and leaves the object as it is. MongoDB is supposed to refuse the
  -- removal of a shard that is out.
  pub scale_in_gets_stuck :
      (m next : MongoDbSharded) (w v : W)
      → IsSurplus m
      → is_ok (get_admin_password s.kube m.admin_secret w) ≡ true
      → ((password : String)
          → is_completed
              (s.remove_shard password (m.name +++ "-mongos-0") (shard_name s m m.shard_count) w).0
            ≡ true)
      → Later m w v
      → IsReread m next
      → FailsAtFirst next v
  scale_in_gets_stuck m next w v h known done later r =
      gone-FailsAtFirst next v r.surplus
        (reread-IsGone m next v r (Later-IsGone (scale_in-IsGone m w h known done) later))
