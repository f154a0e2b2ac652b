-- ===== src/Shards/Settled.antt =====
-- What is sent to the databases when there is nothing left to initialize or to register.
use mongodb_operator.Common.{ℕ, String, Bool, true, false, Option, ◌≡◌, refl, arith}
use mongodb_operator.Kube.{ApiError, Outcome, ok, err}
use mongodb_operator.Mongo.{MongoDbSharded}
use mongodb_operator.Upgrade.Config.{get_mongos_pod, get_admin_password}
use mongodb_operator.Shards.Services.{Services, ReplicaSetConfig}
use mongodb_operator.Shards.Flags.{all_true, work_off_done, grown-all_true}
use mongodb_operator.Shards.Init.{
  are_shards_initialized, reconcile_shards_init, reconcile_add_shards, init_shard, add_shard,
  shards_init_with, add_shards_with, add_shards_on,
}

module _ {W : Type 0} (s : Services W) (f : String → ℕ → String → String → W → Outcome Bool)
    (g : String → ℕ → String → String → ReplicaSetConfig → W → Option ApiError × W)
    (h : String → String → W → Option ApiError × W) where
  -- Other functions that initialize and register.
  abbrev pub other_commands : Services W
  other_commands = record s { is_initialized = f; initiate = g; add_shard = h }

  init_with-settled :
      (p : Outcome String) (m : MongoDbSharded) (w : W)
      → all_true m.shard_count m.status.shards_initialized ≡ true
      → shards_init_with other_commands p m w ≡ shards_init_with s p m w
  init_with-settled (err e) m w all = refl
  init_with-settled (ok p) m w all =
      let bs = m.status.shards_initialized in
      rw
        (
          work_off_done (init_shard other_commands m p) m.shard_count 0 bs w all,
          work_off_done (init_shard s m p) m.shard_count 0 bs w all,
        )
        refl

  add_on-settled :
      (p : String) (pod : Outcome String) (m : MongoDbSharded) (w : W)
      → all_true m.shard_count m.status.shards_added ≡ true
      → add_shards_on other_commands p pod m w ≡ add_shards_on s p pod m w
  add_on-settled p (err e) m w all = refl
  add_on-settled p (ok pod) m w all =
      let bs = m.status.shards_added in
      rw
        (
          work_off_done (add_shard other_commands m p) m.shard_count 0 bs w all,
          work_off_done (add_shard s m p) m.shard_count 0 bs w all,
        )
        refl

  add_with-settled :
      (p : Outcome String) (m : MongoDbSharded) (w : W)
      → all_true m.shard_count m.status.shards_added ≡ true
      → add_shards_with other_commands p m w ≡ add_shards_with s p m w
  add_with-settled (err e) m w all = refl
  add_with-settled (ok p) m w all = add_on-settled p (get_mongos_pod s.kube m.name w) m w all

  -- When every shard is initialized, initializing the shards sends no command to a database: with any
  -- other functions in the place of the commands it does the same. Registering the shards sends none
  -- when every shard is registered, and none as long as one is not initialized.
  pub settled_shards_send_nothing :
      (m : MongoDbSharded) (w : W)
      → (are_shards_initialized m ≡ true
          → reconcile_shards_init other_commands m w ≡ reconcile_shards_init s m w)
        × (are_shards_initialized m ≡ false
            → reconcile_add_shards other_commands m w ≡ reconcile_add_shards s m w)
        × (all_true m.shard_count m.status.shards_added ≡ true
            → reconcile_add_shards other_commands m w ≡ reconcile_add_shards s m w)
  unfolding are_shards_initialized reconcile_shards_init reconcile_add_shards
  settled_shards_send_nothing m w = (
    λ all.
        rw (grown-all_true m.shard_count m.status.shards_initialized all)
          (init_with-settled (get_admin_password s.kube m.admin_secret w) m w all),
    λ waits. ground (arith, waits),
    λ all.
        rw
          (
            grown-all_true m.shard_count m.status.shards_added all,
            add_with-settled (get_admin_password s.kube m.admin_secret w) m w all,
          )
          refl,
  )
