-- ===== src/Tests/ScaleIn.antt =====
-- The removal of shards against Fleet.
use mongodb_operator.Common.{String, Bool, true, false, [], ◌∷◌, ◌≡◌, refl, arith, str_eq}
use mongodb_operator.Mongo.{MongoDbSharded, running, ShardStatus}
use mongodb_operator.Upgrade.Config.{get_admin_password}
use mongodb_operator.Shards.ScaleIn.{delete_all, cleanup_shard_resources, reconcile_scale_in}
use mongodb_operator.Shards.Drain.{IsKept, is_completed, scale_in-keeps}
use mongodb_operator.Shards.Reset.{IsReset, scale_in-IsReset}
use mongodb_operator.Shards.Restart.{
  IsSurplus, IsForgetful, FailsAtFirst, IsReread, first, pass, scale_in_gets_stuck,
}
use mongodb_operator.Tests.Upgrade.{sharded0}
use mongodb_operator.Tests.Fleet.{Fleet, answer, remove, services, fleet}

-- The spec asks for one shard, and the status has three.
abbrev shard_status : ShardStatus
shard_status = record { name = "shard"; ready = 3; total = 3; phase = running }

abbrev surplus : MongoDbSharded
surplus = record sharded0 {
  shard_count = 1;
  status = record sharded0.status {
    shards = shard_status ∷ shard_status ∷ shard_status ∷ [];
    shards_initialized = true ∷ true ∷ true ∷ [];
    shards_added = true ∷ true ∷ true ∷ [];
  };
}

scale_in-IsReset_example : IsReset 1 2 surplus (reconcile_scale_in services surplus fleet)
scale_in-IsReset_example = scale_in-IsReset services surplus fleet (omega arith)

-- What the mark of a removed shard does not change is kept by the removal of shards.
keeps_stored :
    (f : Fleet → Type 0) → ((w : Fleet) → f w → f (record w { gone = true })) → IsKept services f
unfolding cleanup_shard_resources delete_all
keeps_stored f h = record {
  removing = λ password pod shard w k. kept_by shard w k;
  cleaning = λ m i password pod w k done. k;
}
  where
    kept_if : (b g : Bool) (w : Fleet) → f w → f (answer b g w).1
    kept_if true true w k = k
    kept_if true false w k = h w k
    kept_if false g w k = k

    kept_by : (shard : String) (w : Fleet) → f w → f (remove shard w).1
    kept_by shard w k = kept_if (str_eq shard "shards-shard-1") w.gone w k

abbrev StoredSame : Fleet → Type 0
StoredSame w = w.stored ≡ fleet.stored

scale_in-keeps_example : (reconcile_scale_in services surplus fleet).2.stored ≡ fleet.stored
scale_in-keeps_example =
    scale_in-keeps services StoredSame (keeps_stored StoredSame (λ w k. k)) surplus fleet refl

-- The shard 1 is out of the cluster.
abbrev IsGone : String → Fleet → Type 0
IsGone shard w = (str_eq shard "shards-shard-1" ≡ true) × (w.gone ≡ true)

services-IsForgetful : IsForgetful services IsGone
services-IsForgetful = record {
  completes = λ password pod shard w done. completed_gone shard w done;
  refuses = λ password pod shard w g. rw (g.0, g.1) refl;
  stays = λ shard. keeps_stored (IsGone shard) (λ w g. (g.0, refl));
}
  where
    completed_if :
        (b g : Bool) (w : Fleet)
        → w.gone ≡ g
        → is_completed (answer b g w).0 ≡ true
        → (b ≡ true) × ((answer b g w).1.gone ≡ true)
    completed_if true true w e done = (refl, e)
    completed_if true false w e done = (refl, refl)
    completed_if false g w e done = ground (arith, done)

    completed_gone :
        (shard : String) (w : Fleet)
        → is_completed (remove shard w).0 ≡ true
        → IsGone shard (remove shard w).1
    completed_gone shard w done = completed_if (str_eq shard "shards-shard-1") w.gone w refl done

surplus-IsSurplus : IsSurplus surplus
surplus-IsSurplus = record { more = omega arith; small = omega arith }

reread : IsReread services IsGone services-IsForgetful surplus surplus
reread = record { surplus = surplus-IsSurplus; same_name = refl; same_count = refl }

scale_in_gets_stuck_example :
    FailsAtFirst services IsGone services-IsForgetful surplus
      (reconcile_scale_in services surplus (reconcile_scale_in services surplus fleet).2).2
unfolding get_admin_password
scale_in_gets_stuck_example =
    scale_in_gets_stuck services IsGone services-IsForgetful surplus surplus fleet
      (reconcile_scale_in services surplus (reconcile_scale_in services surplus fleet).2).2
      surplus-IsSurplus refl (λ password. refl) (pass first surplus reread) reread

-- The stored object is the one that the pass has read.
abbrev surplus_fleet : Fleet
surplus_fleet = record fleet { stored = surplus.status }
