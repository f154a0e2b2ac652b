-- ===== src/Tests/Shards.antt =====
-- Initialization, registration, status and a pass of sharded clusters against Fleet.
use mongodb_operator.Common.{
  ℕ, zero, suc, String, Bool, true, false, some, List, [], ◌∷◌, ◌≡◌, refl, arith, ◌==◌,
}
use mongodb_operator.Kube.{ok}
use mongodb_operator.Mongo.{MongoDbSharded}
use mongodb_operator.Upgrade.Config.{get_admin_password}
use mongodb_operator.Shards.Services.{Services}
use mongodb_operator.Shards.Flags.{is_none, flag_at}
use mongodb_operator.Shards.Init.{
  are_shards_initialized, reconcile_shards_init, init_shard, set_shards_initialized,
  reconcile_add_shards,
}
use mongodb_operator.Shards.Initialized.{
  is_ok, shards_init_reports, IsOrdered, IsRegistered, add_shards-IsRegistered,
}
use mongodb_operator.Shards.Union.{ShardSet, set_of, shards_init_union}
use mongodb_operator.Shards.Ready.{IsFound}
use mongodb_operator.Shards.Agree.{IsProper}
use mongodb_operator.Tests.Server.{half_rolled, rolled_out}
use mongodb_operator.Tests.Upgrade.{sharded0}
use mongodb_operator.Tests.Fleet.{Fleet, fleet_api, services, fleet}

-- Two shards, none of them known to be initialized.
abbrev uninitialized : MongoDbSharded
uninitialized = record sharded0 {
  status = record sharded0.status { shards_initialized = []; shards_added = [] };
}

shards_init_reports_example : is_ok (reconcile_shards_init services uninitialized fleet).0 ≡ false
unfolding are_shards_initialized get_admin_password reconcile_shards_init
shards_init_reports_example = shards_init_reports services uninitialized fleet refl (λ t v. refl)

-- The shard 0 can be initialized, and no other one.
abbrev good : ShardSet
good i = i == 0

only_first :
    (password : String) (bs : List Bool) (i : ℕ) (v : Fleet)
    → is_none (init_shard services (set_shards_initialized bs uninitialized) password i v).0
      ≡ good i
unfolding init_shard
only_first password bs zero v = refl
only_first password bs (suc zero) v = refl
only_first password bs (suc (suc i)) v =
    let not_0 : (suc (suc i) == 0) ≡ false = ground arith in
    let not_1 : (suc (suc i) == 1) ≡ false = ground arith in rw (not_0, not_1) refl

shards_init_union_example :
    set_of (reconcile_shards_init services uninitialized fleet).1.status.shards_initialized 0 ≡ true
unfolding get_admin_password flag_at
shards_init_union_example = shards_init_union services good uninitialized fleet only_first refl 0

-- Both shards are initialized, and one of them is registered.
abbrev half_added : MongoDbSharded
half_added = record sharded0 {
  status = record sharded0.status {
    shards_initialized = true ∷ true ∷ [];
    shards_added = true ∷ [];
  };
}

half_added-IsOrdered : IsOrdered half_added.status
unfolding flag_at
half_added-IsOrdered zero h = refl
half_added-IsOrdered (suc j) h = ground (arith, h)

add_shards-IsRegistered_example :
    IsRegistered services half_added (reconcile_add_shards services half_added fleet).1
add_shards-IsRegistered_example =
    add_shards-IsRegistered services half_added fleet half_added-IsOrdered

-- Three members of each replica set are ready, and two mongos.
sharded0-IsFound : IsFound services sharded0 fleet
sharded0-IsFound = record {
  config_server = rolled_out;
  mongos = record { spec_replicas = some 2; ready_replicas = 2 };
  shard = λ i. rolled_out;
  config_found = refl;
  mongos_found = refl;
  shard_found = λ i. refl;
  config_scaled = λ e. ground (arith, e);
  mongos_scaled = λ e. ground (arith, e);
}

sharded0-IsProper : IsProper sharded0
sharded0-IsProper = record {
  some_config = omega arith;
  some_mongos = omega arith;
  some_shard = omega arith;
  few_shards = omega arith;
  some_member = omega arith;
}

-- The config server has two of three members ready.
abbrev unready_services : Services Fleet
unready_services = record services {
  kube = record fleet_api { get_stateful_set = λ name w. ok half_rolled };
}
