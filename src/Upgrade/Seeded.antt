-- ===== src/Upgrade/Seeded.antt =====
-- A status that has its versions needs no seed.
use mongodb_operator.Common.{◌≡◌, false, is_empty}
use mongodb_operator.Kube.{Api}
use mongodb_operator.Mongo.{MongoDb, MongoDbStatus, MongoDbSharded, ShardedStatus}
use mongodb_operator.Upgrade.Machine.{orchestrate, reconcile_upgrade}
use mongodb_operator.Upgrade.Sharded
use mongodb_operator.Upgrade.Sharded.{reconcile_sharded_upgrade}

pub reconcile_upgrade_seeded :
    {W : Type 0} (k : Api W MongoDbStatus) (m : MongoDb) (w : W)
    → is_empty m.status.effective_version ≡ false
    → is_empty m.status.version ≡ false
    → reconcile_upgrade k m w ≡ orchestrate k m w
unfolding reconcile_upgrade
reconcile_upgrade_seeded k m w e v = rw (e, v)

pub reconcile_sharded_upgrade_seeded :
    {W : Type 0} (k : Api W ShardedStatus) (m : MongoDbSharded) (w : W)
    → is_empty m.status.effective_version ≡ false
    → is_empty m.status.version ≡ false
    → reconcile_sharded_upgrade k m w ≡ Sharded.orchestrate k m w
unfolding reconcile_sharded_upgrade
reconcile_sharded_upgrade_seeded k m w e v = rw (e, v)
