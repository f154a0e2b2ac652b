-- ===== src/Shards/Init.antt =====
-- The initialization of a sharded cluster: reconcileConfigServerInit, reconcileShardsInit,
-- reconcileShardedAdminUser and reconcileAddShards of mongodbsharded_controller.go. The Boolean of a
-- result stands for a nil error.
use mongodb_operator.Common.{
  ℕ, String, Bool, true, false, Option, none, some, List, [], ◌∷◌, if◌then◌else◌,
}
use mongodb_operator.Common.Int.{pos}
use mongodb_operator.Kube.{ApiError, Error, api, wrapped, text, joined, Outcome, ok, err}
use mongodb_operator.Kube.Exec.{Exec, or_error}
use mongodb_operator.Mongo.{MongoDbSharded, ShardedStatus}
use mongodb_operator.Upgrade.Status.{◌+++◌}
use mongodb_operator.Upgrade.Config.{get_mongos_pod, get_admin_password}
use mongodb_operator.Shards.Services.{Services}
use mongodb_operator.Shards.Flags.{grown, all_true, work_off}
use mongodb_operator.Shards.Hosts.{build_replica_set_config, build_shard_connection_string}

abbrev pub with_status : ShardedStatus → MongoDbSharded → MongoDbSharded
with_status s m = record m { status = s }

-- `stderrors.Join(append(errs, statusErr)...)` if there are errors, and else `statusErr`.
abbrev joined_with : Error → List Error → Option ApiError → Error
joined_with e [] none = e
joined_with e [] (some s) = joined e (api s)
joined_with e (e' ∷ es) s = joined e (joined_with e' es s)

abbrev pub loop_result : List Error → Option ApiError → Outcome Bool
loop_result [] s = or_error s true
loop_result (e ∷ es) s = err (joined_with e es s)

-- areShardsInitialized
unfoldable pub are_shards_initialized : MongoDbSharded → Bool
unfolding all_true
are_shards_initialized m = all_true m.shard_count m.status.shards_initialized

abbrev pub set_shards_initialized : List Bool → MongoDbSharded → MongoDbSharded
set_shards_initialized bs m = with_status (record m.status { shards_initialized = bs }) m

abbrev pub set_shards_added : List Bool → MongoDbSharded → MongoDbSharded
set_shards_added bs m = with_status (record m.status { shards_added = bs }) m

abbrev pub set_config_server_initialized : MongoDbSharded → MongoDbSharded
set_config_server_initialized m =
    with_status (record m.status { config_server_initialized = true }) m

abbrev pub set_admin_user_created : MongoDbSharded → MongoDbSharded
set_admin_user_created m = with_status (record m.status { admin_user_created = true }) m

module _ {W : Type 0} (s : Services W) where
  -- `fmt.Sprintf("%s-shard-%d", mdbsh.Name, i)`
  abbrev pub shard_name : MongoDbSharded → ℕ → String
  shard_name m i = m.name +++ "-shard-" +++ s.decimal (pos i)

  -- `commonsstatus.UpdateWithRetry` at the end of a method.
  abbrev pub write_status : Exec MongoDbSharded W Bool
  write_status m w = let (e, w') = s.kube.update_status m.status w in (or_error e true, m, w')

  abbrev config_server_initiated :
      Option ApiError × W → MongoDbSharded → Outcome Bool × MongoDbSharded × W
  config_server_initiated (some e, w) m =
      (err (wrapped "failed to initiate config server replica set" (api e)), m, w)
  config_server_initiated (none, w) m = write_status (set_config_server_initialized m) w

  abbrev config_server_checked : String → Outcome Bool → Exec MongoDbSharded W Bool
  config_server_checked password (err e) m w = (err (wrapped "check config server init" e), m, w)
  config_server_checked password (ok true) m w = write_status (set_config_server_initialized m) w
  config_server_checked password (ok false) m w =
      config_server_initiated
        (s.initiate (m.name +++ "-cfg-headless") 27019 password (m.name +++ "-cfg-0")
          (build_replica_set_config s.decimal (m.name +++ "-cfg") (m.name +++ "-cfg")
            (m.name +++ "-cfg-headless") m.namespace m.config_members 27019)
          w)
        m

  abbrev config_server_with : Outcome String → Exec MongoDbSharded W Bool
  config_server_with (err e) m w = (err (wrapped "get admin password" e), m, w)
  config_server_with (ok password) m w =
      config_server_checked password
        (s.is_initialized (m.name +++ "-cfg-headless") 27019 password (m.name +++ "-cfg-0") w) m w

  -- reconcileConfigServerInit
  unfoldable pub reconcile_config_server_init : Exec MongoDbSharded W Bool
  unfolding get_admin_password build_replica_set_config
  reconcile_config_server_init m w =
      config_server_with (get_admin_password s.kube m.admin_secret w) m w

  abbrev shard_error : String → String → Option ApiError × W → Option Error × W
  shard_error name op (none, w) = (none, w)
  shard_error name op (some e, w) = (some (wrapped ("shard " +++ name +++ ": " +++ op) (api e)), w)

  abbrev shard_checked : MongoDbSharded → String → String → Outcome Bool → W → Option Error × W
  shard_checked m password name (err e) w =
      (some (wrapped ("shard " +++ name +++ ": check init") e), w)
  shard_checked m password name (ok true) w = (none, w)
  shard_checked m password name (ok false) w = shard_error name "initiate" (
      s.initiate (name +++ "-headless") 27018 password (name +++ "-0")
        (build_replica_set_config s.decimal name name (name +++ "-headless") m.namespace
          m.members_per_shard 27018)
        w)

  -- The body of the loop of reconcileShardsInit, for a shard that is not initialized.
  unfoldable pub init_shard : MongoDbSharded → String → ℕ → W → Option Error × W
  unfolding build_replica_set_config
  init_shard m password i w =
      let name = shard_name m i in
      shard_checked m password name
        (s.is_initialized (name +++ "-headless") 27018 password (name +++ "-0") w) w

  abbrev pub shards_initialized_by :
      List Error × List Bool × W → MongoDbSharded → Outcome Bool × MongoDbSharded × W
  shards_initialized_by (es, bs, w) m =
      let m' = set_shards_initialized bs m in
      let (e, w') = s.kube.update_status m'.status w in (loop_result es e, m', w')

  abbrev pub shards_init_with : Outcome String → Exec MongoDbSharded W Bool
  shards_init_with (err e) m w = (err (wrapped "get admin password" e), m, w)
  shards_init_with (ok password) m w =
      shards_initialized_by
        (work_off (init_shard m password) m.shard_count 0 m.status.shards_initialized w) m

  -- reconcileShardsInit
  unfoldable pub reconcile_shards_init : Exec MongoDbSharded W Bool
  unfolding grown get_admin_password init_shard work_off
  reconcile_shards_init m w =
      shards_init_with (get_admin_password s.kube m.admin_secret w)
        (set_shards_initialized (grown m.shard_count m.status.shards_initialized) m) w

  abbrev admin_user_found : Outcome Bool → Exec MongoDbSharded W Bool
  admin_user_found (err e) m w = (err (wrapped "verify admin user" e), m, w)
  admin_user_found (ok false) m w = (err (text "admin user not found" ""), m, w)
  admin_user_found (ok true) m w = write_status (set_admin_user_created m) w

  abbrev admin_user_on : String → Outcome String → Exec MongoDbSharded W Bool
  admin_user_on password (err e) m w = (err (wrapped "failed to get mongos pod" e), m, w)
  admin_user_on password (ok pod) m w = admin_user_found (s.user_exists password "admin" w) m w

  abbrev admin_user_with : Outcome String → Exec MongoDbSharded W Bool
  admin_user_with (err e) m w = (err (wrapped "failed to get admin password" e), m, w)
  admin_user_with (ok password) m w = admin_user_on password (get_mongos_pod s.kube m.name w) m w

  -- reconcileShardedAdminUser
  unfoldable pub reconcile_sharded_admin_user : Exec MongoDbSharded W Bool
  unfolding get_admin_password
  reconcile_sharded_admin_user m w =
      admin_user_with (get_admin_password s.kube m.admin_secret w) m w

  -- The body of the loop of reconcileAddShards, for a shard that is not added.
  unfoldable pub add_shard : MongoDbSharded → String → ℕ → W → Option Error × W
  unfolding build_shard_connection_string
  add_shard m password i w =
      let name = shard_name m i in
      shard_error name "add" (
        s.add_shard password
          (build_shard_connection_string s.decimal name name (name +++ "-headless") m.namespace
            m.members_per_shard 27018)
          w)

  abbrev pub shards_added_by :
      List Error × List Bool × W → MongoDbSharded → Outcome Bool × MongoDbSharded × W
  shards_added_by (es, bs, w) m =
      let m' = set_shards_added bs m in
      let (e, w') = s.kube.update_status m'.status w in (loop_result es e, m', w')

  abbrev pub add_shards_on : String → Outcome String → Exec MongoDbSharded W Bool
  add_shards_on password (err e) m w = (err (wrapped "failed to get mongos pod" e), m, w)
  add_shards_on password (ok pod) m w =
      shards_added_by (work_off (add_shard m password) m.shard_count 0 m.status.shards_added w) m

  abbrev pub add_shards_with : Outcome String → Exec MongoDbSharded W Bool
  add_shards_with (err e) m w = (err (wrapped "failed to get admin password" e), m, w)
  add_shards_with (ok password) m w = add_shards_on password (get_mongos_pod s.kube m.name w) m w

  -- reconcileAddShards
  unfoldable pub reconcile_add_shards : Exec MongoDbSharded W Bool
  unfolding grown are_shards_initialized get_admin_password add_shard work_off
  reconcile_add_shards m w =
      let m' = set_shards_added (grown m.shard_count m.status.shards_added) m in
      if are_shards_initialized m'
      then add_shards_with (get_admin_password s.kube m.admin_secret w) m' w
      else (ok true, m', w)
