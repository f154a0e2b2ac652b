-- ===== src/Search/User.antt =====
-- The privileged user of a mongot: ensureSyncMongoUser, dropSyncMongoUser, their sharded versions, and
-- EnsureSearchCoordinatorUser and DropSearchCoordinatorUser of internal/mongodb/auth.go.
use mongodb_operator.Common.{
  ℕ, ◌||◌, contains, ◌+◌, zero, suc, String, Bool, true, false, Option, none, some, str_eq,
  if◌then◌else◌, is_empty, lookup,
}
use mongodb_operator.Kube.{Error, wrapped, text, Outcome, ok, err}
use mongodb_operator.Upgrade.Status.{◌+++◌}
use mongodb_operator.Cluster.Report.{is_not_found}
use mongodb_operator.SearchIndex.{DriverError, server, other, error_message, is_one_of_codes}
use mongodb_operator.Search.{Search, Source, SyncSecret, SearchApi, Endpoint}
use mongodb_operator.Search.Secret.{value_of, sync_secret_name, is_managed}

abbrev pub first_error : Option Error → Option Error → Option Error
first_error none e = e
first_error (some d) e = some d

-- isUserNotFoundErr: only the code of the server counts.
abbrev pub is_user_not_found_err : DriverError → Bool
is_user_not_found_err (server codes _) = is_one_of_codes codes 11
is_user_not_found_err (other _) = false

-- isUserAlreadyExistsErr
unfoldable pub is_user_already_exists_err : DriverError → Bool
unfolding contains
is_user_already_exists_err e = has_code e || contains (error_message e) "already exists"
  where
    has_code : DriverError → Bool
    has_code (server codes _) = is_one_of_codes codes 11000 || is_one_of_codes codes 51003
    has_code (other _) = false

abbrev as_error : DriverError → Error
as_error e = text (error_message e) ""

module _ {W : Type 0} (k : SearchApi W) where
  abbrev pub Call : Type 0
  Call = W → Option Error × W

  abbrev pub pod_endpoint : Source → Endpoint
  pod_endpoint s = record {
    pod = s.name +++ "-0";
    service = s.name +++ "-headless";
    namespace = s.namespace;
    port = 27017;
  }

  abbrev pub mongos_endpoint : Source → Endpoint
  mongos_endpoint s = record {
    pod = "";
    service = s.name +++ "-mongos";
    namespace = s.namespace;
    port = 27017;
  }

  abbrev pub shard_endpoint : Source → ℕ → Endpoint
  shard_endpoint s i =
      let shard = s.name +++ "-shard-" +++ k.decimal i in
      record {
        pod = shard +++ "-0";
        service = shard +++ "-headless";
        namespace = s.namespace;
        port = 27018;
      }

  abbrev password_in : String → Outcome SyncSecret → Outcome String
  password_in name (err e) = err (wrapped ("get admin secret " +++ name) e)
  password_in name (ok s) =
      let pw = value_of "password" s.entries in
      if is_empty pw then err (text ("admin secret " +++ name) " has no key password") else ok pw

  -- sourceAdminPassword
  unfoldable pub source_admin_password : Source → W → Outcome String
  unfolding lookup
  source_admin_password s w =
      if is_empty s.admin_secret
      then err (text ("source " +++ s.name) " has no admin credentials secret")
      else password_in s.admin_secret (k.get_secret s.admin_secret w)

  abbrev updated : Option Error × W → Option Error × W
  updated (none, w) = (none, w)
  updated (some e, w) = (some (wrapped "updateUser (searchCoordinator)" e), w)

  abbrev user_created : Endpoint → String → String → Option DriverError × W → Option Error × W
  user_created at admin pw (none, w) = (none, w)
  user_created at admin pw (some e, w) =
      if is_user_already_exists_err e
      then updated (k.update_user at admin pw w)
      else (some (wrapped "createUser (searchCoordinator)" (as_error e)), w)

  -- EnsureSearchCoordinatorUser
  unfoldable pub ensure_search_coordinator_user : Endpoint → String → String → Call
  ensure_search_coordinator_user at admin pw w =
      if is_empty pw
      then (some (text "searchCoordinator user " "empty password refused"), w)
      else user_created at admin pw (k.create_user at admin pw w)

  abbrev pub user_dropped : Option DriverError × W → Option Error × W
  user_dropped (none, w) = (none, w)
  user_dropped (some e, w) =
      if is_user_not_found_err e
      then (none, w)
      else (some (wrapped "dropUser (searchCoordinator)" (as_error e)), w)

  -- DropSearchCoordinatorUser
  unfoldable pub drop_search_coordinator_user : Endpoint → String → Call
  drop_search_coordinator_user at admin w = user_dropped (k.drop_user at admin w)

  -- A command behind the connection to its endpoint
  abbrev pub connected : String → Call → Option Error × W → Option Error × W
  connected what call (some e, w) = (some (wrapped what e), w)
  connected what call (none, w) = call w

  abbrev pub after_call : Option Error × W → Call → Option Error × W
  after_call (some e, w) rest = (some e, w)
  after_call (none, w) rest = rest w

  abbrev ensure_at : Endpoint → String → String → Call
  ensure_at at admin pw w =
      connected "connect" (ensure_search_coordinator_user at admin pw) (k.connect at admin w)

  -- The loop over the shards, from the shard `i` on
  unfoldable pub ensure_on_shards : Source → String → String → ℕ → ℕ → Call
  unfolding ensure_search_coordinator_user
  ensure_on_shards s admin pw i zero w = (none, w)
  ensure_on_shards s admin pw i (suc n) w =
      after_call (ensure_at (shard_endpoint s i) admin pw w) (ensure_on_shards s admin pw (i + 1) n)

  abbrev ensure_with : Source → Bool → String → Outcome String → Call
  ensure_with s sharded pw (err e) w = (some e, w)
  ensure_with s false pw (ok admin) w = ensure_at (pod_endpoint s) admin pw w
  ensure_with s true pw (ok admin) w =
      after_call (ensure_at (mongos_endpoint s) admin pw w) (ensure_on_shards s admin pw 0 s.shards)

  abbrev ensure_from : Source → Bool → Outcome SyncSecret → Call
  ensure_from s sharded (err e) w = (some (wrapped "get sync secret" e), w)
  ensure_from s sharded (ok secret) w =
      ensure_with s sharded (value_of "password" secret.entries) (source_admin_password s w) w

  -- ensureSyncMongoUser, and ensureSyncMongoUserSharded for `sharded`
  unfoldable pub ensure_sync_mongo_user : Search → Source → Bool → String → Call
  unfolding ensure_on_shards ensure_search_coordinator_user source_admin_password lookup
  ensure_sync_mongo_user x s sharded secret w = elim x.sync_user_secret [
    | some _ ↦ (none, w)
    | none ↦ if s.is_running then ensure_from s sharded (k.get_secret secret w) w else (none, w)
  ]

  abbrev pub drop_at : Endpoint → String → Call
  drop_at at admin w =
      connected "connect (drop)" (drop_search_coordinator_user at admin) (k.connect at admin w)

  -- The first error of a drop is kept, and the other drops go on.
  abbrev pub kept : Option Error → Option Error × W → Option Error × W
  kept before (e, w) = (first_error before e, w)

  -- The loop over the shards, from the shard `i` on, behind a first error
  unfoldable pub drop_on_shards : Source → String → ℕ → ℕ → Option Error → Call
  unfolding drop_search_coordinator_user
  drop_on_shards s admin i zero before w = (before, w)
  drop_on_shards s admin i (suc n) before w =
      let (e, w') = kept before (drop_at (shard_endpoint s i) admin w) in
      drop_on_shards s admin (i + 1) n e w'

  abbrev pub drop_everywhere : Source → String → Call
  drop_everywhere s admin w =
      let (e, w') = drop_at (mongos_endpoint s) admin w in drop_on_shards s admin 0 s.shards e w'

  abbrev pub drop_with : Source → Bool → Outcome String → Call
  drop_with s sharded (err e) w = (some (wrapped "source admin password (drop)" e), w)
  drop_with s false (ok admin) w = drop_at (pod_endpoint s) admin w
  drop_with s true (ok admin) w = drop_everywhere s admin w

  abbrev pub drop_from : Bool → Outcome Source → Call
  drop_from sharded (err e) w = if is_not_found e then (none, w) else (some e, w)
  drop_from sharded (ok s) w =
      if s.is_running
      then drop_with s sharded (source_admin_password s w) w
      else (some (text ("source " +++ s.name) " not Running"), w)

  abbrev pub is_sharded : Search → Bool
  is_sharded x = str_eq x.source_kind "MongoDBSharded"

  -- dropSyncMongoUser, dropSyncMongoUserSharded
  unfoldable pub drop_sync_mongo_user : Search → String → Call
  unfolding source_admin_password drop_on_shards drop_search_coordinator_user
  drop_sync_mongo_user x source w =
      if is_sharded x
      then drop_from true (k.get_sharded_source source w) w
      else drop_from false (k.get_source source w) w

  abbrev pub cleanup_with : Search → String → Outcome SyncSecret → Call
  cleanup_with x source (err e) w = if is_not_found e then (none, w) else (some e, w)
  cleanup_with x source (ok s) w =
      if is_managed s then drop_sync_mongo_user x source w else (none, w)

  -- The cleanup of handleDeletion
  unfoldable pub cleanup : Search → Call
  unfolding drop_sync_mongo_user lookup
  cleanup x w = elim x.resource [
    | none ↦ (none, w)
    | some source ↦ cleanup_with x source (k.get_secret (sync_secret_name x) w) w
  ]
