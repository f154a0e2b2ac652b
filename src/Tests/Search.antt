-- ===== src/Tests/Search.antt =====
-- A secret that others made first, and the removal of the user of a sharded source.
use mongodb_operator.Common.{
  ℕ, ◌+◌, zero, suc, String, true, false, none, some, [], ◌∷◌, ◌≡◌, refl, str_eq, if◌then◌else◌,
  lookup,
}
use mongodb_operator.Kube.{api, not_found, Outcome, ok, err, stop}
use mongodb_operator.SearchIndex.{server}
use mongodb_operator.Search.{
  Search, SyncSecret, Source, SearchApi, exists, unset, provisioning, degraded, syncing, ready,
}
use mongodb_operator.Search.Secret.{ensure_own_secret, ensure_sync_secret, sync_secret_name}
use mongodb_operator.Search.User.{
  source_admin_password, drop_on_shards, drop_search_coordinator_user, cleanup,
  drop_sync_mongo_user,
}
use mongodb_operator.Search.Sidecars.{mongot_image, router_shard_of, count_containers}
use mongodb_operator.Search.Report.{search_phase_from_readiness}
use mongodb_operator.Search.Trust.{Trusted, own_secret-IsTrusted}
use mongodb_operator.Search.Dropped.{Released, cleanup-IsReleased}

abbrev shop_search : Search
shop_search = record {
  name = "shop";
  namespace = "prod";
  generation = 1;
  finalizers = [];
  is_deleted = true;
  source_kind = "MongoDBSharded";
  resource = some "db";
  sync_user_secret = none;
  image = "";
  version = "1.2";
  mongot_shard = none;
  status = record {
    phase = unset;
    mongot_endpoint = "";
    ready_replicas = 0;
    observed_generation = 0;
    error = "";
    conditions = [];
  };
}

abbrev planted : SyncSecret
planted = record {
  name = "shop-search-sync";
  owner = none;
  labels = ("app.kubernetes.io/managed-by", "mongodb-operator") ∷ [];
  entries = ("password", "known") ∷ [];
}

abbrev shards : Source
shards = record {
  name = "db";
  namespace = "prod";
  admin_secret = "admin";
  has_tls = false;
  is_running = true;
  annotations = [];
  shards = 2;
}

-- The world counts the calls that change it. The secret is made by another one before the first
-- creation. On the second shard the user is not there.
abbrev secret_at : String → ℕ → Outcome SyncSecret
secret_at name zero = if str_eq name "shop-search-sync" then err (api not_found) else ok planted
secret_at name (suc w) = ok planted

abbrev search_api : SearchApi ℕ
search_api = record {
  update_status = λ s w. (none, w + 1);
  set_status_condition = λ w c cs. c ∷ cs;
  has_finalizer = λ fs. true;
  add_finalizer = λ fs. fs;
  update_finalizers = λ fs w. (none, w + 1);
  handle_finalizer_cleanup = λ f fs w. (ok stop, [], (f w).1);
  get_source = λ name w. err (api not_found);
  get_sharded_source = λ name w. ok shards;
  get_secret = secret_at;
  update_secret = λ s w. (none, w + 1);
  create_secret = λ s w. (exists, w + 1);
  is_controlled = λ s. false;
  set_controller = λ s. ok (record s { owner = some "shop" });
  generate_password = λ w. ("fresh", w + 1);
  apply_config_map = λ c w. (none, w + 1);
  apply_service = λ name w. (none, w + 1);
  patch_annotations = λ name as' w. (none, w + 1);
  get_stateful_set = λ name w. err (api not_found);
  list_pods = λ l w. ok [];
  connect = λ at admin w. (none, w);
  create_user = λ at admin pw w. (some (server (51003 ∷ []) "exists"), w + 1);
  update_user = λ at admin pw w. (none, w + 1);
  drop_user = λ at admin w.
      (if str_eq at.pod "db-shard-1-0" then some (server (11 ∷ []) "absent") else none, w + 1);
  decimal = λ n. elim n [ zero ↦ "0" | suc _ ↦ "1" ];
  error_text = λ e. "error";
}

latest_image : mongot_image shop_search ≡ "mongodb/mongodb-community-search:1.2"
unfolding mongot_image
latest_image = refl

first_shard : router_shard_of shop_search ≡ "shard-0"
unfolding router_shard_of
first_shard = refl

phases_by_readiness :
    (search_phase_from_readiness 0 0 ≡ provisioning)
    × (search_phase_from_readiness 0 3 ≡ degraded)
    × (search_phase_from_readiness 2 3 ≡ syncing)
    × (search_phase_from_readiness 3 3 ≡ ready)
unfolding search_phase_from_readiness
phases_by_readiness = (refl, refl, refl, refl)

only_mongot_counts :
    count_containers
      (record { name = "mongod"; is_ready = true }
        ∷ record { name = "mongot"; is_ready = false }
        ∷ [])
      (1, 1)
    ≡ (1, 2)
unfolding count_containers
only_mongot_counts = refl

-- The secret that came first has the label of the operator: it gets a new password.
own_secret-IsTrusted_example :
    ("shop-search-sync" ≡ sync_secret_name shop_search) × Trusted search_api shop_search 0 4
unfolding ensure_own_secret ensure_sync_secret lookup
own_secret-IsTrusted_example =
    own_secret-IsTrusted search_api 2 shop_search 0 4 "shop-search-sync" refl refl

cleanup-IsReleased_example : Released search_api shop_search 1 (cleanup search_api shop_search 1).1
unfolding cleanup drop_sync_mongo_user drop_on_shards drop_search_coordinator_user
    source_admin_password lookup
cleanup-IsReleased_example = cleanup-IsReleased search_api shop_search 1 refl
