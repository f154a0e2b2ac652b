-- ===== src/Tests/Server.antt =====
-- An outside whose answers are fields: what the API server has stored, and what it answers.
use mongodb_operator.Common.{String, true, false, Option, none, some, List, [], ◌∷◌, refl}
use mongodb_operator.Common.Int.{ℤ, pos}
use mongodb_operator.Kube.{Api, Outcome, ok, StatefulSet, Pod}
use mongodb_operator.Mongo.{
  MongoDb, MongoDbStatus, UpgradeStatus, UpgradeStrategy, idle, running, validating,
}
use mongodb_operator.Upgrade.Store.{IsStore}

pub record Server (S : Type 0) : Type 0 where
  pub stored : S
  pub time : ℤ
  pub sets : Outcome StatefulSet
  pub pods : List Pod
  pub backup : Outcome String
  pub fcv : String

-- Every write succeeds.
abbrev pub server_api : {S : Type 0} → Api (Server S) S
server_api = record {
  now = λ w. w.time;
  update_status = λ s w. (none, record w { stored = s });
  get_backup = λ name w. w.backup;
  create_backup = λ name cluster kind w. (none, record w { backup = ok "" });
  get_stateful_set = λ name w. w.sets;
  list_pods = λ labels w. ok w.pods;
  get_secret = λ name w. ok (record { name = name; entries = ("password", "secret") ∷ [] });
  set_fcv = λ pod fcv password w. (none, record w { fcv = fcv });
  parse_duration = λ s. none;
  format_duration = λ d. "4m0s";
}

pub server_api-IsStore : IsStore (server_api {S = MongoDbStatus}) (λ w. w.stored)
server_api-IsStore = record {
  update_stores = λ s w e. refl;
  create_backup_keeps = λ name cluster kind w. refl;
  set_fcv_keeps = λ pod fcv password w. refl;
}

abbrev pub upgrade_at : UpgradeStatus
upgrade_at = record {
  version = "8.0.5";
  effective_version = "8.0.5";
  previous_version = "";
  upgrade_phase = idle;
  upgrade_start_time = none;
  rollback_active = false;
  upgrade_retry_count = 0;
  observed_upgrade_generation = 1;
  fcv_version = "8.0";
  conditions = [];
}

abbrev pub status_of : UpgradeStatus → MongoDbStatus
status_of u = record {
  upgrade = u;
  phase = running;
  ready_members = 3;
  replica_set_initialized = true;
  admin_user_created = true;
  current_primary = "db-0";
  connection_string = "";
  observed_generation = 1;
  pending_scale = none;
}

-- A cluster of three members at 8.0.5 whose spec asks for 8.2.1.
abbrev pub cluster_of : Option UpgradeStrategy → UpgradeStatus → MongoDb
cluster_of strategy u = record {
  name = "db";
  namespace = "prod";
  generation = 2;
  spec_version = "8.2.1";
  spec_image = "";
  members = 3;
  replica_set_name = "rs0";
  admin_secret = "db-admin";
  auth_secret_hash = "";
  upgrade_strategy = strategy;
  scale_deliberate = none;
  auto_scaling = none;
  status = status_of u;
}

abbrev pub rollback_strategy : UpgradeStrategy
rollback_strategy = record {
  pre_upgrade_backup = false;
  validation_interval = "";
  rollback_on_failure = true;
}

abbrev pub backup_strategy : UpgradeStrategy
backup_strategy = record {
  pre_upgrade_backup = true;
  validation_interval = "";
  rollback_on_failure = false;
}

abbrev pub rolled_out : StatefulSet
rolled_out = record {
  spec_replicas = some 3;
  updated_replicas = 3;
  ready_replicas = 3;
  current_revision = "r2";
  update_revision = "r2";
  match_labels = "app=db";
}

abbrev pub crash_loop : Pod
crash_loop = record {
  name = "db-2";
  is_running = true;
  container_statuses = record { name = "mongod"; waiting = some "CrashLoopBackOff" } ∷ [];
}

-- The validation began at 0, and this is its outside two minutes later.
abbrev pub server_with : StatefulSet → List Pod → MongoDb → Server MongoDbStatus
server_with sets pods m = record {
  stored = m.status;
  time = pos 120000000000;
  sets = ok sets;
  pods = pods;
  backup = ok "Failed";
  fcv = "8.0";
}

abbrev pub validated : Option UpgradeStrategy → MongoDb
validated strategy = cluster_of strategy (record upgrade_at {
  effective_version = "8.2.1";
  previous_version = "8.0.5";
  upgrade_phase = validating;
  upgrade_start_time = some (pos 0);
})

abbrev pub half_rolled : StatefulSet
half_rolled = record rolled_out { ready_replicas = 2 }
