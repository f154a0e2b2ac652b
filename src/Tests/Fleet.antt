-- ===== src/Tests/Fleet.antt =====
-- A fleet whose shard 1 can be removed, while shard 2 keeps draining.
use mongodb_operator.Common.{
  String, Bool, true, false, Option, none, some, List, [], ◌∷◌, str_eq, if◌then◌else◌, ◌==◌, ◌++◌,
}
use mongodb_operator.Common.Int.{ℤ, pos, negsuc}
use mongodb_operator.Kube.{Api, Outcome, ok, err, text, other}
use mongodb_operator.Mongo.{ShardedStatus}
use mongodb_operator.Shards.Services.{Services, RemoveShardResult, ConfigCollection}
use mongodb_operator.Tests.Server.{rolled_out}
use mongodb_operator.Tests.Upgrade.{sharded0}

-- What the API server has stored, whether shard 1 is out of the cluster, and which documents
-- config.collections has.
pub record Fleet : Type 0 where
  pub stored : ShardedStatus
  pub gone : Bool
  pub registered : List ConfigCollection

abbrev pub fleet_api : Api Fleet ShardedStatus
fleet_api = record {
  now = λ w. pos 120000000000;
  update_status = λ s w. (none, record w { stored = s });
  get_backup = λ name w. ok "Completed";
  create_backup = λ name cluster kind w. (none, w);
  get_stateful_set = λ name w. ok rolled_out;
  list_pods = λ labels w.
      ok (record { name = "shards-mongos-7f"; is_running = true; container_statuses = [] } ∷ []);
  get_secret = λ name w. ok (record { name = name; entries = ("password", "secret") ∷ [] });
  set_fcv = λ pod fcv password w. (none, w);
  parse_duration = λ s. none;
  format_duration = λ d. "4m0s";
}

abbrev pub digit : ℤ → String
digit (pos n) = if n == 0 then "0" else if n == 1 then "1" else "2"
digit (negsuc n) = "-1"

abbrev pub draining : RemoveShardResult
draining = record { state = "ongoing"; chunks = 7; databases = 1 }

abbrev pub completed : RemoveShardResult
completed = record { state = "completed"; chunks = 0; databases = 0 }

-- Whether it is the shard 1, and whether that is out.
abbrev pub answer : Bool → Bool → Fleet → Outcome RemoveShardResult × Fleet
answer true true w = (err (text "removeShard" "ShardNotFound"), w)
answer true false w = (ok completed, record w { gone = true })
answer false gone w = (ok draining, w)

abbrev pub remove : String → Fleet → Outcome RemoveShardResult × Fleet
remove shard w = answer (str_eq shard "shards-shard-1") w.gone w

abbrev pub first_of : List ConfigCollection → Option ConfigCollection
first_of [] = none
first_of (d ∷ ds) = some d

abbrev pub services : Services Fleet
services = record {
  kube = fleet_api;
  enable_autoscaling = true;
  apply = λ r m w. (none, w);
  get_deployment = λ name w. ok (record { spec_replicas = some 2; ready_replicas = 2 });
  get_hpa = λ name w. none;
  delete = λ kind name w. (none, w);
  list_pvcs = λ part instance w. ok [];
  set_status_condition = λ w c cs. cs ++ record c { last_transition_time = pos 120000000000 } ∷ [];
  remove_status_condition = λ type cs. cs;
  decimal = digit;
  quoted = λ s. s;
  error_text = λ e. "error";
  apply_error_condition = λ name e m w. (err e, m, w);
  is_initialized = λ service port password pod w. ok (str_eq pod "shards-shard-0-0");
  initiate = λ service port password pod config w. (some (other "no connection"), w);
  user_exists = λ password name w. ok true;
  add_shard = λ password hosts w. (none, w);
  remove_shard = λ password pod shard w. remove shard w;
  find_collection = λ password id w. ok (first_of w.registered);
  find_collections = λ password w. ok w.registered;
  enable_sharding = λ password database w. (none, w);
  shard_collection = λ password id key opts w.
      (none, record w { registered = record { id = id; key = key; dropped = false } ∷ [] });
}

abbrev pub fleet : Fleet
fleet = record { stored = sharded0.status; gone = false; registered = [] }
