-- ===== src/SearchIndex.antt =====
-- internal/controller/mongodbsearchindex_controller.go: the controller of the search indexes of a
-- database, and from internal/mongodb/searchindex.go what it makes of their status and of a drop.
mod Driver
pub mod Pass
pub mod Reach
pub mod Deletion
pub mod Report
pub mod Ready
pub mod Wedged
pub mod Drift
pub use Driver.{
  DriverError, server, other, error_message, SearchIndexInfo, IndexPhase, unset, pending, building,
  ready, failed, deleting, is_one_of_codes, any_code,
}
unfoldable pub use Driver.{classify_mongot_status, is_index_not_found_err}
use mongodb_operator.Common.{
  ℕ, String, Bool, true, false, ◌||◌, not, Option, none, some, List, [], ◌∷◌, ◌++◌, str_eq,
  if◌then◌else◌, is_empty, lookup,
}
use mongodb_operator.Common.Int.{ℤ, pos}
use mongodb_operator.Kube.{
  ApiError, Error, api, wrapped, text, Outcome, ok, err, Secret, Requeue, again, after, Condition,
  CondStatus, cond_true, cond_false,
}
use mongodb_operator.Upgrade.Status.{◌+++◌}
use mongodb_operator.Upgrade.Config.{seconds}
use mongodb_operator.Cluster.Conditions.{condition}
use mongodb_operator.Cluster.Report.{is_not_found}
use mongodb_operator.Backup.{entry}

-- MongoDBSearchIndexStatus
pub record IndexStatus : Type 0 where
  pub phase : IndexPhase
  pub index_id : String
  pub queryable : Bool
  pub observed_generation : ℕ
  pub error : String
  pub conditions : List Condition

-- MongoDBSearchIndex
pub record SearchIndex : Type 0 where
  pub namespace : String
  pub generation : ℕ
  pub finalizers : List String
  pub is_deleted : Bool
  pub search_name : String
  pub database : String
  pub collection : String
  pub index_name : String
  pub type : String
  pub definition_json : String
  pub status : IndexStatus

-- MongoDBSearch, as far as it is read: its source and whether its phase is Ready
pub record MongoDbSearch : Type 0 where
  pub source_kind : String
  pub resource : Option String
  pub is_ready : Bool

-- A MongoDB or a MongoDBSharded, as far as it is read: `is_running` is its phase.
pub record Source : Type 0 where
  pub name : String
  pub namespace : String
  pub admin_secret : String
  pub is_running : Bool

-- What NewManager gets: the pod and the service to connect to, and the credentials.
pub record Manager : Type 0 where
  pub pod : String
  pub service : String
  pub namespace : String
  pub username : String
  pub password : String

-- Where a command for an index goes, and to which index.
pub record IndexPlace : Type 0 where
  pub pod : String
  pub namespace : String
  pub database : String
  pub collection : String
  pub name : String

-- `D` is a parsed definition.
pub record IndexApi (W D : Type 0) : Type 0 where
  -- commonsstatus.UpdateWithRetry, given the mutated status
  pub update_status : IndexStatus → W → Option ApiError × W
  pub set_status_condition : W → Condition → List Condition → List Condition
  pub get_search : String → W → Outcome MongoDbSearch
  pub get_source : String → W → Outcome Source
  pub get_sharded_source : String → W → Outcome Source
  pub get_secret : String → W → Outcome Secret
  -- commonsfinalizer.Has and commonsfinalizer.Add, and the r.Update behind it
  pub has_finalizer : List String → Bool
  pub add_finalizer : List String → List String
  pub update_finalizers : List String → W → Option ApiError × W
  -- commonsreconcile.HandleFinalizerCleanup of a cleanup, with the finalizers that are left
  pub handle_finalizer_cleanup :
      (W → Option Error × W) → List String → W → Outcome Requeue × List String × W
  -- bson.UnmarshalExtJSON
  pub parse_definition : String → Outcome D
  -- SearchIndexManager.List and Create
  pub list_indexes : Manager → IndexPlace → W → Outcome (List SearchIndexInfo)
  pub create_index : Manager → IndexPlace → String → D → W → Option Error × W
  -- the connect of SearchIndexManager.Drop, and its DropOne
  pub connect : Manager → String → String → W → Option Error
  pub drop_one : Manager → IndexPlace → W → Option DriverError × W
  pub error_text : Error → String
  -- strings.ToUpper and strings.ToLower
  pub to_upper : String → String
  pub to_lower : String → String

abbrev pub with_status : IndexStatus → SearchIndex → SearchIndex
with_status s x = record x { status = s }

abbrev pub with_finalizers : List String → SearchIndex → SearchIndex
with_finalizers fs x = record x { finalizers = fs }

-- indexType
abbrev pub index_type : SearchIndex → String
index_type x = if is_empty x.type then "search" else x.type

abbrev pub place : String → SearchIndex → IndexPlace
place pod x = record {
  pod = pod;
  namespace = x.namespace;
  database = x.database;
  collection = x.collection;
  name = x.index_name;
}

abbrev pub is_none {ℓ} : {A : Type ℓ} → Option A → Bool
is_none none = true
is_none (some _) = false
