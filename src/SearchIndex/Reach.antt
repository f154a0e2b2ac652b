-- ===== src/SearchIndex/Reach.antt =====
-- resolveSourceManager and adminPasswordFor: the connection to the database of a search index.
use mongodb_operator.Common.{String, Bool, str_eq, if◌then◌else◌, is_empty, lookup}
use mongodb_operator.Kube.{Error, wrapped, text, Outcome, ok, err, Secret}
use mongodb_operator.Upgrade.Status.{◌+++◌}
use mongodb_operator.Cluster.Report.{is_not_found}
use mongodb_operator.Backup.{entry}
use mongodb_operator.SearchIndex.{MongoDbSearch, Source, Manager, IndexApi}

-- What resolveSourceManager finds: a manager, the pod and whether the source runs; or the reason why
-- there is no connection.
pub data Resolution : Type 0 where
  connected : Manager → String → Bool → Resolution
  unavailable : String → Resolution

module _ {W D : Type 0} (k : IndexApi W D) where
  -- adminPasswordFor
  abbrev pub password_of : String → Outcome Secret → Outcome String
  password_of name (err e) = err (wrapped ("get admin secret " +++ name) e)
  password_of name (ok secret) =
      let pw = entry "password" secret in
      if is_empty pw then err (text ("admin secret " +++ name) " has no key password") else ok pw

  unfoldable pub admin_password_for : String → W → Outcome String
  unfolding lookup
  admin_password_for name w =
      if is_empty name
      then err (text "admin credentials secret not set" "")
      else password_of name (k.get_secret name w)

  abbrev pub manager : String → String → String → String → Manager
  manager pod service namespace password = record {
    pod = pod;
    service = service;
    namespace = namespace;
    username = "admin";
    password = password;
  }

  abbrev pub unreachable : Error → Outcome Resolution
  unreachable e = ok (unavailable ("source connection unavailable: " +++ k.error_text e))

  -- managerForShardedSource and managerForSource, and the results behind them
  abbrev pub sharded_manager : Source → Outcome String → Outcome Resolution
  sharded_manager s (err e) = unreachable e
  sharded_manager s (ok pw) =
      ok (connected (manager "" (s.name +++ "-mongos") s.namespace pw) "" s.is_running)

  abbrev pub pod_manager : Source → Outcome String → Outcome Resolution
  pod_manager s (err e) = unreachable e
  pod_manager s (ok pw) = ok (
      connected (manager (s.name +++ "-0") (s.name +++ "-headless") s.namespace pw)
        (s.name +++ "-0") s.is_running)

  abbrev pub resolved :
      String
      → (Source → Outcome String → Outcome Resolution)
      → W
      → Outcome Source
      → Outcome Resolution
  resolved missing f w (err e) = if is_not_found e then ok (unavailable missing) else err e
  resolved missing f w (ok s) = f s (admin_password_for s.admin_secret w)

  unfoldable pub resolve_source_manager : String → MongoDbSearch → W → Outcome Resolution
  unfolding admin_password_for
  resolve_source_manager name search w =
      if str_eq search.source_kind "MongoDBSharded"
      then resolved "source MongoDBSharded not found yet" sharded_manager w
          (k.get_sharded_source name w)
      else resolved "source MongoDB not found yet" pod_manager w (k.get_source name w)
