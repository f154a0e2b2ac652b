-- ===== src/SearchIndex/Pass.antt =====
-- ensureIndex and Reconcile: a pass over a search index.
use mongodb_operator.Common.{
  String, Bool, ◌||◌, not, Option, none, some, List, [], ◌∷◌, if◌then◌else◌,
}
use mongodb_operator.Kube.{ApiError, Error, api, Outcome, ok, err, Requeue, again, after}
use mongodb_operator.Upgrade.Status.{◌+++◌}
use mongodb_operator.Cluster.Report.{is_not_found}
use mongodb_operator.SearchIndex.Report.{
  poll_after, Pass, apply_status, report, report_pending, report_building, report_failed,
}
use mongodb_operator.SearchIndex.Deletion.{handle_deletion}
use mongodb_operator.SearchIndex.Reach.{Resolution, connected, unavailable, resolve_source_manager}
use mongodb_operator.SearchIndex.{
  SearchIndex, MongoDbSearch, Manager, IndexApi, with_finalizers, index_type, place,
  SearchIndexInfo, IndexPhase, classify_mongot_status,
}

module _ {W D : Type 0} (k : IndexApi W D) where
  abbrev pub listed_status :
      IndexPhase → Option ApiError × SearchIndex × W → Outcome Requeue × SearchIndex × W
  listed_status p (some e, x, w) = (err (api e), x, w)
  listed_status p (none, x, w) = (ok (after (poll_after p)), x, w)

  -- The phase and the fields that a listed index gives.
  abbrev pub report_listed : SearchIndexInfo → Pass k
  report_listed info x w =
      let p = classify_mongot_status k.to_upper info.status info.queryable in
      listed_status p (apply_status k p info.id info.queryable "" x w)

  abbrev pub created : Option Error × W → SearchIndex → Outcome Requeue × SearchIndex × W
  created (some e, w) x = report_failed k ("create search index: " +++ k.error_text e) x w
  created (none, w) x = report_building k "search index created, building" x w

  abbrev pub ensure_listed : Manager → String → D → Outcome (List SearchIndexInfo) → Pass k
  ensure_listed m pod def (err e) x w =
      report_pending k ("list search index: " +++ k.error_text e) x w
  ensure_listed m pod def (ok []) x w =
      created (k.create_index m (place pod x) (index_type x) def w) x
  ensure_listed m pod def (ok (info ∷ _)) x w = report_listed info x w

  unfoldable pub ensure_index : Manager → String → D → Pass k
  unfolding apply_status report classify_mongot_status
  ensure_index m pod def x w = ensure_listed m pod def (k.list_indexes m (place pod x) w) x w

  abbrev pub with_definition : Manager → String → Outcome D → Pass k
  with_definition m pod (err e) x w =
      report_failed k ("invalid definitionJSON: " +++ k.error_text e) x w
  with_definition m pod (ok def) x w = ensure_index m pod def x w

  abbrev pub serve : MongoDbSearch → Manager → String → Bool → Pass k
  serve search m pod running x w =
      if not running || not search.is_ready
      then report_building k "source mongod / mongot sidecar not ready yet" x w
      else with_definition m pod (k.parse_definition x.definition_json) x w

  abbrev pub finalizer_added : Option ApiError × W → SearchIndex → Outcome Requeue × SearchIndex × W
  finalizer_added (some e, w) x = (err (api e), x, w)
  finalizer_added (none, w) x = (ok again, with_finalizers (k.add_finalizer x.finalizers) x, w)

  abbrev pub on_connected : MongoDbSearch → Manager → String → Bool → Pass k
  on_connected search m pod running x w =
      if x.is_deleted
      then handle_deletion k (some m) pod x w
      else if k.has_finalizer x.finalizers
      then serve search m pod running x w
      else finalizer_added (k.update_finalizers (k.add_finalizer x.finalizers) w) x

  abbrev pub on_resolution : MongoDbSearch → Outcome Resolution → Pass k
  on_resolution search (err e) x w = (err e, x, w)
  on_resolution search (ok (unavailable reason)) x w =
      if x.is_deleted then handle_deletion k none "" x w else report_pending k reason x w
  on_resolution search (ok (connected m pod running)) x w = on_connected search m pod running x w

  abbrev pub on_source : MongoDbSearch → Option String → Pass k
  on_source search none x w =
      report_failed k "MongoDBSearch.spec.source.mongodbResourceRef required" x w
  on_source search (some name) x w =
      on_resolution search (resolve_source_manager k name search w) x w

  abbrev pub on_search : Outcome MongoDbSearch → Pass k
  on_search (err e) x w =
      if is_not_found e
      then (if x.is_deleted
          then handle_deletion k none "" x w
          else report_pending k "MongoDBSearch not found yet" x w)
      else (err e, x, w)
  on_search (ok search) x w = on_source search search.resource x w

  -- Reconcile of an object that is there
  unfoldable pub reconcile : Pass k
  unfolding report handle_deletion resolve_source_manager ensure_index
  reconcile x w = on_search (k.get_search x.search_name w) x w
