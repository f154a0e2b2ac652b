-- ===== src/SearchIndex/Drift.antt =====
-- A pass over a search index that the database lists already.
use mongodb_operator.Common.{String, true, false, List, ◌∷◌, some, ◌≡◌, refl, ◌∙◌, arith}
use mongodb_operator.Kube.{ok}
use mongodb_operator.SearchIndex.{
  SearchIndex, SearchIndexInfo, MongoDbSearch, Manager, IndexApi, place, classify_mongot_status,
}
use mongodb_operator.SearchIndex.Pass.{report_listed, ensure_index, reconcile, on_connected}
use mongodb_operator.SearchIndex.Reach.{connected, resolve_source_manager}
use mongodb_operator.SearchIndex.Report.{with_phase, apply_status}

abbrev with_json : String → SearchIndex → SearchIndex
with_json d x = record x { definition_json = d }

module _ {W D : Type 0} (k : IndexApi W D) where
  -- At `w` a pass gets as far as the listing of the index.
  pub record IsListing (x : SearchIndex) (w : W) (info : SearchIndexInfo) : Type 0 where
    pub kept : x.is_deleted ≡ false
    pub finalized : k.has_finalizer x.finalizers ≡ true
    pub search : MongoDbSearch
    pub found : k.get_search x.search_name w ≡ ok search
    pub mongot_ready : search.is_ready ≡ true
    pub source : String
    pub named : search.resource ≡ some source
    pub manager : Manager
    pub pod : String
    pub running : resolve_source_manager k source search w ≡ ok (connected manager pod true)
    pub rest : List SearchIndexInfo
    pub listed : k.list_indexes manager (place pod x) w ≡ ok (info ∷ rest)

  connected_pass :
      {x : SearchIndex} {w : W} {info : SearchIndexInfo} (l : IsListing x w info)
      → reconcile k x w ≡ on_connected k l.search l.manager l.pod true x w
  unfolding reconcile
  connected_pass l = rw (l.found, l.named, l.running) refl

  listing_pass :
      {x : SearchIndex} {w : W} {info : SearchIndexInfo} (l : IsListing x w info) (def : D)
      → k.parse_definition x.definition_json ≡ ok def
      → on_connected k l.search l.manager l.pod true x w ≡ report_listed k info x w
  unfolding ensure_index
  listing_pass l def parsed = ground (arith, l.kept, l.finalized, l.mongot_ready, l.listed)

  with_json-IsListing :
      {x : SearchIndex} {w : W} {info : SearchIndexInfo} (d : String)
      → IsListing x w info
      → IsListing (with_json d x) w info
  with_json-IsListing d l = record {
    kept = l.kept;
    finalized = l.finalized;
    search = l.search;
    found = l.found;
    mongot_ready = l.mongot_ready;
    source = l.source;
    named = l.named;
    manager = l.manager;
    pod = l.pod;
    running = l.running;
    rest = l.rest;
    listed = l.listed;
  }

  reconcile_listing :
      {x : SearchIndex} {w : W} {info : SearchIndexInfo} (l : IsListing x w info) (def : D)
      → k.parse_definition x.definition_json ≡ ok def
      → reconcile k x w ≡ report_listed k info x w
  reconcile_listing l def parsed = connected_pass l ∙ listing_pass l def parsed

  listed_status :
      (info : SearchIndexInfo) (x : SearchIndex) (w : W)
      → (report_listed k info x w).2
        ≡ (k.update_status
            (with_phase k
              (classify_mongot_status k.to_upper info.status info.queryable)
              info.id
              info.queryable
              ""
              w
              x).status
            w).1
  unfolding apply_status
  listed_status info x w = ground arith

  listed_same :
      (info : SearchIndexInfo) (x : SearchIndex) (w : W) (d : String)
      → ((report_listed k info (with_json d x) w).0 ≡ (report_listed k info x w).0)
        × ((report_listed k info (with_json d x) w).2 ≡ (report_listed k info x w).2)
  unfolding apply_status
  listed_same info x w d = ground arith

  -- Once the database lists an index of the name, a pass that gets as far as the listing sends nothing
  -- for it, whatever status it is listed with (DOES_NOT_EXIST, for one): the only call that changes
  -- anything is the write of the status. A definition that has changed, as long as it can be parsed,
  -- makes no difference to what the pass does and returns.
  listed_index_is_left_alone :
      {x : SearchIndex} {w : W} {info : SearchIndexInfo} (l : IsListing x w info) (d : String)
      (def def' : D)
      → k.parse_definition x.definition_json ≡ ok def
      → k.parse_definition d ≡ ok def'
      → ((reconcile k (with_json d x) w).0 ≡ (reconcile k x w).0)
        × ((reconcile k (with_json d x) w).2 ≡ (reconcile k x w).2)
        × ((reconcile k x w).2
            ≡ (k.update_status
                (with_phase k
                  (classify_mongot_status k.to_upper info.status info.queryable)
                  info.id
                  info.queryable
                  ""
                  w
                  x).status
                w).1)
  listed_index_is_left_alone {x} {w} {info} l d def def' parsed parsed' =
      let old = reconcile_listing l def parsed in
      let new = reconcile_listing (with_json-IsListing d l) def' parsed' in
      let same = listed_same info x w d in
      (rw (old, new) same.0, rw (old, new) same.1, rw old (listed_status info x w))
