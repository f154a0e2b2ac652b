-- ===== src/Tests/SearchIndex.antt =====
-- Passes over a search index that is listed, and over one whose MongoDBSearch names no database.
use mongodb_operator.Common.{String, true, false, none, some, [], ◌∷◌, ◌≡◌, refl}
use mongodb_operator.Common.Int.{ℤ, pos}
use mongodb_operator.Kube.{ok, stop, after}
use mongodb_operator.SearchIndex.{
  SearchIndex, MongoDbSearch, IndexApi, SearchIndexInfo, server, other, building,
  is_index_not_found_err, place,
}
use mongodb_operator.SearchIndex.Pass.{reconcile}
use mongodb_operator.SearchIndex.Reach.{resolve_source_manager}
use mongodb_operator.SearchIndex.Deletion.{drop_index}
use mongodb_operator.SearchIndex.Report.{poll_failed}
use mongodb_operator.SearchIndex.Ready.{Reach, here, pass, IsServed, Reach-IsServed}
use mongodb_operator.SearchIndex.Wedged.{here as nothing, pass as unsourced_pass, wedged_for_ever}
use mongodb_operator.SearchIndex.Drift.{IsListing}

abbrev sourced : MongoDbSearch
sourced = record { source_kind = "MongoDB"; resource = some "db"; is_ready = true }

abbrev unsourced : MongoDbSearch
unsourced = record { source_kind = "MongoDB"; resource = none; is_ready = true }

abbrev served_info : SearchIndexInfo
served_info = record { id = "7"; name = "title"; status = "READY"; queryable = true }

-- The world is the time.
abbrev index_api : MongoDbSearch → IndexApi ℤ String
index_api s = record {
  update_status = λ s w. (none, w);
  set_status_condition = λ w c cs. c ∷ cs;
  get_search = λ name w. ok s;
  get_source = λ name w.
      ok (record { name = name; namespace = "prod"; admin_secret = "admin"; is_running = true });
  get_sharded_source = λ name w.
      ok (record { name = name; namespace = "prod"; admin_secret = "admin"; is_running = true });
  get_secret = λ name w. ok (record { name = name; entries = ("password", "secret") ∷ [] });
  has_finalizer = λ fs. elim fs [ [] ↦ false | _ ∷ _ ↦ true ];
  add_finalizer = λ fs. "search-index" ∷ fs;
  update_finalizers = λ fs w. (none, w);
  handle_finalizer_cleanup = λ clean fs w. (ok stop, [], (clean w).1);
  parse_definition = λ s. ok s;
  list_indexes = λ m at w. ok (served_info ∷ []);
  create_index = λ m at type def w. (none, w);
  connect = λ m pod namespace w. none;
  drop_one = λ m at w. (some (server (27 ∷ []) "index not found"), w);
  error_text = λ e. "error";
  to_upper = λ s. s;
  to_lower = λ s. s;
}

abbrev title_index : SearchIndex
title_index = record {
  namespace = "prod";
  generation = 1;
  finalizers = "search-index" ∷ [];
  is_deleted = false;
  search_name = "search";
  database = "shop";
  collection = "items";
  index_name = "title";
  type = "";
  definition_json = "{}";
  status = record {
    phase = building;
    index_id = "";
    queryable = false;
    observed_generation = 1;
    error = "";
    conditions = [];
  };
}

abbrev deleted_index : SearchIndex
deleted_index = record title_index { is_deleted = true }

-- An index that is gone already is dropped.
dropped_twice :
    (drop_index
      (index_api sourced)
      (record {
        pod = "db-0";
        service = "db-headless";
        namespace = "prod";
        username = "admin";
        password = "secret";
      })
      (place "db-0" title_index)
      (pos 3)).0
    ≡ none
unfolding drop_index
dropped_twice = refl

unlike_not_found : is_index_not_found_err (λ s. s) (other "connection refused") ≡ false
unfolding is_index_not_found_err
unlike_not_found = refl

Reach-IsServed_example :
    (u : SearchIndex) × (w : ℤ) × Reach (index_api sourced) title_index u
    × IsServed (index_api sourced) u w
unfolding reconcile
Reach-IsServed_example = Reach-IsServed (index_api sourced) refl (pass here (pos 5)) refl

wedged_for_ever_example :
    let y = (reconcile (index_api unsourced) deleted_index (pos 1)).1 in
    (y.finalizers ≡ "search-index" ∷ [])
    × (y.is_deleted ≡ true)
    × ((reconcile (index_api unsourced) y (pos 2)).0 ≡ ok (after poll_failed))
    × ((reconcile (index_api unsourced) y (pos 2)).1.finalizers ≡ "search-index" ∷ [])
    × ((reconcile (index_api unsourced) y (pos 2)).2 ≡ pos 2)
wedged_for_ever_example =
    wedged_for_ever (index_api unsourced) {x = deleted_index} (pos 2) unsourced
      (unsourced_pass nothing (pos 1) unsourced refl refl) refl refl

title_index-IsListing : IsListing (index_api sourced) title_index (pos 4) served_info
unfolding resolve_source_manager
title_index-IsListing = record {
  kept = refl;
  finalized = refl;
  search = sourced;
  found = refl;
  mongot_ready = refl;
  source = "db";
  named = refl;
  manager = record {
    pod = "db-0";
    service = "db-headless";
    namespace = "prod";
    username = "admin";
    password = "secret";
  };
  pod = "db-0";
  running = refl;
  rest = [];
  listed = refl;
}
