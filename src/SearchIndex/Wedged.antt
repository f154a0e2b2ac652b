-- ===== src/SearchIndex/Wedged.antt =====
-- The deletion of a search index whose MongoDBSearch names no database.
use mongodb_operator.Common.{String, false, none, ◌≡◌, refl, arith, ◌∙◌}
use mongodb_operator.Kube.{ok, after}
use mongodb_operator.SearchIndex.{SearchIndex, MongoDbSearch, IndexApi, failed}
use mongodb_operator.SearchIndex.Pass.{reconcile}
use mongodb_operator.SearchIndex.Report.{poll_failed, with_phase, report}

module _ {W D : Type 0} (k : IndexApi W D) where
  abbrev pub message : String
  message = "MongoDBSearch.spec.source.mongodbResourceRef required"

  -- Passes in each of which the MongoDBSearch is there and names no database.
  pub data Unsourced (x : SearchIndex) : SearchIndex → Type 0 where
    here : Unsourced x x
    pass :
        {y : SearchIndex}
        → Unsourced x y
        → (w : W) (s : MongoDbSearch) → k.get_search y.search_name w ≡ ok s
        → s.resource ≡ none
        → Unsourced x (reconcile k y w).1

  unsourced_reconcile :
      (x : SearchIndex) (w : W) (s : MongoDbSearch)
      → k.get_search x.search_name w ≡ ok s
      → s.resource ≡ none
      → reconcile k x w ≡ report k failed poll_failed message x w
  unfolding reconcile
  unsourced_reconcile x w s found unnamed = rw (found, unnamed) refl

  report_keeps :
      (x : SearchIndex) (w : W)
      → let y = (report k failed poll_failed message x w).1 in
        (y.finalizers ≡ x.finalizers) × (y.is_deleted ≡ x.is_deleted)
  unfolding report
  report_keeps x w = ground arith

  pass_keeps :
      (x : SearchIndex) (w : W) (s : MongoDbSearch)
      → k.get_search x.search_name w ≡ ok s
      → s.resource ≡ none
      → ((reconcile k x w).1.finalizers ≡ x.finalizers)
        × ((reconcile k x w).1.is_deleted ≡ x.is_deleted)
  pass_keeps x w s found unnamed = rw (unsourced_reconcile x w s found unnamed) (report_keeps x w)

  Unsourced-keeps :
      {x y : SearchIndex}
      → Unsourced x y
      → (y.finalizers ≡ x.finalizers) × (y.is_deleted ≡ x.is_deleted)
  Unsourced-keeps here = (refl, refl)
  Unsourced-keeps (pass {y = y} r w s found unnamed) =
      let before = Unsourced-keeps r in
      let now = pass_keeps y w s found unnamed in (now.0 ∙ before.0, now.1 ∙ before.1)

  status_only :
      (x : SearchIndex) (w : W)
      → let r = report k failed poll_failed message x w in
        (r.0 ≡ ok (after poll_failed))
        × (r.2
            ≡ (k.update_status
                (with_phase k failed x.status.index_id false message w x).status
                w).1)
  unfolding report
  status_only x w = ground arith

  -- A search index is never let go while its MongoDBSearch is there and names no database: along such
  -- passes, however many, its finalizers and its mark of deletion stay as they are, and each pass,
  -- deletion or not, only tries to write the status Failed and asks for another one in a minute.
  pub wedged_for_ever :
      {x y : SearchIndex} (w : W) (s : MongoDbSearch)
      → Unsourced x y
      → k.get_search y.search_name w ≡ ok s
      → s.resource ≡ none
      → (y.finalizers ≡ x.finalizers)
        × (y.is_deleted ≡ x.is_deleted)
        × ((reconcile k y w).0 ≡ ok (after poll_failed))
        × ((reconcile k y w).1.finalizers ≡ x.finalizers)
        × ((reconcile k y w).2
            ≡ (k.update_status
                (with_phase k failed y.status.index_id false message w y).status
                w).1)
  wedged_for_ever {y = y} w s r found unnamed =
      let kept = Unsourced-keeps r in
      let now = pass_keeps y w s found unnamed in
      let same = unsourced_reconcile y w s found unnamed in
      (kept.0, kept.1, rw same (status_only y w).0, now.0 ∙ kept.0, rw same (status_only y w).1)
