-- ===== src/SearchIndex/Deletion.antt =====
-- handleDeletion of a search index, and Drop of internal/mongodb/searchindex.go.
use mongodb_operator.Common.{String, false, Option, none, some, List, if◌then◌else◌}
use mongodb_operator.Kube.{Error, wrapped, text, Outcome, Requeue}
use mongodb_operator.Upgrade.Status.{◌+++◌}
use mongodb_operator.SearchIndex.Report.{Pass, apply_status}
use mongodb_operator.SearchIndex.{
  SearchIndex, Manager, IndexPlace, IndexApi, with_finalizers, place, DriverError, error_message,
  deleting, is_index_not_found_err,
}

module _ {W D : Type 0} (k : IndexApi W D) where
  -- SearchIndexManager.Drop: what is not there any more is dropped.
  abbrev pub dropped : IndexPlace → Option DriverError × W → Option Error × W
  dropped at (none, w) = (none, w)
  dropped at (some e, w) =
      let index = at.database +++ "." +++ at.collection +++ "/" +++ at.name in
      if is_index_not_found_err k.to_lower e
      then (none, w)
      else (some (text ("dropSearchIndex " +++ index +++ ": ") (error_message e)), w)

  abbrev pub drop_on : Manager → IndexPlace → Option Error → W → Option Error × W
  drop_on m at (some e) w = (some (wrapped "connect for search index drop" e), w)
  drop_on m at none w = dropped at (k.drop_one m at w)

  unfoldable pub drop_index : Manager → IndexPlace → W → Option Error × W
  unfolding is_index_not_found_err
  drop_index m at w = drop_on m at (k.connect m at.pod at.namespace w) w

  abbrev pub cleanup : Option Manager → IndexPlace → W → Option Error × W
  cleanup none at w = (none, w)
  cleanup (some m) at w = drop_index m at w

  abbrev pub cleaned :
      SearchIndex → Outcome Requeue × List String × W → Outcome Requeue × SearchIndex × W
  cleaned x (r, fs, w) = (r, with_finalizers fs x, w)

  unfoldable pub handle_deletion : Option Manager → String → Pass k
  unfolding drop_index apply_status
  handle_deletion m pod x w =
      let (_, x', w') = apply_status k deleting x.status.index_id false "" x w in
      cleaned x' (k.handle_finalizer_cleanup (cleanup m (place pod x)) x.finalizers w')
