-- ===== src/Tests/Federation.antt =====
-- A federation from which a region was removed.
use mongodb_operator.Common.{String, none, [], ◌∷◌, ◌≡◌, refl}
use mongodb_operator.Common.Int.{ℤ, pos}
use mongodb_operator.Kube.{err, text, api, not_found}
use mongodb_operator.Federation.{
  Federation, FederationApi, degraded, synced, failed, compute_federation_phase, reconcile,
}
use mongodb_operator.Federation.Removed.{
  IsLeftOver, has_failed, here, pass, removed_region_degrades,
}

-- The world is the time; other clusters cannot be reached.
abbrev federation_api : FederationApi ℤ String
federation_api = record {
  now = λ w. w;
  update_status = λ s w. (none, w);
  get_secret = λ name w. err (api not_found);
  remote_client = λ config. err (text "no client" "");
  list_nodes = λ r w. (none, w);
  error_text = λ e. "error";
}

-- The region "north" is gone from the spec; "home" is in the same cluster.
abbrev pair : Federation
pair = record {
  namespace = "prod";
  regions = record { name = "home"; kube_config = "" } ∷ [];
  status = record {
    phase = degraded;
    regions =
        record { name = "north"; phase = failed; last_sync_time = none; error = "timeout" }
        ∷ record { name = "home"; phase = synced; last_sync_time = none; error = "" }
        ∷ [];
  };
}

pair-IsLeftOver : IsLeftOver federation_api "north" pair
unfolding has_failed
pair-IsLeftOver = record { gone = refl; failing = refl }

removed_region_degrades_example :
    (reconcile federation_api (reconcile federation_api pair (pos 3)).1 (pos 4)).1.status.phase
    ≡ degraded
removed_region_degrades_example =
    removed_region_degrades federation_api {n = "north"} {f = pair} (pos 4) pair-IsLeftOver
      (pass here (pos 3)) refl

-- Without the left-over region it would be Synced.
home_alone :
    compute_federation_phase
      (record { name = "home"; phase = synced; last_sync_time = none; error = "" } ∷ [])
    ≡ synced
unfolding compute_federation_phase
home_alone = refl
