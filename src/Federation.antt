-- ===== src/Federation.antt =====
-- internal/controller/mongodbfederation_controller.go and federation_propagation.go: the phase of a
-- federation of clusters; and the phase of a group of clusters, mongodbclustergroup_controller.go.
pub mod Removed
pub mod Groups
use mongodb_operator.Common.{
  ℕ, ◌+◌, String, Bool, true, false, Option, none, some, List, [], ◌∷◌, ◌++◌, str_eq, if◌then◌else◌,
  ltb, ◌==◌, is_empty, is_one_of, lookup, length,
}
use mongodb_operator.Common.Int.{ℤ}
use mongodb_operator.Kube.{
  ApiError, Error, api, wrapped, text, Outcome, ok, err, Secret, Requeue, stop,
}
use mongodb_operator.Upgrade.Status.{◌+++◌}
use mongodb_operator.Backup.{entry}

-- The phases of a federation and of its regions; `unset` is "".
pub data FederationPhase : Type 0 where
  unset pending bootstrapping synced degraded failed : FederationPhase

-- FederationRegionStatus
pub record RegionStatus : Type 0 where
  pub name : String
  pub phase : FederationPhase
  pub last_sync_time : Option ℤ
  pub error : String

-- FederationRegion
pub record Region : Type 0 where
  pub name : String
  pub kube_config : String

pub record FederationStatus : Type 0 where
  pub phase : FederationPhase
  pub regions : List RegionStatus

-- MongoDBFederation
pub record Federation : Type 0 where
  pub namespace : String
  pub regions : List Region
  pub status : FederationStatus

-- `R` is a client of another cluster.
pub record FederationApi (W R : Type 0) : Type 0 where
  pub now : W → ℤ
  -- r.Status().Update
  pub update_status : FederationStatus → W → Option ApiError × W
  pub get_secret : String → W → Outcome Secret
  -- clientcmd and kubernetes.NewForConfig: the client and the server's address
  pub remote_client : String → Outcome (R × String)
  -- Nodes().List with a limit of one
  pub list_nodes : R → W → Option Error × W
  pub error_text : Error → String

abbrev pub with_status : FederationStatus → Federation → Federation
with_status s f = record f { status = s }

abbrev pub is_synced : FederationPhase → Bool
is_synced synced = true
is_synced _ = false

abbrev pub is_failed : FederationPhase → Bool
is_failed failed = true
is_failed _ = false

unfoldable pub count_phase : (FederationPhase → Bool) → List RegionStatus → ℕ
count_phase test [] = 0
count_phase test (s ∷ ss) = if test s.phase then 1 + count_phase test ss else count_phase test ss

abbrev is_nil : List RegionStatus → Bool
is_nil [] = true
is_nil (_ ∷ _) = false

-- computeFederationPhase
unfoldable pub compute_federation_phase : List RegionStatus → FederationPhase
unfolding count_phase
compute_federation_phase ss =
    if is_nil ss
    then bootstrapping
    else if ltb 0 (count_phase is_failed ss)
    then degraded
    else if count_phase is_synced ss == length ss
    then synced
    else bootstrapping

abbrev pub new_region : String → ℤ → RegionStatus
new_region name now = record { name = name; phase = pending; last_sync_time = some now; error = "" }

module _ {W R : Type 0} (k : FederationApi W R) where
  abbrev remote_of : String → Outcome (R × String)
  remote_of kube_config =
      if is_empty kube_config
      then err (text "kubeconfig secret" " missing 'kubeconfig' key")
      else k.remote_client kube_config

  -- remoteClientFromKubeconfig
  abbrev client_from : String → String → Outcome Secret → Outcome (R × String)
  client_from namespace name (err e) =
      err (wrapped ("get kubeconfig secret " +++ namespace +++ "/" +++ name) e)
  client_from namespace name (ok secret) = remote_of (entry "kubeconfig" secret)

  abbrev probed : String → Option Error × W → Outcome String × W
  probed server (some e, w) = (err (wrapped "remote nodes list" e), w)
  probed server (none, w) = (ok server, w)

  abbrev probe : Outcome (R × String) → W → Outcome String × W
  probe (err e) w = (err e, w)
  probe (ok (remote, server)) w = probed server (k.list_nodes remote w)

  -- propagateRegionMongoDB: `ok` is `synced`, with the server.
  unfoldable pub propagate_region : Federation → Region → W → Outcome String × W
  unfolding lookup
  propagate_region f region w =
      if is_empty region.kube_config
      then (ok "in-cluster", w)
      else probe (client_from f.namespace region.kube_config (k.get_secret region.kube_config w)) w

  -- What the loop writes into the status of a region.
  abbrev pub outcome_of : ℤ → Outcome String → RegionStatus → RegionStatus
  outcome_of now (ok _) s = record s { last_sync_time = some now; phase = synced; error = "" }
  outcome_of now (err e) s = record s {
    last_sync_time = some now;
    phase = failed;
    error = k.error_text e;
  }

  -- indexOfRegion, with the status that is appended if there is none
  unfoldable pub note_region :
      String → ℤ → (RegionStatus → RegionStatus) → List RegionStatus → List RegionStatus
  note_region name now change [] = change (new_region name now) ∷ []
  note_region name now change (s ∷ ss) =
      if str_eq s.name name then change s ∷ ss else s ∷ note_region name now change ss

  abbrev pub noted : String → ℤ → Outcome String × W → List RegionStatus → List RegionStatus × W
  noted name before (x, w) ss = (note_region name before (outcome_of (k.now w) x) ss, w)

  -- The loop over the regions of the spec
  unfoldable pub sync_regions :
      Federation → List Region → List RegionStatus → W → List RegionStatus × W
  unfolding propagate_region note_region
  sync_regions f [] ss w = (ss, w)
  sync_regions f (r ∷ rs) ss w =
      let (ss', w') = noted r.name (k.now w) (propagate_region f r w) ss in sync_regions f rs ss' w'

  abbrev pub synced_status : List RegionStatus → FederationStatus
  synced_status ss = record { phase = compute_federation_phase ss; regions = ss }

  abbrev pub stored :
      Option ApiError × W → Federation → Federation → Outcome Requeue × Federation × W
  stored (some e, w) old new = (err (api e), old, w)
  stored (none, w) old new = (ok stop, new, w)

  abbrev pub write : Federation → List RegionStatus × W → Outcome Requeue × Federation × W
  write f (ss, w) = let s = synced_status ss in stored (k.update_status s w) f (with_status s f)

  -- Reconcile of an object that is there; the object in the result is the stored one. The phase that is
  -- computed at first is computed again before it is read.
  unfoldable pub reconcile : Federation → W → Outcome Requeue × Federation × W
  unfolding compute_federation_phase sync_regions
  reconcile f w = write f (sync_regions f f.regions f.status.regions w)
