-- ===== src/Cluster/Order.antt =====
-- The StatefulSet waits for the upgrade: in the phases BackingUp, Validating and RollingBack a pass
-- applies nothing that comes behind the upgrade.
use mongodb_operator.Common.{
  String, Bool, true, false, Option, none, some, ◌≡◌, refl, arith, str_eq, if◌then◌else◌, is_empty,
}
use mongodb_operator.Kube.{ApiError, Outcome, ok, err}
use mongodb_operator.Mongo.{
  MongoDb, UpgradePhase, backing_up, validating, rolling_back, initializing,
}
use mongodb_operator.Upgrade.Machine.{
  Step, proceed, handled, reconcile_upgrade, orchestrate, dispatch, commit,
  reconcile_upgrade_backup, reconcile_upgrade_validation, reconcile_upgrade_rollback,
  upgrade_validation_failed,
}
use mongodb_operator.Cluster.Outside.{
  Outside, Resource, keyfile_secret, tls_certificate, config_map, custom_config_map,
  headless_service, client_service,
}
use mongodb_operator.Cluster.Report.{with_status}
use mongodb_operator.Cluster.Pass.{
  Pass, stored, is_new, applied, step, on_upgrade, resources, reconcile,
}

-- The resources of the steps 1 to 4.
abbrev pub is_before_upgrade : Resource → Bool
is_before_upgrade keyfile_secret = true
is_before_upgrade tls_certificate = true
is_before_upgrade config_map = true
is_before_upgrade custom_config_map = true
is_before_upgrade headless_service = true
is_before_upgrade client_service = true
is_before_upgrade _ = false

-- The phases whose handler never lets the pass go on.
abbrev pub is_holding : UpgradePhase → Bool
is_holding backing_up = true
is_holding validating = true
is_holding rolling_back = true
is_holding _ = false

pub record IsHeld (m : MongoDb) : Type 0 where
  pub holding : is_holding m.status.upgrade_phase ≡ true
  pub effective_set : is_empty m.status.effective_version ≡ false
  pub version_set : is_empty m.status.version ≡ false
  pub differ : str_eq m.status.version m.spec_version ≡ false

abbrev is_proceed : Outcome Step → Bool
is_proceed (ok proceed) = true
is_proceed (ok (handled _)) = false
is_proceed (err _) = false

module _ {W : Type 0} (o : Outside W) (f : Resource → MongoDb → W → Option ApiError × W) where
  -- The outside with other functions behind the upgrade.
  abbrev pub other_apply : Outside W
  other_apply = record o { apply = λ r m w. if is_before_upgrade r then o.apply r m w else f r m w }

  held-dispatch :
      (p : UpgradePhase) (m : MongoDb) (w : W)
      → is_holding p ≡ true
      → is_proceed (dispatch o.kube p m w).0 ≡ false
  unfolding dispatch commit reconcile_upgrade_backup reconcile_upgrade_validation
      reconcile_upgrade_rollback upgrade_validation_failed
  held-dispatch p m w h = ground arith

  held-upgrade :
      (m : MongoDb) (w : W) → IsHeld m → is_proceed (reconcile_upgrade o.kube m w).0 ≡ false
  unfolding reconcile_upgrade orchestrate
  held-upgrade m w h = ground (
    arith,
    h.holding,
    h.effective_set,
    h.version_set,
    h.differ,
    held-dispatch m.status.upgrade_phase m w h.holding,
  )

  on_upgrade-other :
      (r : Outcome Step) (m : MongoDb) (w : W)
      → is_proceed r ≡ false
      → on_upgrade other_apply (r, m, w) ≡ on_upgrade o (r, m, w)
  on_upgrade-other r m w h = ground arith

  applied-other :
      (name : String) (rest rest' : Pass o) (m : MongoDb) (p : Option ApiError × W)
      → ((w' : W) → rest' m w' ≡ rest m w')
      → applied other_apply name rest' p m ≡ applied o name rest p m
  applied-other name rest rest' m (none, w) h = h w
  applied-other name rest rest' m (some e, w) h = refl

  step-other :
      (r : Resource) (name : String) (rest rest' : Pass o) (m : MongoDb) (w : W)
      → is_before_upgrade r ≡ true
      → ((w' : W) → rest' m w' ≡ rest m w')
      → step other_apply r name rest' m w ≡ step o r name rest m w
  step-other r name rest rest' m w before h =
      rw before (applied-other name rest rest' m (o.apply r m w) h)

  resources-other : (m : MongoDb) (w : W) → IsHeld m → resources other_apply m w ≡ resources o m w
  resources-other m w h = step-other keyfile_secret "KeyfileSecret" _ _ m w refl (λ w1.
      step-other tls_certificate "TLS" _ _ m w1 refl (λ w2.
        step-other config_map "ConfigMap" _ _ m w2 refl (λ w3.
          step-other custom_config_map "CustomConfigMap" _ _ m w3 refl (λ w4.
            step-other headless_service "HeadlessService" _ _ m w4 refl (λ w5.
              step-other client_service "ClientService" _ _ m w5 refl (λ w6.
                let (r, m', w7) = reconcile_upgrade o.kube m w6 in
                on_upgrade-other r m' w7 (held-upgrade m w6 h)))))))

  stored-other :
      (p : Option ApiError × W) (m : MongoDb)
      → IsHeld m
      → stored other_apply p (resources other_apply) m ≡ stored o p (resources o) m
  stored-other (none, w) m h = resources-other m w h
  stored-other (some e, w) m h = refl

  opening-other :
      (new : Bool) (m m' : MongoDb) (w : W) (p : Option ApiError × W)
      → IsHeld m
      → IsHeld m'
      → (if new then stored other_apply p (resources other_apply) m' else resources other_apply m w)
        ≡ (if new then stored o p (resources o) m' else resources o m w)
  opening-other true m m' w p h h' = stored-other p m' h'
  opening-other false m m' w p h h' = resources-other m w h

  -- While an upgrade is in the phase BackingUp, Validating or RollingBack and the spec asks for another
  -- version than the recorded one, a pass applies no StatefulSet and nothing else behind the upgrade:
  -- with any other functions in their places it has the same result. The version fields of the status
  -- are supposed to be set.
  pub held_pass_applies_nothing :
      (m : MongoDb) (w : W) → IsHeld m → reconcile other_apply m w ≡ reconcile o m w
  unfolding reconcile
  held_pass_applies_nothing m w h =
      let m' = with_status (record m.status { phase = initializing }) m in
      let held : IsHeld m' = record {
        holding = h.holding;
        effective_set = h.effective_set;
        version_set = h.version_set;
        differ = h.differ;
      } in
      opening-other (is_new m.status.phase) m m' w (o.kube.update_status m'.status w) h held
