-- ===== src/Cluster/Unready.antt =====
-- A running cluster that loses a member: what a pass does with its status.
use mongodb_operator.Common.{
  String, true, false, Option, none, some, ◌≡◌, refl, arith, ◌∙◌, str_eq, is_empty, ◌==◌,
}
use mongodb_operator.Kube.{ApiError, Outcome, ok, StatefulSet}
use mongodb_operator.Mongo.{MongoDb, MongoDbStatus, idle, running}
use mongodb_operator.Upgrade.Machine.{proceed, reconcile_upgrade, orchestrate}
use mongodb_operator.Cluster.Outside.{
  Outside, Requeue, Resource, keyfile_secret, tls_certificate, config_map, custom_config_map,
  headless_service, client_service, stateful_set_object, data_volumes, pod_disruption_budget,
  network_policy,
}
use mongodb_operator.Cluster.Report.{are_all_pods_ready}
use mongodb_operator.Cluster.Pass.{
  Pass, step, applied, on_upgrade, provision, validate_or_provision, resources, reconcile,
  requeue_provisioning,
}

-- A server that applies every object, and whose StatefulSet reports `sts`; `stored` is the stored
-- status, which the applied objects do not touch.
pub record IsApplying {W : Type 0} (o : Outside W) (sts : StatefulSet) (stored : W → MongoDbStatus)
    : Type 0 where
  pub applies : (r : Resource) (m : MongoDb) (w : W) → (o.apply r m w).0 ≡ none
  pub keeps : (r : Resource) (m : MongoDb) (w : W) → stored (o.apply r m w).1 ≡ stored w
  pub reports : (name : String) (w : W) → o.kube.get_stateful_set name w ≡ ok sts

-- An initialized cluster that no upgrade is asked of.
pub record IsSteady (m : MongoDb) : Type 0 where
  pub phase_running : m.status.phase ≡ running
  pub upgrade_idle : m.status.upgrade_phase ≡ idle
  pub effective_set : is_empty m.status.effective_version ≡ false
  pub version_set : is_empty m.status.version ≡ false
  pub no_change : str_eq m.status.version m.spec_version ≡ true

module _ {W : Type 0} (o : Outside W) (sts : StatefulSet) (stored : W → MongoDbStatus)
    (a : IsApplying o sts stored) where
  -- The pass is requeued, and neither the object nor its stored status has changed.
  pub record IsSilent (m : MongoDb) (w : W) (x : Outcome Requeue × MongoDb × W) : Type 0 where
    pub result : x.0 ≡ ok requeue_provisioning
    pub object : x.1 ≡ m
    pub stored_same : stored x.2 ≡ stored w

  applied-IsSilent :
      (name : String) (rest : Pass o) (m : MongoDb) (w : W) (p : Option ApiError × W)
      → p.0 ≡ none
      → IsSilent m w (rest m p.1)
      → IsSilent m w (applied o name rest p m)
  applied-IsSilent name rest m w (none, w') e h = h
  applied-IsSilent name rest m w (some x, w') e h = ground (arith, e)

  step-IsSilent :
      (r : Resource) (name : String) (rest : Pass o) (m : MongoDb) (w w' : W)
      → stored w' ≡ stored w
      → ((v : W) → stored v ≡ stored w → IsSilent m w (rest m v))
      → IsSilent m w (step o r name rest m w')
  step-IsSilent r name rest m w w' same h =
      applied-IsSilent name rest m w (o.apply r m w') (a.applies r m w')
        (h (o.apply r m w').1 (a.keeps r m w' ∙ same))

  module _ (m : MongoDb) (s : IsSteady m)
      (unready : (sts.ready_replicas == m.members) ≡ false) where
    unready_pods : (w : W) → are_all_pods_ready o m w ≡ ok false
    unfolding are_all_pods_ready
    unready_pods w = ground (arith, a.reports m.name w, unready)

    idle_provision : (w : W) → validate_or_provision o m w ≡ provision o m w
    idle_provision w = ground (arith, s.upgrade_idle)

    running_resources : (w : W) → reconcile o m w ≡ resources o m w
    unfolding reconcile
    running_resources w = ground (arith, s.phase_running)

    provision-IsSilent :
        (w w' : W) → stored w' ≡ stored w → IsSilent m w (validate_or_provision o m w')
    provision-IsSilent w w' same = rw (idle_provision w') (
        step-IsSilent pod_disruption_budget "PodDisruptionBudget" _ m w
          (o.apply data_volumes m w').1 (a.keeps data_volumes m w' ∙ same)
          (λ v e. step-IsSilent network_policy "NetworkPolicy" _ m w v e (λ u e'.
            rw (unready_pods u) (record { result = refl; object = refl; stored_same = e' }))))

    no_upgrade : (w : W) → reconcile_upgrade o.kube m w ≡ (ok proceed, m, w)
    unfolding reconcile_upgrade orchestrate
    no_upgrade w = ground (arith, s.upgrade_idle, s.effective_set, s.version_set, s.no_change)

    on_upgrade-IsSilent :
        (w w' : W)
        → stored w' ≡ stored w
        → IsSilent m w (on_upgrade o (reconcile_upgrade o.kube m w'))
    on_upgrade-IsSilent w w' same = rw (no_upgrade w') (
        step-IsSilent stateful_set_object "StatefulSet" (validate_or_provision o) m w w' same
          (provision-IsSilent w))

    -- While a running cluster that no upgrade is asked of has another number of ready members than the
    -- spec asks for, a pass whose objects are all applied ends before it reports: the phase stays
    -- Running and the conditions stay as they were, in memory and in the API server.
    unready_pass-IsSilent : (w : W) → IsSilent m w (reconcile o m w)
    unready_pass-IsSilent w = rw (running_resources w) (
        step-IsSilent keyfile_secret "KeyfileSecret" _ m w w refl (λ w1 e1.
          step-IsSilent tls_certificate "TLS" _ m w w1 e1 (λ w2 e2.
            step-IsSilent config_map "ConfigMap" _ m w w2 e2 (λ w3 e3.
              step-IsSilent custom_config_map "CustomConfigMap" _ m w w3 e3 (λ w4 e4.
                step-IsSilent headless_service "HeadlessService" _ m w w4 e4 (λ w5 e5.
                  step-IsSilent client_service "ClientService" _ m w w5 e5
                    (on_upgrade-IsSilent w)))))))
