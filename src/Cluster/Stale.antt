-- ===== src/Cluster/Stale.antt =====
-- What the recorded status says when members are lost, and after an upgrade has failed.
use mongodb_operator.Common.{
  ℕ, String, Bool, true, false, ◌≡◌, ◌≢◌, refl, arith, str_eq, is_empty, ap, sym, ◌∙◌, ◌+◌, ◌≤◌,
}
use mongodb_operator.Kube.{Outcome, ok, err, StatefulSet}
use mongodb_operator.Mongo.{MongoDb, UpgradePhase, idle}
use mongodb_operator.Upgrade.Status.{init_upgrade}
use mongodb_operator.Upgrade.Machine.{reconcile_upgrade, orchestrate, dispatch, commit}
use mongodb_operator.Cluster.Outside.{Outside}
use mongodb_operator.Cluster.Conditions.{record_primary_unreachable}
use mongodb_operator.Cluster.Report.{
  update_status, apply_status, ready_of, set_phase, look_up_primary, report_ready,
}

abbrev Core : Type 0
Core = String × String × String × UpgradePhase × Bool × ℕ × ℕ × String

-- The fields that updateStatus has nothing to do with, and the version.
abbrev pub core : MongoDb → Core
core m = (
  m.status.version, m.status.effective_version, m.status.previous_version, m.status.upgrade_phase,
  m.status.rollback_active, m.status.observed_upgrade_generation, m.generation, m.spec_version,
)

-- The version of the spec is written into the status.
abbrev pub reported : Core → Core
reported (version, effective, previous, phase, rollback, observed, generation, spec) =
    (spec, effective, previous, phase, rollback, observed, generation, spec)

abbrev core_of : Outcome MongoDb → MongoDb → Core
core_of (ok m') m = core m'
core_of (err e) m = core m

ready_of-core : (x : Outcome StatefulSet) (m : MongoDb) → core_of (ready_of x m) m ≡ core m
ready_of-core x m = ground arith

module _ {W : Type 0} (o : Outside W) where
  look_up-core : (w : W) (m : MongoDb) → core (look_up_primary o w m) ≡ core m
  unfolding record_primary_unreachable
  look_up-core w m = ground arith

  apply_status-core : (w : W) (m : MongoDb) → core (apply_status o w m) ≡ reported (core m)
  unfolding apply_status
  apply_status-core w m = refl

  report_ready-core :
      (x : Outcome MongoDb) (m : MongoDb) (w : W)
      → core_of x m ≡ core m
      → (report_ready o x m w).0 ≡ ok true
      → core (report_ready o x m w).1 ≡ reported (core m)
  report_ready-core (ok m') m w same h =
      apply_status-core w (look_up_primary o w (set_phase m'))
      ∙ ap reported (look_up-core w (set_phase m') ∙ same)
  report_ready-core (err e) m w same h = ground (arith, h)

  update_status-core :
      (m : MongoDb) (w : W)
      → (update_status o m w).0 ≡ ok true
      → core (update_status o m w).1 ≡ reported (core m)
  unfolding update_status
  update_status-core m w h =
      let sets = o.kube.get_stateful_set m.name w in
      report_ready-core (ready_of sets m) m w (ready_of-core sets m) h

  abbrev pub after_report : MongoDb → W → MongoDb
  after_report m w = (update_status o m w).1

  -- A spec that is edited to another version.
  abbrev pub edited : String → MongoDb → MongoDb
  edited version m = record m { spec_version = version; generation = m.generation + 1 }

  next_previous :
      (m : MongoDb) (w : W) (version : String)
      → m.status.upgrade_phase ≡ idle
      → m.status.observed_upgrade_generation ≤ m.generation
      → is_empty m.status.effective_version ≡ false
      → is_empty m.status.version ≡ false
      → str_eq m.status.version version ≡ false
      → (reconcile_upgrade o.kube (edited version m) w).1.status.previous_version ≡ m.status.version
  unfolding reconcile_upgrade orchestrate dispatch commit init_upgrade
  next_previous m w version idle_phase observed effective set differ =
      ground (arith, idle_phase, observed, effective, set, differ)

  -- After an upgrade has been rolled back or has failed (no upgrade is under way, the generation is
  -- recorded as ended, and the deployed version is not the spec's), a pass that reports its status
  -- records the spec's version as the running one, though it is not deployed; and an upgrade to a
  -- further version takes it for the version to go back to.
  pub failed_version_reported :
      (m : MongoDb) (w w' : W) (version : String)
      → (update_status o m w).0 ≡ ok true
      → m.status.upgrade_phase ≡ idle
      → m.status.observed_upgrade_generation ≤ m.generation
      → m.status.effective_version ≢ m.spec_version
      → is_empty m.status.effective_version ≡ false
      → is_empty m.spec_version ≡ false
      → str_eq m.spec_version version ≡ false
      → let m' = after_report m w in
        (m'.status.version ≡ m.spec_version)
        × (m'.status.effective_version ≢ m'.status.version)
        × ((reconcile_upgrade o.kube (edited version m') w').1.status.previous_version
            ≡ m.spec_version)
  failed_version_reported m w w' version ok_report idle_phase observed other effective spec differ =
      let same = update_status-core m w ok_report in
      let m' = after_report m w in
      let now : m'.status.version ≡ m.spec_version = ap (λ (c : Core). c.0) same in
      let deployed : m'.status.effective_version ≡ m.status.effective_version =
        ap (λ (c : Core). c.1) same in
      (
        now,
        (λ e. other (sym deployed ∙ e ∙ now)),
        next_previous m' w' version (ap (λ (c : Core). c.3) same ∙ idle_phase)
              (rw (ap (λ (c : Core). c.5) same, ap (λ (c : Core). c.6) same) observed)
              (ap is_empty deployed ∙ effective) (ap is_empty now ∙ spec)
              (ap (λ (v : String). str_eq v version) now ∙ differ)
            ∙ now,
      )
