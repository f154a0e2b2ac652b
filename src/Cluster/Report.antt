-- ===== src/Cluster/Report.antt =====
-- What a pass reports at its end: recordPendingScale, areAllPodsReady and updateStatus.
use mongodb_operator.Common.{
  ℕ, String, Bool, true, false, ◌&&◌, Option, none, some, ltb, ◌==◌, if◌then◌else◌,
}
use mongodb_operator.Kube.{
  not_found, other, Error, api, wrapped, text, joined, Outcome, ok, err, StatefulSet,
}
use mongodb_operator.Kube.Exec.{Exec, or_error}
use mongodb_operator.Mongo.{MongoDb, MongoDbStatus, running, initializing, PendingScale}
use mongodb_operator.Upgrade.Status.{◌+++◌}
use mongodb_operator.Upgrade.Config.{get_admin_password}
use mongodb_operator.Cluster.Outside.{Outside}
use mongodb_operator.Cluster.Conditions.{
  is_all_ready, with_conditions, build_conditions, clear_reconcile_error_condition,
  record_primary_unreachable,
}

abbrev pub is_not_found : Error → Bool
is_not_found (api not_found) = true
is_not_found (api (other _)) = false
is_not_found (wrapped _ _) = false
is_not_found (text _ _) = false
is_not_found (joined _ _) = false

abbrev pub with_status : MongoDbStatus → MongoDb → MongoDb
with_status s m = record m { status = s }

-- IsRSScaleDeliberate
abbrev pub is_rs_scale_deliberate : Option Bool → Bool
is_rs_scale_deliberate none = false
is_rs_scale_deliberate (some b) = b

abbrev set_pending : Option PendingScale → MongoDb → MongoDb
set_pending p m = with_status (record m.status { pending_scale = p }) m

abbrev pending_of : ℕ → Outcome StatefulSet → MongoDb → MongoDb
pending_of desired (err _) m = m
pending_of desired (ok sts) m = elim sts.spec_replicas [
  | none ↦ m
  | some current ↦
      if current == desired
      then set_pending none m
      else set_pending (some (record { current_members = current; desired_members = desired })) m
]

abbrev pub ready_of : Outcome StatefulSet → MongoDb → Outcome MongoDb
ready_of (ok sts) m = ok (with_status (record m.status { ready_members = sts.ready_replicas }) m)
ready_of (err e) m =
    if is_not_found e then ok (with_status (record m.status { ready_members = 0 }) m) else err e

abbrev pub set_phase : MongoDb → MongoDb
set_phase m =
    let phase =
      if is_all_ready m
      then running
      else if ltb 0 m.status.ready_members
      then initializing
      else m.status.phase in
    with_status (record m.status { phase = phase }) m

module _ {W : Type 0} (o : Outside W) where
  -- recordPendingScale, without the time and the reason: a record that is there already is kept.
  unfoldable pub record_pending_scale : MongoDb → W → MongoDb
  record_pending_scale m w =
      if is_rs_scale_deliberate m.scale_deliberate
      then set_pending none m
      else pending_of m.members (o.kube.get_stateful_set m.name w) m

  abbrev ready_equals : ℕ → Outcome StatefulSet → Outcome Bool
  ready_equals members (err e) = err e
  ready_equals members (ok sts) = ok (sts.ready_replicas == members)

  -- areAllPodsReady
  unfoldable pub are_all_pods_ready : MongoDb → W → Outcome Bool
  are_all_pods_ready m w =
      if m.members == 0 then ok false else ready_equals m.members (o.kube.get_stateful_set m.name w)

  abbrev pub looked_up : W → Outcome String → MongoDb → MongoDb
  looked_up w (err e) m = record_primary_unreachable o w "PrimaryLookupFailed" e m
  looked_up w (ok pod) m = with_status (record m.status { current_primary = pod }) m

  abbrev pub look_up_with : W → Outcome String → MongoDb → MongoDb
  look_up_with w (err e) m =
      record_primary_unreachable o w "ManagerCreateFailed" (wrapped "get admin password" e) m
  look_up_with w (ok password) m = looked_up w (o.get_primary_pod password (m.name +++ "-0") w) m

  abbrev pub look_up_primary : W → MongoDb → MongoDb
  look_up_primary w m =
      if m.status.replica_set_initialized && m.status.admin_user_created
      then look_up_with w (get_admin_password o.kube m.admin_secret w) m
      else m

  abbrev connection_string_of : MongoDb → String
  connection_string_of m =
      "mongodb://" +++ m.name +++ "-headless." +++ m.namespace
      +++ ".svc.cluster.local:27017/?replicaSet=" +++ m.replica_set_name

  -- applyStatus
  unfoldable pub apply_status : W → MongoDb → MongoDb
  unfolding build_conditions clear_reconcile_error_condition
  apply_status w m =
      let m1 =
        with_status
          (record m.status {
            upgrade = record m.status.upgrade { version = m.spec_version };
            connection_string = connection_string_of m;
            observed_generation = m.generation;
          })
          m in
      let m2 =
        with_conditions (clear_reconcile_error_condition o w m1.generation m1.status.conditions)
          m1 in
      with_conditions (build_conditions o w m2) m2

  abbrev pub store : MongoDb → W → Outcome Bool × MongoDb × W
  store m w = let (e, w') = o.kube.update_status m.status w in (or_error e true, m, w')

  abbrev pub report_ready : Outcome MongoDb → Exec MongoDb W Bool
  report_ready (err e) m w = (err e, m, w)
  report_ready (ok m') m w = store (apply_status w (look_up_primary w (set_phase m'))) w

  -- updateStatus; the Boolean of a result stands for a nil error.
  unfoldable pub update_status : Exec MongoDb W Bool
  unfolding get_admin_password record_primary_unreachable apply_status
  update_status m w = report_ready (ready_of (o.kube.get_stateful_set m.name w) m) m w
