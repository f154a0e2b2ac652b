-- ===== src/Cluster/Round.antt =====
-- A whole upgrade, pass by pass through Reconcile.
use mongodb_operator.Common.{
  String, true, false, Option, none, some, ◌≡◌, refl, sym, arith, ◌∙◌, is_empty, str_eq,
}
use mongodb_operator.Common.Int.{ℤ}
use mongodb_operator.Kube.{ApiError, ok}
use mongodb_operator.Mongo.{MongoDb, MongoDbStatus, idle, upgrading, validating, UpgradeStatus}
use mongodb_operator.Upgrade.Status.{wants_backup, init_upgrade, set_validating, complete_upgrade}
use mongodb_operator.Upgrade.Config.{fcv_major_minor, no_requeue, one_second}
use mongodb_operator.Upgrade.Fcv.{MayCommit}
use mongodb_operator.Upgrade.Machine.{
  proceed, handled, commit, orchestrate, dispatch, reconcile_upgrade, with_upgrade, commit_fcv,
  is_terminal,
}
use mongodb_operator.Upgrade.Progress.{
  IsValidating, in_validation, begun, begun-IsValidating, starts, completes, commit_fcv_value,
}
use mongodb_operator.Cluster.Outside.{
  Outside, Resource, requeue_after, keyfile_secret, tls_certificate, config_map, custom_config_map,
  headless_service, client_service, stateful_set_object,
}
use mongodb_operator.Cluster.Pass.{
  Pass, stored, is_new, applied, is_upgrading, on_upgrade, reconcile,
}

-- What a whole upgrade leaves of an object.
abbrev pub IsUpgraded : MongoDb → MongoDb → Type 0
IsUpgraded m done =
    (done.status.version ≡ m.spec_version)
    × (done.status.effective_version ≡ m.spec_version)
    × (done.status.previous_version ≡ m.status.version)
    × (done.status.fcv_version ≡ fcv_major_minor m.spec_version)
    × (done.status.rollback_active ≡ false)
    × (done.status.upgrade_phase ≡ idle)
    × (done.status.observed_upgrade_generation ≡ m.generation)

module _ {W : Type 0} (o : Outside W) where
  -- The objects can be applied, and the status can be written.
  pub record IsWorking : Type 0 where
    pub applies : (r : Resource) (m : MongoDb) (w : W) → (o.apply r m w).0 ≡ none
    pub writes : (s : MongoDbStatus) (w : W) → (o.kube.update_status s w).0 ≡ none

  -- The world behind the steps that stand before the upgrade.
  abbrev pub before_upgrade : MongoDb → W → W
  before_upgrade m w =
      let a = (o.apply keyfile_secret m w).1 in
      let b = (o.apply tls_certificate m a).1 in
      let c = (o.apply config_map m b).1 in
      let d = (o.apply custom_config_map m c).1 in
      let e = (o.apply headless_service m d).1 in (o.apply client_service m e).1

  applied_on :
      (name : String) (rest : Pass o) (m : MongoDb) (p : Option ApiError × W)
      → p.0 ≡ none
      → applied o name rest p m ≡ rest m p.1
  applied_on name rest m (none, w) h = refl
  applied_on name rest m (some e, w) h = cc

  stored_on :
      (rest : Pass o) (m : MongoDb) (p : Option ApiError × W)
      → p.0 ≡ none
      → stored o p rest m ≡ rest m p.1
  stored_on rest m (none, w) h = refl
  stored_on rest m (some e, w) h = cc

  module _ (h : IsWorking) where
    to_upgrade :
        (m : MongoDb) (w : W)
        → is_new m.status.phase ≡ false
        → reconcile o m w ≡ on_upgrade o (reconcile_upgrade o.kube m (before_upgrade m w))
    unfolding reconcile
    to_upgrade m w old = rw old (
        applied_on "KeyfileSecret" _ m _ (h.applies keyfile_secret m _)
        ∙ applied_on "TLS" _ m _ (h.applies tls_certificate m _)
        ∙ applied_on "ConfigMap" _ m _ (h.applies config_map m _)
        ∙ applied_on "CustomConfigMap" _ m _ (h.applies custom_config_map m _)
        ∙ applied_on "HeadlessService" _ m _ (h.applies headless_service m _)
        ∙ applied_on "ClientService" _ m _ (h.applies client_service m _))

    committed :
        (f : UpgradeStatus → UpgradeStatus) (d : ℤ) (m : MongoDb) (w : W)
        → let m' = with_upgrade (f m.status.upgrade) m in
          on_upgrade o (commit o.kube f (handled d) m w)
          ≡ (ok (requeue_after d), m', (o.kube.update_status m'.status w).1)
    unfolding commit
    committed f d m w = ground (arith, h.writes (with_upgrade (f m.status.upgrade) m).status w)

    rolled_out :
        (m : MongoDb) (w : W)
        → is_upgrading m.status.upgrade_phase ≡ true
        → let v = (o.apply stateful_set_object m w).1 in
          (on_upgrade o (ok proceed, m, w)).1 ≡ in_validation (o.kube.now v) m
    rolled_out m w p = ground (
      arith,
      h.applies stateful_set_object m w,
      h.writes (in_validation (o.kube.now (o.apply stateful_set_object m w).1) m).status
          (o.apply stateful_set_object m w).1,
    )

    proceeds :
        (m : MongoDb) (w : W)
        → m.status.upgrade_phase ≡ upgrading
        → is_empty m.status.effective_version ≡ false
        → is_empty m.status.version ≡ false
        → str_eq m.status.version m.spec_version ≡ false
        → reconcile_upgrade o.kube m w ≡ (ok proceed, m, w)
    unfolding reconcile_upgrade orchestrate dispatch
    proceeds m w p e v d = ground (arith, p)

    -- The object behind the first pass, and behind the second one.
    begins :
        (m : MongoDb) (w : W)
        → is_new m.status.phase ≡ false
        → m.status.upgrade_phase ≡ idle
        → is_empty m.status.effective_version ≡ false
        → is_empty m.status.version ≡ false
        → str_eq m.status.version m.spec_version ≡ false
        → is_terminal m ≡ false
        → wants_backup m.upgrade_strategy ≡ false
        → (reconcile o m w).1 ≡ begun o.kube m (before_upgrade m w)
    begins m w old p e v d n b =
        let v1 = before_upgrade m w in
        let f = init_upgrade (o.kube.now v1) m.status.version m.spec_version m.upgrade_strategy in
        rw (to_upgrade m w old, starts o.kube m v1 p e v d n b, committed f one_second m v1) refl

    -- An upgrade in the phase Upgrading does not end the pass: the StatefulSet is applied, and then the
    -- validation begins.
    goes_on :
        (m : MongoDb) (w : W)
        → is_new m.status.phase ≡ false
        → m.status.upgrade_phase ≡ upgrading
        → is_empty m.status.effective_version ≡ false
        → is_empty m.status.version ≡ false
        → str_eq m.status.version m.spec_version ≡ false
        → let v = (o.apply stateful_set_object m (before_upgrade m w)).1 in
          (reconcile o m w).1 ≡ in_validation (o.kube.now v) m
    goes_on m w old p e v d =
        rw (to_upgrade m w old, proceeds m (before_upgrade m w) p e v d)
          (rolled_out m (before_upgrade m w) (rw p refl))

    ends :
        (m : MongoDb) (w : W) (fcv : String)
        → is_new m.status.phase ≡ false
        → IsValidating m
        → MayCommit o.kube m (before_upgrade m w)
        → (commit_fcv o.kube m.spec_version m (before_upgrade m w)).0 ≡ ok fcv
        → let done = (commit_fcv o.kube m.spec_version m (before_upgrade m w)).1 in
          (reconcile o m w).1
          ≡ with_upgrade
              (complete_upgrade (o.kube.now done) m.generation m.spec_version fcv m.status.upgrade)
              m
    ends m w fcv old v may set =
        let done = (commit_fcv o.kube m.spec_version m (before_upgrade m w)).1 in
        let f = complete_upgrade (o.kube.now done) m.generation m.spec_version fcv in
        rw
          (
            to_upgrade m w old,
            completes o.kube m (before_upgrade m w) fcv v may set,
            committed f no_requeue m done,
          )
          refl

    begun-upgrading :
        (m : MongoDb) (w : W)
        → wants_backup m.upgrade_strategy ≡ false
        → (begun o.kube m w).status.upgrade_phase ≡ upgrading
    unfolding init_upgrade
    begun-upgrading m w b = ground arith

    second_pass :
        (m : MongoDb) (w w' : W)
        → is_new m.status.phase ≡ false
        → is_empty m.status.version ≡ false
        → is_empty m.spec_version ≡ false
        → str_eq m.status.version m.spec_version ≡ false
        → wants_backup m.upgrade_strategy ≡ false
        → let m' = begun o.kube m w in
          let v = (o.apply stateful_set_object m' (before_upgrade m' w')).1 in
          (reconcile o m' w').1 ≡ in_validation (o.kube.now v) m'
    unfolding init_upgrade
    second_pass m w w' old v s d b = goes_on (begun o.kube m w) w' old (begun-upgrading m w b) s v d

    finished :
        (m : MongoDb) (w w' : W) (t : ℤ) (fcv : String)
        → is_new m.status.phase ≡ false
        → is_empty m.status.version ≡ false
        → is_empty m.spec_version ≡ false
        → str_eq m.status.version m.spec_version ≡ false
        → let m' = in_validation t (begun o.kube m w) in
          MayCommit o.kube m' (before_upgrade m' w')
          → (commit_fcv o.kube m.spec_version m' (before_upgrade m' w')).0 ≡ ok fcv
          → IsUpgraded m (reconcile o m' w').1
    unfolding complete_upgrade init_upgrade set_validating
    finished m w w' t fcv old v s d may set =
        let m' = in_validation t (begun o.kube m w) in
        rw (ends m' w' fcv old (begun-IsValidating o.kube m w t s v d) may set) (
          refl,
          refl,
          refl,
          sym (commit_fcv_value o.kube m.spec_version m' (before_upgrade m' w') set),
          refl,
          refl,
          refl,
        )

  -- A whole upgrade with no backup, in three passes of Reconcile over an initialized cluster that is
  -- idle and whose spec asks for another version, when the objects can be applied, the status can be
  -- written, and in the third pass the FCV may be committed and SetFCV succeeds: the first one makes the
  -- spec's version the effective one, the second one goes to Validating, and behind the third one the
  -- recorded and the effective version are the spec's, the previous version is the old one, the FCV is
  -- the major.minor of the spec's version, no rollback is in effect, the phase is idle, and the
  -- generation has ended.
  pub upgrade_round :
      (m : MongoDb) (w w' w'' : W) (fcv : String)
      → IsWorking
      → is_new m.status.phase ≡ false
      → m.status.upgrade_phase ≡ idle
      → is_empty m.status.effective_version ≡ false
      → is_empty m.status.version ≡ false
      → is_empty m.spec_version ≡ false
      → str_eq m.status.version m.spec_version ≡ false
      → is_terminal m ≡ false
      → wants_backup m.upgrade_strategy ≡ false
      → let first = (reconcile o m w).1 in
        let second = (reconcile o first w').1 in
        MayCommit o.kube second (before_upgrade second w'')
        → (commit_fcv o.kube m.spec_version second (before_upgrade second w'')).0 ≡ ok fcv
        → (first.status.effective_version ≡ m.spec_version)
          × (second.status.upgrade_phase ≡ validating)
          × IsUpgraded m (reconcile o second w'').1
  unfolding init_upgrade set_validating
  upgrade_round m w w' w'' fcv h old p e v s d n b =
      let v1 = before_upgrade m w in
      rw (begins h m w old p e v d n b, second_pass h m v1 w' old v s d b)
        λ may set. (refl, refl, finished h m v1 w'' _ fcv old v s d may set)
