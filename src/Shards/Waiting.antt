-- ===== src/Shards/Waiting.antt =====
-- A pass over a sharded cluster whose config server is not ready.
use mongodb_operator.Common.{
  ℕ, String, Bool, true, false, Option, none, some, ◌≡◌, refl, ◌∙◌, arith, if◌then◌else◌, is_empty,
}
use mongodb_operator.Kube.{Api, ApiError, Outcome, ok, err}
use mongodb_operator.Mongo.{MongoDbSharded, ShardedStatus, UpgradePhase, initializing}
use mongodb_operator.Upgrade.Machine.{Step, proceed, handled}
use mongodb_operator.Kube.Exec.{resume, or_error}
use mongodb_operator.Upgrade.Status.{seed}
use mongodb_operator.Upgrade.Sharded.{
  with_upgrade, reconcile_sharded_upgrade, dispatch, commit, orchestrate,
  reconcile_sharded_upgrade_backup, reconcile_sharded_upgrade_validation,
  reconcile_sharded_upgrade_rollback,
}
use mongodb_operator.Cluster.Pass.{is_new}
use mongodb_operator.Shards.Services.{
  Services, Resource, tls_certificate, keyfile_secret, config_server_scripts, config_server_service,
  config_server_stateful_set,
}
use mongodb_operator.Shards.Init.{with_status}
use mongodb_operator.Shards.Report.{is_config_server_ready}
use mongodb_operator.Shards.Pass.{
  Pass, applied, step, scripts, stored, config_server, on_config_server, on_upgrade, resources,
  reconcile,
}

-- The resources of the steps 0.5 to 2.
abbrev pub is_first : Resource → Bool
is_first tls_certificate = true
is_first keyfile_secret = true
is_first config_server_scripts = true
is_first config_server_service = true
is_first config_server_stateful_set = true
is_first _ = false

module _ {W : Type 0} (k : Api W ShardedStatus) where
  -- The upgrade changes nothing of the spec.
  dispatch-members :
      (p : UpgradePhase) (m : MongoDbSharded) (w : W)
      → (dispatch k p m w).1.config_members ≡ m.config_members
  unfolding dispatch commit reconcile_sharded_upgrade_backup reconcile_sharded_upgrade_validation
      reconcile_sharded_upgrade_rollback
  dispatch-members p m w = ground arith

  orchestrate-members :
      (m : MongoDbSharded) (w : W) → (orchestrate k m w).1.config_members ≡ m.config_members
  unfolding orchestrate commit
  orchestrate-members m w = ground (arith, dispatch-members m.status.upgrade_phase m w)

  resume-members :
      (r : Outcome Step) (m : MongoDbSharded) (w : W)
      → (resume r (λ _. orchestrate k) m w).1.config_members ≡ m.config_members
  resume-members (ok a) m w = orchestrate-members m w
  resume-members (err e) m w = refl

  upgrade-members :
      (m : MongoDbSharded) (w : W)
      → (reconcile_sharded_upgrade k m w).1.config_members ≡ m.config_members
  unfolding reconcile_sharded_upgrade commit
  upgrade-members m w =
      let m' = with_upgrade (seed m.spec_version m.status.upgrade) m in
      let (e, w') = k.update_status m'.status w in
      ground (arith, orchestrate-members m w, resume-members (or_error e proceed) m' w')

module _ {W : Type 0} (s t : Services W) where
  -- The services `t`, with the API and the first resources of `s`.
  abbrev pub with_first : Services W
  with_first = record t {
    kube = s.kube;
    apply_error_condition = s.apply_error_condition;
    apply = λ r m w. if is_first r then s.apply r m w else t.apply r m w;
  }

  module _ (members : ℕ) where
    -- Two passes with the same result, for the objects with that many members of the config server.
    abbrev Agrees : Pass with_first → Pass s → Type 0
    Agrees p q = (m : MongoDbSharded) (w : W) → m.config_members ≡ members → p m w ≡ q m w

    applied-Agrees :
        (name : String) (p : Pass with_first) (q : Pass s) (r : Option ApiError × W)
        (m : MongoDbSharded)
        → Agrees p q
        → m.config_members ≡ members
        → applied with_first name p r m ≡ applied s name q r m
    applied-Agrees name p q (none, w) m h e = h m w e
    applied-Agrees name p q (some x, w) m h e = refl

    step-Agrees :
        (r : Resource) (name : String) (p : Pass with_first) (q : Pass s)
        → is_first r ≡ true
        → Agrees p q
        → Agrees (step with_first r name p) (step s r name q)
    step-Agrees r name p q first h m w e = rw first (applied-Agrees name p q (s.apply r m w) m h e)

    scripts-Agrees :
        (r : Resource) (name : String) (p : Pass with_first) (q : Pass s)
        → is_first r ≡ true
        → Agrees p q
        → Agrees (scripts with_first r name p) (scripts s r name q)
    scripts-Agrees r name p q first h m w e = go (is_empty m.admin_secret)
      where
        go :
            (b : Bool)
            → (if b then p m w else step with_first r name p m w)
              ≡ (if b then q m w else step s r name q m w)
        go true = h m w e
        go false = step-Agrees r name p q first h m w e

    module _
        (unready : (m : MongoDbSharded) (w : W)
          → m.config_members ≡ members
          → is_config_server_ready s m w ≡ false) where
      waiting-Agrees : Agrees (on_config_server with_first) (on_config_server s)
      unfolding is_config_server_ready
      waiting-Agrees m w e = ground (arith, unready m w e)

      config_server-Agrees : Agrees (config_server with_first) (config_server s)
      config_server-Agrees = scripts-Agrees config_server_scripts "ConfigServer" _ _ refl (
          step-Agrees config_server_service "ConfigServer" _ _ refl
            (step-Agrees config_server_stateful_set "ConfigServer" _ _ refl waiting-Agrees))

      upgrade_agrees :
          (x : Outcome Step × MongoDbSharded × W)
          → x.1.config_members ≡ members
          → on_upgrade with_first x ≡ on_upgrade s x
      upgrade_agrees (err _, m, w) e = refl
      upgrade_agrees (ok (handled d), m, w) e = refl
      upgrade_agrees (ok proceed, m, w) e = config_server-Agrees m w e

      resources-Agrees : Agrees (resources with_first) (resources s)
      resources-Agrees = step-Agrees tls_certificate "TLSCertificate" _ _ refl (
          step-Agrees keyfile_secret "KeyfileSecret" _ _ refl (λ m w e.
            upgrade_agrees (reconcile_sharded_upgrade s.kube m w) (upgrade-members s.kube m w ∙ e)))

      stored_agrees :
          (x : Option ApiError × W) (m : MongoDbSharded)
          → m.config_members ≡ members
          → stored with_first x (resources with_first) m ≡ stored s x (resources s) m
      stored_agrees (none, w) m e = resources-Agrees m w e
      stored_agrees (some x, w) m e = refl

      opening_agrees :
          (new : Bool) (m m' : MongoDbSharded) (w : W) (x : Option ApiError × W)
          → m.config_members ≡ members
          → m'.config_members ≡ members
          → (if new
              then stored with_first x (resources with_first) m'
              else resources with_first m w)
            ≡ (if new then stored s x (resources s) m' else resources s m w)
      opening_agrees true m m' w x e e' = stored_agrees x m' e'
      opening_agrees false m m' w x e e' = resources-Agrees m w e

  -- As long as the config server does not have the members that the spec asks for ready, a pass touches
  -- no shard, no mongos and no database, and no autoscaler: apart from the API, the certificate, the
  -- keyfile and the objects of the config server, all that it may call can be replaced by any other
  -- functions, and it does the same.
  unready_config_server_holds_all :
      (m : MongoDbSharded) (w : W)
      → ((n : MongoDbSharded) (v : W)
          → n.config_members ≡ m.config_members
          → is_config_server_ready s n v ≡ false)
      → reconcile with_first m w ≡ reconcile s m w
  unfolding reconcile
  unready_config_server_holds_all m w unready =
      let m' = with_status (record m.status { phase = initializing }) m in
      opening_agrees m.config_members unready (is_new m.status.phase) m m' w
        (s.kube.update_status m'.status w) refl refl
