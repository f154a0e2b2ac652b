-- ===== src/Cluster/AdminUser.antt =====
-- The admin user of a replica set: reconcileAdminUser and verifyAdminUser of mongodb_controller.go, and
-- reconcilePasswordRotation of password_rotation.go. The Boolean of a result stands for a nil error.
use mongodb_operator.Common.{
  ℕ, zero, suc, String, Bool, true, false, ◌||◌, Option, none, some, str_eq, if◌then◌else◌,
  is_empty, not,
}
use mongodb_operator.Common.Int.{ℤ, pos, ltb_ℤ, ◌+ℤ◌, pos_part}
use mongodb_operator.Kube.{ApiError, Error, api, wrapped, text, joined, Outcome, ok, err, Secret}
use mongodb_operator.Kube.Exec.{Exec, or_error}
use mongodb_operator.Mongo.{MongoDb}
use mongodb_operator.Upgrade.Status.{◌+++◌, set_upgrade_condition}
use mongodb_operator.Upgrade.Config.{seconds, get_admin_password}
use mongodb_operator.Upgrade.Machine.{with_upgrade}
use mongodb_operator.Cluster.Lease.{Lease, acquire_bootstrap_lease, release_bootstrap_lease}
use mongodb_operator.Cluster.Outside.{Outside}
use mongodb_operator.Cluster.Report.{with_status}
use mongodb_operator.Shards.Hosts.{get_pod_fqdn}

-- errBootstrapBusy, and `errors.Is(err, errBootstrapBusy)`
abbrev pub bootstrap_busy : Error
bootstrap_busy = text "bootstrap lease busy" ""

unfoldable pub is_bootstrap_busy : Error → Bool
is_bootstrap_busy (api _) = false
is_bootstrap_busy (wrapped _ e) = is_bootstrap_busy e
is_bootstrap_busy (text s _) = str_eq s "bootstrap lease busy"
is_bootstrap_busy (joined e f) = is_bootstrap_busy e || is_bootstrap_busy f

module _ {W : Type 0} (o : Outside W) where
  -- The end of the loop's select: the context is done, or a second has passed.
  abbrev pub waited : Bool × W → (W → Option (Outcome Bool) × W) → Option (Outcome Bool) × W
  waited (true, w) rest = (some (err (text "context canceled" "")), w)
  waited (false, w) rest = rest w

  abbrev pub looked :
      ℤ → Outcome Bool × W → (W → Option (Outcome Bool) × W) → Option (Outcome Bool) × W
  looked deadline (ok true, w) rest = (some (ok true), w)
  looked deadline (ok false, w) rest =
      if not (ltb_ℤ (o.kube.now w) deadline)
      then (
        some (
            err (
              wrapped "verify admin user timeout(5s)"
                (text "admin user not visible (oplog sync pending?)" ""))),
        w,
      )
      else waited (o.wait_second w) rest
  looked deadline (err e, w) rest =
      if not (ltb_ℤ (o.kube.now w) deadline)
      then (some (err (wrapped "verify admin user timeout(5s)" (wrapped "usersInfo" e))), w)
      else waited (o.wait_second w) rest

  -- The loop of verifyAdminUser until the deadline, of at most `fuel` look-ups: `none` is a loop that
  -- wants another one.
  unfoldable pub verify_rounds : ℕ → ℤ → String → String → W → Option (Outcome Bool) × W
  unfolding ◌+ℤ◌
  verify_rounds zero deadline password pod w = (none, w)
  verify_rounds (suc fuel) deadline password pod w =
      looked deadline (o.user_exists password pod w) (verify_rounds fuel deadline password pod)

  abbrev verified : Option (Outcome Bool) × W → Outcome Bool × W
  verified (some r, w) = (r, w)
  verified (none, w) = (err (text "verify admin user timeout(5s)" ""), w)

  abbrev pub deadline_of : W → ℤ
  deadline_of w = o.kube.now w +ℤ pos (seconds 5)

  -- verifyAdminUser
  unfoldable pub verify_admin_user : String → MongoDb → W → Outcome Bool × W
  unfolding verify_rounds
  verify_admin_user password m w =
      verified (verify_rounds 6 (deadline_of w) password (m.name +++ "-0") w)

  abbrev set_created : MongoDb → MongoDb
  set_created m = with_status (record m.status { admin_user_created = true }) m

  abbrev on_verified : Outcome Bool × W → MongoDb → Outcome Bool × MongoDb × W
  on_verified (err e, w) m = (err (wrapped "verify admin user post-bootstrap" e), m, w)
  on_verified (ok _, w) m =
      let m' = set_created m in
      let (e, w') = o.kube.update_status m'.status w in (or_error e true, m', w')

  abbrev on_created : String → Option ApiError × W → MongoDb → Outcome Bool × MongoDb × W
  on_created password (some e, w) m = (err (wrapped "bootstrap admin user" (api e)), m, w)
  on_created password (none, w) m = on_verified (verify_admin_user password m w) m

  abbrev bootstrap_with : Outcome String → Exec MongoDb W Bool
  bootstrap_with (err e) m w = (err (wrapped "failed to get admin password" e), m, w)
  bootstrap_with (ok password) m w =
      on_created password
        (o.bootstrap_admin_user
          (get_pod_fqdn (λ n. o.decimal (pos_part n)) (m.name +++ "-0") (m.name +++ "-headless")
            m.namespace 27017)
          password w)
        m

  -- The deferred release.
  abbrev released : String → Outcome Bool × MongoDb × W → Outcome Bool × MongoDb × W
  released name (r, m, w) = (r, m, release_bootstrap_lease o.lease name w)

  abbrev acquired : Outcome (Option Lease) × W → MongoDb → Outcome Bool × MongoDb × W
  acquired (err e, w) m = (err (wrapped "acquire bootstrap lease" e), m, w)
  acquired (ok none, w) m = (err bootstrap_busy, m, w)
  acquired (ok (some l), w) m =
      released m.name (bootstrap_with (get_admin_password o.kube m.admin_secret w) m w)

  -- reconcileAdminUser
  unfoldable pub reconcile_admin_user : Exec MongoDb W Bool
  unfolding verify_admin_user get_admin_password get_pod_fqdn acquire_bootstrap_lease
      release_bootstrap_lease
  reconcile_admin_user m w = acquired (acquire_bootstrap_lease o.lease o.holder m.name w) m

  abbrev set_hash : String → MongoDb → MongoDb
  set_hash h m = record m { auth_secret_hash = h }

  abbrev set_pending : W → MongoDb → MongoDb
  set_pending w m =
      with_upgrade
        (record m.status.upgrade {
          conditions =
              set_upgrade_condition (o.kube.now w) "PasswordRotationPending" "SecretChanged"
                "Admin credentials Secret has changed, password rotation pending"
                m.status.conditions;
        })
        m

  abbrev updated : Exec MongoDb W Bool
  updated m w = let (e, w') = o.update_object m w in (or_error e true, m, w')

  abbrev marked : Option ApiError × W → MongoDb → Outcome Bool × MongoDb × W
  marked (some e, w) m = (err (api e), m, w)
  marked (none, w) m = updated m w

  abbrev rotation_of : String → Exec MongoDb W Bool
  rotation_of h m w =
      if is_empty m.auth_secret_hash
      then updated (set_hash h m) w
      else if str_eq m.auth_secret_hash h
      then (ok true, m, w)
      else let m' = set_hash h (set_pending w m) in marked (o.kube.update_status m'.status w) m'

  abbrev on_secret : Outcome Secret → Exec MongoDb W Bool
  on_secret (err e) m w = (err e, m, w)
  on_secret (ok secret) m w = rotation_of (o.secret_hash secret) m w

  -- reconcilePasswordRotation
  unfoldable pub reconcile_password_rotation : Exec MongoDb W Bool
  unfolding set_upgrade_condition
  reconcile_password_rotation m w =
      if is_empty m.admin_secret
      then (ok true, m, w)
      else on_secret (o.kube.get_secret m.admin_secret w) m w
