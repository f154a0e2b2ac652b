-- ===== src/Cluster/Mutex.antt =====
-- The bootstrap lease keeps other processes out until its deadline, or until any process releases it.
use mongodb_operator.Common.{
  String, Bool, true, false, Option, none, some, ◌≡◌, refl, arith, ap, str_eq, if◌then◌else◌,
}
use mathlib.Core.Path.{subst}
use mongodb_operator.Common.Int.{ℤ, pos, ltb_ℤ, ◌+ℤ◌}
use mongodb_operator.Kube.{Outcome, ok, err}
use mongodb_operator.Upgrade.Config.{seconds}
use mongodb_operator.Cluster.Lease.{
  Lease, Written, accepted, conflict, failed_write, LeaseApi, IsLeaseServer, claimed,
  bootstrap_lease_name, bootstrap_lease_duration, is_valid_for_other, acquire_bootstrap_lease,
  release_bootstrap_lease, on_written, on_lease,
}

-- The lease is the one that the process claimed at the given time.
pub record IsClaim (me : String) (now : ℤ) (l : Lease) : Type 0 where
  pub holder : l.holder_identity ≡ some me
  pub duration : l.lease_duration_seconds ≡ some bootstrap_lease_duration
  pub renewed : l.renew_time ≡ some now

claimed-IsClaim :
    (me version : String) (now : ℤ) (l : Lease)
    → record l { resource_version = version } ≡ claimed me now version
    → IsClaim me now l
claimed-IsClaim me version now l e = record {
  holder = ap (λ (x : Lease). x.holder_identity) e;
  duration = ap (λ (x : Lease). x.lease_duration_seconds) e;
  renewed = ap (λ (x : Lease). x.renew_time) e;
}

claim-valid :
    (me other : String) (start now : ℤ) (l : Lease)
    → IsClaim me start l
    → str_eq me other ≡ false
    → ltb_ℤ now (start +ℤ pos (seconds bootstrap_lease_duration)) ≡ true
    → is_valid_for_other other now l ≡ true
unfolding is_valid_for_other
claim-valid me other start now l c ne early =
    ground (arith, c.holder, c.duration, c.renewed, ne, early)

abbrev lease_or : Lease → Outcome (Option Lease) → Lease
lease_or d (ok (some l)) = l
lease_or d (ok none) = d
lease_or d (err e) = d

module _ {W : Type 0} (k : LeaseApi W) (stored : String → W → Option Lease)
    (h : IsLeaseServer k stored) where
  -- The process has the lease of an acquisition at the given time.
  pub record IsHolder (me object : String) (now : ℤ) (l : Lease) (w : W) : Type 0 where
    pub claim : IsClaim me now l
    pub is_stored : stored (bootstrap_lease_name object) w ≡ some l

  Accepts : String → Lease → Written × W → Type 0
  Accepts name l (x, w) =
      (l' : Lease)
      → x ≡ accepted l'
      → (stored name w ≡ some l') × (record l' { resource_version = l.resource_version } ≡ l)

  written-IsHolder :
      (me object version : String) (now : ℤ) (l : Lease) (x : Written × W)
      → Accepts (bootstrap_lease_name object) (claimed me now version) x
      → (on_written k x).0 ≡ ok (some l)
      → IsHolder me object now l (on_written k x).1
  unfolding Accepts
  written-IsHolder me object version now l (accepted l', w) a e =
      let (at, same) = a l' refl in
      subst (λ (x : Lease). IsHolder me object now x w) (ap (lease_or l') e)
        (record { claim = claimed-IsClaim me version now l' same; is_stored = at })
  written-IsHolder me object version now l (conflict, w) a e = ground (arith, e)
  written-IsHolder me object version now l (failed_write x, w) a e = ground (arith, e)

  guarded-IsHolder :
      (me object version : String) (now : ℤ) (l : Lease) (busy : Bool) (w : W) (x : Written × W)
      → Accepts (bootstrap_lease_name object) (claimed me now version) x
      → (if busy then (ok none, w) else on_written k x).0 ≡ ok (some l)
      → IsHolder me object now l (if busy then (ok none, w) else on_written k x).1
  guarded-IsHolder me object version now l true w x a e = ground (arith, e)
  guarded-IsHolder me object version now l false w x a e =
      written-IsHolder me object version now l x a e

  lease-IsHolder :
      (me object : String) (now : ℤ) (l : Lease) (o : Option Lease) (w : W)
      → (on_lease k me (bootstrap_lease_name object) now (ok o, w)).0 ≡ ok (some l)
      → IsHolder me object now l (on_lease k me (bootstrap_lease_name object) now (ok o, w)).1
  unfolding Accepts
  lease-IsHolder me object now l none w e =
      written-IsHolder me object "" now l
        (k.create_lease (bootstrap_lease_name object) (claimed me now "") w)
        (λ l' a. h.creates (bootstrap_lease_name object) (claimed me now "") l' w a) e
  lease-IsHolder me object now l (some old) w e =
      guarded-IsHolder me object old.resource_version now l (is_valid_for_other me (k.now w) old) w
        (k.update_lease (bootstrap_lease_name object) (claimed me now old.resource_version) w)
        (λ l' a.
          h.updates (bootstrap_lease_name object) (claimed me now old.resource_version) l' w a)
        e

  acquired-IsHolder :
      (me object : String) (l : Lease) (w : W)
      → (acquire_bootstrap_lease k me object w).0 ≡ ok (some l)
      → IsHolder me object (k.now w) l (acquire_bootstrap_lease k me object w).1
  unfolding acquire_bootstrap_lease
  acquired-IsHolder me object l w =
      rw (h.gets (bootstrap_lease_name object) w)
        (lease-IsHolder me object (k.now w) l (stored (bootstrap_lease_name object) w) w)

  -- When a process has acquired the lease of an object, and the lease is still stored later on, then
  -- no other process acquires it before 30 seconds have passed since the first one read its clock:
  -- its answer is busy, and it has changed nothing.
  pub acquired_excludes :
      (me other object : String) (l : Lease) (w later : W)
      → (acquire_bootstrap_lease k me object w).0 ≡ ok (some l)
      → stored (bootstrap_lease_name object) later ≡ some l
      → str_eq me other ≡ false
      → ltb_ℤ (k.now later) (k.now w +ℤ pos (seconds bootstrap_lease_duration)) ≡ true
      → acquire_bootstrap_lease k other object later ≡ (ok none, later)
  unfolding acquire_bootstrap_lease
  acquired_excludes me other object l w later got kept differ early =
      let c = (acquired-IsHolder me object l w got).claim in
      rw
        (
          h.gets (bootstrap_lease_name object) later,
          kept,
          claim-valid me other (k.now w) (k.now later) l c differ early,
        )
        refl

  -- A release does not look at the holder: after it, the acquisition of any process asks for a new
  -- lease, whoever held the old one and however early it is.
  release_admits_others :
      (other object : String) (w : W)
      → let w' = release_bootstrap_lease k object w in
        acquire_bootstrap_lease k other object w'
        ≡ on_written k
            (k.create_lease (bootstrap_lease_name object) (claimed other (k.now w') "") w')
  unfolding acquire_bootstrap_lease release_bootstrap_lease
  release_admits_others other object w =
      let w' = release_bootstrap_lease k object w in
      rw (h.gets (bootstrap_lease_name object) w', h.deletes (bootstrap_lease_name object) w) refl
