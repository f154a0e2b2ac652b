-- ===== src/Cluster/Lease.antt =====
-- internal/controller/bootstrap_lease.go: the lease that keeps two processes from creating the admin
-- user of one object at the same time.
use mongodb_operator.Common.{
  ℕ, String, Bool, false, not, ◌&&◌, Option, none, some, ◌≡◌, str_eq, if◌then◌else◌,
}
use mongodb_operator.Common.Int.{ℤ, pos, ltb_ℤ, ◌+ℤ◌, scale}
use mongodb_operator.Kube.{Error, Outcome, ok, err}
use mongodb_operator.Upgrade.Status.{◌+++◌}
use mongodb_operator.Upgrade.Config.{seconds}

-- coordinationv1.Lease: the fields of its spec, each a pointer, and the resource version.
pub record Lease : Type 0 where
  pub holder_identity : Option String
  pub lease_duration_seconds : Option ℕ
  pub acquire_time : Option ℤ
  pub renew_time : Option ℤ
  pub resource_version : String

-- The answer to a write: `conflict` is AlreadyExists of a Create, or Conflict of an Update.
pub data Written : Type 0 where
  accepted : Lease → Written
  conflict : Written
  failed_write : Error → Written

-- The API server, for one namespace, with the clock. `get_lease` returns none for NotFound.
pub record LeaseApi (W : Type 0) : Type 0 where
  pub now : W → ℤ
  pub get_lease : String → W → Outcome (Option Lease) × W
  pub create_lease : String → Lease → W → Written × W
  pub update_lease : String → Lease → W → Written × W
  pub delete_lease : String → W → W

abbrev pub bootstrap_lease_duration : ℕ
bootstrap_lease_duration = 30

-- bootstrapLeaseName
abbrev pub bootstrap_lease_name : String → String
bootstrap_lease_name name = "mongodb-bootstrap-" +++ name

-- The spec that a process writes for itself.
abbrev pub claimed : String → ℤ → String → Lease
claimed holder now version = record {
  holder_identity = some holder;
  lease_duration_seconds = some bootstrap_lease_duration;
  acquire_time = some now;
  renew_time = some now;
  resource_version = version;
}

-- Another holder's lease, at a time before its deadline.
unfoldable pub is_valid_for_other : String → ℤ → Lease → Bool
unfolding scale ◌+ℤ◌
is_valid_for_other me now l = elim l.holder_identity [
  | none ↦ false
  | some holder ↦ elim l.renew_time [
    | none ↦ false
    | some renew ↦ elim l.lease_duration_seconds [
      | none ↦ false
      | some duration ↦ not (str_eq holder me) && ltb_ℤ now (renew +ℤ pos (seconds duration))
    ]
  ]
]

module _ {W : Type 0} (k : LeaseApi W) where
  abbrev pub on_written : Written × W → Outcome (Option Lease) × W
  on_written (accepted l, w) = (ok (some l), w)
  on_written (conflict, w) = (ok none, w)
  on_written (failed_write e, w) = (err e, w)

  -- The second clock reading comes behind the Get.
  abbrev pub on_lease :
      String → String → ℤ → Outcome (Option Lease) × W → Outcome (Option Lease) × W
  on_lease me name now (err e, w) = (err e, w)
  on_lease me name now (ok none, w) = on_written (k.create_lease name (claimed me now "") w)
  on_lease me name now (ok (some l), w) =
      if is_valid_for_other me (k.now w) l
      then (ok none, w)
      else on_written (k.update_lease name (claimed me now l.resource_version) w)

  -- acquireBootstrapLease of the process `me`: `ok none` is `(nil, false, nil)`, the busy answer.
  unfoldable pub acquire_bootstrap_lease : String → String → W → Outcome (Option Lease) × W
  unfolding is_valid_for_other
  acquire_bootstrap_lease me object w =
      let name = bootstrap_lease_name object in on_lease me name (k.now w) (k.get_lease name w)

  -- releaseBootstrapLease, of a lease that is not nil: it is deleted by its name.
  unfoldable pub release_bootstrap_lease : String → W → W
  release_bootstrap_lease object w = k.delete_lease (bootstrap_lease_name object) w

  -- What is relied on of the API server, with the lease that it has stored under a name: a Get answers
  -- with it and changes nothing; a write that is accepted stores and returns the written spec, under a
  -- new resource version; a Delete removes it.
  pub record IsLeaseServer (stored : String → W → Option Lease) : Type 0 where
    pub gets : (name : String) (w : W) → k.get_lease name w ≡ (ok (stored name w), w)
    pub creates :
        (name : String) (l l' : Lease) (w : W)
        → (k.create_lease name l w).0 ≡ accepted l'
        → (stored name (k.create_lease name l w).1 ≡ some l')
          × (record l' { resource_version = l.resource_version } ≡ l)
    pub updates :
        (name : String) (l l' : Lease) (w : W)
        → (k.update_lease name l w).0 ≡ accepted l'
        → (stored name (k.update_lease name l w).1 ≡ some l')
          × (record l' { resource_version = l.resource_version } ≡ l)
    pub deletes : (name : String) (w : W) → stored name (k.delete_lease name w) ≡ none
