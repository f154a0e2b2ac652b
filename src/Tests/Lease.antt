-- ===== src/Tests/Lease.antt =====
-- The bootstrap lease, against a server that has room for one lease.
use mongodb_operator.Common.{
  Bool, true, false, Option, none, some, ◌≡◌, refl, arith, ap, sym, str_eq, if◌then◌else◌,
}
use mongodb_operator.Common.Int.{ℤ, pos}
use mongodb_operator.Kube.{ok}
use mongodb_operator.Upgrade.Status.{◌+++◌}
use mongodb_operator.Cluster.Lease.{
  Lease, Written, accepted, conflict, LeaseApi, IsLeaseServer, claimed, acquire_bootstrap_lease,
}
use mongodb_operator.Cluster.Mutex.{acquired_excludes}

record LeaseServer : Type 0 where
  lease : Option Lease
  time : ℤ

abbrev next_version : Lease → Lease
next_version l = record l { resource_version = l.resource_version +++ "1" }

abbrev create : Lease → Option Lease → LeaseServer → Written × LeaseServer
create l none w = (accepted (next_version l), record w { lease = some (next_version l) })
create l (some _) w = (conflict, w)

abbrev update : Lease → Option Lease → LeaseServer → Written × LeaseServer
update l none w = (conflict, w)
update l (some old) w =
    if str_eq old.resource_version l.resource_version
    then (accepted (next_version l), record w { lease = some (next_version l) })
    else (conflict, w)

abbrev lease_server : LeaseApi LeaseServer
lease_server = record {
  now = λ w. w.time;
  get_lease = λ name w. (ok w.lease, w);
  create_lease = λ name l w. create l w.lease w;
  update_lease = λ name l w. update l w.lease w;
  delete_lease = λ name w. record w { lease = none };
}

abbrev written_lease : Lease → Written → Lease
written_lease d (accepted l) = l
written_lease d _ = d

abbrev IsWritten : Lease → Written × LeaseServer → Type 0
IsWritten l x =
    (l' : Lease)
    → x.0 ≡ accepted l'
    → (x.1.lease ≡ some l') × (record l' { resource_version = l.resource_version } ≡ l)

accepted-IsWritten :
    (l : Lease) (w : LeaseServer)
    → IsWritten l (accepted (next_version l), record w { lease = some (next_version l) })
accepted-IsWritten l w l' e =
    let same = ap (written_lease l) e in
    (
      ap (λ (x : Lease). some x) same,
      ap (λ (x : Lease). record x { resource_version = l.resource_version }) (sym same),
    )

conflict-IsWritten : (l : Lease) (w : LeaseServer) → IsWritten l (conflict, w)
conflict-IsWritten l w l' e = ground (arith, e)

create-IsWritten : (l : Lease) (o : Option Lease) (w : LeaseServer) → IsWritten l (create l o w)
create-IsWritten l none w = accepted-IsWritten l w
create-IsWritten l (some old) w = conflict-IsWritten l w

choice-IsWritten :
    (b : Bool) (l : Lease) (w : LeaseServer)
    → IsWritten l (
        if b
        then (accepted (next_version l), record w { lease = some (next_version l) })
        else (conflict, w))
choice-IsWritten true l w = accepted-IsWritten l w
choice-IsWritten false l w = conflict-IsWritten l w

update-IsWritten : (l : Lease) (o : Option Lease) (w : LeaseServer) → IsWritten l (update l o w)
update-IsWritten l none w = conflict-IsWritten l w
update-IsWritten l (some old) w =
    choice-IsWritten (str_eq old.resource_version l.resource_version) l w

lease_server-IsLeaseServer : IsLeaseServer lease_server (λ name w. w.lease)
lease_server-IsLeaseServer = record {
  gets = λ name w. refl;
  creates = λ name l l' w e. create-IsWritten l w.lease w l' e;
  updates = λ name l l' w e. update-IsWritten l w.lease w l' e;
  deletes = λ name w. refl;
}

abbrev w_free : LeaseServer
w_free = record { lease = none; time = pos 0 }

abbrev lease_of_a : Lease
lease_of_a = next_version (claimed "a-1" (pos 0) "")

-- Ten seconds later.
abbrev w_taken : LeaseServer
w_taken = record { lease = some lease_of_a; time = pos 10000000000 }

acquired_excludes_example :
    acquire_bootstrap_lease lease_server "b-1" "db" w_taken ≡ (ok none, w_taken)
unfolding acquire_bootstrap_lease
acquired_excludes_example =
    acquired_excludes lease_server (λ name w. w.lease) lease_server-IsLeaseServer "a-1" "b-1" "db"
      lease_of_a w_free w_taken refl refl refl refl
