-- ===== src/Federation/Groups.antt =====
-- internal/controller/mongodbclustergroup_controller.go: a group of clusters.
use mongodb_operator.Common.{
  ℕ, ◌+◌, String, Bool, true, false, ◌||◌, Option, none, some, List, [], ◌∷◌, ◌++◌, ◌≡◌, refl,
  arith, str_eq, if◌then◌else◌, ltb, ◌==◌, length, All, Bool-cases, inl, inr,
}
use mongodb_operator.Kube.{ApiError}

-- The phases of a group and of its members; `unset` is "".
pub data GroupPhase : Type 0 where
  unset pending reconciling synced degraded failed : GroupPhase

-- ClusterGroupMemberStatus
pub record MemberStatus : Type 0 where
  pub name : String
  pub phase : GroupPhase
  pub policy_compliant : Bool

-- MongoDBClusterGroup: the names of its members, and its status
pub record ClusterGroup : Type 0 where
  pub members : List String
  pub phase : GroupPhase
  pub statuses : List MemberStatus

abbrev is_synced : GroupPhase → Bool
is_synced synced = true
is_synced _ = false

abbrev is_failed : GroupPhase → Bool
is_failed failed = true
is_failed _ = false

unfoldable pub count_members : (GroupPhase → Bool) → List MemberStatus → ℕ
count_members test [] = 0
count_members test (s ∷ ss) =
    if test s.phase then 1 + count_members test ss else count_members test ss

abbrev is_nil : List MemberStatus → Bool
is_nil [] = true
is_nil (_ ∷ _) = false

-- computeClusterGroupPhase
unfoldable pub compute_cluster_group_phase : List MemberStatus → GroupPhase
unfolding count_members
compute_cluster_group_phase ss =
    if is_nil ss
    then pending
    else if ltb 0 (count_members is_failed ss)
    then degraded
    else if count_members is_synced ss == length ss
    then synced
    else reconciling

-- hasMemberStatus
unfoldable pub has_member_status : List MemberStatus → String → Bool
has_member_status [] name = false
has_member_status (s ∷ ss) name = str_eq s.name name || has_member_status ss name

abbrev pending_member : String → MemberStatus
pending_member name = record { name = name; phase = pending; policy_compliant = false }

-- The loop over the members
unfoldable pub ensure_members : List String → List MemberStatus → List MemberStatus
unfolding has_member_status
ensure_members [] ss = ss
ensure_members (m ∷ ms) ss =
    ensure_members ms (if has_member_status ss m then ss else ss ++ pending_member m ∷ [])

abbrev pub kept : Option ApiError → ClusterGroup → ClusterGroup → ClusterGroup
kept none old new = new
kept (some _) old new = old

-- Reconcile of an object that is there, for the object that is stored: an error of the write is
-- dropped. The phase is computed before the members are added.
unfoldable pub reconcile : Option ApiError → ClusterGroup → ClusterGroup
unfolding compute_cluster_group_phase ensure_members
reconcile e g = kept e g (record g {
  phase = compute_cluster_group_phase g.statuses;
  statuses = ensure_members g.members g.statuses;
})

abbrev pub AllPending : List MemberStatus → Type 0
AllPending = All (λ (s : MemberStatus). s.phase ≡ pending)

append_pending :
    (m : String) (ss : List MemberStatus) → AllPending ss → AllPending (ss ++ pending_member m ∷ [])
append_pending m [] h = (refl, tt)
append_pending m (s ∷ ss) (h, hs) = (h, append_pending m ss hs)

ensure_members-AllPending :
    (ms : List String) (ss : List MemberStatus) → AllPending ss → AllPending (ensure_members ms ss)
unfolding ensure_members
ensure_members-AllPending [] ss h = h
ensure_members-AllPending (m ∷ ms) ss h = elim (Bool-cases (has_member_status ss m)) [
  | inl known ↦ rw known (ensure_members-AllPending ms ss h)
  | inr new ↦
      rw new (ensure_members-AllPending ms (ss ++ pending_member m ∷ []) (append_pending m ss h))
]

count_pending :
    (ss : List MemberStatus)
    → AllPending ss
    → (count_members is_failed ss ≡ 0) × (count_members is_synced ss ≡ 0)
unfolding count_members
count_pending [] h = (refl, refl)
count_pending (s ∷ ss) (h, hs) = ground (arith, count_pending ss hs)

abbrev pub is_settled : GroupPhase → Bool
is_settled synced = true
is_settled degraded = true
is_settled _ = false

pending_phase :
    (ss : List MemberStatus) → AllPending ss → is_settled (compute_cluster_group_phase ss) ≡ false
unfolding compute_cluster_group_phase
pending_phase [] h = refl
pending_phase (s ∷ ss) h = ground (arith, count_pending (s ∷ ss) h)

-- The passes of the controller never take a group whose members are all Pending, a new one for
-- instance, to Synced or Degraded, and leave its members Pending.
pub reconcile_stays_unsettled :
    (e : Option ApiError) (g : ClusterGroup)
    → AllPending g.statuses
    → is_settled g.phase ≡ false
    → AllPending (reconcile e g).statuses × (is_settled (reconcile e g).phase ≡ false)
unfolding reconcile
reconcile_stays_unsettled none g h p =
    (ensure_members-AllPending g.members g.statuses h, pending_phase g.statuses h)
reconcile_stays_unsettled (some _) g h p = (h, p)
