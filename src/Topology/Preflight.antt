-- ===== src/Topology/Preflight.antt =====
-- internal/topology/preflight.go: whether a shard may be removed.
use mongodb_operator.Common.{
  Bool, true, false, not, ◌&&◌, ◌||◌, Option, none, some, List, [], ◌∷◌, ◌++◌, ◌≡◌, arith,
  if◌then◌else◌,
}
use mongodb_operator.Common.Int.{ℤ, pos, ltb_ℤ}

pub record PreflightInput : Type 0 where
  pub shard_count : ℤ
  pub remaining_chunks : ℤ
  pub remaining_databases : ℤ
  pub balancer_enabled : Bool
  pub drain_timeout_seconds : Option ℤ

pub data Blocker : Type 0 where
  last_shard undrainable_chunks primary_databases : Blocker

pub data Warning : Type 0 where
  zero_drain_timeout : Warning

pub record PreflightVerdict : Type 0 where
  pub safe : Bool
  pub blockers : List Blocker
  pub warnings : List Warning

abbrev pub equals : ℤ → ℤ → Bool
equals a b = not (ltb_ℤ a b) && not (ltb_ℤ b a)

abbrev when {ℓ} : {A : Type ℓ} → Bool → A → List A
when b x = if b then x ∷ [] else []

abbrev blockers_of : PreflightInput → List Blocker
blockers_of i =
    when (equals i.shard_count (pos 1)) last_shard
    ++ when (not i.balancer_enabled && ltb_ℤ (pos 0) i.remaining_chunks) undrainable_chunks
    ++ when (ltb_ℤ (pos 0) i.remaining_databases) primary_databases

abbrev is_zero_timeout : Option ℤ → Bool
is_zero_timeout none = false
is_zero_timeout (some n) = equals n (pos 0)

abbrev has_none : List Blocker → Bool
has_none [] = true
has_none (_ ∷ _) = false

-- PreflightTopologyChange
unfoldable pub preflight_topology_change : PreflightInput → PreflightVerdict
preflight_topology_change i = record {
  safe = has_none (blockers_of i);
  blockers = blockers_of i;
  warnings = when (is_zero_timeout i.drain_timeout_seconds) zero_drain_timeout;
}

-- The removal of a shard is safe exactly if it is not the only one, its chunks can be drained (there
-- are none, or the balancer runs) and no database has its primary there; warnings make no difference.
preflight_safe :
    (i : PreflightInput)
    → (preflight_topology_change i).safe ≡ (
        not (equals i.shard_count (pos 1))
        && ((i.balancer_enabled || not (ltb_ℤ (pos 0) i.remaining_chunks))
            && not (ltb_ℤ (pos 0) i.remaining_databases)))
unfolding preflight_topology_change
preflight_safe i = ground arith
