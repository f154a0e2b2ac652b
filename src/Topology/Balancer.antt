-- ===== src/Topology/Balancer.antt =====
-- internal/topology/balancer.go: whether the balancer is to be switched.
use mongodb_operator.Common.{Bool, true, false, not, ◌&&◌, ◌≡◌, arith, if◌then◌else◌}
use mongodb_operator.Common.Int.{ℤ, pos, ltb_ℤ}

pub record BalancerState : Type 0 where
  pub enabled : Bool
  pub running : Bool
  pub active_window : Bool
  pub inflight_migrations : ℤ

pub record BalancerPolicy : Type 0 where
  pub desired_enabled : Bool
  pub dry_run : Bool

pub data BalancerAction : Type 0 where
  enable disable noop : BalancerAction

pub record BalancerPlan : Type 0 where
  pub action : BalancerAction
  pub dry_run : Bool

abbrev balancer_action : BalancerState → BalancerPolicy → BalancerAction
balancer_action s p =
    if p.desired_enabled && not s.enabled
    then enable
    else if not p.desired_enabled && ltb_ℤ (pos 0) s.inflight_migrations
    then noop
    else if not p.desired_enabled && s.enabled
    then disable
    else noop

-- PlanBalancerControl
unfoldable pub plan_balancer_control : BalancerState → BalancerPolicy → BalancerPlan
plan_balancer_control s p = record { action = balancer_action s p; dry_run = p.dry_run }

-- What the actions mean: `sh.startBalancer` and `sh.stopBalancer`.
abbrev pub switched : BalancerAction → BalancerState → BalancerState
switched enable s = record s { enabled = true }
switched disable s = record s { enabled = false }
switched noop s = s

abbrev pub is_switch_off : BalancerState → BalancerState → Bool
is_switch_off s t = s.enabled && not t.enabled

-- When the planned action is carried out, the next plan has nothing to do; then the balancer is as
-- desired, unless it is to be off and migrations are under way; and it is never switched off while
-- migrations are under way.
balancer_settles :
    (s : BalancerState) (p : BalancerPolicy)
    → let t = switched (plan_balancer_control s p).action s in
      ((plan_balancer_control t p).action ≡ noop)
      × (ltb_ℤ (pos 0) s.inflight_migrations ≡ false → t.enabled ≡ p.desired_enabled)
      × (ltb_ℤ (pos 0) s.inflight_migrations ≡ true → is_switch_off s t ≡ false)
unfolding plan_balancer_control
balancer_settles s p = (ground arith, λ h. ground (arith, h), λ h. ground (arith, h))
