-- ===== src/Tests/Topology.antt =====
-- The plans at concrete inputs; a percentage stands for the CPU use.
use mongodb_operator.Common.{ℕ, true, false, none, [], ◌∷◌, ◌≡◌, refl, ltb}
use mongodb_operator.Common.Int.{pos, ◌≤ℤ◌}
use mongodb_operator.Topology.Balancer.{BalancerState, BalancerPolicy}
use mongodb_operator.Topology.Zones.{ShardZone, ZoneOp, add_to_zone}
use mongodb_operator.Topology.Preflight.{
  PreflightInput, preflight_topology_change, undrainable_chunks,
}
use mongodb_operator.Topology.Throttle.{
  ThrottleInput, compute_migration_throttle, min_interval, throttle_bounds,
}

abbrev migrating : BalancerState
migrating = record {
  enabled = true;
  running = true;
  active_window = true;
  inflight_migrations = pos 2;
}

abbrev off_policy : BalancerPolicy
off_policy = record { desired_enabled = false; dry_run = false }

abbrev removal : PreflightInput
removal = record {
  shard_count = pos 3;
  remaining_chunks = pos 12;
  remaining_databases = pos 0;
  balancer_enabled = false;
  drain_timeout_seconds = none;
}

removal_blocked : (preflight_topology_change removal).blockers ≡ undrainable_chunks ∷ []
unfolding preflight_topology_change
removal_blocked = refl

-- The doubling of this interval wraps around to a negative one.
abbrev wrapped_poll : ThrottleInput ℕ
wrapped_poll = record {
  remaining_chunks = pos 5;
  inflight_migrations = pos 1;
  mongos_cpu_util = 40;
  last_poll_interval = pos 4611686018427387904;
}

throttle_bounds_example :
    min_interval ≤ℤ (compute_migration_throttle (λ a b. ltb b a) 80 wrapped_poll).poll_interval
throttle_bounds_example = (throttle_bounds (λ a b. ltb b a) 80 wrapped_poll refl).0

abbrev west_shard : ShardZone
west_shard = record { shard_name = "shard-0"; zones = "west" ∷ [] }

abbrev join_east : ZoneOp
join_east = record { action = add_to_zone; shard_name = "shard-0"; zone = "east" }
