-- ===== src/Topology/Throttle.antt =====
-- internal/topology/throttle.go: how often a migration is polled. Durations are `int64` nanoseconds,
-- so that the doubling may wrap around.
use mongodb_operator.Common.{ℕ, ◌≤◌, Bool, true, false, not, ◌≡◌, arith, if◌then◌else◌}
use mongodb_operator.Common.Int.{ℤ, pos, ltb_ℤ, scale, wrap64, ◌≤ℤ◌}
use mongodb_operator.Upgrade.Config.{seconds}

-- The CPU use, a `float64`, is a value of the parameter `F`.
pub record ThrottleInput (F : Type 0) : Type 0 where
  pub remaining_chunks : ℤ
  pub inflight_migrations : ℤ
  pub mongos_cpu_util : F
  pub last_poll_interval : ℤ

pub record ThrottlePlan : Type 0 where
  pub poll_interval : ℤ
  pub max_concurrent_migrations : ℕ

abbrev pub min_interval : ℤ
min_interval = pos (seconds 30)

abbrev pub max_interval : ℤ
max_interval = pos (seconds 300)

abbrev clamp : ℤ → ℤ
clamp next =
    let raised = if ltb_ℤ next min_interval then min_interval else next in
    if ltb_ℤ max_interval raised then max_interval else raised

-- `exceeds` is the `>` of `float64`, and the threshold is 0.80.
module _ {F : Type 0} (exceeds : F → F → Bool) (high_cpu_threshold : F) where
  -- ComputeMigrationThrottle
  unfoldable pub compute_migration_throttle : ThrottleInput F → ThrottlePlan
  unfolding wrap64 scale
  compute_migration_throttle i =
      if not (ltb_ℤ (pos 0) i.remaining_chunks)
      then record { poll_interval = pos 0; max_concurrent_migrations = 0 }
      else if exceeds i.mongos_cpu_util high_cpu_threshold
      then record { poll_interval = max_interval; max_concurrent_migrations = 1 }
      else record {
        poll_interval = clamp (wrap64 (scale 2 i.last_poll_interval));
        max_concurrent_migrations = 2;
      }

  -- While chunks remain, the interval lies between 30 seconds and 5 minutes, whatever the last one was
  -- (a doubling that wraps around included), and one or two migrations are allowed; and from an interval
  -- that lies there the next one is not shorter.
  pub throttle_bounds :
      (i : ThrottleInput F)
      → ltb_ℤ (pos 0) i.remaining_chunks ≡ true
      → let p = compute_migration_throttle i in
        (min_interval ≤ℤ p.poll_interval)
        × (p.poll_interval ≤ℤ max_interval)
        × (1 ≤ p.max_concurrent_migrations)
        × (p.max_concurrent_migrations ≤ 2)
        × (ltb_ℤ i.last_poll_interval min_interval ≡ false
            → ltb_ℤ max_interval i.last_poll_interval ≡ false
            → i.last_poll_interval ≤ℤ p.poll_interval)
  unfolding compute_migration_throttle wrap64 scale
  throttle_bounds i h = (
    ground (arith, h),
    ground (arith, h),
    ground (arith, h),
    ground (arith, h),
    λ low high. ground (arith, h, low, high),
  )
