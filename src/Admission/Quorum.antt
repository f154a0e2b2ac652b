-- ===== src/Admission/Quorum.antt =====
-- The votes of the shards that an admitted object declares.
use mongodb_operator.Common.{ℕ, ◌<◌, true, false, Option, some, ◌≡◌, ◌⊎◌, arith, ◌∙◌}
use mongodb_operator.Admission.Fields.{FieldPath, child, ◌/◌}
use mongodb_operator.Admission.ReplicaSet.{spec_path, is_even_quorum}
use mongodb_operator.Admission.Sections.{Packages}
use mongodb_operator.Admission.Keys.{null, null-concat}
use mongodb_operator.Admission.Sharded.{
  ShardArbiterSpec, ShardedSpec, validate_shard_arbiter, validate_mongodb_sharded_spec,
  sharded_checks,
}

-- One of the two rules refuses any number of members.
even_or_refused :
    (path : FieldPath) (o : Option ShardArbiterSpec) (arb : ShardArbiterSpec) (members : ℕ)
    → o ≡ some arb
    → arb.enabled ≡ true
    → 0 < members
    → (is_even_quorum members ≡ true) ⊎ (null (validate_shard_arbiter path o members) ≡ false)
unfolding validate_shard_arbiter
even_or_refused path o arb members has on some_members = ground (arith, has, on, some_members)

module _ {Q : Type 0} (k : Packages Q) where
  -- The webhook admits no sharded cluster whose shards have an arbiter: if the number of members of a
  -- shard is given, an even one is refused for itself, an odd one for the even number of votes with
  -- the arbiter, and no other number of arbiters is admitted.
  enabled_arbiter_refused :
      (s : ShardedSpec Q) (arb : ShardArbiterSpec)
      → s.arbiter ≡ some arb
      → arb.enabled ≡ true
      → 0 < s.members_per_shard
      → null (validate_mongodb_sharded_spec k s) ≡ false
  unfolding validate_mongodb_sharded_spec
  enabled_arbiter_refused s arb has on some_members =
      null-concat (sharded_checks k s)
      ∙ ground (
        arith,
        even_or_refused (spec_path / child "shards" / child "arbiter") s.arbiter arb
            s.members_per_shard has on some_members,
      )
