-- ===== src/Cluster/Conditions.antt =====
-- The conditions of a MongoDB: buildConditions, clearReconcileErrorCondition, and the condition
-- PrimaryUnreachable.
use Prim.Native.Char.{code}
use mongodb_operator.Common.{
  ℕ, String, Bool, true, false, not, ◌&&◌, ◌||◌, List, [], ◌∷◌, ◌++◌, str_eq, if◌then◌else◌, ◌==◌,
  is_one_of,
}
use mongodb_operator.Common.Int.{pos}
use mongodb_operator.Kube.{
  Condition, CondStatus, cond_true, cond_false, cond_unknown, Error, Outcome,
}
use mongodb_operator.Mongo.{MongoDb}
use mongodb_operator.Upgrade.Status.{◌+++◌}
use mongodb_operator.Upgrade.Machine.{Step, proceed, with_upgrade, commit}
use mongodb_operator.Cluster.Outside.{Outside}

-- firstLine
unfoldable pub first_line : String → String
first_line String.[] = String.[]
first_line (String.◌∷◌ c s) = if code c == 10 then String.[] else String.◌∷◌ c (first_line s)

-- A condition whose transition time is still to be set.
abbrev pub condition : String → CondStatus → ℕ → String → String → Condition
condition type status generation reason message = record {
  type = type;
  status = status;
  reason = reason;
  message = message;
  last_transition_time = pos 0;
  observed_generation = generation;
}

abbrev pub with_conditions : List Condition → MongoDb → MongoDb
with_conditions cs m = with_upgrade (record m.status.upgrade { conditions = cs }) m

unfoldable pub has_type : String → List Condition → Bool
has_type type [] = false
has_type type (c ∷ cs) = str_eq c.type type || has_type type cs

abbrev is_true : CondStatus → Bool
is_true cond_true = true
is_true cond_false = false
is_true cond_unknown = false

-- A condition of the type that is true.
unfoldable pub has_true : String → List Condition → Bool
has_true type [] = false
has_true type (c ∷ cs) = (str_eq c.type type && is_true c.status) || has_true type cs

abbrev managed_types : List String
managed_types = "Ready" ∷ "ReplicaSetInitialized" ∷ "AuthenticationReady" ∷ []

-- The conditions whose types are not managed by buildConditions.
unfoldable pub unmanaged : List Condition → List Condition
unmanaged [] = []
unmanaged (c ∷ cs) = if is_one_of managed_types c.type then unmanaged cs else c ∷ unmanaged cs

-- The members are ready, and the replica set and its admin user are there.
abbrev pub is_all_ready : MongoDb → Bool
is_all_ready m =
    m.status.ready_members == m.members
    && (m.status.replica_set_initialized && m.status.admin_user_created)

abbrev pub status_of_test : Bool → CondStatus
status_of_test b = if b then cond_true else cond_false

module _ {W : Type 0} (o : Outside W) where
  -- One of the three conditions: true with the first reason and message, or false with the others.
  abbrev managed : W → MongoDb → String → Bool → String → String → String → String → Condition
  managed w m type test reason message else_reason else_message = record {
    type = type;
    status = status_of_test test;
    reason = if test then reason else else_reason;
    message = if test then message else else_message;
    last_transition_time = o.kube.now w;
    observed_generation = m.generation;
  }

  -- buildConditions
  unfoldable pub build_conditions : W → MongoDb → List Condition
  unfolding unmanaged
  build_conditions w m =
      unmanaged m.status.conditions
      ++ managed w m "Ready" (is_all_ready m) "Ready"
          "All members are ready and cluster is fully initialized" "NotReady"
          (o.decimal m.status.ready_members +++ "/" +++ o.decimal m.members +++ " members ready")
        ∷ managed w m "ReplicaSetInitialized" m.status.replica_set_initialized "Initialized"
            "Replica set has been initialized" "NotInitialized"
            "Replica set has not been initialized"
        ∷ managed w m "AuthenticationReady" m.status.admin_user_created "Configured"
            "Admin user has been created" "NotConfigured" "Admin user has not been created"
        ∷ []

  -- clearReconcileErrorCondition
  unfoldable pub clear_reconcile_error_condition : W → ℕ → List Condition → List Condition
  unfolding has_type
  clear_reconcile_error_condition w generation cs =
      if has_type "ReconcileError" cs
      then o.set_status_condition w
          (condition "ReconcileError" cond_false generation "ReconcileSucceeded"
            "Last reconcile succeeded")
          cs
      else cs

  -- recordPrimaryUnreachable
  unfoldable pub record_primary_unreachable : W → String → Error → MongoDb → MongoDb
  unfolding first_line
  record_primary_unreachable w reason e m =
      with_conditions
        (o.set_status_condition w
          (condition "PrimaryUnreachable" cond_true m.generation reason
            (first_line (o.error_text e)))
          m.status.conditions)
        m

  abbrev written : Outcome Step × MongoDb × W → MongoDb × W
  written (_, m, w) = (m, w)

  -- setPrimaryUnreachableCondition: an error of the write is only logged.
  unfoldable pub set_primary_unreachable_condition : Error → MongoDb → W → MongoDb × W
  unfolding first_line commit
  set_primary_unreachable_condition e m w = written (
      commit o.kube
        (λ s. record s {
          conditions =
              o.set_status_condition w
                (condition "PrimaryUnreachable" cond_true m.generation "ConnectError"
                  ("hasPrimary check failed: " +++ first_line (o.error_text e)))
                s.conditions;
        })
        proceed m w)

  -- clearPrimaryUnreachableCondition
  unfoldable pub clear_primary_unreachable_condition : MongoDb → W → MongoDb × W
  unfolding has_true commit
  clear_primary_unreachable_condition m w =
      if not (has_true "PrimaryUnreachable" m.status.conditions)
      then (m, w)
      else written (
          commit o.kube
            (λ s. record s {
              conditions =
                  o.set_status_condition w
                    (condition "PrimaryUnreachable" cond_false m.generation "Reachable"
                      "Primary check succeeded")
                    s.conditions;
            })
            proceed m w)
