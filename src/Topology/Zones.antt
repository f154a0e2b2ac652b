-- ===== src/Topology/Zones.antt =====
-- internal/topology/zone_placement.go: which shards join and leave which zones.
use mongodb_operator.Common.{
  String, Bool, true, false, not, ◌&&◌, ◌||◌, Option, none, some, List, [], ◌∷◌, ◌++◌, ◌≡◌, refl,
  arith, str_eq, if◌then◌else◌, is_one_of, lookup, Bool-cases, inl, inr, eq_iff, ap, ◌∙◌,
}

pub record ShardZone : Type 0 where
  pub shard_name : String
  pub zones : List String

pub data ZoneAction : Type 0 where
  add_to_zone remove_from_zone : ZoneAction

pub record ZoneOp : Type 0 where
  pub action : ZoneAction
  pub shard_name : String
  pub zone : String

pub record ZonePlacementPlan : Type 0 where
  pub ops : List ZoneOp
  pub dry_run : Bool

-- A desired placement: a Go map from the names of shards to zones.
abbrev pub DesiredZones : Type 0
DesiredZones = List (String × List String)

-- The zones of a list that are not in the set.
unfoldable pub ops_for : ZoneAction → String → List String → List String → List ZoneOp
ops_for action shard set [] = []
ops_for action shard set (z ∷ zs) =
    if is_one_of set z
    then ops_for action shard set zs
    else record { action = action; shard_name = shard; zone = z } ∷ ops_for action shard set zs

abbrev is_no_map : DesiredZones → Bool
is_no_map [] = true
is_no_map (_ ∷ _) = false

abbrev same_action : ZoneAction → ZoneAction → Bool
same_action add_to_zone add_to_zone = true
same_action remove_from_zone remove_from_zone = true
same_action add_to_zone remove_from_zone = false
same_action remove_from_zone add_to_zone = false

abbrev pub same_op : ZoneOp → ZoneOp → Bool
same_op a b =
    same_action a.action b.action && (str_eq a.shard_name b.shard_name && str_eq a.zone b.zone)

abbrev pub has_op : ZoneOp → List ZoneOp → Bool
has_op x [] = false
has_op x (y ∷ ys) = same_op x y || has_op x ys

-- The op is what the shard needs to have the desired zones.
abbrev pub is_needed : ZoneOp → ShardZone → Option (List String) → Bool
is_needed x sh none = false
is_needed x sh (some desired) = str_eq x.shard_name sh.shard_name && elim x.action [
  | add_to_zone ↦ is_one_of desired x.zone && not (is_one_of sh.zones x.zone)
  | remove_from_zone ↦ is_one_of sh.zones x.zone && not (is_one_of desired x.zone)
]

abbrev pub is_needed_by : ZoneOp → DesiredZones → List ShardZone → Bool
is_needed_by x desired [] = false
is_needed_by x desired (sh ∷ shs) =
    is_needed x sh (lookup sh.shard_name desired) || is_needed_by x desired shs

-- `range` lists the keys of the set that is made of a list, in some order; `before` is the test that
-- sort.Slice gets, on shard name, action and zone.
module _ (range : List String → List String) (before : ZoneOp → ZoneOp → Bool) where
  abbrev shard_ops : ShardZone → Option (List String) → List ZoneOp
  shard_ops sh none = []
  shard_ops sh (some desired) =
      ops_for add_to_zone sh.shard_name sh.zones (range desired)
      ++ ops_for remove_from_zone sh.shard_name desired (range sh.zones)

  unfoldable pub all_ops : DesiredZones → List ShardZone → List ZoneOp
  all_ops desired [] = []
  all_ops desired (sh ∷ shs) = shard_ops sh (lookup sh.shard_name desired) ++ all_ops desired shs

  -- sort.Slice
  unfoldable pub insert_op : ZoneOp → List ZoneOp → List ZoneOp
  insert_op x [] = x ∷ []
  insert_op x (y ∷ ys) = if before y x then y ∷ insert_op x ys else x ∷ y ∷ ys

  unfoldable pub sort_ops : List ZoneOp → List ZoneOp
  unfolding insert_op
  sort_ops [] = []
  sort_ops (x ∷ xs) = insert_op x (sort_ops xs)

  -- PlanZonePlacement
  unfoldable pub plan_zone_placement : List ShardZone → DesiredZones → ZonePlacementPlan
  unfolding all_ops sort_ops ops_for
  plan_zone_placement shards desired =
      if is_no_map desired
      then record { ops = []; dry_run = true }
      else record { ops = sort_ops (all_ops desired shards); dry_run = true }

  has_op-append :
      (x : ZoneOp) (xs ys : List ZoneOp) → has_op x (xs ++ ys) ≡ (has_op x xs || has_op x ys)
  has_op-append x [] ys = refl
  has_op-append x (y ∷ xs) ys = ground (arith, has_op-append x xs ys)

  has_op-insert :
      (x y : ZoneOp) (ys : List ZoneOp) → has_op x (insert_op y ys) ≡ (same_op x y || has_op x ys)
  unfolding insert_op
  has_op-insert x y [] = refl
  has_op-insert x y (z ∷ ys) = ground (arith, has_op-insert x y ys)

  has_op-sort : (x : ZoneOp) (xs : List ZoneOp) → has_op x (sort_ops xs) ≡ has_op x xs
  unfolding sort_ops
  has_op-sort x [] = refl
  has_op-sort x (y ∷ xs) = ground (arith, has_op-insert x y (sort_ops xs), has_op-sort x xs)

  has_op-ops_for :
      (x : ZoneOp) (action : ZoneAction) (shard : String) (set zs : List String)
      → has_op x (ops_for action shard set zs) ≡ (
          same_action x.action action
          && (str_eq x.shard_name shard && (is_one_of zs x.zone && not (is_one_of set x.zone))))
  unfolding ops_for
  has_op-ops_for x action shard set [] = ground arith
  has_op-ops_for x action shard set (z ∷ zs) = elim (Bool-cases (str_eq x.zone z)) [
    | inl same ↦ ground (
      arith,
      same,
      ap (is_one_of set) ((eq_iff x.zone z).0 same),
      has_op-ops_for x action shard set zs,
    )
    | inr other ↦ ground (arith, other, has_op-ops_for x action shard set zs)
  ]

  module _
      (ranges : (xs : List String) (z : String) → is_one_of (range xs) z ≡ is_one_of xs z) where
    has_op-shard :
        (x : ZoneOp) (sh : ShardZone) (o : Option (List String))
        → has_op x (shard_ops sh o) ≡ is_needed x sh o
    has_op-shard x sh none = refl
    has_op-shard x sh (some desired) =
        rw
          (
            has_op-append x (ops_for add_to_zone sh.shard_name sh.zones (range desired))
                (ops_for remove_from_zone sh.shard_name desired (range sh.zones)),
            has_op-ops_for x add_to_zone sh.shard_name sh.zones (range desired),
            has_op-ops_for x remove_from_zone sh.shard_name desired (range sh.zones),
            ranges desired x.zone,
            ranges sh.zones x.zone,
          )
          (ground arith)

    has_op-all :
        (x : ZoneOp) (desired : DesiredZones) (shs : List ShardZone)
        → has_op x (all_ops desired shs) ≡ is_needed_by x desired shs
    unfolding all_ops
    has_op-all x desired [] = refl
    has_op-all x desired (sh ∷ shs) =
        rw
          (
            has_op-append x (shard_ops sh (lookup sh.shard_name desired)) (all_ops desired shs),
            has_op-shard x sh (lookup sh.shard_name desired),
            has_op-all x desired shs,
          )
          refl

    nothing_needed : (x : ZoneOp) (shs : List ShardZone) → false ≡ is_needed_by x [] shs
    unfolding lookup
    nothing_needed x [] = refl
    nothing_needed x (sh ∷ shs) = nothing_needed x shs

    -- An operation is in the plan exactly if a shard of that name is listed, zones are desired for it, and
    -- the zone is a desired one that it is not in (for an addition) or one that it is in and that is not
    -- desired (for a removal). It is supposed that the keys of a set are the elements of its list.
    zone_plan_needed :
        (x : ZoneOp) (shards : List ShardZone) (desired : DesiredZones)
        → has_op x (plan_zone_placement shards desired).ops ≡ is_needed_by x desired shards
    unfolding plan_zone_placement
    zone_plan_needed x shards [] = nothing_needed x shards
    zone_plan_needed x shards (d ∷ desired) =
        has_op-sort x (all_ops (d ∷ desired) shards) ∙ has_op-all x (d ∷ desired) shards
