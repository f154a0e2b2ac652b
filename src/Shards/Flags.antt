-- ===== src/Shards/Flags.antt =====
-- The Boolean slices Status.ShardsInitialized and Status.ShardsAdded of the sharded controller, which
-- are indexed by the number of a shard: their growth, and the loops that work off what is pending.
use mongodb_operator.Common.{
  ℕ, zero, suc, ◌≤◌, ◌<◌, ◌⊎◌, inl, inr, Bool, true, false, not, ◌&&◌, Option, none, some, List, [],
  ◌∷◌, ◌≡◌, refl, arith, length, ◌==◌,
}
use mongodb_operator.Kube.{Error}

-- `s[i]`, where out of range counts as false: Go panics there, and the readers test the length.
unfoldable pub flag_at : ℕ → List Bool → Bool
flag_at i [] = false
flag_at zero (b ∷ bs) = b
flag_at (suc i) (b ∷ bs) = flag_at i bs

-- `s[i] = false` if `i < len(s)`
unfoldable pub clear_at : ℕ → List Bool → List Bool
clear_at i [] = []
clear_at zero (b ∷ bs) = false ∷ bs
clear_at (suc i) (b ∷ bs) = b ∷ clear_at i bs

-- The slice with `false` behind it, up to the length `count`: a new slice into which it is copied.
unfoldable pub grown : ℕ → List Bool → List Bool
grown zero bs = bs
grown (suc count) [] = false ∷ grown count []
grown (suc count) (b ∷ bs) = b ∷ grown count bs

-- The first `count` flags are there, and true.
unfoldable pub all_true : ℕ → List Bool → Bool
all_true zero bs = true
all_true (suc count) [] = false
all_true (suc count) (b ∷ bs) = b && all_true count bs

abbrev pub is_none {ℓ} : {A : Type ℓ} → Option A → Bool
is_none none = true
is_none (some _) = false

abbrev pub noted : Option Error → List Error → List Error
noted none es = es
noted (some e) es = e ∷ es

module _ {W : Type 0} where
  abbrev kept : List Error × List Bool × W → List Error × List Bool × W
  kept (es, bs, w) = (es, true ∷ bs, w)

  abbrev attempted : Option Error → List Error × List Bool × W → List Error × List Bool × W
  attempted e (es, bs, w) = (noted e es, is_none e ∷ bs, w)

  -- The loops of reconcileShardsInit and reconcileAddShards, from the index `i` on: an index whose
  -- flag is set is passed over; for another one `attempt` is called, and its flag is set if that had no
  -- error. The errors are collected, and none ends the loop.
  unfoldable pub work_off :
      (ℕ → W → Option Error × W) → ℕ → ℕ → List Bool → W → List Error × List Bool × W
  work_off attempt zero i bs w = ([], bs, w)
  work_off attempt (suc count) i [] w = ([], [], w)
  work_off attempt (suc count) i (true ∷ bs) w = kept (work_off attempt count (suc i) bs w)
  work_off attempt (suc count) i (false ∷ bs) w =
      let (e, w') = attempt i w in attempted e (work_off attempt count (suc i) bs w')

pub length-grown : (count : ℕ) (bs : List Bool) → count ≤ length (grown count bs)
unfolding grown
length-grown zero bs = omega arith
length-grown (suc count) [] = omega (arith, length-grown count [])
length-grown (suc count) (b ∷ bs) = omega (arith, length-grown count bs)

pub flag_at-grown : (i count : ℕ) (bs : List Bool) → flag_at i (grown count bs) ≡ flag_at i bs
unfolding grown flag_at
flag_at-grown i zero bs = refl
flag_at-grown zero (suc count) [] = refl
flag_at-grown (suc i) (suc count) [] = flag_at-grown i count []
flag_at-grown zero (suc count) (b ∷ bs) = refl
flag_at-grown (suc i) (suc count) (b ∷ bs) = flag_at-grown i count bs

module _ {W : Type 0} (attempt : ℕ → W → Option Error × W) where
  -- No flag is lost, and none beyond the count is touched.
  pub flag_at-work_off :
      (count i j : ℕ) (bs : List Bool) (w : W)
      → flag_at j bs ≡ true
      → flag_at j (work_off attempt count i bs w).1 ≡ true
  unfolding flag_at work_off
  flag_at-work_off zero i j bs w h = h
  flag_at-work_off (suc count) i j [] w h = h
  flag_at-work_off (suc count) i zero (true ∷ bs) w h = refl
  flag_at-work_off (suc count) i (suc j) (true ∷ bs) w h = flag_at-work_off count (suc i) j bs w h
  flag_at-work_off (suc count) i zero (false ∷ bs) w h = ground (arith, h)
  flag_at-work_off (suc count) i (suc j) (false ∷ bs) w h =
      flag_at-work_off count (suc i) j bs (attempt i w).1 h

  pub length-work_off :
      (count i : ℕ) (bs : List Bool) (w : W) → length (work_off attempt count i bs w).1 ≡ length bs
  unfolding work_off
  length-work_off zero i bs w = refl
  length-work_off (suc count) i [] w = refl
  length-work_off (suc count) i (true ∷ bs) w = omega (arith, length-work_off count (suc i) bs w)
  length-work_off (suc count) i (false ∷ bs) w =
      omega (arith, length-work_off count (suc i) bs (attempt i w).1)

  -- With flags enough, the loop has no error if and only if it leaves all of them true.
  pub all_true-work_off :
      (count i : ℕ) (bs : List Bool) (w : W)
      → count ≤ length bs
      → all_true count (work_off attempt count i bs w).1
        ≡ (length (work_off attempt count i bs w).0 == 0)
  unfolding all_true work_off
  all_true-work_off zero i bs w h = refl
  all_true-work_off (suc count) i [] w h = ground (arith, h)
  all_true-work_off (suc count) i (true ∷ bs) w h =
      ground (arith, all_true-work_off count (suc i) bs w (omega arith))
  all_true-work_off (suc count) i (false ∷ bs) w h =
      ground (arith, all_true-work_off count (suc i) bs (attempt i w).1 (omega arith))

  -- When all flags are set the loop does nothing.
  pub work_off_done :
      (count i : ℕ) (bs : List Bool) (w : W)
      → all_true count bs ≡ true
      → work_off attempt count i bs w ≡ ([], bs, w)
  unfolding all_true work_off
  work_off_done zero i bs w h = refl
  work_off_done (suc count) i [] w h = refl
  work_off_done (suc count) i (true ∷ bs) w h = rw (work_off_done count (suc i) bs w h) refl
  work_off_done (suc count) i (false ∷ bs) w h = ground (arith, h)

  -- What the loop keeps of the world: all that an attempt keeps.
  pub work_off-keeps {ℓ} :
      (P : W → Type ℓ)
      → ((i : ℕ) (w : W) → P w → P (attempt i w).1)
      → (count i : ℕ) (bs : List Bool) (w : W) → P w
      → P (work_off attempt count i bs w).2
  unfolding work_off
  work_off-keeps P keep zero i bs w h = h
  work_off-keeps P keep (suc count) i [] w h = h
  work_off-keeps P keep (suc count) i (true ∷ bs) w h = work_off-keeps P keep count (suc i) bs w h
  work_off-keeps P keep (suc count) i (false ∷ bs) w h =
      work_off-keeps P keep count (suc i) bs (attempt i w).1 (keep i w h)

  -- A flag that is set was set before, or its index is one that the loop has worked off.
  pub work_off-new :
      (count i j : ℕ) (bs : List Bool) (w : W)
      → flag_at j (work_off attempt count i bs w).1 ≡ true
      → (flag_at j bs ≡ true) ⊎ (j < count)
  unfolding flag_at work_off
  work_off-new zero i j bs w h = inl h
  work_off-new (suc count) i j [] w h = inl h
  work_off-new (suc count) i zero (b ∷ bs) w h = inr (omega arith)
  work_off-new (suc count) i (suc j) (true ∷ bs) w h =
      ground (arith, work_off-new count (suc i) j bs w h)
  work_off-new (suc count) i (suc j) (false ∷ bs) w h =
      ground (arith, work_off-new count (suc i) j bs (attempt i w).1 h)

pub flag_at-all_true :
    (count j : ℕ) (bs : List Bool) → all_true count bs ≡ true → j < count → flag_at j bs ≡ true
unfolding flag_at all_true
flag_at-all_true zero j bs h lt = absurd (omega arith)
flag_at-all_true (suc count) j [] h lt = ground (arith, h)
flag_at-all_true (suc count) zero (b ∷ bs) h lt = ground (arith, h)
flag_at-all_true (suc count) (suc j) (true ∷ bs) h lt = flag_at-all_true count j bs h (omega arith)
flag_at-all_true (suc count) (suc j) (false ∷ bs) h lt = ground (arith, h)

-- A slice whose first flags are all true is long enough.
pub grown-all_true : (count : ℕ) (bs : List Bool) → all_true count bs ≡ true → grown count bs ≡ bs
unfolding grown all_true
grown-all_true zero bs h = refl
grown-all_true (suc count) [] h = ground (arith, h)
grown-all_true (suc count) (true ∷ bs) h = rw (grown-all_true count bs h) refl
grown-all_true (suc count) (false ∷ bs) h = ground (arith, h)

-- Clearing a flag sets none, and clears the one.
pub flag_at-clear_at :
    (i j : ℕ) (bs : List Bool) → flag_at j (clear_at i bs) ≡ (flag_at j bs && not (i == j))
unfolding flag_at clear_at
flag_at-clear_at i j [] = refl
flag_at-clear_at zero zero (b ∷ bs) = ground arith
flag_at-clear_at zero (suc j) (b ∷ bs) = ground arith
flag_at-clear_at (suc i) zero (b ∷ bs) = ground arith
flag_at-clear_at (suc i) (suc j) (b ∷ bs) = ground (arith, flag_at-clear_at i j bs)
