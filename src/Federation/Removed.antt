-- ===== src/Federation/Removed.antt =====
-- A region that is taken out of the spec.
use mongodb_operator.Common.{
  ◌<◌, String, Bool, true, false, ◌||◌, ◌&&◌, Option, none, some, List, [], ◌∷◌, ◌≡◌, arith, str_eq,
  eq_iff, is_one_of, inl, inr, Bool-cases, ◌≢◌,
}
use mongodb_operator.Common.Int.{ℤ}
use mongodb_operator.Kube.{ApiError, Outcome}
use mongodb_operator.Federation.{
  degraded, RegionStatus, Region, Federation, FederationApi, is_failed, count_phase,
  compute_federation_phase, propagate_region, note_region, noted, outcome_of, sync_regions,
  synced_status, write, stored, with_status, FederationStatus, reconcile,
}

abbrev pub names : List Region → List String
names [] = []
names (r ∷ rs) = r.name ∷ names rs

-- The status of a region of this name is Failed.
unfoldable pub has_failed : String → List RegionStatus → Bool
has_failed n [] = false
has_failed n (s ∷ ss) = (str_eq s.name n && is_failed s.phase) || has_failed n ss

failed_counts :
    (n : String) (ss : List RegionStatus) → has_failed n ss ≡ true → 0 < count_phase is_failed ss
unfolding has_failed count_phase
failed_counts n [] h = cc h
failed_counts n (s ∷ ss) h = ground (arith, failed_counts n ss)

failed_nil : (n : String) → has_failed n [] ≢ true
unfolding has_failed
failed_nil n h = cc

-- Another status in front does not matter.
failed_behind :
    (n : String) (s : RegionStatus) (ss : List RegionStatus)
    → has_failed n ss ≡ true
    → has_failed n (s ∷ ss) ≡ true
unfolding has_failed
failed_behind n s ss h = ground arith

failed_elsewhere :
    (n : String) (s : RegionStatus) (ss : List RegionStatus)
    → str_eq s.name n ≡ false
    → has_failed n (s ∷ ss) ≡ true
    → has_failed n ss ≡ true
unfolding has_failed
failed_elsewhere n s ss other h = ground arith

failed_both :
    (n : String) (s : RegionStatus) (ss ts : List RegionStatus)
    → (has_failed n ss ≡ true → has_failed n ts ≡ true)
    → has_failed n (s ∷ ss) ≡ true
    → has_failed n (s ∷ ts) ≡ true
unfolding has_failed
failed_both n s ss ts keep h = ground arith

other_name : (a b c : String) → str_eq a b ≡ false → str_eq c b ≡ true → str_eq c a ≡ false
other_name a b c h e = ground (arith, eq_iff a b, eq_iff c b, eq_iff c a)

failed-degraded :
    (n : String) (ss : List RegionStatus)
    → has_failed n ss ≡ true
    → compute_federation_phase ss ≡ degraded
unfolding compute_federation_phase
failed-degraded n [] h = absurd (failed_nil n h)
failed-degraded n (s ∷ ss) h = ground (arith, failed_counts n (s ∷ ss))

or_left : (a b : Bool) → (a || b) ≡ false → a ≡ false
or_left a b h = ground arith

or_right : (a b : Bool) → (a || b) ≡ false → b ≡ false
or_right a b h = ground arith

module _ {W R : Type 0} (k : FederationApi W R) where
  note_other :
      (n name : String) (now : ℤ) (change : RegionStatus → RegionStatus) (ss : List RegionStatus)
      → str_eq n name ≡ false
      → has_failed n ss ≡ true
      → has_failed n (note_region k name now change ss) ≡ true
  unfolding note_region
  note_other n name now change [] other h = absurd (failed_nil n h)
  note_other n name now change (s ∷ ss) other h = elim (Bool-cases (str_eq s.name name)) [
    | inl same ↦ rw same (
        failed_behind n (change s) ss
          (failed_elsewhere n s ss (other_name n name s.name other same) h))
    | inr differs ↦ rw differs (
        failed_both n s ss (note_region k name now change ss)
          (note_other n name now change ss other) h)
  ]

  noted_other :
      (n name : String) (now : ℤ) (x : Outcome String × W) (ss : List RegionStatus)
      → str_eq n name ≡ false
      → has_failed n ss ≡ true
      → has_failed n (noted k name now x ss).0 ≡ true
  noted_other n name now (x, w) ss other h =
      note_other n name now (outcome_of k (k.now w) x) ss other h

  sync_others :
      (f : Federation) (n : String) (rs : List Region) (ss : List RegionStatus) (w : W)
      → is_one_of (names rs) n ≡ false
      → has_failed n ss ≡ true
      → has_failed n (sync_regions k f rs ss w).0 ≡ true
  unfolding sync_regions
  sync_others f n [] ss w gone h = h
  sync_others f n (r ∷ rs) ss w gone h =
      let x = noted k r.name (k.now w) (propagate_region k f r w) ss in
      sync_others f n rs x.0 x.1 (or_right (str_eq n r.name) (is_one_of (names rs) n) gone) (
        noted_other n r.name (k.now w) (propagate_region k f r w) ss
          (or_left (str_eq n r.name) (is_one_of (names rs) n) gone) h)

  -- A region that is not in the spec, and whose last phase was Failed.
  pub record IsLeftOver (n : String) (f : Federation) : Type 0 where
    pub gone : is_one_of (names f.regions) n ≡ false
    pub failing : has_failed n f.status.regions ≡ true

  written_degraded :
      (n : String) (f : Federation) (x : List RegionStatus × W)
      → is_one_of (names f.regions) n ≡ false
      → has_failed n f.status.regions ≡ true
      → has_failed n x.0 ≡ true
      → (k.update_status (synced_status k x.0) x.1).0 ≡ none
      → IsLeftOver n (write k f x).1 × ((write k f x).1.status.phase ≡ degraded)
  written_degraded n f (ss, w) gone old new written =
      rw written (record { gone = gone; failing = new }, failed-degraded n ss new)

  update-IsLeftOver :
      (n : String) (f : Federation) (u : Option ApiError × W) (s : FederationStatus)
      → IsLeftOver n f
      → has_failed n s.regions ≡ true
      → IsLeftOver n (stored k u f (with_status s f)).1
  update-IsLeftOver n f (some e, w) s l new = l
  update-IsLeftOver n f (none, w) s l new = record { gone = l.gone; failing = new }

  stored-IsLeftOver :
      (n : String) (f : Federation) (x : List RegionStatus × W)
      → IsLeftOver n f
      → has_failed n x.0 ≡ true
      → IsLeftOver n (write k f x).1
  stored-IsLeftOver n f (ss, w) l new =
      update-IsLeftOver n f (k.update_status (synced_status k ss) w) (synced_status k ss) l new

  pass-IsLeftOver :
      (n : String) (f : Federation) (w : W) → IsLeftOver n f → IsLeftOver n (reconcile k f w).1
  unfolding reconcile
  pass-IsLeftOver n f w l =
      stored-IsLeftOver n f (sync_regions k f f.regions f.status.regions w) l
        (sync_others f n f.regions f.status.regions w l.gone l.failing)

  -- Passes over a federation, and edits of its regions that do not bring the region `n` back.
  pub data Reach (n : String) (f : Federation) : Federation → Type 0 where
    here : Reach n f f
    pass : {g : Federation} → Reach n f g → (w : W) → Reach n f (reconcile k g w).1
    edit :
        {g : Federation}
        → Reach n f g
        → (rs : List Region) → is_one_of (names rs) n ≡ false
        → Reach n f (record g { regions = rs })

  Reach-IsLeftOver : {n : String} {f g : Federation} → IsLeftOver n f → Reach n f g → IsLeftOver n g
  Reach-IsLeftOver l here = l
  Reach-IsLeftOver {n} l (pass {g = g} r w) = pass-IsLeftOver n g w (Reach-IsLeftOver l r)
  Reach-IsLeftOver l (edit r rs gone) = record {
    gone = gone;
    failing = (Reach-IsLeftOver l r).failing;
  }

  -- A federation from which a region was removed while it was Failed is Degraded for ever: after
  -- whatever passes and whatever edits that do not bring the region back, the next pass that can write
  -- the status writes Degraded, even if every region that is left can be reached.
  pub removed_region_degrades :
      {n : String} {f g : Federation} (w : W)
      → IsLeftOver n f
      → Reach n f g
      → (let x = sync_regions k g g.regions g.status.regions w in
          (k.update_status (synced_status k x.0) x.1).0 ≡ none)
      → (reconcile k g w).1.status.phase ≡ degraded
  unfolding reconcile
  removed_region_degrades {n} {g = g} w l r written =
      let left = Reach-IsLeftOver l r in
      let x = sync_regions k g g.regions g.status.regions w in
      (written_degraded n g x left.gone left.failing
        (sync_others g n g.regions g.status.regions w left.gone left.failing) written).1
