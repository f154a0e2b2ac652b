-- ===== src/Cluster/Verified.antt =====
-- The loop of verifyAdminUser ends, and what a bootstrapped admin user means.
use mongodb_operator.Common.{
  ℕ, zero, suc, String, Bool, true, false, Option, none, some, ◌≡◌, refl, arith, Bool-cases, inl,
  inr,
}
use mongodb_operator.Common.Int.{ℤ, pos, ltb_ℤ, ◌+ℤ◌, ◌≤ℤ◌}
use mongodb_operator.Kube.{Outcome, ok, err}
use mongodb_operator.Upgrade.Config.{seconds}
use mongodb_operator.Cluster.Outside.{Outside}
use mongodb_operator.Cluster.AdminUser.{waited, looked, verify_rounds, deadline_of}

-- What is relied on of the clock: a look-up does not turn it back, and a wait that is not cut short
-- takes a second at least.
pub record IsTicking {W : Type 0} (o : Outside W) : Type 0 where
  pub looking :
      (password pod : String) (w : W) → o.kube.now w ≤ℤ o.kube.now (o.user_exists password pod w).1
  pub waiting :
      (w : W)
      → (o.wait_second w).0 ≡ false
      → o.kube.now w +ℤ pos (seconds 1) ≤ℤ o.kube.now (o.wait_second w).1

abbrev pub has_ended {ℓ} : {A : Type ℓ} → Option A → Bool
has_ended none = false
has_ended (some _) = true

later :
    (fuel : ℕ) (deadline a b : ℤ)
    → deadline ≤ℤ a +ℤ pos (seconds (suc fuel))
    → a +ℤ pos (seconds 1) ≤ℤ b
    → deadline ≤ℤ b +ℤ pos (seconds fuel)
unfolding ◌+ℤ◌
later fuel deadline a b h e = ground (arith, h, e)

later_same : (n : ℕ) (deadline a b : ℤ) → deadline ≤ℤ a +ℤ pos n → a ≤ℤ b → deadline ≤ℤ b +ℤ pos n
unfolding ◌+ℤ◌
later_same n deadline a b h e = ground (arith, h, e)

reached : (deadline a : ℤ) → deadline ≤ℤ a +ℤ pos (seconds 0) → ltb_ℤ a deadline ≡ false
unfolding ◌+ℤ◌
reached deadline a h = ground (arith, h)

module _ {W : Type 0} (o : Outside W) (clock : IsTicking o) where
  waited_ends :
      (x : Bool × W) (rest : W → Option (Outcome Bool) × W)
      → (x.0 ≡ false → has_ended (rest x.1).0 ≡ true)
      → has_ended (waited o x rest).0 ≡ true
  waited_ends (true, w) rest h = refl
  waited_ends (false, w) rest h = h refl

  looked_ends :
      (deadline : ℤ) (x : Outcome Bool × W) (rest : W → Option (Outcome Bool) × W)
      → (ltb_ℤ (o.kube.now x.1) deadline ≡ true
          → has_ended (waited o (o.wait_second x.1) rest).0 ≡ true)
      → has_ended (looked o deadline x rest).0 ≡ true
  looked_ends deadline (ok true, w) rest h = refl
  looked_ends deadline (ok false, w) rest h = elim (Bool-cases (ltb_ℤ (o.kube.now w) deadline)) [
    | inl e ↦ rw e (h e)
    | inr e ↦ rw e refl
  ]
  looked_ends deadline (err x, w) rest h = elim (Bool-cases (ltb_ℤ (o.kube.now w) deadline)) [
    | inl e ↦ rw e (h e)
    | inr e ↦ rw e refl
  ]

  rounds_end :
      (fuel : ℕ) (deadline : ℤ) (password pod : String) (w : W)
      → deadline ≤ℤ o.kube.now w +ℤ pos (seconds fuel)
      → has_ended (verify_rounds o (suc fuel) deadline password pod w).0 ≡ true
  unfolding verify_rounds
  rounds_end zero deadline password pod w h =
      let x = o.user_exists password pod w in
      looked_ends deadline x (verify_rounds o zero deadline password pod) (λ early.
        let late = reached deadline (o.kube.now x.1) (
          later_same (seconds 0) deadline (o.kube.now w) (o.kube.now x.1) h
            (clock.looking password pod w)) in
        ground (arith, early, late))
  rounds_end (suc fuel) deadline password pod w h =
      let x = o.user_exists password pod w in
      let v = o.wait_second x.1 in
      let seen =
        later_same (seconds (suc fuel)) deadline (o.kube.now w) (o.kube.now x.1) h
          (clock.looking password pod w) in
      looked_ends deadline x (verify_rounds o (suc fuel) deadline password pod) (λ early.
        waited_ends v (verify_rounds o (suc fuel) deadline password pod) (λ on.
          rounds_end fuel deadline password pod v.1
            (later fuel deadline (o.kube.now x.1) (o.kube.now v.1) seen (clock.waiting x.1 on))))

  -- verifyAdminUser ends: whatever the look-ups answer, six of them reach its deadline, since each wait
  -- between two of them takes a second at least and the deadline is five seconds away.
  pub verify_rounds_end :
      (password pod : String) (w : W)
      → has_ended (verify_rounds o 6 (deadline_of o w) password pod w).0 ≡ true
  verify_rounds_end password pod w =
      rounds_end 5 (deadline_of o w) password pod w (within (o.kube.now w))
    where
      within : (a : ℤ) → a +ℤ pos (seconds 5) ≤ℤ a +ℤ pos (seconds 5)
      within a = omega arith
