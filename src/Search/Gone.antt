-- ===== src/Search/Gone.antt =====
-- The drops of the user at single servers, and what an answer without an error says of them.
use mongodb_operator.Common.{
  Bool-cases, inl, inr, arith, ℕ, ◌+◌, zero, suc, String, Bool, true, false, Option, none, some,
  ◌≡◌, refl,
}
use mongodb_operator.Kube.{Error}
use mongodb_operator.SearchIndex.{DriverError}
use mongodb_operator.Search.{Source, SearchApi, Endpoint}
use mongodb_operator.Search.User.{
  is_user_not_found_err, first_error, shard_endpoint, user_dropped, connected,
  drop_search_coordinator_user, drop_at, drop_on_shards,
}

abbrev pub no_error : Option Error → Bool
no_error none = true
no_error (some _) = false

module _ {W : Type 0} (k : SearchApi W) where
  -- The user is gone at an endpoint: it was dropped there, or it was not there.
  pub data Dropped (at : Endpoint) (admin : String) (w : W) : W → Type 0 where
    gone :
        {u w' : W}
        → k.connect at admin w ≡ (none, u)
        → k.drop_user at admin u ≡ (none, w')
        → Dropped at admin w w'
    absent :
        {u w' : W} (e : DriverError)
        → k.connect at admin w ≡ (none, u)
        → k.drop_user at admin u ≡ (some e, w')
        → is_user_not_found_err e ≡ true
        → Dropped at admin w w'

  -- It is gone at `n` shards from the shard `i` on.
  pub data Swept (s : Source) (admin : String) : ℕ → ℕ → W → W → Type 0 where
    all_done : {i : ℕ} {w : W} → Swept s admin i zero w w
    next :
        {i n : ℕ} {w u w' : W}
        → Dropped (shard_endpoint k s i) admin w u
        → Swept s admin (i + 1) n u w'
        → Swept s admin i (suc n) w w'

  pub user_dropped-Dropped :
      (at : Endpoint) (admin : String) (w u : W)
      → k.connect at admin w ≡ (none, u)
      → (r : Option DriverError × W) → k.drop_user at admin u ≡ r
      → no_error (user_dropped k r).0 ≡ true
      → Dropped at admin w (user_dropped k r).1
  user_dropped-Dropped at admin w u c (none, w') d h = gone c d
  user_dropped-Dropped at admin w u c (some e, w') d h =
      elim (Bool-cases (is_user_not_found_err e)) [
        | inl known ↦ rw known (absent e c d known)
        | inr unknown ↦ ground (arith, unknown)
      ]

  pub connected-Dropped :
      (at : Endpoint) (admin : String) (w : W) (r : Option Error × W)
      → k.connect at admin w ≡ r
      → let out = connected k "connect (drop)" (drop_search_coordinator_user k at admin) r in
        no_error out.0 ≡ true → Dropped at admin w out.1
  unfolding drop_search_coordinator_user
  connected-Dropped at admin w (some e, u) c h = cc
  connected-Dropped at admin w (none, u) c h =
      user_dropped-Dropped at admin w u c (k.drop_user at admin u) refl h

  pub drop_at-Dropped :
      (at : Endpoint) (admin : String) (w : W)
      → no_error (drop_at k at admin w).0 ≡ true
      → Dropped at admin w (drop_at k at admin w).1
  drop_at-Dropped at admin w = connected-Dropped at admin w (k.connect at admin w) refl

  pub first_error_none :
      (d e : Option Error)
      → no_error (first_error d e) ≡ true
      → (no_error d ≡ true) × (no_error e ≡ true)
  first_error_none none e h = (refl, h)
  first_error_none (some d) e h = cc

  pub drop_on_shards-Swept :
      (s : Source) (admin : String) (i n : ℕ) (before : Option Error) (w : W)
      → no_error (drop_on_shards k s admin i n before w).0 ≡ true
      → (no_error before ≡ true) × Swept s admin i n w (drop_on_shards k s admin i n before w).1
  unfolding drop_on_shards
  drop_on_shards-Swept s admin i zero before w h = (h, all_done)
  drop_on_shards-Swept s admin i (suc n) before w h =
      let r = drop_at k (shard_endpoint k s i) admin w in
      let rest = drop_on_shards-Swept s admin (i + 1) n (first_error before r.0) r.1 h in
      let both = first_error_none before r.0 rest.0 in
      (both.0, next (drop_at-Dropped (shard_endpoint k s i) admin w both.1) rest.1)
