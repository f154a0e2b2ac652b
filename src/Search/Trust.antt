-- ===== src/Search/Trust.antt =====
-- Which secrets the password of the sync user is taken from.
use mongodb_operator.Common.{
  Bool, String, Option, ℕ, zero, suc, String, true, false, none, some, ◌≡◌, ◌∙◌, refl,
  if◌then◌else◌,
}
use mathlib.Core.Path.{subst}
use mongodb_operator.Kube.{ApiError, Error, Outcome, ok, err, text, wrapped}
use mongodb_operator.Upgrade.Status.{◌+++◌}
use mongodb_operator.Cluster.Report.{is_not_found}
use mongodb_operator.Search.{Search, SyncSecret, SearchApi, CreateResult, created, exists, refused}
use mongodb_operator.Search.Secret.{
  sync_secret_name, is_managed, sync_entries, new_secret, adopted, adopt_owned, on_created,
  create_owned, create_new, on_secret, ensure_own_secret, SecretResult, ensure_sync_secret,
}

module _ {W : Type 0} (k : SearchApi W) where
  -- How a secret comes to be trusted between two worlds: it belongs to the search; or it has the label
  -- of the operator, and a new password was stored in it; or it was created with a new password; or
  -- another one has come first, and that one is trusted.
  pub data Trusted (x : Search) : W → W → Type 0 where
    owned :
        {w : W} (s : SyncSecret)
        → k.get_secret (sync_secret_name x) w ≡ ok s
        → k.is_controlled s ≡ true
        → Trusted x w w
    adopted_anew :
        {w w' : W} (s t : SyncSecret)
        → k.get_secret (sync_secret_name x) w ≡ ok s
        → is_managed s ≡ true
        → k.set_controller s ≡ ok t
        → k.update_secret
            (record t { entries = sync_entries (k.generate_password w).0 t.entries })
            (k.generate_password w).1
          ≡ (none, w')
        → Trusted x w w'
    created_anew :
        {w w' : W} (t : SyncSecret)
        → k.set_controller (new_secret x (k.generate_password w).0) ≡ ok t
        → k.create_secret t (k.generate_password w).1 ≡ (created, w')
        → Trusted x w w'
    raced :
        {w u w' : W} (t : SyncSecret)
        → k.create_secret t (k.generate_password w).1 ≡ (exists, u)
        → Trusted x u w'
        → Trusted x w w'

  -- A pass over the secret that ends well
  abbrev Ends : Search → W → SecretResult k → Type 0
  Ends x w none = Unit
  Ends x w (some (err e, w')) = Unit
  Ends x w (some (ok name, w')) = (name ≡ sync_secret_name x) × Trusted x w w'

  adopted-Ends :
      (x : Search) {w : W} (s t : SyncSecret)
      → k.get_secret (sync_secret_name x) w ≡ ok s
      → is_managed s ≡ true
      → k.set_controller s ≡ ok t
      → (r : Option ApiError × W)
      → k.update_secret
          (record t { entries = sync_entries (k.generate_password w).0 t.entries })
          (k.generate_password w).1
        ≡ r
      → Ends x w (some (adopted k (sync_secret_name x) r))
  adopted-Ends x s t found managed set (some e, w') put = tt
  adopted-Ends x s t found managed set (none, w') put =
      (refl, adopted_anew s t found managed set put)

  adopt_owned-Ends :
      (x : Search) (w : W) (s : SyncSecret)
      → k.get_secret (sync_secret_name x) w ≡ ok s
      → is_managed s ≡ true
      → (r : Outcome SyncSecret) → k.set_controller s ≡ r
      → Ends x w (some (adopt_owned k (sync_secret_name x) r w))
  adopt_owned-Ends x w s found managed (err e) set = tt
  adopt_owned-Ends x w s found managed (ok t) set =
      let put =
        k.update_secret (record t { entries = sync_entries (k.generate_password w).0 t.entries })
          (k.generate_password w).1 in
      adopted-Ends x s t found managed set put refl

  existing-Ends :
      (x : Search) (w : W) (s : SyncSecret)
      → k.get_secret (sync_secret_name x) w ≡ ok s
      → (b c : Bool) → k.is_controlled s ≡ b
      → is_managed s ≡ c
      → Ends x w (
          some (
            if b
            then (ok (sync_secret_name x), w)
            else if c
            then adopt_owned k (sync_secret_name x) (k.set_controller s) w
            else (
              err (
                  text
                    ("sync secret " +++ sync_secret_name x)
                    " exists and is not owned by the operator"),
              w,
            )))
  existing-Ends x w s found true c owner managed = (refl, owned s found owner)
  existing-Ends x w s found false true owner managed =
      adopt_owned-Ends x w s found managed (k.set_controller s) refl
  existing-Ends x w s found false false owner managed = tt

  raced-Ends :
      (x : Search) (w u : W) (t : SyncSecret)
      → k.create_secret t (k.generate_password w).1 ≡ (exists, u)
      → (r : SecretResult k) → Ends x u r
      → Ends x w r
  raced-Ends x w u t made none h = tt
  raced-Ends x w u t made (some (err e, w')) h = tt
  raced-Ends x w u t made (some (ok name, w')) h = (h.0, raced t made h.1)

  created-Ends :
      (x : Search) (w : W) (t : SyncSecret)
      → (retry : W → SecretResult k) → ((u : W) → Ends x u (retry u))
      → k.set_controller (new_secret x (k.generate_password w).0) ≡ ok t
      → (r : CreateResult × W) → k.create_secret t (k.generate_password w).1 ≡ r
      → Ends x w (on_created k (sync_secret_name x) retry r)
  created-Ends x w t retry again set (created, u) made = (refl, created_anew t set made)
  created-Ends x w t retry again set (exists, u) made = raced-Ends x w u t made (retry u) (again u)
  created-Ends x w t retry again set (refused e, u) made = tt

  create_owned-Ends :
      (x : Search) (w : W)
      → (retry : W → SecretResult k) → ((u : W) → Ends x u (retry u))
      → (r : Outcome SyncSecret) → k.set_controller (new_secret x (k.generate_password w).0) ≡ r
      → Ends x w (create_owned k (sync_secret_name x) retry r (k.generate_password w).1)
  create_owned-Ends x w retry again (err e) set = tt
  create_owned-Ends x w retry again (ok t) set =
      created-Ends x w t retry again set (k.create_secret t (k.generate_password w).1) refl

  missing-Ends :
      (x : Search) (w : W)
      → (retry : W → SecretResult k) → ((u : W) → Ends x u (retry u))
      → (e : Error) (b : Bool) → Ends x w (if b then create_new k x retry w else some (err e, w))
  missing-Ends x w retry again e true =
      create_owned-Ends x w retry again (k.set_controller (new_secret x (k.generate_password w).0))
        refl
  missing-Ends x w retry again e false = tt

  on_secret-Ends :
      (x : Search) (w : W)
      → (retry : W → SecretResult k) → ((u : W) → Ends x u (retry u))
      → (r : Outcome SyncSecret) → k.get_secret (sync_secret_name x) w ≡ r
      → Ends x w (on_secret k x retry r w)
  on_secret-Ends x w retry again (ok s) found =
      existing-Ends x w s found (k.is_controlled s) (is_managed s) refl refl
  on_secret-Ends x w retry again (err e) found =
      missing-Ends x w retry again (wrapped "get sync secret" e) (is_not_found e)

  own-Ends : (fuel : ℕ) (x : Search) (w : W) → Ends x w (ensure_own_secret k fuel x w)
  unfolding ensure_own_secret
  own-Ends zero x w = tt
  own-Ends (suc fuel) x w =
      on_secret-Ends x w (ensure_own_secret k fuel x) (own-Ends fuel x)
        (k.get_secret (sync_secret_name x) w) refl

  unnamed_own :
      (fuel : ℕ) (x : Search) (w : W)
      → x.sync_user_secret ≡ none
      → ensure_own_secret k fuel x w ≡ ensure_sync_secret k fuel x w
  unfolding ensure_sync_secret
  unnamed_own fuel x w unnamed = rw unnamed refl

  -- When a search names no secret and ensureSyncSecret ends without an error, the secret is the one of
  -- the search, and it is trusted: it belongs to the search, or a password that was generated in this
  -- pass has been stored in it, whatever secrets others put under that name before or in between.
  pub own_secret-IsTrusted :
      (fuel : ℕ) (x : Search) (w w' : W) (name : String)
      → x.sync_user_secret ≡ none
      → ensure_sync_secret k fuel x w ≡ some (ok name, w')
      → (name ≡ sync_secret_name x) × Trusted x w w'
  own_secret-IsTrusted fuel x w w' name unnamed ends =
      subst (Ends x w) (unnamed_own fuel x w unnamed ∙ ends) (own-Ends fuel x w)
