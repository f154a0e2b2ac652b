-- ===== src/Search/Rounds.antt =====
-- How many rounds the recursion of ensureSyncSecret takes.
use mongodb_operator.Common.{Bool, ℕ, suc, true, false, none, some, ◌≡◌, refl, if◌then◌else◌}
use mongodb_operator.Kube.{Error, Outcome, ok, err, wrapped}
use mongodb_operator.Cluster.Report.{is_not_found}
use mongodb_operator.Search.{Search, SyncSecret, SearchApi, CreateResult, created, exists, refused}
use mongodb_operator.Search.Secret.{
  sync_secret_name, new_secret, on_created, create_owned, create_new, on_secret, ensure_own_secret,
  SecretResult,
}

module _ {W : Type 0} (k : SearchApi W) where
  abbrev is_missing : Outcome SyncSecret → Bool
  is_missing (ok _) = false
  is_missing (err e) = is_not_found e

  abbrev has_ended : SecretResult k → Bool
  has_ended none = false
  has_ended (some _) = true

  -- A creation is refused as AlreadyExists only when the next read finds the secret.
  abbrev SeesRivals : Search → Type 0
  SeesRivals x =
      (t : SyncSecret) (w u : W)
      → k.create_secret t w ≡ (exists, u)
      → is_missing (k.get_secret (sync_secret_name x) u) ≡ false

  found_ends :
      (x : Search) (retry : W → SecretResult k) (r : Outcome SyncSecret) (w : W)
      → is_missing r ≡ false
      → has_ended (on_secret k x retry r w) ≡ true
  found_ends x retry (ok s) w h = refl
  found_ends x retry (err e) w h = rw h refl

  -- A retry that ends behind every creation that was refused because there is a secret.
  module _ (x : Search) (retry : W → SecretResult k)
      (again : (t : SyncSecret) (w u : W)
        → k.create_secret t w ≡ (exists, u)
        → has_ended (retry u) ≡ true) where
    created_ends :
        (t : SyncSecret) (w : W) (r : CreateResult × W)
        → k.create_secret t w ≡ r
        → has_ended (on_created k (sync_secret_name x) retry r) ≡ true
    created_ends t w (created, u) made = refl
    created_ends t w (exists, u) made = again t w u made
    created_ends t w (refused e, u) made = refl

    create_owned_ends :
        (r : Outcome SyncSecret) (w : W)
        → has_ended (create_owned k (sync_secret_name x) retry r w) ≡ true
    create_owned_ends (err e) w = refl
    create_owned_ends (ok t) w = created_ends t w (k.create_secret t w) refl

    missing_ends :
        (e : Error) (b : Bool) (w : W)
        → has_ended (if b then create_new k x retry w else some (err e, w)) ≡ true
    missing_ends e true w =
        create_owned_ends (k.set_controller (new_secret x (k.generate_password w).0))
          (k.generate_password w).1
    missing_ends e false w = refl

    secret_ends : (r : Outcome SyncSecret) (w : W) → has_ended (on_secret k x retry r w) ≡ true
    secret_ends (ok s) w = refl
    secret_ends (err e) w = missing_ends (wrapped "get sync secret" e) (is_not_found e) w

  -- Two rounds are enough if the read after a creation that was refused finds the secret.
  two_rounds_suffice :
      (fuel : ℕ) (x : Search) (w : W)
      → SeesRivals x
      → has_ended (ensure_own_secret k (suc (suc fuel)) x w) ≡ true
  unfolding ensure_own_secret
  two_rounds_suffice fuel x w sees =
      let again = λ (t : SyncSecret) (v u : W) (made : k.create_secret t v ≡ (exists, u)).
        found_ends x (ensure_own_secret k fuel x) (k.get_secret (sync_secret_name x) u) u
          (sees t v u made) in
      secret_ends x (ensure_own_secret k (suc fuel) x) again (k.get_secret (sync_secret_name x) w) w
