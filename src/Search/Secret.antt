-- ===== src/Search/Secret.antt =====
-- ensureSyncSecret and resolveSyncUser: which secret is trusted with the password of the sync user.
use mongodb_operator.Common.{
  ℕ, zero, suc, String, Bool, Option, none, some, List, [], ◌∷◌, str_eq, if◌then◌else◌, is_empty,
  lookup,
}
use mongodb_operator.Kube.{ApiError, api, wrapped, text, Outcome, ok, err}
use mongodb_operator.Upgrade.Status.{◌+++◌}
use mongodb_operator.Cluster.Report.{is_not_found}
use mongodb_operator.Search.{
  Search, SyncSecret, SearchApi, CreateResult, created, exists, refused, default_sync_user,
}

abbrev pub value_of : String → List (String × String) → String
value_of key m = elim (lookup key m) [ none ↦ "" | some v ↦ v ]

abbrev pub sync_secret_name : Search → String
sync_secret_name x = x.name +++ "-search-sync"

-- The label by which an orphaned secret of the operator is known again
abbrev pub is_managed : SyncSecret → Bool
is_managed s = str_eq (value_of "app.kubernetes.io/managed-by" s.labels) "mongodb-operator"

abbrev pub sync_entries : String → List (String × String) → List (String × String)
sync_entries password rest = ("username", default_sync_user) ∷ ("password", password) ∷ rest

abbrev pub new_secret : Search → String → SyncSecret
new_secret x password = record {
  name = sync_secret_name x;
  owner = none;
  labels =
      ("app.kubernetes.io/managed-by", "mongodb-operator")
      ∷ ("mongodb.keiailab.com/search", x.name)
      ∷ [];
  entries = sync_entries password [];
}

module _ {W : Type 0} (k : SearchApi W) where
  abbrev pub SecretResult : Type 0
  SecretResult = Option (Outcome String × W)

  abbrev pub adopted : String → Option ApiError × W → Outcome String × W
  adopted name (some e, w) = (err (wrapped "re-adopt sync secret update" (api e)), w)
  adopted name (none, w) = (ok name, w)

  -- A secret of the operator that has lost its owner gets a new password. A write to a Go map is a new
  -- entry in front of the old ones.
  abbrev pub adopt_owned : String → Outcome SyncSecret → W → Outcome String × W
  adopt_owned name (err e) w = (err (wrapped "re-adopt sync secret owner ref" e), w)
  adopt_owned name (ok s) w =
      let (password, w') = k.generate_password w in
      adopted name (k.update_secret (record s { entries = sync_entries password s.entries }) w')

  abbrev pub existing_secret : String → SyncSecret → W → Outcome String × W
  existing_secret name s w =
      if k.is_controlled s
      then (ok name, w)
      else if is_managed s
      then adopt_owned name (k.set_controller s) w
      else (err (text ("sync secret " +++ name) " exists and is not owned by the operator"), w)

  -- The end of a creation; `retry` is the recursive call, for a secret that has just come to be.
  abbrev pub on_created : String → (W → SecretResult) → CreateResult × W → SecretResult
  on_created name retry (created, w) = some (ok name, w)
  on_created name retry (exists, w) = retry w
  on_created name retry (refused e, w) = some (err (wrapped "create sync secret" (api e)), w)

  abbrev pub create_owned : String → (W → SecretResult) → Outcome SyncSecret → W → SecretResult
  create_owned name retry (err e) w = some (err (wrapped "set owner ref on sync secret" e), w)
  create_owned name retry (ok s) w = on_created name retry (k.create_secret s w)

  abbrev pub create_new : Search → (W → SecretResult) → W → SecretResult
  create_new x retry w =
      let (password, w') = k.generate_password w in
      create_owned (sync_secret_name x) retry (k.set_controller (new_secret x password)) w'

  abbrev pub on_secret : Search → (W → SecretResult) → Outcome SyncSecret → W → SecretResult
  on_secret x retry (ok s) w = some (existing_secret (sync_secret_name x) s w)
  on_secret x retry (err e) w =
      if is_not_found e then create_new x retry w else some (err (wrapped "get sync secret" e), w)

  -- The auto-created secret: `none` means that the fuel has run out, which the recursion of the source
  -- does not have.
  unfoldable pub ensure_own_secret : ℕ → Search → W → SecretResult
  unfolding lookup
  ensure_own_secret zero x w = none
  ensure_own_secret (suc fuel) x w =
      on_secret x (ensure_own_secret fuel x) (k.get_secret (sync_secret_name x) w) w

  -- ensureSyncSecret
  unfoldable pub ensure_sync_secret : ℕ → Search → W → SecretResult
  unfolding ensure_own_secret
  ensure_sync_secret fuel x w = elim x.sync_user_secret [
    | none ↦ ensure_own_secret fuel x w
    | some name ↦ some (ok name, w)
  ]

  abbrev named_user : String → Outcome SyncSecret → Outcome String
  named_user name (err e) = err (wrapped ("get sync secret " +++ name) e)
  named_user name (ok s) =
      let user = value_of "username" s.entries in
      if is_empty user then ok default_sync_user else ok user

  -- resolveSyncUser of a given secret; the default user for an auto-created one
  unfoldable pub resolve_sync_user : Search → String → W → Outcome String
  unfolding lookup
  resolve_sync_user x name w = elim x.sync_user_secret [
    | none ↦ ok default_sync_user
    | some _ ↦ named_user name (k.get_secret name w)
  ]
