-- ===== src/Insights/Connect.antt =====
-- loadCredentialsFromSecret and connectTo of internal/insights/fetcher.go: the connection to a server
-- whose slow queries are collected.
use mongodb_operator.Common.{
  ℕ, String, Bool, true, false, ◌&&◌, Option, none, some, List, if◌then◌else◌, is_empty, lookup,
}
use mongodb_operator.Common.Int.{ℤ}
use mongodb_operator.Kube.{Error, wrapped, text, Outcome, ok, err, Secret}
use mongodb_operator.Upgrade.Status.{◌+++◌}
use mongodb_operator.Insights.{ProfileDoc, IndexStat}

-- connectTarget
pub record ConnectTarget : Type 0 where
  pub host : String
  pub replica_set : String
  pub admin_secret : String
  pub namespace : String

-- analysisCredentials
pub record Credentials : Type 0 where
  pub username : String
  pub password : String
  pub auth_db : String

-- The part of a MongoDBInsights that the fetcher reads.
pub record FetchSpec : Type 0 where
  pub namespace : String
  pub cluster_name : String
  pub cluster_kind : String
  pub credentials_secret : Option String
  pub profiling_level : ℤ
  pub slow_query_threshold_ms : ℤ

pub record FetchApi (W : Type 0) : Type 0 where
  -- r.Get of a MongoDB, for the name of its admin secret, and of a MongoDBSharded, for its count of
  -- shards too
  pub get_cluster : String → W → Outcome String
  pub get_sharded_cluster : String → W → Outcome (String × ℤ)
  pub get_secret : String → W → Outcome Secret
  -- mongoclient.NewClient
  pub new_client : ConnectTarget → Credentials → W → Option Error × W
  pub list_database_names : ConnectTarget → W → Outcome (List String)
  -- the command "profile" on a database; its error is dropped
  pub set_profile : ConnectTarget → String → ℤ → ℤ → W → W
  pub collect_profile_docs : ConnectTarget → ℕ → W → Outcome (List ProfileDoc) × W
  pub collect_index_stats : ConnectTarget → W → Outcome (List IndexStat) × W
  pub decimal : ℤ → String

-- A client for one server, or the error.
abbrev pub or_else : String → String → String
or_else s t = if is_empty s then t else s

abbrev pub entry_or : String → List (String × String) → String
entry_or k m = elim (lookup k m) [ none ↦ "" | some v ↦ v ]

module _ {W : Type 0} (k : FetchApi W) (s : FetchSpec) where
  abbrev pub custom_secret : Option String → Option String
  custom_secret none = none
  custom_secret (some name) = if is_empty name then none else some name

  abbrev pub fallback_credentials : String → Secret → Credentials
  fallback_credentials password secret =
      let db = or_else (entry_or "authDB" secret.entries) (entry_or "authSource" secret.entries) in
      record {
        username = or_else (entry_or "username" secret.entries) "admin";
        password = password;
        auth_db = or_else db "admin";
      }

  abbrev pub credentials_of : Bool → String → Secret → Outcome Credentials
  credentials_of custom name secret = elim (lookup "password" secret.entries) [
    | none ↦ err (text ("secret " +++ name) " missing 'password' key")
    | some password ↦
        if custom && is_empty (entry_or "username" secret.entries)
        then err (text ("secret " +++ name) " missing 'username' key")
        else ok (fallback_credentials password secret)
  ]

  abbrev pub read_credentials : Bool → String → Outcome Secret → Outcome Credentials
  read_credentials custom name (err e) = err (wrapped ("get secret " +++ name) e)
  read_credentials custom name (ok secret) = credentials_of custom name secret

  abbrev pub load_named : Bool → String → W → Outcome Credentials
  load_named custom name w =
      if is_empty name
      then err (text "no credentials secret resolvable for analysis" "")
      else read_credentials custom name (k.get_secret name w)

  -- loadCredentialsFromSecret
  unfoldable pub load_credentials : String → W → Outcome Credentials
  unfolding lookup
  load_credentials fallback w = elim (custom_secret s.credentials_secret) [
    | none ↦ load_named false fallback w
    | some name ↦ load_named true name w
  ]

  abbrev pub client_made : ConnectTarget → Option Error × W → Option Error × W
  client_made t (none, w) = (none, w)
  client_made t (some e, w) = (some (wrapped ("connect " +++ t.host) e), w)

  abbrev pub connect_with : ConnectTarget → Outcome Credentials → W → Option Error × W
  connect_with t (err e) w = (some e, w)
  connect_with t (ok c) w = client_made t (k.new_client t c w)

  -- connectTo
  unfoldable pub connect_to : ConnectTarget → W → Option Error × W
  unfolding load_credentials
  connect_to t w = connect_with t (load_credentials t.admin_secret w) w
