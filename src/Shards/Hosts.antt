-- ===== src/Shards/Hosts.antt =====
-- The host names of the members of a replica set: GetPodFQDN of internal/mongodb/client.go,
-- BuildReplicaSetConfig of replicaset.go and BuildShardConnectionString of sharding.go.
use mongodb_operator.Common.{ℕ, zero, suc, ◌≡◌, refl, ap, String, List, [], ◌∷◌, map}
use mongodb_operator.Common.Int.{ℤ, pos}
use mongodb_operator.Upgrade.Status.{◌+++◌}
use mongodb_operator.Shards.Services.{ReplicaSetMember, ReplicaSetConfig}

-- `strings.Join`
unfoldable pub join : String → List String → String
join sep [] = ""
join sep (s ∷ []) = s
join sep (s ∷ t ∷ ts) = s +++ sep +++ join sep (t ∷ ts)

module _ (decimal : ℤ → String) where
  -- GetPodFQDN
  unfoldable pub get_pod_fqdn : String → String → String → ℕ → String
  get_pod_fqdn pod service namespace port =
      pod +++ "." +++ service +++ "." +++ namespace +++ ".svc.cluster.local:" +++ decimal (pos port)

  abbrev host_of : String → String → String → ℕ → ℕ → String
  host_of base service namespace port i =
      get_pod_fqdn (base +++ "-" +++ decimal (pos i)) service namespace port

  -- The loop of BuildReplicaSetConfig, from the index `i` on.
  unfoldable pub members_from : String → String → String → ℕ → ℕ → ℕ → List ReplicaSetMember
  unfolding get_pod_fqdn
  members_from base service namespace port zero i = []
  members_from base service namespace port (suc n) i =
      record { id = i; host = host_of base service namespace port i }
      ∷ members_from base service namespace port n (suc i)

  -- BuildReplicaSetConfig
  unfoldable pub build_replica_set_config :
      String → String → String → String → ℕ → ℕ → ReplicaSetConfig
  unfolding members_from
  build_replica_set_config rs_name base service namespace members port = record {
    id = rs_name;
    members = members_from base service namespace port members 0;
  }

  -- The loop of BuildShardConnectionString, from the index `i` on.
  unfoldable pub hosts_from : String → String → String → ℕ → ℕ → ℕ → List String
  unfolding get_pod_fqdn
  hosts_from base service namespace port zero i = []
  hosts_from base service namespace port (suc n) i =
      host_of base service namespace port i ∷ hosts_from base service namespace port n (suc i)

  -- BuildShardConnectionString
  unfoldable pub build_shard_connection_string : String → String → String → String → ℕ → ℕ → String
  unfolding hosts_from join
  build_shard_connection_string shard_name base service namespace members port =
      shard_name +++ "/" +++ join "," (hosts_from base service namespace port members 0)

  hosts_from_lem :
      (base service namespace : String) (port n i : ℕ)
      → hosts_from base service namespace port n i
        ≡ map (λ m. m.host) (members_from base service namespace port n i)
  unfolding hosts_from members_from
  hosts_from_lem base service namespace port zero i = refl
  hosts_from_lem base service namespace port (suc n) i =
      ap (λ hs. host_of base service namespace port i ∷ hs)
        (hosts_from_lem base service namespace port n (suc i))

  -- A shard is registered with the replica set that it was initiated as: its connection string is the
  -- identifier of the configuration and the hosts of its members, in their order.
  pub connection_string_of_config :
      (name service namespace : String) (members port : ℕ)
      → let c = build_replica_set_config name name service namespace members port in
        build_shard_connection_string name name service namespace members port
        ≡ c.id +++ "/" +++ join "," (map (λ m. m.host) c.members)
  unfolding build_replica_set_config build_shard_connection_string
  connection_string_of_config name service namespace members port =
      ap (λ hs. name +++ "/" +++ join "," hs) (hosts_from_lem name service namespace port members 0)
