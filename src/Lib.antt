-- ===== src/Lib.antt =====
-- A Kubernetes operator for MongoDB (keiailab/mongodb-operator), written in Go.
--
-- A controller of the operator reads a custom object, compares its spec with what runs, acts through
-- the API server and the database, and records its progress in the status of the object. A pass of
-- such a controller may stop anywhere and is run again, so what has to be right is what each pass
-- writes, and what later passes read. The development models the rules for MongoDB versions and the
-- state machines that upgrade a cluster, which hold the longest chains of such passes, the webhooks
-- that admit a spec, the plans for moving the data of shards, the controllers of replica sets and
-- sharded clusters with all the steps of their passes. Around these it has the controllers of the
-- backups that an upgrade waits for and of their verification, of the search servers beside a
-- database and of search indexes, of the insights into
-- slow queries, and of federations of clusters.
--
-- The outside is a parameter: `Kube.Api` has the clock, the API server and the database as functions
-- over an abstract world, so that every answer and every failure is possible. Handlers are written in
-- the monad of `Kube.Exec`, whose state is the object in memory and the world; an error is a value,
-- and what was done before it stays done. Times are nanoseconds, kept as integers.
--
-- Common              tests on numbers, lists, Go's text functions, integers
-- Kube, Kube.Exec     the API objects that are read, the outside, the monad of the handlers
-- Mongo               api/v1alpha1/mongodb_types.go, mongodbsharded_types.go: the specs and statuses
-- Versions            api/v1alpha1/common_types.go: IsSupportedMongoDBVersion, IsValidUpgradePath
-- Versions.Paths      the admitted upgrades against the order of the releases
-- Upgrade.Status      internal/controller/upgrade.go: the closures that change the status
-- Upgrade.Config      the same file: FCV, validation interval, rollout and stuck checks
-- Upgrade.Machine     the same file: reconcileUpgrade and its handlers
-- Upgrade.Sharded     internal/controller/sharded_upgrade.go
-- Upgrade.Seeded      an object whose version fields are set: the seed does nothing
-- Upgrade.Fcv         when the FCV is committed
-- Upgrade.Terminal    when an upgrade has ended
-- Upgrade.Store       the status in memory and the stored one
-- Upgrade.Moves       sequences of passes, edits of the spec and reports, and their invariant
-- Upgrade.Progress    what a validation decides, and a rollback
-- Upgrade.Faults      runs that do not do what they are meant to
-- Admission.Fields    field errors, by kind and path
-- Admission.Encryption, Admission.Security
--                     internal/controller/encryption/kms.go, auth/ldap.go, auth/oidc.go, audit/audit.go
-- Admission.Sections, Admission.ReplicaSet, Admission.Sharded
--                     internal/webhook/v1alpha1: the validating webhooks
-- Admission.Keys      what is admitted of sharded collections and of encryption
-- Admission.Quorum    the votes of admitted shards
-- Admission.Chain     the versions along admitted updates
-- Topology            internal/topology: balancer, preflight, throttle and zone placement
-- Cluster.Outside     what a pass over a MongoDB object calls
-- Cluster.Conditions, Cluster.Report, Cluster.Pass
--                     internal/controller/mongodb_controller.go, helpers.go: Reconcile and updateStatus
-- Cluster.AdminUser   the same file and password_rotation.go: the admin user and its password
-- Cluster.Verified    the end of the loop that waits for the admin user
-- Cluster.Order       what waits for an upgrade
-- Cluster.Round       a whole upgrade, pass by pass
-- Cluster.Stale, Cluster.Unready
--                     what the recorded status says after failures
-- Cluster.Lease       internal/controller/bootstrap_lease.go
-- Cluster.Mutex       the exclusion that the lease gives
-- Shards.Services     what a pass over a MongoDBSharded object calls
-- Shards.Flags        the slices ShardsInitialized and ShardsAdded, and the loops over them
-- Shards.Hosts, Shards.Namespaces, Shards.Keys
--                     internal/mongodb/replicaset.go, client.go, sharding.go: host names, namespaces,
--                     shard keys and EnsureShardedCollection
-- Shards.Init, Shards.ScaleIn, Shards.Conditions, Shards.Report, Shards.Collections,
-- Shards.Autoscalers, Shards.Pass
--                     internal/controller/mongodbsharded_controller.go; in Conditions the guards of
--                     internal/resources/builder_hpa.go too
-- Shards.Initialized, Shards.Settled, Shards.Union
--                     the flags behind initialization and registration
-- Shards.Drain, Shards.Reset, Shards.Restart, Shards.Backoff
--                     the removal of shards, in one pass and over several
-- Shards.Ready, Shards.Agree
--                     the phase and the conditions
-- Shards.Waiting      a pass before the config server is ready
-- Shards.Drift, Shards.Exposed
--                     sharded collections
-- Backup              internal/controller/mongodbbackup_controller.go: Reconcile for a backup and a
--                     restore, the status from the job, the connection string
-- Backup.Phases       sequences of passes over a backup
-- Backup.Final        a failed look-up
-- Verification        internal/controller/mongodbbackupverification_controller.go: Reconcile in
--                     Verification.Pass
-- Verification.Verdict, Verification.Stuck
--                     what Passed stands for; the verification of a completed backup
-- Search.Secret, Search.User, Search.Sidecars, Search.Report, Search.Pass
--                     internal/controller/mongodbsearch_controller.go, internal/mongodb/auth.go: the secret
--                     of the sync user, the user in the database, the mongots, the phase,
--                     the pass. The recursion of
--                     ensureSyncSecret has fuel: Search.Rounds says when two rounds are enough
-- Search.Trust, Search.Rounds
--                     which secrets are taken
-- Search.Gone, Search.Dropped
--                     what a removal of the user leaves
-- SearchIndex         internal/controller/mongodbsearchindex_controller.go, internal/mongodb/searchindex.go:
--                     its passes in SearchIndex.Pass, on Report, Deletion and Reach
-- SearchIndex.Ready, SearchIndex.Wedged, SearchIndex.Drift
--                     what Ready stands for; an index that is not let go; an index that is listed
-- Insights.Shape, Insights.Analysis
--                     internal/insights/analyzer.go, on the buckets of Insights.Group
-- Insights.Actions    internal/insights/auto_action.go, internal/controller/autopilot_advisory.go
-- Insights.Connect, Insights.Fetch
--                     internal/insights/fetcher.go
-- Insights.Pass       internal/controller/mongodbinsights_controller.go
-- Insights.Patterns   the slow patterns that are reported
-- Insights.Lost, Insights.Interval
--                     a shard that cannot be collected; the time between two analyses
-- Federation          internal/controller/mongodbfederation_controller.go, federation_propagation.go
-- Federation.Removed  a region that is taken out
-- Federation.Groups   internal/controller/mongodbclustergroup_controller.go
-- Tests               runs at concrete objects and servers
--
-- The retry loop of UpdateWithRetry is one call of the outside, which answers with its last result.
-- A Go map or a label selector is kept as its text or as an association list. Loops of the source run
-- over slices and are structural recursion here. The loop of verifyAdminUser alone has fuel, six look-ups,
-- which is shown to be enough when a wait takes its second. Logging, events and
-- metrics have no effect on the state and are left out. A loop over the shards of a spec is structural
-- recursion on their count. In the controllers of
-- verifications, search servers, search indexes, insights and federations the object that a pass gives back is the one
-- that the API server stores. Not modelled: the construction of Kubernetes objects (internal/resources),
-- the commands of the driver (internal/mongodb), finalizers, generated code, entry points.
pub mod Common
pub mod Kube
pub mod Mongo
pub mod Versions
pub mod Upgrade
pub mod Admission
pub mod Backup
pub mod Cluster
pub mod Federation
pub mod Insights
pub mod Search
pub mod SearchIndex
pub mod Shards
pub mod Topology
pub mod Verification
pub mod Tests
