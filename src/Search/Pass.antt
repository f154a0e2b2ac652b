-- ===== src/Search/Pass.antt =====
-- A pass over a MongoDBSearch: its deletion, the mongot beside each mongod, and the status.
use mongodb_operator.Common.{
  ℕ, String, Bool, true, false, ◌||◌, Option, none, some, List, if◌then◌else◌,
}
use mongodb_operator.Common.Int.{ℤ, pos}
use mongodb_operator.Kube.{ApiError, Error, api, wrapped, Outcome, ok, err, Requeue, after}
use mongodb_operator.Upgrade.Status.{◌+++◌}
use mongodb_operator.Upgrade.Config.{seconds}
use mongodb_operator.Cluster.Report.{is_not_found}
use mongodb_operator.Search.{Search, SearchPhase, Source, SearchApi, provisioning, with_status}
use mongodb_operator.Search.Secret.{ensure_sync_secret, resolve_sync_user}
use mongodb_operator.Search.User.{is_sharded, ensure_sync_mongo_user, cleanup}
use mongodb_operator.Search.Report.{
  is_ready_phase, search_phase_from_readiness, set_search_conditions, report, report_pending,
  report_failed,
}
use mongodb_operator.Search.Sidecars.{
  count_ready_sidecars, annotate_source, apply_shard_configs, apply_configs,
}

module _ {W : Type 0} (k : SearchApi W) where
  -- The object in a result is the stored one; `none` means that the fuel of the secret has run out.
  abbrev pub Result : Type 0
  Result = Option (Outcome Requeue × Search × W)

  abbrev raise : Error → Search → W → Outcome Requeue × Search × W
  raise e x w = (err e, x, w)

  abbrev cleaned : Search → Outcome Requeue × List String × W → Outcome Requeue × Search × W
  cleaned x (r, fs, w) = (r, record x { finalizers = fs }, w)

  unfoldable pub handle_deletion : Search → W → Outcome Requeue × Search × W
  unfolding cleanup
  handle_deletion x w = cleaned x (k.handle_finalizer_cleanup (cleanup k x) x.finalizers w)

  abbrev phase_at : Source → ℕ × ℕ → SearchPhase
  phase_at s (n, total) = if s.is_running then search_phase_from_readiness n total else provisioning

  abbrev ready_status : SearchPhase → ℕ → W → Search → Search
  ready_status p n w x =
      with_status
        (record {
          phase = p;
          mongot_endpoint = "localhost:27028";
          ready_replicas = n;
          observed_generation = x.generation;
          error = "";
          conditions = set_search_conditions k w x.generation p x.status.conditions;
        })
        x

  abbrev polled : SearchPhase → ℤ
  polled p = if is_ready_phase p then pos (seconds 120) else pos (seconds 15)

  abbrev status_written :
      SearchPhase → Option ApiError × W → Search → Search → Outcome Requeue × Search × W
  status_written p (some e, w) old new = (err (api e), old, w)
  status_written p (none, w) old new = (ok (after (polled p)), new, w)

  abbrev finish_with : Source → Outcome (ℕ × ℕ) → Search → W → Outcome Requeue × Search × W
  finish_with s (err e) x w = raise (wrapped "count mongot sidecars" e) x w
  finish_with s (ok t) x w =
      let p = phase_at s t in
      let new = ready_status p t.0 w x in status_written p (k.update_status new.status w) x new

  -- The readiness of the containers, and the status
  unfoldable pub finish : Bool → Source → Search → W → Outcome Requeue × Search × W
  unfolding count_ready_sidecars search_phase_from_readiness
  finish sharded s x w =
      finish_with s (if s.is_running then count_ready_sidecars k sharded s w else ok (0, 0)) x w

  -- An error of the sync user is only logged.
  abbrev user_ensured : Bool → Source → String → Search → W → Outcome Requeue × Search × W
  user_ensured sharded s secret x w =
      let (_, w') = ensure_sync_mongo_user k x s sharded secret w in finish sharded s x w'

  abbrev service_applied :
      Source → String → Search → Option ApiError × W → Outcome Requeue × Search × W
  service_applied s secret x (some e, w) = raise (wrapped "apply mongot service" (api e)) x w
  service_applied s secret x (none, w) = user_ensured true s secret x w

  abbrev annotated :
      Bool → Source → String → Search → Option ApiError × W → Outcome Requeue × Search × W
  annotated sharded s secret x (some e, w) = raise (wrapped "annotate source" (api e)) x w
  annotated true s secret x (none, w) =
      service_applied s secret x (k.apply_service (s.name +++ "-mongot") w)
  annotated false s secret x (none, w) = user_ensured false s secret x w

  abbrev configured :
      Bool → Source → String → Search → Option ApiError × W → Outcome Requeue × Search × W
  configured sharded s secret x (some e, w) = raise (wrapped "apply mongot configmap" (api e)) x w
  configured sharded s secret x (none, w) =
      annotated sharded s secret x (annotate_source k sharded x s secret w)

  -- Behind the secret: nothing of the source is touched before.
  abbrev pub deploy : Bool → Source → String → Search → W → Outcome Requeue × Search × W
  deploy sharded s secret x w = elim (resolve_sync_user k x secret w) [
    | err e ↦ report_failed k ("sync secret invalid: " +++ k.error_text e) x w
    | ok user ↦ configured sharded s secret x (apply_configs k sharded x s user w)
  ]

  abbrev pub with_secret :
      Bool → Source → Outcome String → Search → W → Outcome Requeue × Search × W
  with_secret sharded s (err e) x w =
      report_failed k ("ensure sync secret: " +++ k.error_text e) x w
  with_secret sharded s (ok secret) x w = deploy sharded s secret x w

  abbrev pub on_secret_result : Bool → Source → Search → Option (Outcome String × W) → Result
  on_secret_result sharded s x none = none
  on_secret_result sharded s x (some (r, w)) = some (with_secret sharded s r x w)

  abbrev pub on_source : ℕ → Bool → Outcome Source → Search → W → Result
  on_source fuel sharded (err e) x w =
      some (if is_not_found e then report_pending k "source not found yet" x w else raise e x w)
  on_source fuel sharded (ok s) x w = on_secret_result sharded s x (ensure_sync_secret k fuel x w)

  abbrev pub source_pass : ℕ → String → Search → W → Result
  source_pass fuel name x w =
      if is_sharded k x
      then on_source fuel true (k.get_sharded_source name w) x w
      else on_source fuel false (k.get_source name w) x w

  abbrev pub finalized : ℕ → String → Search → Option ApiError × W → Result
  finalized fuel name x (some e, w) = some (raise (api e) x w)
  finalized fuel name x (none, w) =
      source_pass fuel name (record x { finalizers = k.add_finalizer x.finalizers }) w

  abbrev pub is_given : Option String → Bool
  is_given none = false
  is_given (some _) = true

  abbrev pub on_resource : ℕ → Option String → Search → W → Result
  on_resource fuel none x w = some (report_failed k "source.mongodbResourceRef required" x w)
  on_resource fuel (some name) x w =
      if is_given x.sync_user_secret || k.has_finalizer x.finalizers
      then source_pass fuel name x w
      else finalized fuel name x (k.update_finalizers (k.add_finalizer x.finalizers) w)

  -- Reconcile of an object that is there
  unfoldable pub reconcile : ℕ → Search → W → Result
  unfolding handle_deletion report ensure_sync_secret resolve_sync_user annotate_source
      apply_shard_configs ensure_sync_mongo_user finish
  reconcile fuel x w =
      if x.is_deleted then some (handle_deletion x w) else on_resource fuel x.resource x w
