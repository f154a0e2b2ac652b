-- ===== src/SearchIndex/Ready.antt =====
-- What a search index that is Ready stands for.
use mongodb_operator.Common.{
  String, Bool, true, false, not, ◌||◌, Option, none, some, List, [], ◌∷◌, ◌≡◌, refl, arith,
  if◌then◌else◌, ◌⊎◌, inl, inr, eq_iff, ap, ◌∙◌,
}
use mongodb_operator.Common.Int.{ℤ}
use mongodb_operator.Kube.{Error, Outcome, ok, err, Requeue}
use mongodb_operator.Cluster.Report.{is_not_found}
use mongodb_operator.SearchIndex.{
  IndexPhase, pending, building, failed, SearchIndexInfo, SearchIndex, MongoDbSearch, Manager,
  IndexApi, place, classify_mongot_status,
}
use mongodb_operator.SearchIndex.Pass.{
  report_listed, ensure_listed, ensure_index, with_definition, serve, on_resolution, on_source,
  on_search, reconcile, finalizer_added,
}
use mongodb_operator.SearchIndex.Reach.{Resolution, connected, unavailable, resolve_source_manager}
use mongodb_operator.SearchIndex.Deletion.{handle_deletion}
use mongodb_operator.SearchIndex.Report.{
  is_ready_phase, apply_status, report, report_building, report_pending,
}

-- A listed index of this name is ready and queryable.
pub classify-ready :
    (to_upper : String → String) (status : String) (queryable : Bool)
    → is_ready_phase (classify_mongot_status to_upper status queryable) ≡ true
    → (to_upper status ≡ "READY") × (queryable ≡ true)
unfolding classify_mongot_status
classify-ready to_upper status queryable h = ground (arith, eq_iff (to_upper status) "READY")

module _ {W D : Type 0} (k : IndexApi W D) where
  -- At `w`, the source runs, mongot is ready, and the index is listed as ready and queryable.
  pub record IsServed (x : SearchIndex) (w : W) : Type 0 where
    pub search : MongoDbSearch
    pub found : k.get_search x.search_name w ≡ ok search
    pub mongot_ready : search.is_ready ≡ true
    pub source : String
    pub named : search.resource ≡ some source
    pub manager : Manager
    pub pod : String
    pub running : resolve_source_manager k source search w ≡ ok (connected manager pod true)
    pub info : SearchIndexInfo
    pub rest : List SearchIndexInfo
    pub listed : k.list_indexes manager (place pod x) w ≡ ok (info ∷ rest)
    pub ready_status : k.to_upper info.status ≡ "READY"
    pub queryable : info.queryable ≡ true

  abbrev IsReady : Outcome Requeue × SearchIndex × W → Type 0
  IsReady r = is_ready_phase r.1.status.phase ≡ true

  report_unready :
      (p : IndexPhase) (delay : ℤ) (msg : String) (x : SearchIndex) (w : W)
      → is_ready_phase p ≡ false
      → IsReady (report k p delay msg x w)
      → is_ready_phase x.status.phase ≡ true
  unfolding report
  report_unready p delay msg x w h r = ground arith

  deletion_unready :
      (m : Option Manager) (pod : String) (x : SearchIndex) (w : W)
      → IsReady (handle_deletion k m pod x w)
      → is_ready_phase x.status.phase ≡ true
  unfolding handle_deletion apply_status
  deletion_unready m pod x w r = ground arith

  -- What the listing has to say for the index to become ready.
  abbrev IsListed : SearchIndex → W → Manager → String → Type 0
  IsListed x w m pod =
      (info : SearchIndexInfo) × (rest : List SearchIndexInfo) × (k.list_indexes m (place pod x) w
        ≡ ok (info ∷ rest))
      × (k.to_upper info.status ≡ "READY")
      × (info.queryable ≡ true)

  listed_ready :
      (info : SearchIndexInfo) (x : SearchIndex) (w : W)
      → IsReady (report_listed k info x w)
      → (is_ready_phase x.status.phase ≡ true)
        ⊎ (is_ready_phase (classify_mongot_status k.to_upper info.status info.queryable) ≡ true)
  unfolding apply_status
  listed_ready info x w r = ground arith

  ensure_ready :
      (m : Manager) (pod : String) (def : D) (x : SearchIndex) (w : W)
      → (y : Outcome (List SearchIndexInfo)) → k.list_indexes m (place pod x) w ≡ y
      → IsReady (ensure_listed k m pod def y x w)
      → (is_ready_phase x.status.phase ≡ true) ⊎ IsListed x w m pod
  unfolding report
  ensure_ready m pod def x w (err e) l r = inl (ground arith)
  ensure_ready m pod def x w (ok []) l r = inl (ground arith)
  ensure_ready m pod def x w (ok (info ∷ rest)) l r = elim (listed_ready info x w r) [
    | inl before ↦ inl before
    | inr now ↦ inr (
      info,
      rest,
      l,
      (classify-ready k.to_upper info.status info.queryable now).0,
      (classify-ready k.to_upper info.status info.queryable now).1,
    )
  ]

  defined_ready :
      (m : Manager) (pod : String) (x : SearchIndex) (w : W) (y : Outcome D)
      → IsReady (with_definition k m pod y x w)
      → (is_ready_phase x.status.phase ≡ true) ⊎ IsListed x w m pod
  unfolding ensure_index
  defined_ready m pod x w (err e) r = inl (ground arith)
  defined_ready m pod x w (ok def) r =
      ensure_ready m pod def x w (k.list_indexes m (place pod x) w) refl r

  -- Behind a connection to the source.
  abbrev IsRunning : MongoDbSearch → Bool → SearchIndex → W → Manager → String → Type 0
  IsRunning search running x w m pod =
      (search.is_ready ≡ true) × (running ≡ true) × IsListed x w m pod

  serve_ready :
      (s : MongoDbSearch) (m : Manager) (pod : String) (running mongot_ready : Bool)
      (x : SearchIndex) (w : W)
      → s.is_ready ≡ mongot_ready
      → IsReady (
          if not running || not mongot_ready
          then report_building k "source mongod / mongot sidecar not ready yet" x w
          else with_definition k m pod (k.parse_definition x.definition_json) x w)
      → (is_ready_phase x.status.phase ≡ true) ⊎ IsRunning s running x w m pod
  serve_ready s m pod true true x w h r =
      elim (defined_ready m pod x w (k.parse_definition x.definition_json) r) [
        | inl before ↦ inl before
        | inr listed ↦ inr (h, refl, listed)
      ]
  serve_ready s m pod false b x w h r = inl (report_unready building _ _ x w refl r)
  serve_ready s m pod true false x w h r = inl (report_unready building _ _ x w refl r)

  connected_ready :
      (s : MongoDbSearch) (m : Manager) (pod : String) (running gone has : Bool) (x : SearchIndex)
      (w : W)
      → IsReady (
          if gone
          then handle_deletion k (some m) pod x w
          else if has
          then serve k s m pod running x w
          else finalizer_added k (k.update_finalizers (k.add_finalizer x.finalizers) w) x)
      → (is_ready_phase x.status.phase ≡ true) ⊎ IsRunning s running x w m pod
  connected_ready s m pod running true has x w r = inl (deletion_unready (some m) pod x w r)
  connected_ready s m pod running false true x w r =
      serve_ready s m pod running s.is_ready x w refl r
  connected_ready s m pod running false false x w r = inl (ground arith)

  unavailable_ready :
      (gone : Bool) (reason : String) (x : SearchIndex) (w : W)
      → IsReady (if gone then handle_deletion k none "" x w else report_pending k reason x w)
      → is_ready_phase x.status.phase ≡ true
  unavailable_ready true reason x w r = deletion_unready none "" x w r
  unavailable_ready false reason x w r = report_unready pending _ _ x w refl r

  missing_ready :
      (missing gone : Bool) (e : Error) (x : SearchIndex) (w : W)
      → IsReady (
          if missing
          then (if gone
              then handle_deletion k none "" x w
              else report_pending k "MongoDBSearch not found yet" x w)
          else (err e, x, w))
      → is_ready_phase x.status.phase ≡ true
  missing_ready true gone e x w r = unavailable_ready gone "MongoDBSearch not found yet" x w r
  missing_ready false gone e x w r = r

  resolution_ready :
      (s : MongoDbSearch) (source : String) (x : SearchIndex) (w : W)
      → k.get_search x.search_name w ≡ ok s
      → s.resource ≡ some source
      → (y : Outcome Resolution) → resolve_source_manager k source s w ≡ y
      → IsReady (on_resolution k s y x w)
      → (is_ready_phase x.status.phase ≡ true) ⊎ IsServed x w
  resolution_ready s source x w found named (err e) h r = inl r
  resolution_ready s source x w found named (ok (unavailable reason)) h r =
      inl (unavailable_ready x.is_deleted reason x w r)
  resolution_ready s source x w found named (ok (connected m pod running)) h r =
      elim (connected_ready s m pod running x.is_deleted (k.has_finalizer x.finalizers) x w r) [
        | inl before ↦ inl before
        | inr (mongot, runs, (info, rest, listed, status, queryable)) ↦ inr (record {
          search = s;
          found = found;
          mongot_ready = mongot;
          source = source;
          named = named;
          manager = m;
          pod = pod;
          running = h ∙ ap (λ (b : Bool). ok (connected m pod b)) runs;
          info = info;
          rest = rest;
          listed = listed;
          ready_status = status;
          queryable = queryable;
        })
      ]

  source_ready :
      (s : MongoDbSearch) (x : SearchIndex) (w : W)
      → k.get_search x.search_name w ≡ ok s
      → (source : Option String) → s.resource ≡ source
      → IsReady (on_source k s source x w)
      → (is_ready_phase x.status.phase ≡ true) ⊎ IsServed x w
  source_ready s x w found none named r = inl (report_unready failed _ _ x w refl r)
  source_ready s x w found (some name) named r =
      resolution_ready s name x w found named (resolve_source_manager k name s w) refl r

  search_ready :
      (x : SearchIndex) (w : W) (y : Outcome MongoDbSearch)
      → k.get_search x.search_name w ≡ y
      → IsReady (on_search k y x w)
      → (is_ready_phase x.status.phase ≡ true) ⊎ IsServed x w
  search_ready x w (err e) found r = inl (missing_ready (is_not_found e) x.is_deleted e x w r)
  search_ready x w (ok s) found r = source_ready s x w found s.resource refl r

  pass_ready :
      (x : SearchIndex) (w : W)
      → IsReady (reconcile k x w)
      → (is_ready_phase x.status.phase ≡ true) ⊎ IsServed x w
  unfolding reconcile
  pass_ready x w r = search_ready x w (k.get_search x.search_name w) refl r

  -- Passes of the controller over a search index; between two of them anything may happen outside.
  pub data Reach (x : SearchIndex) : SearchIndex → Type 0 where
    here : Reach x x
    pass : {y : SearchIndex} → Reach x y → (w : W) → Reach x (reconcile k y w).1

  -- A search index that becomes Ready was served before some pass in which its MongoDBSearch was there
  -- with the phase Ready, the database that this names was running and could be connected to, and the
  -- first index that the database listed for the name had the status READY, in whatever case, and was
  -- queryable.
  pub Reach-IsServed :
      {x y : SearchIndex}
      → is_ready_phase x.status.phase ≡ false
      → Reach x y
      → is_ready_phase y.status.phase ≡ true
      → (u : SearchIndex) × (w : W) × Reach x u × IsServed u w
  Reach-IsServed new here h = cc
  Reach-IsServed new (pass {y = u} r w) h = elim (pass_ready u w h) [
    | inl before ↦ Reach-IsServed new r before
    | inr served ↦ (u, w, r, served)
  ]
