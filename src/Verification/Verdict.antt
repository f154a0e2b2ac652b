-- ===== src/Verification/Verdict.antt =====
-- What a verification that has passed stands for.
use mongodb_operator.Common.{
  String, true, Option, none, some, List, [], ◌∷◌, ◌≡◌, ◌≢◌, refl, arith, ◌⊎◌, inl, inr, All,
}
use mongodb_operator.Common.Int.{◌≤ℤ◌}
use mongodb_operator.Kube.{Error, Outcome, ok, err, Requeue}
use mongodb_operator.Verification.{
  VerificationPhase, unset, pending, restoring, verifying, passed, failed, VerificationQuery,
  BackupVerification, VerificationApi, queries_of,
}
use mongodb_operator.Verification.Pass.{
  counted, run_queries, read_restore_conn_string, count_documents, verify_with, verify,
  await_restore, await_backup, dispatch, reconcile,
}

module _ {W : Type 0} (k : VerificationApi W) where
  -- The count of the query's documents has no error and is as large as asked for.
  abbrev pub IsMet : String → W → VerificationQuery → Type 0
  IsMet s w q = ((counted k s w q).1 ≡ none) × (q.min_expected_docs ≤ℤ (counted k s w q).0)

  -- At `w`, the restored database can be reached and meets every query.
  pub record IsCounted (v : BackupVerification) (w : W) : Type 0 where
    pub phase : v.status.phase ≡ verifying
    pub address : String
    pub found : read_restore_conn_string k v w ≡ ok address
    pub connected : k.connect address w ≡ none
    pub met : All (IsMet address w) (queries_of v.sample_queries)

  run_queries-IsMet :
      (s : String) (w : W) (qs : List VerificationQuery)
      → (run_queries k s w qs).1 ≡ true
      → All (IsMet s w) qs
  unfolding run_queries
  run_queries-IsMet s w [] h = tt
  run_queries-IsMet s w (q ∷ qs) h = ground (arith, run_queries-IsMet s w qs)

  abbrev IsPassed : Outcome Requeue × BackupVerification × W → Type 0
  IsPassed x = x.1.status.phase ≡ passed

  await_backup_open :
      (v : BackupVerification) (w : W) → IsPassed (await_backup k v w) → v.status.phase ≡ passed
  unfolding await_backup
  await_backup_open v w h = ground arith

  await_restore_open :
      (v : BackupVerification) (w : W) → IsPassed (await_restore k v w) → v.status.phase ≡ passed
  unfolding await_restore
  await_restore_open v w h = ground arith

  -- The verdict is written only behind the queries.
  count_documents_passed :
      (s : String) (v : BackupVerification) (w : W)
      → v.status.phase ≡ verifying
      → read_restore_conn_string k v w ≡ ok s
      → (x : Option Error) → k.connect s w ≡ x
      → IsPassed (count_documents k s x v w)
      → IsCounted v w
  count_documents_passed s v w at found (some e) c h = cc
  count_documents_passed s v w at found none c h = record {
    phase = at;
    address = s;
    found = found;
    connected = c;
    met = run_queries-IsMet s w (queries_of v.sample_queries) (ground arith);
  }

  verify_with_passed :
      (v : BackupVerification) (w : W)
      → v.status.phase ≡ verifying
      → (x : Outcome String) → read_restore_conn_string k v w ≡ x
      → IsPassed (verify_with k x v w)
      → IsCounted v w
  verify_with_passed v w at (err e) found h = ground arith
  verify_with_passed v w at (ok s) found h =
      count_documents_passed s v w at found (k.connect s w) refl h

  dispatch_passed :
      (p : VerificationPhase) (v : BackupVerification) (w : W)
      → v.status.phase ≡ p
      → IsPassed (dispatch k p v w)
      → (v.status.phase ≡ passed) ⊎ IsCounted v w
  unfolding verify
  dispatch_passed unset v w at h = inl (await_backup_open v w h)
  dispatch_passed pending v w at h = inl (await_backup_open v w h)
  dispatch_passed restoring v w at h = inl (await_restore_open v w h)
  dispatch_passed verifying v w at h =
      inr (verify_with_passed v w at (read_restore_conn_string k v w) refl h)
  dispatch_passed passed v w at h = inl at
  dispatch_passed failed v w at h = inl h

  pass_passed :
      (v : BackupVerification) (w : W)
      → IsPassed (reconcile k v w)
      → (v.status.phase ≡ passed) ⊎ IsCounted v w
  unfolding reconcile
  pass_passed v w h = dispatch_passed v.status.phase v w refl h

  -- Passes of the controller over a verification; between two of them anything may happen outside.
  pub data Reach (v : BackupVerification) : BackupVerification → Type 0 where
    here : Reach v v
    pass : {v' : BackupVerification} → Reach v v' → (w : W) → Reach v (reconcile k v' w).1

  -- A verification that becomes Passed was in the phase Verifying before some pass in which the
  -- connection string of the backup was read, the restored database was connected to, and the count of
  -- each of its queries (of the documents of admin.system.version, at least one, if it has none) came
  -- without an error and was at least the number that the query asks for.
  pub Reach-IsCounted :
      {v v' : BackupVerification}
      → v.status.phase ≢ passed
      → Reach v v'
      → v'.status.phase ≡ passed
      → (u : BackupVerification) × (w : W) × Reach v u × IsCounted u w
  Reach-IsCounted new here h = absurd (new h)
  Reach-IsCounted new (pass {v' = u} r w) h = elim (pass_passed u w h) [
    | inl before ↦ Reach-IsCounted new r before
    | inr counted ↦ (u, w, r, counted)
  ]
