-- ===== src/Backup/Final.antt =====
-- A look-up that fails once.
use mongodb_operator.Common.{String, none, false, ◌≡◌, refl, arith}
use mongodb_operator.Kube.{Error, Outcome, ok, err}
use mongodb_operator.Upgrade.Config.{no_requeue}
use mongodb_operator.Backup.{
  MongoDbBackup, BackupApi, failed, is_final, is_unset, is_restore, get_cluster_connection_string,
  update_status_error, failed_with, job_with, reconcile,
}

module _ {W : Type 0} (k : BackupApi W) where
  lost-job_with :
      (x : Outcome String × W) (e : Error) (b : MongoDbBackup)
      → x.0 ≡ err e
      → (job_with k x b).1.status.phase ≡ failed
  unfolding update_status_error
  lost-job_with (ok uri, w) e b h = ground arith
  lost-job_with (err x, w) e b h = refl

  final_reconcile :
      (b : MongoDbBackup) (v : W)
      → b.status.phase ≡ failed
      → reconcile k b v ≡ (ok no_requeue, b, v)
  unfolding reconcile
  final_reconcile b v h = ground arith

  lost_reconcile :
      (b : MongoDbBackup) (w : W) (e : Error)
      → is_final b.status.phase ≡ false
      → is_unset b.status.phase ≡ false
      → is_restore b.restore ≡ false
      → (get_cluster_connection_string k b w).0 ≡ err e
      → (reconcile k b w).1.status.phase ≡ failed
  unfolding reconcile
  lost_reconcile b w e open_phase known no_restore h =
      rw (open_phase, no_restore, known) (lost-job_with (get_cluster_connection_string k b w) e b h)

  -- A backup that is pending or running is given up for ever when one look-up fails: when the cluster,
  -- its secret or the secret with the connection string cannot be read or written in a pass, even by an
  -- error of the API server, and the write of the status that follows succeeds, then that status is
  -- Failed, and no later pass does anything for the backup, whatever the outside answers then.
  pub failed_look_up_is_final :
      (b : MongoDbBackup) (w v : W) (e : Error)
      → is_final b.status.phase ≡ false
      → is_unset b.status.phase ≡ false
      → is_restore b.restore ≡ false
      → (get_cluster_connection_string k b w).0 ≡ err e
      → (let w' = (get_cluster_connection_string k b w).1 in
          (k.update_status (failed_with k e w' b).status w').0 ≡ none)
      → let b' = (reconcile k b w).1 in
        (b'.status.phase ≡ failed) × (reconcile k b' v ≡ (ok no_requeue, b', v))
  failed_look_up_is_final b w v e open_phase known no_restore h stored =
      let lost = lost_reconcile b w e open_phase known no_restore h in
      (lost, final_reconcile (reconcile k b w).1 v lost)
