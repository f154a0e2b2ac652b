-- ===== src/Search/Dropped.antt =====
-- What stands behind a cleanup that ends without an error: the finalizer is removed on it.
use mongodb_operator.Common.{
  String, Bool, true, false, Option, none, some, ◌≡◌, refl, arith, if◌then◌else◌,
}
use mongodb_operator.Kube.{Error, text, Outcome, ok, err}
use mongodb_operator.Upgrade.Status.{◌+++◌}
use mongodb_operator.Cluster.Report.{is_not_found}
use mongodb_operator.Search.{Search, Source, SyncSecret, SearchApi}
use mongodb_operator.Search.Secret.{sync_secret_name, is_managed}
use mongodb_operator.Search.User.{
  mongos_endpoint, pod_endpoint, source_admin_password, drop_at, drop_everywhere, drop_with,
  drop_from, is_sharded, drop_sync_mongo_user, cleanup_with, cleanup,
}
use mongodb_operator.Search.Gone.{no_error, Dropped, Swept, drop_at-Dropped, drop_on_shards-Swept}

module _ {W : Type 0} (k : SearchApi W) where
  abbrev pub source_named : Bool → String → W → Outcome Source
  source_named sharded name w = if sharded then k.get_sharded_source name w else k.get_source name w

  -- The user is gone wherever it was created for a source.
  pub data GoneFrom (s : Source) (admin : String) (w : W) : Bool → W → Type 0 where
    at_pod : {w' : W} → Dropped k (pod_endpoint k s) admin w w' → GoneFrom s admin w false w'
    at_mongos_and_shards :
        {u w' : W}
        → Dropped k (mongos_endpoint k s) admin w u
        → Swept k s admin 0 s.shards u w'
        → GoneFrom s admin w true w'

  -- Why a cleanup may let go of a search: there is no source, no trace of a user of the operator, or no
  -- source any more; or the user is gone from a running source.
  pub data Released (x : Search) (w : W) : W → Type 0 where
    unnamed : x.resource ≡ none → Released x w w
    untraced :
        (e : Error)
        → k.get_secret (sync_secret_name x) w ≡ err e
        → is_not_found e ≡ true
        → Released x w w
    foreign :
        (t : SyncSecret)
        → k.get_secret (sync_secret_name x) w ≡ ok t
        → is_managed t ≡ false
        → Released x w w
    vanished :
        (name : String) (e : Error)
        → x.resource ≡ some name
        → source_named (is_sharded k x) name w ≡ err e
        → is_not_found e ≡ true
        → Released x w w
    dropped :
        {w' : W} (name admin : String) (s : Source)
        → x.resource ≡ some name
        → source_named (is_sharded k x) name w ≡ ok s
        → s.is_running ≡ true
        → source_admin_password k s w ≡ ok admin
        → GoneFrom s admin w (is_sharded k x) w'
        → Released x w w'

  drop_everywhere-GoneFrom :
      (s : Source) (admin : String) (w : W)
      → no_error (drop_everywhere k s admin w).0 ≡ true
      → GoneFrom s admin w true (drop_everywhere k s admin w).1
  drop_everywhere-GoneFrom s admin w h =
      let r = drop_at k (mongos_endpoint k s) admin w in
      let rest = drop_on_shards-Swept k s admin 0 s.shards r.0 r.1 h in
      at_mongos_and_shards (drop_at-Dropped k (mongos_endpoint k s) admin w rest.0) rest.1

  drop_with-GoneFrom :
      (s : Source) (sharded : Bool) (admin : String) (w : W)
      → no_error (drop_with k s sharded (ok admin) w).0 ≡ true
      → GoneFrom s admin w sharded (drop_with k s sharded (ok admin) w).1
  drop_with-GoneFrom s true admin w h = drop_everywhere-GoneFrom s admin w h
  drop_with-GoneFrom s false admin w h = at_pod (drop_at-Dropped k (pod_endpoint k s) admin w h)

  module _ (x : Search) (name : String) (w : W) (named : x.resource ≡ some name) where
    drop_with-Released :
        (s : Source)
        → source_named (is_sharded k x) name w ≡ ok s
        → s.is_running ≡ true
        → (r : Outcome String) → source_admin_password k s w ≡ r
        → no_error (drop_with k s (is_sharded k x) r w).0 ≡ true
        → Released x w (drop_with k s (is_sharded k x) r w).1
    drop_with-Released s found up (err e) pw h = cc
    drop_with-Released s found up (ok admin) pw h =
        dropped name admin s named found up pw (drop_with-GoneFrom s (is_sharded k x) admin w h)

    running-Released :
        (s : Source) (b : Bool)
        → source_named (is_sharded k x) name w ≡ ok s
        → s.is_running ≡ b
        → let r =
            if b
            then drop_with k s (is_sharded k x) (source_admin_password k s w) w
            else (some (text ("source " +++ s.name) " not Running"), w) in
          no_error r.0 ≡ true → Released x w r.1
    running-Released s true found up h =
        drop_with-Released s found up (source_admin_password k s w) refl h
    running-Released s false found up h = cc

    missing-Released :
        (e : Error) (b : Bool)
        → source_named (is_sharded k x) name w ≡ err e
        → is_not_found e ≡ b
        → let r : Option Error × W = if b then (none, w) else (some e, w) in
          no_error r.0 ≡ true → Released x w r.1
    missing-Released e true found lost h = vanished name e named found lost
    missing-Released e false found lost h = cc

    drop_from-Released :
        (r : Outcome Source)
        → source_named (is_sharded k x) name w ≡ r
        → no_error (drop_from k (is_sharded k x) r w).0 ≡ true
        → Released x w (drop_from k (is_sharded k x) r w).1
    drop_from-Released (err e) found h = missing-Released e (is_not_found e) found refl h
    drop_from-Released (ok s) found h = running-Released s s.is_running found refl h

    drop_sync_named :
        drop_sync_mongo_user k x name w
        ≡ drop_from k (is_sharded k x) (source_named (is_sharded k x) name w) w
    unfolding drop_sync_mongo_user
    drop_sync_named = ground arith

    drop_sync-Released :
        no_error (drop_sync_mongo_user k x name w).0 ≡ true
        → Released x w (drop_sync_mongo_user k x name w).1
    drop_sync-Released =
        rw drop_sync_named (drop_from-Released (source_named (is_sharded k x) name w) refl)

    managed-Released :
        (t : SyncSecret) (b : Bool)
        → k.get_secret (sync_secret_name x) w ≡ ok t
        → is_managed t ≡ b
        → let r = if b then drop_sync_mongo_user k x name w else (none, w) in
          no_error r.0 ≡ true → Released x w r.1
    managed-Released t true found own h = drop_sync-Released h
    managed-Released t false found own h = foreign t found own

    untraced-Released :
        (e : Error) (b : Bool)
        → k.get_secret (sync_secret_name x) w ≡ err e
        → is_not_found e ≡ b
        → let r : Option Error × W = if b then (none, w) else (some e, w) in
          no_error r.0 ≡ true → Released x w r.1
    untraced-Released e true found lost h = untraced e found lost
    untraced-Released e false found lost h = cc

    cleanup_with-Released :
        (r : Outcome SyncSecret)
        → k.get_secret (sync_secret_name x) w ≡ r
        → no_error (cleanup_with k x name r w).0 ≡ true
        → Released x w (cleanup_with k x name r w).1
    cleanup_with-Released (err e) found h = untraced-Released e (is_not_found e) found refl h
    cleanup_with-Released (ok t) found h = managed-Released t (is_managed t) found refl h

  resource-Released :
      (x : Search) (w : W) (r : Option String)
      → x.resource ≡ r
      → let out : Option Error × W = elim r [
        | none ↦ (none, w)
        | some name ↦ cleanup_with k x name (k.get_secret (sync_secret_name x) w) w
      ] in
        no_error out.0 ≡ true → Released x w out.1
  resource-Released x w none named h = unnamed named
  resource-Released x w (some name) named h =
      cleanup_with-Released x name w named (k.get_secret (sync_secret_name x) w) refl h

  -- A cleanup ends without an error only if the search names no source, or there is no secret that
  -- tells of a user of the operator, or the source is not there any more, or the source is running and
  -- the user is gone from all of its servers: from pod 0 of a replica set, and from a mongos and every
  -- shard of a sharded cluster.
  pub cleanup-IsReleased :
      (x : Search) (w : W) → no_error (cleanup k x w).0 ≡ true → Released x w (cleanup k x w).1
  unfolding cleanup
  cleanup-IsReleased x w h = resource-Released x w x.resource refl h
