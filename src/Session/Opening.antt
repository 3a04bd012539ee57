-- ===== src/Session/Opening.antt =====
-- crates/rfs-common/src/session.rs: `Session::open` and `inspect`, over what lies in `RFS_HOME`.
use remotefs.Base.{
  ℕ, Bool, true, false, not, Option, none, some, Result, ok, err, [], if◌then◌else◌,
}
use remotefs.Base.Text.{Text}
use remotefs.Digest.{Digest}
use remotefs.Session.Types.{
  Operation, SessionError, internal_error, failed_precondition, database, closed, SessionLifecycle,
  open_connection, set_busy_timeout, set_journal_mode, enable_foreign_keys,
}
use remotefs.Session.Action.{Action, in_context, ◌>>=◌, ◌>>◌, lift, pure}
use remotefs.Session.Store.Rows.{SessionMetadata}
use remotefs.Session.Store.Database.{Database, Sql, execute}
use remotefs.Session.Store.Operations
use remotefs.Session.Facade.{Session, Environment}
use remotefs.Daemon.Types.{SessionInfo}
use remotefs.Session.Home.{
  Home, layout_of, System, validate_mountpoint, ensure_writable_home, acquire, write_record,
  remove_if_present, create_session_directory, open_cache, in_session, open_overlay,
  create_empty_file,
}

module _ (env : Environment) where
  abbrev pub attempt : Operation → Sql (Unit {0})
  attempt operation = execute env.fault operation (λ db. some (tt, db))

  unfoldable pub open_database : Bool → Sql (Unit {0})
  open_database true = do attempt open_connection; attempt set_busy_timeout
  open_database false = do
    attempt open_connection
    attempt set_busy_timeout
    attempt set_journal_mode
    attempt enable_foreign_keys

module _ (system : System) (env : Environment) where
  -- `SessionStore::create` on the database of the session.
  unfoldable pub create_store : Sql (Unit {0}) → Action Home Database
  create_store create h = elim h.session [
    | none ↦ (err internal_error, h)
    | some directory ↦ elim directory.stored [
      | none ↦ (err internal_error, h)
      | some db ↦
          let r = (open_database env false >> create) db in
          (
            elim r.0 [ ok _ ↦ ok r.1 | err e ↦ err e ],
            in_session system (λ d. record d { stored = some r.1 }) h,
          )
    ]
  ]

  -- The drop of the lock where an opening fails.
  abbrev pub or_release : Result SessionError Session × Home → Result SessionError Session × Home
  or_release (ok a, h) = (ok a, h)
  or_release (err e, h) = (err e, record h { lock_owner = none })

  module _ (root_digest : Digest) (mountpoint session_id : Text) (pid : ℕ) (now : Option ℕ) where
    -- What follows the acquisition of the lock.
    unfoldable pub open_locked : Action Home Session
    unfolding write_record remove_if_present create_session_directory create_empty_file open_cache
        open_overlay create_store
    open_locked = do
      in_context (write_record system (record { session_id = session_id; pid = pid }))
      in_context (remove_if_present system)
      in_context (create_session_directory system)
      in_context (create_empty_file system)
      cache ← in_context (in_context (open_cache system))
      in_context (open_overlay system)
      db ← in_context (
          create_store
            (Operations.create env.fault env.is_uuid session_id pid root_digest mountpoint now))
      pure (record {
        db = db;
        cache = cache;
        overlay = [];
        counters = record {
          directory_downloads = 0;
          directory_cache_hits = 0;
          file_downloads = 0;
          file_cache_hits = 0;
        };
      })

    -- `Session::open`
    unfoldable pub open_session : Option Bool → Action Home Session
    unfolding ensure_writable_home acquire open_locked
    open_session is_dir = do
      in_context (lift (validate_mountpoint is_dir))
      in_context (ensure_writable_home system)
      in_context (acquire system pid)
      λ h. or_release (open_locked h)

abbrev tells_closed : SessionLifecycle → Bool
tells_closed closed = true
tells_closed _ = false

-- `Session::inspect`, of the home at a path. A directory that has no database is one that cannot be
-- opened.
module _ (env : Environment) where
  unfoldable pub inspect_store : Option Database → Result SessionError SessionMetadata
  unfolding open_database
  inspect_store none = err (database open_connection)
  inspect_store (some db) =
      ((open_database env true >> Operations.inspect env.fault env.is_uuid) db).0

  unfoldable pub inspect : Text → Home → Result SessionError (Option SessionInfo)
  unfolding inspect_store layout_of
  inspect home h = if not h.is_there then err failed_precondition else elim h.session [
    | none ↦ ok none
    | some directory ↦ elim (inspect_store directory.stored) [
      | err e ↦ err e
      | ok stored ↦ ok (
          some (record {
            root_digest = stored.root_digest;
            mountpoint = stored.mountpoint;
            daemon_pid = stored.daemon_pid;
            control_endpoint = (layout_of home).control_endpoint;
            is_closed = tells_closed stored.lifecycle;
          }))
    ]
  ]
