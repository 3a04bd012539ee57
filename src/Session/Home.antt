-- ===== src/Session/Home.antt =====
-- crates/rfs-common/src/session.rs: what lies in `RFS_HOME`, and the steps of an opening.
use remotefs.Base.{
  ℕ, Bool, true, false, not, Option, none, some, Result, ok, err, is_some, [], if◌then◌else◌,
  reject_if,
}
use remotefs.Base.Text.{Text, codes}
use remotefs.Upload.Paths.{join}
use remotefs.Session.Types.{SessionError, internal_error, failed_precondition}
use remotefs.Session.Action.{Action, ◌>>◌}
use remotefs.Session.Cache.{Files}
use remotefs.Session.Store.Database.{Database, empty_database}

-- The calls of the operating system that may fail.
pub data Call : Type 0 where
  create_home secure_home open_lock secure_lock truncate_lock write_lock : Call
  remove_session create_session create_database create_cache create_overlay : Call

pub record LockRecord : Type 0 where
  pub session_id : Text
  pub pid : ℕ

-- The directory `session`. The overlay is there when its directory and the two in it are.
pub record SessionDirectory : Type 0 where
  pub stored : Option Database
  pub has_overlay : Bool

-- What lies in `RFS_HOME`, and the process that holds the lock on `session.lock`.
pub record Home : Type 0 where
  pub is_there : Bool
  pub lock_owner : Option ℕ
  pub lock_record : Option LockRecord
  pub cache : Option Files
  pub session : Option SessionDirectory

pub record SessionLayout : Type 0 where
  pub cache : Text
  pub session : Text
  pub session_lock : Text
  pub control_endpoint : Text

-- `SessionLayout::new`
unfoldable pub layout_of : Text → SessionLayout
layout_of home = record {
  cache = join home (codes "cache");
  session = join home (codes "session");
  session_lock = join home (codes "session.lock");
  control_endpoint = join (join home (codes "session")) (codes "control.sock");
}

-- Which calls fail, and what a removal of a directory that fails leaves of it.
pub record System : Type 0 where
  pub fails : Call → Bool
  pub leftover : SessionDirectory → Option SessionDirectory

-- Of the mountpoint, whether it is a directory, where it can be inspected.
unfoldable pub validate_mountpoint : Option Bool → Result SessionError (Unit {0})
validate_mountpoint none = err internal_error
validate_mountpoint (some is_dir) = reject_if (not is_dir) internal_error

abbrev pub new_directory : SessionDirectory
new_directory = record { stored = none; has_overlay = false }

module _ (system : System) where
  -- A call that changes the home when it succeeds.
  abbrev pub call : Call → (Home → Home) → Action Home (Unit {0})
  call c change h = if system.fails c then (err internal_error, h) else (ok tt, change h)

  unfoldable pub ensure_writable_home : Action Home (Unit {0})
  ensure_writable_home h =
      if h.is_there
      then (ok tt, h)
      else (call create_home (λ h. record h { is_there = true }) >> call secure_home (λ h. h)) h

  -- `SessionLock::acquire`. The lock excludes every other opening, of the same process as well.
  unfoldable pub acquire : ℕ → Action Home (Unit {0})
  acquire pid = do
    call open_lock (λ h. h)
    call secure_lock (λ h. h)
    λ h.
        if is_some h.lock_owner
        then (err failed_precondition, h)
        else (ok tt, record h { lock_owner = some pid })

  unfoldable pub write_record : LockRecord → Action Home (Unit {0})
  write_record lock_record = do
    call truncate_lock (λ h. record h { lock_record = none })
    call write_lock (λ h. record h { lock_record = some lock_record })

  -- `remove_if_present` of the session directory.
  unfoldable pub remove_if_present : Action Home (Unit {0})
  remove_if_present h = elim h.session [
    | none ↦ (ok tt, h)
    | some directory ↦
        if system.fails remove_session
        then (err internal_error, record h { session = system.leftover directory })
        else (ok tt, record h { session = none })
  ]

  -- `create_dir_if_absent` of the session directory, then of the cache and of the overlay.
  unfoldable pub create_session_directory : Action Home (Unit {0})
  create_session_directory h =
      if is_some h.session
      then (ok tt, h)
      else call create_session (λ h. record h { session = some new_directory }) h

  unfoldable pub open_cache : Action Home Files
  open_cache h = elim h.cache [
    | some files ↦ (ok files, h)
    | none ↦
        if system.fails create_cache
        then (err internal_error, h)
        else (ok [], record h { cache = some [] })
  ]

  -- A change of the session directory that is there.
  abbrev pub in_session : (SessionDirectory → SessionDirectory) → Home → Home
  in_session change h = elim h.session [
    | none ↦ h
    | some directory ↦ record h { session = some (change directory) }
  ]

  unfoldable pub open_overlay : Action Home (Unit {0})
  open_overlay = call create_overlay (in_session (λ d. record d { has_overlay = true }))

  -- `create_empty_file` of the database, which must not be there.
  unfoldable pub create_empty_file : Action Home (Unit {0})
  create_empty_file h = elim h.session [
    | none ↦ (err internal_error, h)
    | some directory ↦
        if is_some directory.stored
        then (err internal_error, h)
        else call create_database (in_session (λ d. record d { stored = some empty_database })) h
  ]
