-- ===== src/Daemon/Start.antt =====
-- crates/rfsd/src/lib.rs: the construction of a daemon. The texts of errors are not kept.
use remotefs.Base.{
  ℕ, Bool, true, false, not, ◌&&◌, Option, none, Result, ok, err, map_err, ok_or, if◌then◌else◌,
  reject_if,
}
use remotefs.Base.Text.{Text}
use remotefs.Base.State.{Stateful, ◌>>=◌, ◌>>◌, lift, pure}
use remotefs.Digest.{from_str}
use remotefs.Session.Types.{SessionError}
use remotefs.Session.Facade.{Session, Environment}
use remotefs.Session.Home.{Home, System, layout_of}
use remotefs.Session.Opening.{open_session}
use remotefs.Mount.Filesystem.{new_service}
use remotefs.Daemon.Types.{SessionInfo, DaemonResources}
use remotefs.Cli.Settings.{rfs_home}
use remotefs.Daemon.Arguments.{
  StartError, invalid_digest, session, root_directory, missing_home, logging, join, mounting,
  socket, Cli, connect_cas,
}

-- What the start asks of the system, and the facts of the process.
pub record Calls : Type 0 where
  pub connects : Text → Bool
  pub is_dir : Option Bool
  pub session_id : Text
  pub pid : ℕ
  pub now : Option ℕ
  pub logs : Bool
  pub joins : Bool
  pub mounts : Bool
  pub binds : Bool
  pub restricts : Bool
  pub removes : Bool

-- What a start changes.
pub record Machine : Type 0 where
  pub home : Home
  pub is_mounted : Bool
  pub has_socket : Bool

abbrev pub Start : Type 0 → Type 0
Start A = Stateful StartError Machine A

abbrev pub fail_unless : Bool → StartError → Start (Unit {0})
fail_unless holds e m = (reject_if (not holds) e, m)

-- A socket that is there already is not bound, and not removed.
unfoldable pub bind_control_socket : Calls → Start (Unit {0})
bind_control_socket calls m =
    if not (calls.binds && not m.has_socket)
    then (err socket, m)
    else if calls.restricts
    then (ok tt, record m { has_socket = true })
    else (err socket, record m { has_socket = not calls.removes })

module _ (environment : Environment) (calls : Calls) where
  -- What follows the opening of the session; the mount is a call of the library.
  unfoldable pub start_session : SessionInfo → Session → Start (DaemonResources × Session)
  unfolding bind_control_socket
  start_session info s = do
    fail_unless calls.logs logging
    fail_unless calls.joins join
    lift (map_err root_directory (new_service environment s).0)
    λ m. if calls.mounts then (ok tt, record m { is_mounted = true }) else (err mounting, m)
    bind_control_socket calls
    pure (record { info = info; socket = info.control_endpoint }, (new_service environment s).1)

  -- What was acquired is dropped where a later step fails: the mount and the lock.
  abbrev pub dropping :
      Result StartError (DaemonResources × Session) × Machine
      → Result StartError (DaemonResources × Session) × Machine
  dropping (ok r, m) = (ok r, m)
  dropping (err e, m) =
      (err e, record m { home = record m.home { lock_owner = none }; is_mounted = false })

  abbrev pub with_session :
      SessionInfo
      → Machine
      → Result SessionError Session × Home
      → Result StartError (DaemonResources × Session) × Machine
  with_session info m (err e, home) = (err (session e), record m { home = home })
  with_session info m (ok s, home) = dropping (start_session info s (record m { home = home }))

  module _ (env : Text → Option Text) (system : System) where
    unfoldable pub construct_daemon : Cli → Start (DaemonResources × Session)
    unfolding connect_cas start_session
    construct_daemon cli = do
      digest ← lift (map_err invalid_digest (from_str cli.root_digest))
      config ← lift (connect_cas env calls.connects cli)
      home ← lift (ok_or missing_home (rfs_home env))
      λ m.
          with_session
            (record {
              root_digest = digest;
              mountpoint = cli.mountpoint;
              daemon_pid = calls.pid;
              control_endpoint = (layout_of home).control_endpoint;
              is_closed = false;
            })
            m
            (open_session system environment digest cli.mountpoint calls.session_id calls.pid
              calls.now calls.is_dir m.home)
