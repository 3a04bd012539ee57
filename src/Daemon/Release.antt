-- ===== src/Daemon/Release.antt =====
-- crates/rfsd/src/control_service.rs: `DaemonResources::release`, and the result of `serve`.
use remotefs.Base.{ℕ, Bool, false, not, Option, Result, ok, err, map_err, if◌then◌else◌}
use remotefs.Base.State.{Stateful, and_then, within}
use remotefs.Session.Facade
use remotefs.Session.Facade.{Session, Environment}
use remotefs.Daemon.Types.{ControlError, socket, transport, state, task, context}

-- What the release changes: the mount, the session, and the file of the socket.
pub record World : Type 0 where
  pub is_mounted : Bool
  pub session : Session
  pub has_socket : Bool

-- Which blocking task fails to join, and whether the removal of a socket that is there fails.
pub record Failures : Type 0 where
  pub unmount_join : Bool
  pub close_join : Bool
  pub removal : Bool

module _ (env : Environment) (now : Option ℕ) (failures : Failures) where
  -- The join of the background session of fuser, which unmounts.
  unfoldable pub unmount : Stateful ControlError World (Unit {0})
  unmount w =
      if failures.unmount_join
      then (err (context task), w)
      else (ok tt, record w { is_mounted = false })

  unfoldable pub close_session : Stateful ControlError World (Unit {0})
  close_session w = if failures.close_join then (err (context task), w) else (
    map_err state (Facade.close env now w.session).0,
    record w { session = (Facade.close env now w.session).1 },
  )

  -- A socket that is not there counts as removed.
  unfoldable pub remove_socket : Stateful ControlError World (Unit {0})
  remove_socket w =
      if not w.has_socket
      then (ok tt, w)
      else if failures.removal
      then (err socket, w)
      else (ok tt, record w { has_socket = false })

  unfoldable pub release : Stateful ControlError World (Unit {0})
  release = and_then unmount λ _. and_then close_session λ _. within context remove_socket

-- What `serve` returns, of the results of the server and of the release.
unfoldable pub serve_result : Bool → Result ControlError (Unit {0}) → Result ControlError (Unit {0})
serve_result server_failed released = if server_failed then err transport else released
