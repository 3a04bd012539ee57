-- ===== src/Daemon/Types.antt =====
-- crates/rfsd/src/control_service.rs: the messages of the control protocol, which are generated, their
-- statuses, and the errors of the daemon. The texts of statuses and errors are not kept.
use remotefs.Base.{ℕ, Bool, List}
use remotefs.Base.Text.{Text}
use remotefs.Digest.{Digest}
use remotefs.Session.Types.{SessionError}

pub data Code : Type 0 where
  unavailable failed_precondition unimplemented invalid_argument internal other : Code

-- crates/rfs-common/src/session.rs
pub record SessionInfo : Type 0 where
  pub root_digest : Digest
  pub mountpoint : Text
  pub daemon_pid : ℕ
  pub control_endpoint : Text
  pub is_closed : Bool

-- What a daemon owns, by the facts that its session tells.
pub record DaemonResources : Type 0 where
  pub info : SessionInfo
  pub socket : Text

pub record StatusResponse : Type 0 where
  pub mounted : Bool
  pub root_digest : Text
  pub mountpoint : Text
  pub dirty_files : ℕ
  pub protocol_version : ℕ
  pub daemon_pid : ℕ
  pub control_socket : Text
  pub dirty : Bool
  pub snapshot_blockers : List Text

pub data ControlError : Type 0 where
  socket transport signal task : ControlError
  state : SessionError → ControlError
  context : ControlError → ControlError

abbrev pub protocol_version : ℕ
protocol_version = 1
