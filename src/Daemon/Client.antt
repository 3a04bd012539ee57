-- ===== src/Daemon/Client.antt =====
-- crates/rfs/src/daemon_client.rs: the client of a daemon, over the answer of its control service.
use remotefs.Base.{ℕ, Bool, true, false, not, List, Result, ok, ◌>>=◌, ◌>>◌, map_err, reject_if}
use remotefs.Base.{◌==◌, nat_eq}
use remotefs.Base.Text.{Text}
use remotefs.Digest.{Digest, from_str}
use remotefs.Daemon.Types.{
  Code, unavailable, failed_precondition, unimplemented, invalid_argument, StatusResponse,
  protocol_version,
}

-- The codes that the client reports.
pub data RemoteCode : Type 0 where
  daemon_unavailable daemon_precondition daemon_unsupported daemon_invalid_request daemon_error :
      RemoteCode

pub data ClientError : Type 0 where
  connect : ClientError
  incompatible_protocol : ℕ → ℕ → ClientError
  remote : RemoteCode → ClientError
  invalid_response : Text → ClientError

unfoldable pub remote_error : Code → ClientError
remote_error unavailable = remote daemon_unavailable
remote_error failed_precondition = remote daemon_precondition
remote_error unimplemented = remote daemon_unsupported
remote_error invalid_argument = remote daemon_invalid_request
remote_error _ = remote daemon_error

unfoldable pub is_unavailable : ClientError → Bool
is_unavailable connect = true
is_unavailable (remote daemon_unavailable) = true
is_unavailable _ = false

-- The domain status.
pub record SessionStatus : Type 0 where
  pub root_digest : Digest
  pub mountpoint : Text
  pub daemon_pid : ℕ
  pub control_socket : Text
  pub dirty : Bool
  pub dirty_files : ℕ
  pub snapshot_blockers : List Text

-- `ready`, of the answer to `check_protocol`: the version of the daemon.
unfoldable pub ready : Result Code ℕ → Result ClientError ℕ
unfolding remote_error
ready answer = do
  version ← map_err remote_error answer
  reject_if (not (version == protocol_version)) (incompatible_protocol protocol_version version)
  ok version

-- `status`, of the answer to `status`.
unfoldable pub status : Result Code StatusResponse → Result ClientError SessionStatus
unfolding remote_error
status answer = do
  response ← map_err remote_error answer
  root_digest ← map_err (λ _. invalid_response response.root_digest) (from_str response.root_digest)
  ok (record {
    root_digest = root_digest;
    mountpoint = response.mountpoint;
    daemon_pid = response.daemon_pid;
    control_socket = response.control_socket;
    dirty = response.dirty;
    dirty_files = response.dirty_files;
    snapshot_blockers = response.snapshot_blockers;
  })

-- `snapshot`, of the answer to `snapshot`: the digest of the root.
unfoldable pub snapshot : Result Code Text → Result ClientError Digest
unfolding remote_error
snapshot answer = do
  root_digest ← map_err remote_error answer
  map_err (λ _. invalid_response root_digest) (from_str root_digest)

-- `shutdown`, of the answer to `shutdown`.
unfoldable pub shutdown : Result Code (Unit {0}) → Result ClientError (Unit {0})
unfolding remote_error
shutdown answer = map_err remote_error answer
