-- ===== src/Daemon/Conversation.antt =====
-- crates/rfs/src/daemon_client.rs against crates/rfsd/src/control_service.rs: what a client learns.
use remotefs.Base.{
  ◌≡◌, refl, true, false, some, none, [], ◌∷◌, ok, err, arith, Option-cases, inl, inr, nat_eq,
}
use remotefs.Base.Text.{Text, codes}
use remotefs.Digest.Validity.{IsValid}
use remotefs.Digest.Display.{from_str-to_string}
use remotefs.Base.Int.{InI64}
use remotefs.Base.Utf8.{to_str}
use remotefs.Daemon.Types.{DaemonResources, protocol_version}
use remotefs.Daemon.Control
use remotefs.Daemon.Control.{ControlService, active_info, validate_protocol, to_string_lossy}
use remotefs.Daemon.Client
use remotefs.Daemon.Client.{is_unavailable, SessionStatus}

to_string_lossy-utf8 :
    (replaced : Text → Text) (path : Text)
    → to_str path ≡ some path
    → to_string_lossy replaced path ≡ path
unfolding to_string_lossy
to_string_lossy-utf8 replaced path h = rw (to_string_lossy, h) refl

-- The client of a daemon that has its resources is ready, and learns by `status` the root digest, the
-- mountpoint, the process and the socket of the daemon's session, and that nothing is dirty. The digest
-- is valid with a size that fits an `i64`, and the two paths are UTF-8.
pub status-status :
    (service : ControlService) (r : DaemonResources) (replaced : Text → Text)
    → service.resources ≡ some r
    → IsValid r.info.root_digest
    → InI64 r.info.root_digest.size_bytes
    → to_str r.info.mountpoint ≡ some r.info.mountpoint
    → to_str r.info.control_endpoint ≡ some r.info.control_endpoint
    → (Client.ready (Control.check_protocol protocol_version service) ≡ ok protocol_version)
      × (Client.status (Control.status replaced protocol_version service)
          ≡ ok (record {
            root_digest = r.info.root_digest;
            mountpoint = r.info.mountpoint;
            daemon_pid = r.info.daemon_pid;
            control_socket = r.info.control_endpoint;
            dirty = false;
            dirty_files = 0;
            snapshot_blockers = codes "snapshot is not implemented" ∷ [];
          }))
unfolding Client.ready Client.status Control.check_protocol Control.status active_info
    validate_protocol
status-status service r replaced has valid fits utf8 utf8' =
    rw
      (
        has,
        to_string_lossy-utf8 replaced r.info.mountpoint utf8,
        to_string_lossy-utf8 replaced r.info.control_endpoint utf8',
        from_str-to_string r.info.root_digest valid fits,
      )
      (refl, refl)

-- A client that asks a daemon to shut down falls back to retained state, for an answer, only when the
-- daemon has let go of its resources: while it has them, no answer is taken for an unavailable daemon.
shutdown-is_unavailable :
    (service : ControlService) (e : Client.ClientError)
    → Client.shutdown (Control.shutdown protocol_version service).0 ≡ err e
    → is_unavailable e ≡ true
    → service.resources ≡ none
unfolding Client.shutdown Control.shutdown is_unavailable
shutdown-is_unavailable service e h u = elim (Option-cases service.resources) [
  | inl empty ↦ empty
  | inr (r, has) ↦ absurd (ground arith)
]
