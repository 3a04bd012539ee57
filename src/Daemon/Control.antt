-- ===== src/Daemon/Control.antt =====
-- crates/rfsd/src/control_service.rs: `ControlService`. Its lock makes each handler one step.
use remotefs.Base.{ℕ, true, false, Option, none, some, List, [], ◌∷◌, Result, ok, err}
use remotefs.Base.{◌>>=◌, ◌>>◌, ok_or, if◌then◌else◌, ◌==◌, nat_eq}
use remotefs.Base.Text.{Text, codes}
use remotefs.Digest.{to_string}
use remotefs.Base.Utf8.{to_str}
use remotefs.Daemon.Types.{
  Code, unavailable, failed_precondition, unimplemented, internal, SessionInfo, DaemonResources,
  StatusResponse, protocol_version,
}

-- The slot, and the channel to `serve`.
pub record ControlService : Type 0 where
  pub resources : Option DaemonResources
  pub channel : List DaemonResources

abbrev pub shutting_down : Code
shutting_down = unavailable

unfoldable pub validate_protocol : ℕ → Result Code (Unit {0})
validate_protocol version = if version == protocol_version then ok tt else err failed_precondition

unfoldable pub active_info : ℕ → ControlService → Result Code SessionInfo
unfolding validate_protocol
active_info version service = do
  resources ← ok_or shutting_down service.resources
  validate_protocol version
  ok resources.info

unfoldable pub check_protocol : ℕ → ControlService → Result Code ℕ
unfolding active_info
check_protocol version service = do _ ← active_info version service; ok protocol_version

-- `to_string_lossy`, with what it makes of bytes that are no UTF-8.
unfoldable pub to_string_lossy : (Text → Text) → Text → Text
to_string_lossy replaced path = elim (to_str path) [ none ↦ replaced path | some text ↦ text ]

module _ (replaced : Text → Text) where
  unfoldable pub status : ℕ → ControlService → Result Code StatusResponse
  unfolding active_info to_string_lossy
  status version service = do
    info ← active_info version service
    ok (record {
      mounted = true;
      root_digest = to_string info.root_digest;
      mountpoint = to_string_lossy replaced info.mountpoint;
      dirty_files = 0;
      protocol_version = protocol_version;
      daemon_pid = info.daemon_pid;
      control_socket = to_string_lossy replaced info.control_endpoint;
      dirty = false;
      snapshot_blockers = codes "snapshot is not implemented" ∷ [];
    })

unfoldable pub snapshot : ℕ → ControlService → Result Code Text
unfolding active_info
snapshot version service = do _ ← active_info version service; err unimplemented

-- `try_send` on the channel of capacity 1.
unfoldable pub try_send :
    DaemonResources → List DaemonResources → Result (Unit {0}) (List DaemonResources)
try_send resources [] = ok (resources ∷ [])
try_send resources (waiting ∷ more) = err tt

-- `take` of the slot, and what is sent is gone from it whether it arrives or not.
unfoldable pub hand_off : DaemonResources → ControlService → Result Code (Unit {0}) × ControlService
unfolding try_send
hand_off resources service = elim (try_send resources service.channel) [
  | ok channel ↦ (ok tt, record { resources = none; channel = channel })
  | err full ↦ (err internal, record service { resources = none })
]

abbrev pub shutdown_active :
    ℕ → ControlService → Option DaemonResources → Result Code (Unit {0}) × ControlService
shutdown_active version service none = (err shutting_down, service)
shutdown_active version service (some resources) = elim (validate_protocol version) [
  | ok _ ↦ hand_off resources service
  | err code ↦ (err code, service)
]

unfoldable pub shutdown : ℕ → ControlService → Result Code (Unit {0}) × ControlService
unfolding validate_protocol hand_off
shutdown version service = shutdown_active version service service.resources

-- `detach_or_receive`: the resources, or `none` where it would wait on an empty channel.
unfoldable pub detach_or_receive : ControlService → Option (DaemonResources × ControlService)
detach_or_receive service = elim service.resources [
  | some resources ↦ some (resources, record service { resources = none })
  | none ↦ elim service.channel [
    | [] ↦ none
    | first ∷ more ↦ some (first, record service { channel = more })
  ]
]

-- `resource_rx.recv()`, in the same way.
unfoldable pub receive : ControlService → Option (DaemonResources × ControlService)
receive service = elim service.channel [
  | [] ↦ none
  | first ∷ more ↦ some (first, record service { channel = more })
]
