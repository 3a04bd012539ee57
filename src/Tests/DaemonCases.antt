-- ===== src/Tests/DaemonCases.antt =====
-- crates/rfsd/src/control_service.rs and crates/rfs/src/daemon_client.rs at concrete inputs.
use remotefs.Base.{◌≡◌, ◌≢◌, ◌⊎◌, refl, true, false, none, some, [], ◌∷◌, ok, err, arith, is_some}
use remotefs.Base.Text.{Text, codes}
use remotefs.Base.Utf8.{to_str}
use remotefs.Daemon.Types.{
  SessionInfo, DaemonResources, internal, unavailable, ControlError, context, task,
  protocol_version,
}
use remotefs.Daemon.Control
use remotefs.Daemon.Control.{
  ControlService, detach_or_receive, shutdown, snapshot, check_protocol, receive,
}
use remotefs.Daemon.Release.{World, Failures, release}
use remotefs.Daemon.Serve.{
  Daemon, daemon, serving, releasing, Reach, here, next, request, handed_over, kernel, released,
  stopped, Place,
}
use remotefs.Daemon.Handover.{Reach-Place, Reach-handover, Reach-unavailable}
use remotefs.Daemon.Order.{release-err}
use remotefs.Daemon.Client
use remotefs.Daemon.Conversation.{status-status}
use remotefs.Tests.Data.{abc_digest, abc_digest-IsValid, an_environment}
use remotefs.Tests.MountCases.{mounted, room_for_one}
use remotefs.Mount.Serve.{serve, readdir}
use remotefs.Base.Int.{pos}
use remotefs.Daemon.Release.{unmount}

abbrev some_info : SessionInfo
some_info = record {
  root_digest = abc_digest;
  mountpoint = codes "/mnt";
  daemon_pid = 7;
  control_endpoint = codes "/run/s";
  is_closed = false;
}

abbrev some_resources : DaemonResources
some_resources = record { info = some_info; socket = codes "/run/s" }

abbrev some_world : World
some_world = record { is_mounted = true; session = mounted; has_socket = true }

abbrev busy_mount : Failures
busy_mount = record { unmount_join = true; close_join = false; removal = false }

abbrev first_state : Daemon
first_state = daemon (some some_resources) [] serving some_world

abbrev asked : Daemon
asked = daemon none (some_resources ∷ []) serving some_world

abbrev taken_over : Daemon
taken_over = daemon none [] (releasing some_resources) some_world

-- A request arrives while the daemon serves, and then a second one.
asked-Reach : Reach an_environment first_state asked
unfolding shutdown
asked-Reach = next (next here (request 1 refl)) (request 1 refl)

taken_over-Reach : Reach an_environment first_state taken_over
unfolding receive
taken_over-Reach =
    next asked-Reach
      (handed_over some_resources (record { resources = none; channel = [] }) refl refl refl)

-- The kernel lists the root while the daemon holds the resources; then they are released.
abbrev listed_world : World
listed_world = record some_world {
  session = (serve an_environment room_for_one (readdir 1 (pos 0)) mounted).1;
}

abbrev no_failure : Failures
no_failure = record { unmount_join = false; close_join = false; removal = false }

abbrev finished : Daemon
finished =
    daemon none [] (stopped (release an_environment (some 9) no_failure listed_world).0)
      (release an_environment (some 9) no_failure listed_world).1

finished-Reach : Reach an_environment first_state finished
finished-Reach =
    next (next taken_over-Reach (kernel room_for_one (readdir 1 (pos 0)) refl refl))
      (released some_resources (some 9) no_failure refl refl)

Reach-Place_example : Place an_environment some_resources some_world finished
Reach-Place_example = Reach-Place an_environment some_resources some_world finished finished-Reach

abbrev same_text : Text → Text
same_text text = text

Reach-unavailable_example :
    (check_protocol 1 taken_over.service ≡ err unavailable)
    × (Control.status same_text 1 taken_over.service ≡ err unavailable)
    × (snapshot 1 taken_over.service ≡ err unavailable)
    × (shutdown 1 taken_over.service ≡ (err unavailable, taken_over.service))
Reach-unavailable_example =
    Reach-unavailable an_environment some_resources some_world taken_over taken_over-Reach (λ e. cc)
      1 same_text

Reach-handover_example :
    (is_some (detach_or_receive asked.service) ≡ true)
    × ((shutdown 1 asked.service).0 ≢ err internal)
Reach-handover_example =
    Reach-handover an_environment some_resources some_world asked asked-Reach refl 1

abbrev unmount_error : ControlError
unmount_error = context task

not_released : (release an_environment (some 9) busy_mount some_world).0 ≡ err unmount_error
unfolding release unmount
not_released = refl

release-err_example :
    let after = (release an_environment (some 9) busy_mount some_world).1 in
    (after.has_socket ≡ true) × ((after.is_mounted ≡ false) ⊎ (after ≡ some_world))
release-err_example =
    release-err an_environment (some 9) busy_mount some_world unmount_error not_released

abbrev a_service : ControlService
a_service = record { resources = some some_resources; channel = [] }

is_utf8 :
    (to_str (codes "/mnt") ≡ some (codes "/mnt"))
    × (to_str (codes "/run/s") ≡ some (codes "/run/s"))
unfolding to_str
is_utf8 = (refl, refl)

status-status_example :
    (Client.ready (check_protocol protocol_version a_service) ≡ ok protocol_version)
    × (Client.status (Control.status same_text protocol_version a_service)
        ≡ ok (record {
          root_digest = abc_digest;
          mountpoint = codes "/mnt";
          daemon_pid = 7;
          control_socket = codes "/run/s";
          dirty = false;
          dirty_files = 0;
          snapshot_blockers = codes "snapshot is not implemented" ∷ [];
        }))
status-status_example =
    status-status a_service some_resources same_text refl abc_digest-IsValid (omega arith) is_utf8.0
      is_utf8.1
