-- ===== src/Tests/CliCases.antt =====
-- crates/rfs/src/cli.rs at concrete inputs.
use remotefs.Base.{◌≡◌, ◌↔◌, ◌⊎◌, refl, true, false, none, some, List, [], ◌∷◌, ok, err}
use remotefs.Base.Text.{codes}
use remotefs.Daemon.Types.{SessionInfo}
use remotefs.Daemon.Client.{SessionStatus, ClientError, is_unavailable}
use remotefs.Cli.Types.{CliError}
use remotefs.Cli.Mount.{
  Poll, System, Effects, no_effects, start_failure, wait_for_daemon_ready, run_mount,
}
use remotefs.Cli.Exit.{ExitsInTime}
use remotefs.Cli.Unmount.{Calls, run_unmount}
use remotefs.Cli.Readiness.{Lost, wait_for_daemon_ready-err}
use remotefs.Cli.Laws.{run_mount-active, run_unmount-eq-ok}
use remotefs.Tests.Data.{abc_digest}

abbrev some_status : SessionStatus
some_status = record {
  root_digest = abc_digest;
  mountpoint = codes "/mnt";
  daemon_pid = 7;
  control_socket = codes "/run/s";
  dirty = false;
  dirty_files = 0;
  snapshot_blockers = [];
}

-- A daemon of another mountpoint answers at the second turn.
abbrev two_polls : List Poll
two_polls =
    record { has_exited = some false; probe = none; is_late = false }
    ∷ record { has_exited = some false; probe = some some_status; is_late = false }
    ∷ []

abbrev after_kill : Effects
after_kill = record { created_home = false; truncated_log = true; spawned = true; killed = true }

abbrev after_spawn : Effects
after_spawn = record { created_home = false; truncated_log = true; spawned = true; killed = false }

refused :
    wait_for_daemon_ready abc_digest (codes "/other") two_polls after_spawn
    ≡ (err start_failure, after_kill)
unfolding wait_for_daemon_ready
refused = refl

wait_for_daemon_ready-err_example :
    (after_kill.killed ≡ true) ⊎ Lost abc_digest (codes "/other") two_polls
wait_for_daemon_ready-err_example =
    wait_for_daemon_ready-err abc_digest (codes "/other") two_polls after_spawn after_kill
      start_failure refused

abbrev answering_system : System
answering_system = record {
  has_home = false;
  creates_home = true;
  active = ok some_status;
  has_daemon = true;
  opens_log = true;
  clones_log = true;
  spawns = true;
  polls = [];
}

never_fails : (e : ClientError) → answering_system.active ≡ err e → is_unavailable e ≡ false
never_fails e h = cc

run_mount-active_example :
    (e : CliError) × (run_mount abc_digest (codes "/mnt") answering_system no_effects ≡ (
      err e,
      record { created_home = true; truncated_log = false; spawned = false; killed = false },
    ))
run_mount-active_example = run_mount-active abc_digest (codes "/mnt") answering_system never_fails

abbrev some_session : SessionInfo
some_session = record {
  root_digest = abc_digest;
  mountpoint = codes "/mnt";
  daemon_pid = 7;
  control_endpoint = codes "/run/s";
  is_closed = true;
}

-- The daemon is gone at the second look.
abbrev some_calls : Calls
some_calls = record {
  connected = ok tt;
  status = ok some_status;
  shutdown = ok tt;
  checks =
      record { killed = none; is_late = false } ∷ record { killed = some 3; is_late = false } ∷ [];
  inspected = ok (some some_session);
}

run_unmount-eq-ok_example : (run_unmount some_calls ≡ ok (codes "/mnt")) ↔ (
    (status : SessionStatus) × (session : SessionInfo) × (some_calls.connected ≡ ok tt)
    × (some_calls.status ≡ ok status)
    × (some_calls.shutdown ≡ ok tt)
    × ExitsInTime status.daemon_pid some_calls.checks
    × (some_calls.inspected ≡ ok (some session))
    × (session.is_closed ≡ true)
    × (status.mountpoint ≡ codes "/mnt"))
run_unmount-eq-ok_example = run_unmount-eq-ok some_calls (codes "/mnt")
