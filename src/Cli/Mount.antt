-- ===== src/Cli/Mount.antt =====
-- crates/rfs/src/cli.rs: `rfs mount`, over what it meets in the system.
use remotefs.Base.{Bool, true, false, Option, none, some, List, [], ◌∷◌, Result, ok, err, ◌&&◌}
use remotefs.Base.{if◌then◌else◌, ◌==◌, nat_eq, list_eq}
use remotefs.Base.Text.{Text}
use remotefs.Base.State.{Stateful, and_then, lift}
use remotefs.Digest.{Digest, digest_beq}
use remotefs.Daemon.Client.{ClientError, is_unavailable, SessionStatus}
use remotefs.Cli.Types.{CliError, command_failed, daemon_start, session_active, client_error}

-- What one turn of the loop of `wait_for_daemon_ready` meets: the state of the child (`none` where it
-- cannot be inspected), the answer to the probe, and whether the deadline has passed.
pub record Poll : Type 0 where
  pub has_exited : Option Bool
  pub probe : Option SessionStatus
  pub is_late : Bool

-- What `rfs mount` meets. `polls` are as many turns as there can be.
pub record System : Type 0 where
  pub has_home : Bool
  pub creates_home : Bool
  pub active : Result ClientError SessionStatus
  pub has_daemon : Bool
  pub opens_log : Bool
  pub clones_log : Bool
  pub spawns : Bool
  pub polls : List Poll

-- What it has done: `killed` tells that the child was sent a kill and waited for, whose results are
-- ignored.
pub record Effects : Type 0 where
  pub created_home : Bool
  pub truncated_log : Bool
  pub spawned : Bool
  pub killed : Bool

abbrev pub no_effects : Effects
no_effects = record { created_home = false; truncated_log = false; spawned = false; killed = false }

abbrev pub Command : Type 0 → Type 0
Command A = Stateful CliError Effects A

abbrev pub start_failure : CliError
start_failure = command_failed daemon_start

abbrev pub fail_unless : Bool → Command (Unit {0})
fail_unless true e = (ok tt, e)
fail_unless false e = (err start_failure, e)

unfoldable pub create_home : System → Command (Unit {0})
create_home system e =
    if system.has_home
    then (ok tt, e)
    else if system.creates_home
    then (ok tt, record e { created_home = true })
    else (err start_failure, e)

unfoldable pub ensure_no_active_daemon : System → Command (Unit {0})
ensure_no_active_daemon system e = elim system.active [
  | ok status ↦ (err (command_failed session_active), e)
  | err error ↦ if is_unavailable error then (ok tt, e) else (err (client_error error), e)
]

-- `File::create` truncates a log that is there.
unfoldable pub open_daemon_stdio_log : System → Command (Unit {0})
open_daemon_stdio_log system e =
    if system.opens_log then (ok tt, record e { truncated_log = true }) else (err start_failure, e)

unfoldable pub spawn : System → Command (Unit {0})
spawn system e =
    if system.spawns then (ok tt, record e { spawned = true }) else (err start_failure, e)

-- `kill` and `wait` of the child, before an error.
abbrev pub killing : Command SessionStatus
killing e = (err start_failure, record e { killed = true })

module _ (digest : Digest) (mountpoint : Text) where
  unfoldable pub is_requested : SessionStatus → Bool
  is_requested status = digest_beq status.root_digest digest && status.mountpoint == mountpoint

  -- One turn, with the turns after it.
  unfoldable pub turn :
      Option Bool → Option SessionStatus → Bool → Command SessionStatus → Command SessionStatus
  unfolding is_requested
  turn none probe is_late again = lift (err start_failure)
  turn (some true) probe is_late again = lift (err start_failure)
  turn (some false) (some status) is_late again =
      if is_requested status then lift (ok status) else killing
  turn (some false) none true again = killing
  turn (some false) none false again = again

  -- The loop. It stops with the error of a late turn where no more turns are given.
  unfoldable pub wait_for_daemon_ready : List Poll → Command SessionStatus
  unfolding turn
  wait_for_daemon_ready [] = killing
  wait_for_daemon_ready (poll ∷ polls) =
      turn poll.has_exited poll.probe poll.is_late (wait_for_daemon_ready polls)

  unfoldable pub run_mount : System → Command SessionStatus
  unfolding create_home ensure_no_active_daemon open_daemon_stdio_log spawn wait_for_daemon_ready
  run_mount system = and_then (create_home system) λ _.
      and_then (ensure_no_active_daemon system) λ _. and_then (fail_unless system.has_daemon) λ _.
        and_then (open_daemon_stdio_log system) λ _.
          and_then (fail_unless system.clones_log)
            λ _. and_then (spawn system) λ _. wait_for_daemon_ready system.polls
