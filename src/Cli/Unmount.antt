-- ===== src/Cli/Unmount.antt =====
-- crates/rfs/src/cli.rs: `rfs unmount` and `rfs status`, over what they meet in the system.
use remotefs.Base.{
  ℕ, ◌^◌, Bool, true, false, not, Option, none, some, List, [], ◌∷◌, Result, ok, err, ◌>>=◌, ◌>>◌,
  map_err, ◌&&◌,
}
use remotefs.Base.{if◌then◌else◌, ltb, ◌==◌, nat_eq}
use remotefs.Base.Text.{Text}
use remotefs.Session.Types.{SessionError, context}
use remotefs.Daemon.Types.{SessionInfo}
use remotefs.Daemon.Client.{ClientError, is_unavailable, SessionStatus}
use remotefs.Cli.Types.{CliError, command_failed, daemon_shutdown, client_error, state_error}

abbrev pub esrch : ℕ
esrch = 3

-- `kill(pid, 0)`: `none` where it succeeds, or the number of its error.
unfoldable pub process_exists : ℕ → Option ℕ → Bool
process_exists pid killed =
    if ltb pid (2 ^ 31)
    then elim killed [ none ↦ true | some errno ↦ not (errno == esrch) ]
    else false

-- One turn of `wait_for_process_exit`: the answer of `kill`, and whether the deadline has passed.
pub record Check : Type 0 where
  pub killed : Option ℕ
  pub is_late : Bool

-- The loop, which stops as a late turn does where no more turns are given.
unfoldable pub wait_for_process_exit : ℕ → List Check → Bool
unfolding process_exists
wait_for_process_exit pid [] = false
wait_for_process_exit pid (check ∷ checks) =
    let again = wait_for_process_exit pid checks in
    if process_exists pid check.killed then (if check.is_late then false else again) else true

pub record Calls : Type 0 where
  pub connected : Result ClientError (Unit {0})
  pub status : Result ClientError SessionStatus
  pub shutdown : Result ClientError (Unit {0})
  pub checks : List Check
  -- after the wait
  pub inspected : Result SessionError (Option SessionInfo)

abbrev pub is_closed_session : Option SessionInfo → Bool
is_closed_session none = false
is_closed_session (some session) = session.is_closed

abbrev pub finish_unmount : Bool → SessionStatus → Option SessionInfo → Result CliError Text
finish_unmount exited status session =
    if exited && is_closed_session session
    then ok status.mountpoint
    else err (command_failed daemon_shutdown)

-- The mountpoint that is reported as unmounted.
unfoldable pub run_unmount : Calls → Result CliError Text
unfolding wait_for_process_exit
run_unmount calls = do
  map_err client_error calls.connected
  status ← map_err client_error calls.status
  map_err client_error calls.shutdown
  let exited = wait_for_process_exit status.daemon_pid calls.checks
  session ← map_err state_error (map_err context calls.inspected)
  finish_unmount exited status session

-- What `rfs status` shows.
pub data Shown : Type 0 where
  active_session : SessionStatus → Shown
  retained_session : SessionInfo → Shown
  no_session : Shown

abbrev pub shown : Option SessionInfo → Shown
shown none = no_session
shown (some session) = retained_session session

unfoldable pub run_status : Calls → Result CliError Shown
run_status calls = elim (calls.connected >> calls.status) [
  | ok status ↦ ok (active_session status)
  | err error ↦
      if is_unavailable error
      then map_err state_error calls.inspected >>= (λ session. ok (shown session))
      else err (client_error error)
]
