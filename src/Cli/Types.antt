-- ===== src/Cli/Types.antt =====
-- crates/rfs/src/cli.rs: the errors of the command line, without the texts of their messages.
use remotefs.Base.Text.{Text}
use remotefs.Digest.{DigestError}
use remotefs.Session.Types.{SessionError, failed_precondition, context}
use remotefs.Daemon.Client.{
  ClientError, RemoteCode, connect, incompatible_protocol, remote, invalid_response,
}

pub data Category : Type 0 where
  daemon_start session_active daemon_shutdown upload logging : Category
  daemon_unavailable daemon_protocol daemon_invalid_response : Category
  of_remote : RemoteCode → Category
  state_precondition unknown_error : Category

pub data CliError : Type 0 where
  invalid_config : CliError
  invalid_digest : Text → DigestError → CliError
  not_implemented : Text → CliError
  command_failed : Category → CliError

-- `ClientError::code`
unfoldable pub code : ClientError → Category
code connect = daemon_unavailable
code (incompatible_protocol expected actual) = daemon_protocol
code (remote c) = of_remote c
code (invalid_response value) = daemon_invalid_response

unfoldable pub client_error : ClientError → CliError
unfolding code
client_error error = command_failed (code error)

unfoldable pub state_error_category : SessionError → Category
state_error_category (context e) = state_error_category e
state_error_category failed_precondition = state_precondition
state_error_category _ = unknown_error

unfoldable pub state_error : SessionError → CliError
unfolding state_error_category
state_error error = command_failed (state_error_category error)
