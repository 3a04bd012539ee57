-- ===== src/Session/Store/Metadata.antt =====
-- crates/rfs-common/src/session/store.rs: the row of the session and its validation. The test for
-- a UUID is the crate `uuid`'s.
use remotefs.Base.{Option, none, some, Bool, not, ◌||◌, [], Result, ok, err}
use remotefs.Base.{◌>>=◌, ◌>>◌, map_err, ok_or, reject_if, if◌then◌else◌, ◌==◌, nat_eq, list_eq}
use remotefs.Base.Int.{ℤ, pos, leb_ℤ, is_negative, int_eq}
use remotefs.Base.Text.{Text, codes}
use remotefs.Digest.{new}
use remotefs.Session.Types.{
  SessionError, failed_precondition, SessionLifecycle, initializing, active,
}
use remotefs.Session.Types.{closed, to_u32}
use remotefs.Session.Store.Rows.{SessionMetadataRow, SessionMetadata}

unfoldable pub lifecycle_text : SessionLifecycle → Text
lifecycle_text initializing = codes "initializing"
lifecycle_text active = codes "active"
lifecycle_text closed = codes "closed"

unfoldable pub parse_lifecycle : Text → Result SessionError SessionLifecycle
unfolding lifecycle_text
parse_lifecycle text =
    if text == lifecycle_text initializing
    then ok initializing
    else if text == lifecycle_text active
    then ok active
    else if text == lifecycle_text closed
    then ok closed
    else err failed_precondition

-- Only a closed session has a close time, which is not negative.
unfoldable pub validate_close_time : SessionLifecycle → Option ℤ → Result SessionError (Unit {0})
validate_close_time closed (some seconds) = reject_if (is_negative seconds) failed_precondition
validate_close_time closed none = err failed_precondition
validate_close_time initializing none = ok tt
validate_close_time active none = ok tt
validate_close_time _ (some seconds) = err failed_precondition

module _ (is_uuid : Text → Bool) where
  unfoldable pub invalid_metadata : SessionMetadataRow → Bool
  invalid_metadata row =
      not (row.singleton == pos 1)
      || (not (is_uuid row.session_id)
          || (leb_ℤ row.daemon_pid (pos 0)
              || (is_negative row.created_at_seconds
                  || (row.log_level == []
                      || not (row.log_format == codes "text" || row.log_format == codes "json")))))

  unfoldable pub validate_session : SessionMetadataRow → Result SessionError SessionMetadata
  validate_session row = do
    reject_if (invalid_metadata row) failed_precondition
    lifecycle ← parse_lifecycle row.lifecycle
    validate_close_time lifecycle row.closed_at_seconds
    pid ← ok_or failed_precondition (to_u32 row.daemon_pid)
    root_digest ← map_err (λ _. failed_precondition) (new row.root_digest_hash row.root_digest_size)
    ok (record {
      daemon_pid = pid;
      lifecycle = lifecycle;
      root_digest = root_digest;
      mountpoint = row.mountpoint;
    })
