-- ===== src/Mount/Errors.antt =====
-- crates/rfsd/src/filesystem.rs and fuse.rs: which error number the kernel sees.
use remotefs.Base.{◌≡◌, refl}
use remotefs.Session.Types
use remotefs.Session.Types.{SessionError}
use remotefs.Session.Store.Lifecycle.{root_cause}
use remotefs.Mount.Filesystem.{from_session_error}
use remotefs.Mount.Fuse.{Errno, eio, enoent, enotdir, eisdir, errno_for_error}

-- The number for an error under all its contexts.
pub errno_of_cause : SessionError → Errno
errno_of_cause Types.not_found = enoent
errno_of_cause Types.not_directory = enotdir
errno_of_cause Types.is_directory = eisdir
errno_of_cause _ = eio

-- The error number of a session error, converted by the service, is that of its root cause under all
-- contexts: ENOENT, ENOTDIR or EISDIR for these three kinds, and EIO for any other.
pub errno_for_error-root_cause :
    (e : SessionError) → errno_for_error (from_session_error e) ≡ errno_of_cause (root_cause e)
unfolding errno_for_error from_session_error errno_of_cause root_cause
errno_for_error-root_cause (Types.context e) = errno_for_error-root_cause e
errno_for_error-root_cause Types.internal_error = refl
errno_for_error-root_cause Types.failed_precondition = refl
errno_for_error-root_cause Types.not_found = refl
errno_for_error-root_cause Types.not_directory = refl
errno_for_error-root_cause Types.is_directory = refl
errno_for_error-root_cause (Types.database o) = refl
