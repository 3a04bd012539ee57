-- ===== src/Mount/Filesystem.antt =====
-- crates/rfsd/src/filesystem.rs: `FilesystemService`, the policy over a session. The text of a reason
-- or of a context is not kept.
use remotefs.Base.{ℕ, Bool, true, false, not, List, ok}
use remotefs.Base.{map_err, ok_or, reject_if}
use remotefs.Base.Text.{Text}
use remotefs.Tree.Types.{NodeKind, symlink}
use remotefs.Session.Types
use remotefs.Session.Types.{SessionError, InodeId, root}
use remotefs.Session.Action.{Action}
use remotefs.Base.State.{Stateful}
pub use remotefs.Base.State.{◌>>=◌, lift}
use remotefs.Session.Projection.{Inode}
use remotefs.Session.Facade
use remotefs.Session.Facade.{Session, Environment, IoCounters}

pub data FilesystemError : Type 0 where
  internal_error failed_precondition not_found not_directory is_directory : FilesystemError
  invalid_argument invalid_inode : FilesystemError
  context : FilesystemError → FilesystemError

-- `From<SessionError>`
unfoldable pub from_session_error : SessionError → FilesystemError
from_session_error Types.internal_error = internal_error
from_session_error Types.failed_precondition = failed_precondition
from_session_error Types.not_found = not_found
from_session_error Types.not_directory = not_directory
from_session_error Types.is_directory = is_directory
from_session_error (Types.database operation) = internal_error
from_session_error (Types.context source) = context (from_session_error source)

-- A call of the service: it works on the session and may fail.
abbrev pub Call : Type 0 → Type 0 → Type 0
Call E A = Stateful E Session A

module _ {E F A : Type 0} where
  abbrev pub with_error : (E → F) → Call E A → Call F A
  with_error f m s = (map_err f (m s).0, (m s).1)

-- `.map_err(FilesystemError::from).with_context(…)`
abbrev pub from_session : {A : Type 0} → Action Session A → Call FilesystemError A
from_session m = with_error (λ e. context (from_session_error e)) m

abbrev pub is_symlink : NodeKind → Bool
is_symlink symlink = true
is_symlink _ = false

module _ (env : Environment) where
  unfoldable pub lookup_dir_child : InodeId → Text → Call FilesystemError Inode
  lookup_dir_child dir_inode child_name =
      from_session (Facade.lookup_child env dir_inode child_name)

  unfoldable pub readdir : InodeId → Call FilesystemError (List Inode)
  readdir inode = from_session (Facade.list_directory env inode)

  unfoldable pub getattr : InodeId → Call FilesystemError Inode
  getattr inode = from_session (Facade.get_inode env inode)

  unfoldable pub readlink : InodeId → Call FilesystemError Text
  readlink inode = getattr inode >>= λ node.
      lift (reject_if (not (is_symlink node.kind)) invalid_argument) >>= λ _.
      lift (ok_or invalid_inode node.symlink_target)

  unfoldable pub read : InodeId → ℕ → ℕ → Call FilesystemError (List ℕ)
  read inode offset size = from_session (Facade.read_range env inode offset size)

  -- `FilesystemService::new`
  unfoldable pub new_service : Call FilesystemError (Unit {0})
  new_service = with_error context (readdir root) >>= λ children. lift (ok tt)
