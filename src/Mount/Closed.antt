-- ===== src/Mount/Closed.antt =====
-- crates/rfsd/src/fuse.rs: the answers of a mount whose session is closed.
use remotefs.Base.{Bool, true, [], ℕ, ◌≡◌, refl, List, Result, ok, err, ok_or, map_err, reject_if}
use remotefs.Base.Int.{ℤ}
use remotefs.Session.Types.{InodeId, new_inode_id, closed}
use remotefs.Session.Store.Lifecycle.{SessionIs}
use remotefs.Session.Facade.{Session, Environment, get_inode, lookup_child, read_range}
use remotefs.Session.Closed.{Fails, closed-Fails}
use remotefs.Mount.Filesystem
use remotefs.Mount.Filesystem.{Call, ◌>>=◌, lift, with_error, from_session, from_session_error}
use remotefs.Session.Action.{Action}
use remotefs.Mount.Fuse.{Errno, einval, enoent, erofs, OsName, node, lookup_node, directory_entries}
use remotefs.Mount.Fuse.{errno_for_error, non_negative, is_writing}
use remotefs.Mount.Fuse.{open_file, read_bytes, Entry}
use remotefs.Mount.Serve.{
  Request, lookup, getattr, readlink, readdir, open_inode, read, setattr, write,
}
use remotefs.Mount.Serve.{
  mknod, mkdir, unlink, rmdir, symlink, rename, link, create, by_default, is_overridden, Reply,
  error, answer,
}
use remotefs.Mount.Serve.{read_target, serve}

module _ {E A B : Type 0} where
  lift-Fails :
      (r : Result E A) (f : A → Call E B) (s : Session)
      → ((a : A) → Fails (f a) s)
      → Fails (lift r >>= f) s
  lift-Fails (ok a) f s k = k a
  lift-Fails (err e) f s k = (e, refl)

  >>=-Fails : (m : Call E A) (f : A → Call E B) (s : Session) → Fails m s → Fails (m >>= f) s
  >>=-Fails m f s (e, fails) = (e, rw fails refl)

with_error-Fails :
    {E F A : Type 0} (f : E → F) (m : Call E A) (s : Session) → Fails m s → Fails (with_error f m) s
with_error-Fails f m s (e, fails) = (f e, rw fails refl)

-- A method of the session, called by the service.
from_session-Fails :
    {A : Type 0} (m : Action Session A) (s : Session) → Fails m s → Fails (from_session m) s
from_session-Fails m s (e, fails) = (Filesystem.context (from_session_error e), rw fails refl)

answer-Fails :
    {A : Type 0} (f : A → Reply) (m : Call Errno A) (s : Session)
    → Fails m s
    → (e : Errno) × (answer f (m s) ≡ (error e, s))
answer-Fails f m s (e, fails) = (e, rw fails refl)

module _ (env : Environment) (s : Session) (c : SessionIs env.is_uuid closed s.db) where
  node-Fails : (inode : ℕ) → Fails (node env inode) s
  unfolding node Filesystem.getattr
  node-Fails inode =
      lift-Fails (map_err (λ _. einval) (new_inode_id inode))
        (λ (id : InodeId). with_error errno_for_error (Filesystem.getattr env id)) s
        λ id.
          with_error-Fails errno_for_error (Filesystem.getattr env id) s
            (from_session-Fails (get_inode env id) s (closed-Fails env s c id [] 0 0).0)

  lookup_node-Fails : (parent : ℕ) (name : OsName) → Fails (lookup_node env parent name) s
  unfolding lookup_node Filesystem.lookup_dir_child
  lookup_node-Fails parent name = lift-Fails (ok_or enoent name) _ s λ text.
      lift-Fails (map_err (λ _. einval) (new_inode_id parent))
        (λ (id : InodeId). with_error errno_for_error (Filesystem.lookup_dir_child env id text)) s
        λ id.
          with_error-Fails errno_for_error (Filesystem.lookup_dir_child env id text) s
            (from_session-Fails (lookup_child env id text) s (closed-Fails env s c id text 0 0).1)

  directory_entries-Fails : (inode : ℕ) (offset : ℤ) → Fails (directory_entries env inode offset) s
  unfolding directory_entries
  directory_entries-Fails inode offset =
      lift-Fails (non_negative offset) _ s
        λ start. >>=-Fails (node env inode) _ s (node-Fails inode)

  open_file-Fails : (inode flags : ℕ) → Fails (open_file env inode flags) s
  unfolding open_file
  open_file-Fails inode flags =
      lift-Fails (reject_if (is_writing flags) erofs) _ s
        λ _. >>=-Fails (node env inode) _ s (node-Fails inode)

  read_bytes-Fails :
      (inode : ℕ) (offset : ℤ) (size : ℕ) → Fails (read_bytes env inode offset size) s
  unfolding read_bytes Filesystem.read
  read_bytes-Fails inode offset size = lift-Fails (non_negative offset) _ s λ from.
      lift-Fails (map_err (λ _. einval) (new_inode_id inode))
        (λ (id : InodeId). with_error errno_for_error (Filesystem.read env id from size)) s
        λ id. with_error-Fails errno_for_error (Filesystem.read env id from size) s (
          from_session-Fails (read_range env id from size) s
            (closed-Fails env s c id [] from size).3)

  read_target-Fails : (inode : ℕ) → Fails (read_target env inode) s
  unfolding read_target Filesystem.readlink Filesystem.getattr
  read_target-Fails inode =
      lift-Fails (map_err (λ _. einval) (new_inode_id inode))
        (λ (id : InodeId). with_error errno_for_error (Filesystem.readlink env id)) s
        λ id. with_error-Fails errno_for_error (Filesystem.readlink env id) s (
          >>=-Fails (Filesystem.getattr env id) _ s
            (from_session-Fails (get_inode env id) s (closed-Fails env s c id [] 0 0).0))

  -- Once the session is closed, every request of the kernel for which the adapter has a handler is
  -- answered by an error number, and changes nothing.
  pub closed-serve :
      (has_room : List Entry → Entry → Bool) (r : Request)
      → is_overridden r ≡ true
      → (e : Errno) × (serve env has_room r s ≡ (error e, s))
  unfolding serve is_overridden
  closed-serve has_room (lookup parent name) handled =
      answer-Fails _ (lookup_node env parent name) s (lookup_node-Fails parent name)
  closed-serve has_room (getattr inode) handled =
      answer-Fails _ (node env inode) s (node-Fails inode)
  closed-serve has_room (readlink inode) handled =
      answer-Fails _ (read_target env inode) s (read_target-Fails inode)
  closed-serve has_room (readdir inode offset) handled =
      answer-Fails _ (directory_entries env inode offset) s (directory_entries-Fails inode offset)
  closed-serve has_room (open_inode inode flags) handled =
      answer-Fails _ (open_file env inode flags) s (open_file-Fails inode flags)
  closed-serve has_room (read inode offset size) handled =
      answer-Fails _ (read_bytes env inode offset size) s (read_bytes-Fails inode offset size)
  closed-serve has_room setattr handled = (erofs, refl)
  closed-serve has_room write handled = (erofs, refl)
  closed-serve has_room mknod handled = (erofs, refl)
  closed-serve has_room mkdir handled = (erofs, refl)
  closed-serve has_room unlink handled = (erofs, refl)
  closed-serve has_room rmdir handled = (erofs, refl)
  closed-serve has_room symlink handled = (erofs, refl)
  closed-serve has_room rename handled = (erofs, refl)
  closed-serve has_room link handled = (erofs, refl)
  closed-serve has_room create handled = (erofs, refl)
  closed-serve has_room (by_default reply) handled = cc
