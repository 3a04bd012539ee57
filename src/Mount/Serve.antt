-- ===== src/Mount/Serve.antt =====
-- crates/rfsd/src/fuse.rs: `impl Filesystem for FuseAdapter`, one answer for each request of the
-- kernel. `init` only tells the mounting thread that the kernel is ready. The other requests (`opendir`,
-- `statfs`, `release`, `flush` and more) are answered by the defaults of the `fuser` crate, which do not
-- reach the adapter: their answers are data here.
use remotefs.Base.{ℕ, Bool, true, false, List, [], ◌∷◌, ◌++◌, Result, ok, err}
use remotefs.Base.{map_err, if◌then◌else◌}
use remotefs.Base.Int.{ℤ}
use remotefs.Base.Text.{Text}
use remotefs.Session.Types.{new_inode_id}
use remotefs.Session.Facade.{Session, Environment}
use remotefs.Mount.Filesystem
use remotefs.Mount.Filesystem.{Call, ◌>>=◌, lift, with_error}
use remotefs.Mount.Fuse.{
  Errno, einval, erofs, FileAttr, file_attr, Entry, OsName, lookup_node, node,
}
use remotefs.Mount.Fuse.{directory_entries, open_file, read_bytes, errno_for_error}

pub data Reply : Type 0 where
  attr : FileAttr → Reply
  entries : List Entry → Reply
  opened : Reply
  content : List ℕ → Reply
  error : Errno → Reply
  -- the answers that only `fuser` gives: success, or file system statistics
  success statistics : Reply

-- The requests, with the arguments that an answer reads.
pub data Request : Type 0 where
  lookup : ℕ → OsName → Request
  getattr readlink : ℕ → Request
  readdir : ℕ → ℤ → Request
  open_inode : ℕ → ℕ → Request
  read : ℕ → ℤ → ℕ → Request
  setattr write mknod mkdir unlink rmdir symlink rename link create : Request
  -- a request that the adapter does not override, with the answer of `fuser`
  by_default : Reply → Request

-- The adapter has a handler for the request.
unfoldable pub is_overridden : Request → Bool
is_overridden (by_default reply) = false
is_overridden _ = true

-- `ReplyDirectory`: entries are added while the buffer has room for them.
unfoldable pub add_entries : (List Entry → Entry → Bool) → List Entry → List Entry → List Entry
add_entries has_room added [] = added
add_entries has_room added (e ∷ es) =
    let more = add_entries has_room (added ++ e ∷ []) es in if has_room added e then more else added

-- `match … { Ok(a) => …, Err(errno) => reply.error(errno) }`
abbrev pub answer : {A : Type 0} → (A → Reply) → Result Errno A × Session → Reply × Session
answer f (ok a, s) = (f a, s)
answer f (err errno, s) = (error errno, s)

abbrev pub refused : Session → Reply × Session
refused s = (error erofs, s)

module _ (env : Environment) where
  -- The handler of `readlink`.
  unfoldable pub read_target : ℕ → Call Errno Text
  read_target inode = lift (map_err (λ _. einval) (new_inode_id inode)) >>= λ id.
      with_error errno_for_error (Filesystem.readlink env id)

  module _ (has_room : List Entry → Entry → Bool) where
    unfoldable pub serve : Request → Session → Reply × Session
    serve (lookup parent name) s = answer (λ n. attr (file_attr n)) (lookup_node env parent name s)
    serve (getattr inode) s = answer (λ n. attr (file_attr n)) (node env inode s)
    serve (readlink inode) s = answer content (read_target inode s)
    serve (readdir inode offset) s =
        answer (λ es. entries (add_entries has_room [] es)) (directory_entries env inode offset s)
    serve (open_inode inode flags) s = answer (λ _. opened) (open_file env inode flags s)
    serve (read inode offset size) s = answer content (read_bytes env inode offset size s)
    serve setattr s = refused s
    serve write s = refused s
    serve mknod s = refused s
    serve mkdir s = refused s
    serve unlink s = refused s
    serve rmdir s = refused s
    serve symlink s = refused s
    serve rename s = refused s
    serve link s = refused s
    serve create s = refused s
    serve (by_default reply) s = (reply, s)

    -- A sequence of requests, with their answers.
    unfoldable pub serve_all : List Request → Session → List Reply × Session
    serve_all [] s = ([], s)
    serve_all (r ∷ rs) s =
        let first = serve r s in let rest = serve_all rs first.1 in (first.0 ∷ rest.0, rest.1)
