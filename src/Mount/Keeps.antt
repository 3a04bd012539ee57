-- ===== src/Mount/Keeps.antt =====
-- crates/rfsd/src/fuse.rs: what the kernel's requests leave true of the session.
use remotefs.Base.{ℕ, List, [], ◌∷◌, arith, ok_or, map_err, reject_if, not, Bool}
use remotefs.Base.Int.{ℤ}
use remotefs.Session.Types.{InodeId, new_inode_id}
use remotefs.Base.State.{Keeps, and_then-Keeps}
use remotefs.Session.Cache.{Files}
use remotefs.Session.Store.Database.{Database}
use remotefs.Session.Store.Keeps.{IsTableInvariant}
use remotefs.Session.Facade.{Session, Environment}
use remotefs.Session.Store.Rows.{SessionMetadataRow}
use remotefs.Session.Store.Invariants.{IsNamespace, IsNamespace-IsTableInvariant}
use remotefs.Session.Safety.{
  IsSafe, Safe, get_inode-Keeps, lookup_child-Keeps, list_directory-Keeps, read_range-Keeps,
}
use remotefs.Mount.Filesystem
use remotefs.Mount.Filesystem.{Call, ◌>>=◌, lift, with_error, is_symlink, invalid_argument}
use remotefs.Mount.Fuse.{
  enoent, einval, errno_for_error, non_negative, OsName, node, lookup_node, directory_entries,
  open_file, read_bytes, Entry,
}
use remotefs.Mount.Serve.{
  Request, lookup, getattr, readlink, readdir, open_inode, read, setattr, write, mknod, mkdir,
  unlink, rmdir, symlink, rename, link, create, by_default, read_target, serve, serve_all,
}

module _ (env : Environment) (P : Database → Type 0) (invariant : IsTableInvariant P)
    (overlay : Files) where
  abbrev S : Session → Type 0
  S = Safe env P invariant overlay

  node-Keeps : (inode : ℕ) → Keeps S (node env inode)
  unfolding node Filesystem.getattr
  node-Keeps inode =
      and_then-Keeps (lift _) _ (λ s h. h) λ id. get_inode-Keeps env P invariant overlay id

  lookup_node-Keeps : (parent : ℕ) (name : OsName) → Keeps S (lookup_node env parent name)
  unfolding lookup_node Filesystem.lookup_dir_child
  lookup_node-Keeps parent name =
      and_then-Keeps (lift (ok_or enoent name)) _ (λ s h. h)
        λ text.
          and_then-Keeps (lift (map_err (λ _. einval) (new_inode_id parent)))
            (λ (id : InodeId). with_error errno_for_error (Filesystem.lookup_dir_child env id text))
            (λ s h. h) λ id. lookup_child-Keeps env P invariant overlay id text

  directory_entries-Keeps : (inode : ℕ) (offset : ℤ) → Keeps S (directory_entries env inode offset)
  unfolding directory_entries Filesystem.readdir
  directory_entries-Keeps inode offset =
      and_then-Keeps (lift _) _ (λ s h. h)
        λ start. and_then-Keeps (node env inode) _ (node-Keeps inode) λ n.
          and_then-Keeps (lift _) _ (λ s h. h)
            λ _.
              and_then-Keeps (with_error _ (Filesystem.readdir env n.inode)) _
                (list_directory-Keeps env P invariant overlay n.inode) (λ cs s h. h)

  open_file-Keeps : (inode flags : ℕ) → Keeps S (open_file env inode flags)
  unfolding open_file
  open_file-Keeps inode flags =
      and_then-Keeps (lift _) _ (λ s h. h)
        λ _. and_then-Keeps (node env inode) _ (node-Keeps inode) (λ n s h. h)

  read_bytes-Keeps :
      (inode : ℕ) (offset : ℤ) (size : ℕ) → Keeps S (read_bytes env inode offset size)
  unfolding read_bytes Filesystem.read
  read_bytes-Keeps inode offset size =
      and_then-Keeps (lift (non_negative offset)) _ (λ s h. h)
        λ from.
          and_then-Keeps (lift (map_err (λ _. einval) (new_inode_id inode)))
            (λ (id : InodeId). with_error errno_for_error (Filesystem.read env id from size))
            (λ s h. h) λ id. read_range-Keeps env P invariant overlay id from size

  read_target-Keeps : (inode : ℕ) → Keeps S (read_target env inode)
  unfolding read_target Filesystem.readlink Filesystem.getattr
  read_target-Keeps inode =
      and_then-Keeps (lift (map_err (λ _. einval) (new_inode_id inode)))
        (λ (id : InodeId). with_error errno_for_error (Filesystem.readlink env id)) (λ s h. h)
        λ id.
          and_then-Keeps (Filesystem.getattr env id) _ (get_inode-Keeps env P invariant overlay id)
            λ n.
              and_then-Keeps (lift (reject_if (not (is_symlink n.kind)) invalid_argument)) _
                (λ s h. h) (λ _ s h. h)

  serve-Keeps :
      (has_room : List Entry → Entry → Bool) (r : Request) → Keeps S (serve env has_room r)
  unfolding serve
  serve-Keeps has_room (lookup parent name) s h = ground (arith, lookup_node-Keeps parent name s h)
  serve-Keeps has_room (getattr inode) s h = ground (arith, node-Keeps inode s h)
  serve-Keeps has_room (readlink inode) s h = ground (arith, read_target-Keeps inode s h)
  serve-Keeps has_room (readdir inode offset) s h =
      ground (arith, directory_entries-Keeps inode offset s h)
  serve-Keeps has_room (open_inode inode flags) s h =
      ground (arith, open_file-Keeps inode flags s h)
  serve-Keeps has_room (read inode offset size) s h =
      ground (arith, read_bytes-Keeps inode offset size s h)
  serve-Keeps has_room setattr s h = h
  serve-Keeps has_room write s h = h
  serve-Keeps has_room mknod s h = h
  serve-Keeps has_room mkdir s h = h
  serve-Keeps has_room unlink s h = h
  serve-Keeps has_room rmdir s h = h
  serve-Keeps has_room symlink s h = h
  serve-Keeps has_room rename s h = h
  serve-Keeps has_room link s h = h
  serve-Keeps has_room create s h = h
  serve-Keeps has_room (by_default reply) s h = h

  serve_all-Keeps :
      (has_room : List Entry → Entry → Bool) (rs : List Request)
      → Keeps S (serve_all env has_room rs)
  unfolding serve_all
  serve_all-Keeps has_room [] s h = h
  serve_all-Keeps has_room (r ∷ rs) s h =
      serve_all-Keeps has_room rs (serve env has_room r s).1 (serve-Keeps has_room r s h)

-- Whatever requests the kernel sends, and whatever SQLite, the remote store and the decoder do: the
-- row of the session and the overlay are as before, the identities stay in range, no directory has
-- two children of one name, and every entry of the cache is the blob that its path names.
pub serve_all-IsSafe :
    (env : Environment) (session : List SessionMetadataRow) (overlay : Files)
    (has_room : List Entry → Entry → Bool) (requests : List Request) (s : Session)
    → IsSafe (IsNamespace session) env.sha256_hex overlay s
    → IsSafe (IsNamespace session) env.sha256_hex overlay (serve_all env has_room requests s).1
serve_all-IsSafe env session overlay =
    serve_all-Keeps env (IsNamespace session) (IsNamespace-IsTableInvariant session) overlay
