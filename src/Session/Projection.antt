-- ===== src/Session/Projection.antt =====
-- crates/rfs-common/src/session.rs: stored inodes as callers see them, and decoded directories as
-- the store takes them.
use remotefs.Base.{ℕ, Option, none, some, List, ◌++◌, Result, ok, err}
use remotefs.Base.{◌>>=◌, map_err, ok_or, transpose, try_map, length}
use remotefs.Base.Int.{ℤ, pos, negsuc}
use remotefs.Base.Text.{Text}
use remotefs.Digest.{Digest, ReapiDigest, from_reapi}
use remotefs.Tree.Types.{NodeKind, file, directory, symlink, NodeProperties, Timestamp}
use remotefs.Tree.Types.{FileNode, DirectoryNode, SymlinkNode, Directory}
use remotefs.Session.Types.{SessionError, internal_error, InodeId, NodeTime, unix_epoch}
use remotefs.Session.Types.{new_node_time, to_u32}
use remotefs.Session.Store.Rows.{StoreInode, NewRemoteInode, remote_file, remote_directory}
use remotefs.Session.Store.Rows.{remote_symlink}

-- `session::Inode`
pub record Inode : Type 0 where
  pub inode : InodeId
  pub parent : InodeId
  pub name : Text
  pub kind : NodeKind
  pub size : ℕ
  pub mode : ℕ
  pub mtime : NodeTime
  pub symlink_target : Option Text

abbrev unwrap_or {ℓ} : {A : Type ℓ} → A → Option A → A
unwrap_or d none = d
unwrap_or d (some a) = a

-- `u64::try_from` of an `i64`.
abbrev to_u64 : ℤ → Result SessionError ℕ
to_u64 (pos n) = ok n
to_u64 (negsuc n) = err internal_error

-- 0o444, 0o555 and 0o777.
abbrev pub default_mode : NodeKind → ℕ
default_mode file = 292
default_mode directory = 365
default_mode symlink = 511

-- The length of a target always fits a `u64`.
projected_size : NodeKind → StoreInode → Result SessionError ℕ
projected_size file stored = do
  size ← transpose (λ (d : Digest). to_u64 d.size_bytes) stored.file_remote_digest
  ok (unwrap_or 0 size)
projected_size directory stored = ok 0
projected_size symlink stored = ok (elim stored.symlink_target [ none ↦ 0 | some t ↦ length t ])

unfoldable pub project_inode : StoreInode → Result SessionError Inode
unfolding projected_size
project_inode stored = do
  size ← projected_size stored.kind stored
  ok (record {
    inode = stored.id;
    parent = unwrap_or stored.id stored.parent;
    name = stored.name;
    kind = stored.kind;
    size = size;
    mode = unwrap_or (default_mode stored.kind) stored.mode;
    mtime = unwrap_or unix_epoch stored.mtime;
    symlink_target = stored.symlink_target;
  })

-- `kind` and `name` stand only in the text of the errors.
unfoldable pub remote_digest : Option ReapiDigest → Result SessionError Digest
remote_digest digest = do
  d ← ok_or internal_error digest
  map_err (λ _. internal_error) (from_reapi d)

node_mtime : Timestamp → Result SessionError NodeTime
node_mtime time = do
  nanos ← ok_or internal_error (to_u32 time.nanos)
  ok_or internal_error (new_node_time time.seconds nanos)

unfoldable pub node_metadata :
    Option NodeProperties → Result SessionError (Option ℕ × Option NodeTime)
unfolding node_mtime
node_metadata none = ok (none, none)
node_metadata (some properties) = do
  mtime ← transpose node_mtime properties.mtime
  ok (properties.unix_mode, mtime)

unfoldable pub file_child : FileNode → Result SessionError NewRemoteInode
file_child node = do
  (mode, mtime) ← node_metadata node.node_properties
  digest ← remote_digest node.digest
  ok (record { name = node.name; mode = mode; mtime = mtime; content = remote_file digest })

unfoldable pub directory_child : DirectoryNode → Result SessionError NewRemoteInode
directory_child node = do
  (mode, mtime) ← node_metadata node.node_properties
  digest ← remote_digest node.digest
  ok (record { name = node.name; mode = mode; mtime = mtime; content = remote_directory digest })

unfoldable pub symlink_child : SymlinkNode → Result SessionError NewRemoteInode
symlink_child node = do
  (mode, mtime) ← node_metadata node.node_properties
  ok (record { name = node.name; mode = mode; mtime = mtime; content = remote_symlink node.target })

-- The three loops, each of which stops at its first error.
unfoldable pub decoded_directory_children : Directory → Result SessionError (List NewRemoteInode)
decoded_directory_children d = do
  files ← try_map file_child d.files
  directories ← try_map directory_child d.directories
  symlinks ← try_map symlink_child d.symlinks
  ok (files ++ (directories ++ symlinks))
