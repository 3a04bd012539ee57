-- ===== src/Session/Store/RemoteInode.antt =====
-- crates/rfs-common/src/session/store.rs: the inode that stands for a remote node, and what is asked of
-- the node and of its place.
use remotefs.Base.{◌≡◌, Option, none, some, Bool, false, []}
use remotefs.Base.{◌==◌, nat_eq, list_eq}
use remotefs.Base.Int.{pos, leb_ℤ, InI64, int_eq}
use remotefs.Base.Text.{Text}
use remotefs.Digest.{Digest}
use remotefs.Digest.Validity.{IsValid}
use remotefs.Tree.Types.{NodeKind, file, directory, symlink}
use remotefs.Tree.Metadata.{is_bad_name}
use remotefs.Session.Types.{InodeId, root, NodeTime, new_node_time}
use remotefs.Session.Store.Rows.{StoreInode, RemoteContent, NewRemoteInode}
use remotefs.Session.Store.Rows.{remote_file, remote_directory, remote_symlink}
use remotefs.Session.Store.Validate.{bad_mode}

abbrev pub kind_of : RemoteContent → NodeKind
kind_of (remote_file digest) = file
kind_of (remote_directory digest) = directory
kind_of (remote_symlink target) = symlink

abbrev pub file_digest : RemoteContent → Option Digest
file_digest (remote_file digest) = some digest
file_digest _ = none

abbrev pub file_dirty : RemoteContent → Option Bool
file_dirty (remote_file digest) = some false
file_dirty _ = none

abbrev pub link_target : RemoteContent → Option Text
link_target (remote_symlink target) = some target
link_target _ = none

abbrev pub directory_digest : RemoteContent → Option Digest
directory_digest (remote_directory digest) = some digest
directory_digest _ = none

abbrev pub loaded_state : RemoteContent → Option Bool
loaded_state (remote_directory digest) = some false
loaded_state _ = none

-- The inode that a reader sees for a remote node stored under `id`.
unfoldable pub stored_inode : InodeId → Option InodeId → NewRemoteInode → StoreInode
stored_inode id parent new = record {
  id = id;
  parent = parent;
  name = new.name;
  kind = kind_of new.content;
  mode = new.mode;
  mtime = new.mtime;
  tombstone = false;
  file_remote_digest = file_digest new.content;
  file_overlay_path = none;
  file_content_dirty = file_dirty new.content;
  symlink_target = link_target new.content;
  directory_remote_digest = directory_digest new.content;
  directory_loaded = loaded_state new.content;
}

abbrev pub HasDigest : RemoteContent → Type 0
HasDigest (remote_file digest) = IsValid digest × InI64 digest.size_bytes
HasDigest (remote_directory digest) = IsValid digest × InI64 digest.size_bytes
HasDigest (remote_symlink target) = Unit

-- A time in the range that `NodeTime::new` lets through.
abbrev pub IsTime : Option NodeTime → Type 0
IsTime none = Unit
IsTime (some t) = new_node_time t.seconds t.nanos ≡ some t

-- What the callers establish of a node: its mode, and the promises of `NodeTime` and `Digest`.
pub record IsRemote (new : NewRemoteInode) : Type 0 where
  pub mode_fits : bad_mode new.mode ≡ false
  pub timed : IsTime new.mtime
  pub digested : HasDigest new.content

-- The root has no parent and no name and is a directory; any other inode has a parent and a name.
abbrev pub IsPlaced : InodeId → Option InodeId → NewRemoteInode → Type 0
IsPlaced id none new = (id ≡ root) × (new.name ≡ []) × (kind_of new.content ≡ directory)
IsPlaced id (some parent) new =
    ((id == root) ≡ false) × (leb_ℤ parent (pos 0) ≡ false) × (is_bad_name new.name ≡ false)
