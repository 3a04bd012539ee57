-- ===== src/Mount/Fuse.antt =====
-- crates/rfsd/src/fuse.rs: `FuseAdapter`, the answers to the kernel's requests.
use remotefs.Base.{ℕ, ◌+◌, ◌-◌, ◌*◌, ◌/◌, ◌%◌, ◌^◌, Option, Bool, not, ◌||◌}
use remotefs.Base.{List, [], ◌∷◌, Result, ok, err, map_err, ok_or, reject_if, drop, leb, ltb}
use remotefs.Base.{if◌then◌else◌, ◌==◌, nat_eq}
use remotefs.Base.Int.{ℤ, pos, negsuc, i64_max}
use remotefs.Base.Text.{Text, codes}
use remotefs.Tree.Types.{NodeKind, file, directory, symlink}
use remotefs.Tree.Metadata.{has_bit}
use remotefs.Session.Types.{get, new_inode_id, NodeTime}
use remotefs.Session.Projection.{Inode}
use remotefs.Session.Facade.{Environment}
use remotefs.Mount.Filesystem
use remotefs.Mount.Filesystem.{FilesystemError, internal_error, failed_precondition, not_found}
use remotefs.Mount.Filesystem.{
  not_directory, is_directory, invalid_argument, invalid_inode, context,
}
use remotefs.Mount.Filesystem.{Call, ◌>>=◌, lift, with_error}

-- The error numbers of libc that are used.
pub data Errno : Type 0 where
  einval eio eisdir enoent enotdir erofs : Errno

pub data FileType : Type 0 where
  regular_file directory_type symlink_type : FileType

unfoldable pub file_type : NodeKind → FileType
file_type file = regular_file
file_type directory = directory_type
file_type symlink = symlink_type

unfoldable pub errno_for_error : FilesystemError → Errno
errno_for_error (context source) = errno_for_error source
errno_for_error not_found = enoent
errno_for_error not_directory = enotdir
errno_for_error is_directory = eisdir
errno_for_error invalid_argument = einval
errno_for_error internal_error = eio
errno_for_error failed_precondition = eio
errno_for_error invalid_inode = eio

-- `node.mode & 0o7777`
unfoldable pub permission_bits : Inode → ℕ
permission_bits node = let bits = node.mode % 4096 in if ltb bits (2 ^ 16) then bits else 0

-- A `SystemTime`, in nanoseconds from the epoch.
abbrev before_epoch : ℕ → ℤ
before_epoch n = if n == 0 then pos 0 else negsuc (n - 1)

unfoldable pub timestamp_to_system_time : NodeTime → ℤ
timestamp_to_system_time timestamp = elim timestamp.seconds [
  | pos s ↦ pos (s * 1_000_000_000 + timestamp.nanos)
  | negsuc s ↦
      if timestamp.nanos == 0
      then before_epoch ((s + 1) * 1_000_000_000)
      else before_epoch (s * 1_000_000_000 + (1_000_000_000 - timestamp.nanos))
]

-- `fuser::FileAttr`, without the owner, which is that of the process.
pub record FileAttr : Type 0 where
  pub ino : ℕ
  pub size : ℕ
  pub blocks : ℕ
  pub atime : ℤ
  pub mtime : ℤ
  pub ctime : ℤ
  pub crtime : ℤ
  pub kind : FileType
  pub perm : ℕ
  pub nlink : ℕ
  pub rdev : ℕ
  pub blksize : ℕ
  pub flags : ℕ

abbrev links : NodeKind → ℕ
links directory = 2
links _ = 1

unfoldable pub file_attr : Inode → FileAttr
file_attr node =
    let mtime = timestamp_to_system_time node.mtime in
    record {
      ino = get node.inode;
      size = node.size;
      blocks = (node.size + 511) / 512;
      atime = mtime;
      mtime = mtime;
      ctime = mtime;
      crtime = mtime;
      kind = file_type node.kind;
      perm = permission_bits node;
      nlink = links node.kind;
      rdev = 0;
      blksize = 4096;
      flags = 0;
    }

-- `(inode, next_offset, kind, name)`
pub record Entry : Type 0 where
  pub inode : ℕ
  pub next_offset : ℕ
  pub kind : FileType
  pub name : Text

abbrev next_offset_of : ℕ → ℕ
next_offset_of index = if leb (index + 1) i64_max then index + 1 else i64_max

abbrev pub entries_of : ℕ → List Inode → List Entry
entries_of index [] = []
entries_of index (child ∷ children) =
    record {
      inode = get child.inode;
      next_offset = next_offset_of index;
      kind = file_type child.kind;
      name = child.name;
    }
    ∷ entries_of (index + 1) children

unfoldable pub all_entries : ℕ → Inode → List Inode → List Entry
all_entries inode node children =
    record { inode = inode; next_offset = 1; kind = directory_type; name = codes "." }
    ∷ record { inode = get node.parent; next_offset = 2; kind = directory_type; name = codes ".." }
    ∷ entries_of 2 children

abbrev pub require_directory : NodeKind → Result Errno (Unit {0})
require_directory directory = ok tt
require_directory _ = err enotdir

abbrev pub require_regular : NodeKind → Result Errno (Unit {0})
require_regular file = ok tt
require_regular directory = err eisdir
require_regular symlink = err einval

-- The non-negative numbers of an `i64`, and `usize::try_from(…).unwrap_or(usize::MAX)` of them.
abbrev pub non_negative : ℤ → Result Errno ℕ
non_negative (pos n) = ok n
non_negative (negsuc n) = err einval

-- O_ACCMODE, O_APPEND and O_TRUNC of Linux, on the 32 bits of the flags; O_RDONLY is 0.
unfoldable pub is_writing : ℕ → Bool
is_writing flags = not (flags % 4 == 0) || (has_bit 10 flags || has_bit 9 flags)

-- An `OsStr` is a text or is not UTF-8.
abbrev pub OsName : Type 0
OsName = Option Text

module _ (env : Environment) where
  unfoldable pub lookup_node : ℕ → OsName → Call Errno Inode
  lookup_node parent name = lift (ok_or enoent name) >>= λ text.
      lift (map_err (λ _. einval) (new_inode_id parent)) >>= λ id.
      with_error errno_for_error (Filesystem.lookup_dir_child env id text)

  unfoldable pub node : ℕ → Call Errno Inode
  node inode = lift (map_err (λ _. einval) (new_inode_id inode)) >>= λ id.
      with_error errno_for_error (Filesystem.getattr env id)

  unfoldable pub directory_entries : ℕ → ℤ → Call Errno (List Entry)
  directory_entries inode offset = lift (non_negative offset) >>= λ start. node inode >>= λ n.
      lift (require_directory n.kind) >>= λ _.
      with_error errno_for_error (Filesystem.readdir env n.inode) >>= λ children.
      lift (ok (drop start (all_entries inode n children)))

  unfoldable pub open_file : ℕ → ℕ → Call Errno (Unit {0})
  open_file inode flags = lift (reject_if (is_writing flags) erofs) >>= λ _.
      node inode >>= λ n. lift (require_regular n.kind)

  unfoldable pub read_bytes : ℕ → ℤ → ℕ → Call Errno (List ℕ)
  read_bytes inode offset size = lift (non_negative offset) >>= λ from.
      lift (map_err (λ _. einval) (new_inode_id inode)) >>= λ id.
      with_error errno_for_error (Filesystem.read env id from size)
