-- ===== src/Session/Store/Validate.antt =====
-- crates/rfs-common/src/session/store.rs: from a row to an inode, with every test on the way.
use remotefs.Base.{is_some}
use remotefs.Base.{ℕ, Option, none, some, Bool, true, false, not, ◌&&◌, ◌||◌, List, [], ◌∷◌}
use remotefs.Base.{Result, ok, err, ◌>>=◌, ◌>>◌, map_err, ok_or, reject_if, transpose, ltb}
use remotefs.Base.{if◌then◌else◌, contains, ◌==◌, nat_eq, list_eq}
use remotefs.Base.Int.{ℤ, pos, int_eq}
use remotefs.Base.Text.{Text, codes, split, starts_with}
use remotefs.Digest.{Digest, from_str}
use remotefs.Tree.Types.{NodeKind, file, directory, symlink}
use remotefs.Tree.Metadata.{is_bad_name}
use remotefs.Session.Types.{SessionError, internal_error, not_directory, context, InodeId, root}
use remotefs.Session.Types.{from_sqlite, NodeTime, new_node_time, to_u32}
use remotefs.Session.Store.Rows.{InodeRow, StoreInode, NewRemoteInode, kind_text}

-- `mode > 0o7777`
abbrev pub bad_mode : Option ℕ → Bool
bad_mode none = false
bad_mode (some mode) = ltb 4095 mode

unfoldable pub validate_inode_name : Text → Result SessionError (Unit {0})
validate_inode_name name = reject_if (is_bad_name name) internal_error

-- The loop of `validate_remote_children`, with the names that were met.
unfoldable pub validate_children_after :
    List Text → List NewRemoteInode → Result SessionError (Unit {0})
validate_children_after names [] = ok tt
validate_children_after names (child ∷ children) = do
  validate_inode_name child.name
  reject_if (contains names child.name) internal_error
  reject_if (bad_mode child.mode) internal_error
  validate_children_after (child.name ∷ names) children

unfoldable pub validate_remote_children : List NewRemoteInode → Result SessionError (Unit {0})
unfolding validate_children_after
validate_remote_children children = validate_children_after [] children

unfoldable pub parse_kind : Text → Result SessionError NodeKind
unfolding kind_text
parse_kind text =
    if text == kind_text file
    then ok file
    else if text == kind_text directory
    then ok directory
    else if text == kind_text symlink
    then ok symlink
    else err internal_error

unfoldable pub validate_inode_mtime : Option ℤ → Option ℤ → Result SessionError (Option NodeTime)
validate_inode_mtime none none = ok none
validate_inode_mtime (some seconds) (some nanos) = do
  n ← ok_or internal_error (to_u32 nanos)
  time ← ok_or internal_error (new_node_time seconds n)
  ok (some time)
validate_inode_mtime _ _ = err internal_error

unfoldable pub validate_stored_bool : ℤ → Result SessionError Bool
validate_stored_bool value =
    if value == pos 0 then ok false else if value == pos 1 then ok true else err internal_error

unfoldable pub validate_stored_digest : Option Text → Result SessionError (Option Digest)
validate_stored_digest = transpose (λ value. map_err (λ _. internal_error) (from_str value))

abbrev pub is_none {ℓ} : {A : Type ℓ} → Option A → Bool
is_none none = true
is_none (some a) = false

abbrev pub is_some_true : Option Bool → Bool
is_some_true (some b) = b
is_some_true none = false

-- Empty, absolute, or with a component `..`.
abbrev pub bad_overlay_path : Option Text → Bool
bad_overlay_path none = false
bad_overlay_path (some path) =
    path == [] || (starts_with b'/' path || contains (split b'/' path) (codes ".."))

unfoldable pub validate_file_inode : StoreInode → Result SessionError (Unit {0})
validate_file_inode i = do
  reject_if
      (is_some i.symlink_target
        || (is_some i.directory_remote_digest
            || (is_some i.directory_loaded || is_none i.file_content_dirty)))
      internal_error
  reject_if (bad_overlay_path i.file_overlay_path) internal_error
  reject_if (is_none i.file_overlay_path && is_some_true i.file_content_dirty) internal_error
  reject_if (is_none i.file_remote_digest && is_none i.file_overlay_path) internal_error
  reject_if (is_some i.file_remote_digest && is_some i.file_overlay_path) internal_error

unfoldable pub validate_symlink_inode : StoreInode → Result SessionError (Unit {0})
validate_symlink_inode i =
    reject_if
      (is_none i.symlink_target
        || (is_some i.file_remote_digest
            || (is_some i.file_overlay_path
                || (is_some i.file_content_dirty
                    || (is_some i.directory_remote_digest || is_some i.directory_loaded)))))
      internal_error

unfoldable pub validate_directory_inode : StoreInode → Result SessionError (Unit {0})
validate_directory_inode i = do
  reject_if
      (is_some i.file_remote_digest
        || (is_some i.file_overlay_path
            || (is_some i.file_content_dirty || is_some i.symlink_target)))
      internal_error
  reject_if (is_none i.directory_loaded) internal_error

abbrev pub is_directory_kind : NodeKind → Bool
is_directory_kind directory = true
is_directory_kind _ = false

validate_kind : NodeKind → StoreInode → Result SessionError (Unit {0})
validate_kind file i = validate_file_inode i
validate_kind symlink i = validate_symlink_inode i
validate_kind directory i = validate_directory_inode i

unfoldable pub validate_inode_kind : StoreInode → Result SessionError (Unit {0})
unfolding validate_kind
validate_inode_kind i = validate_kind i.kind i

validate_root : StoreInode → Result SessionError (Unit {0})
validate_root i = do
  reject_if (not (i.name == [])) internal_error
  reject_if (not (is_directory_kind i.kind)) internal_error
  reject_if (is_none i.directory_remote_digest) internal_error
  reject_if (is_none i.directory_loaded) internal_error

validate_place : Bool → Option InodeId → StoreInode → Result SessionError (Unit {0})
unfolding validate_root
validate_place true none i = validate_root i
validate_place true (some parent) i = err internal_error
validate_place false (some parent) i = map_err context (validate_inode_name i.name)
validate_place false none i = err internal_error

unfoldable pub validate_inode_hierarchy : StoreInode → Result SessionError (Unit {0})
unfolding validate_place
validate_inode_hierarchy i = validate_place (i.id == root) i.parent i

unfoldable pub validate_inode : StoreInode → Result SessionError (Unit {0})
validate_inode i = do
  reject_if (bad_mode i.mode) internal_error
  validate_inode_hierarchy i
  validate_inode_kind i

unfoldable pub validate_inode_row : InodeRow → Result SessionError StoreInode
validate_inode_row row = do
  id ← map_err context (from_sqlite row.id)
  parent ← map_err context (transpose from_sqlite row.parent_id)
  kind ← parse_kind row.kind
  mode ← transpose (λ m. ok_or internal_error (to_u32 m)) row.mode
  mtime ← map_err context (validate_inode_mtime row.mtime_seconds row.mtime_nanos)
  tombstone ← map_err context (validate_stored_bool row.tombstone)
  file_remote_digest ← map_err context (validate_stored_digest row.file_remote_digest)
  dirty ← map_err context (transpose validate_stored_bool row.file_content_dirty)
  directory_remote_digest ← map_err context (validate_stored_digest row.directory_remote_digest)
  loaded ← map_err context (transpose validate_stored_bool row.directory_loaded)
  let result : StoreInode = record {
    id = id;
    parent = parent;
    name = row.name;
    kind = kind;
    mode = mode;
    mtime = mtime;
    tombstone = tombstone;
    file_remote_digest = file_remote_digest;
    file_overlay_path = row.file_overlay_path;
    file_content_dirty = dirty;
    symlink_target = row.symlink_target;
    directory_remote_digest = directory_remote_digest;
    directory_loaded = loaded;
  }
  map_err context (validate_inode result)
  ok result

unfoldable pub ensure_inode_is_dir : StoreInode → Result SessionError (Unit {0})
ensure_inode_is_dir i = reject_if (not (is_directory_kind i.kind)) not_directory
