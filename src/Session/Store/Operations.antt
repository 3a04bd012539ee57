-- ===== src/Session/Store/Operations.antt =====
-- crates/rfs-common/src/session/store.rs: the operations of `SessionStore`.
use mathlib.Core.Option
use remotefs.Base.{
  ℕ, Option, none, some, Bool, true, false, not, ◌||◌, List, [], ◌∷◌, Result, ok, err,
}
use remotefs.Base.{ok_or, reject_if, transpose, try_map, leb, if◌then◌else◌, ◌==◌, nat_eq}
use remotefs.Base.{list_eq, option_eq}
use remotefs.Base.Int.{ℤ, pos, i64_max, int_eq}
use remotefs.Base.{ok_or}
use remotefs.Base.Utf8.{to_str}
use remotefs.Base.Text.{Text, codes}
use remotefs.Digest.{Digest, to_string}
use remotefs.Tree.Types.{file, directory, symlink}
use remotefs.Session.Action.{◌>>=◌, ◌>>◌, lift, pure, in_context}
use remotefs.Session.Types
use remotefs.Session.Types.{SessionError, internal_error, failed_precondition, context, Operation}
use remotefs.Session.Types.{read_schema_version, create_schema, record_schema_version}
use remotefs.Session.Types.{read_session_metadata, insert_session_metadata, mark_session_closed}
use remotefs.Session.Types.{get_inode_by_id, lookup_child_by_name, list_children}
use remotefs.Session.Types.{mark_directory_loaded, InodeId, root, from_sqlite, NodeTime}
use remotefs.Session.Types.{SessionLifecycle, initializing, active, closed}
use remotefs.Session.Store.Rows.{InodeRow, StoreInode, RemoteContent, remote_file, remote_directory}
use remotefs.Session.Store.Rows.{remote_symlink, NewRemoteInode}
use remotefs.Session.Store.Rows.{SessionMetadata, kind_text}
use remotefs.Session.Store.Validate.{validate_inode_name, validate_remote_children, is_some_true}
use remotefs.Session.Store.Validate.{validate_inode_row, ensure_inode_is_dir}
use remotefs.Session.Store.Metadata.{lifecycle_text, validate_session}
use remotefs.Session.Store.Database.{Database, Sql, execute}
use remotefs.Session.Store.Database.{
  select_session, insert_session_row, update_closed, select_by_id,
}
use remotefs.Session.Store.Database.{select_child, select_children, insert_inode_row, update_loaded}
use remotefs.Session.Store.Database.{with_transaction}

-- The row that `insert_remote_inode` writes; SQLite chooses the identity.
abbrev content_row : RemoteContent → InodeRow → InodeRow
content_row (remote_file digest) row = record row {
  kind = kind_text file;
  file_remote_digest = some (to_string digest);
  file_content_dirty = some (pos 0);
}
content_row (remote_directory digest) row = record row {
  kind = kind_text directory;
  directory_remote_digest = some (to_string digest);
  directory_loaded = some (pos 0);
}
content_row (remote_symlink target) row = record row {
  kind = kind_text symlink;
  symlink_target = some target;
}

unfoldable pub remote_row : Option InodeId → NewRemoteInode → InodeRow
remote_row parent inode = content_row inode.content (record {
  id = pos 0;
  parent_id = parent;
  name = inode.name;
  kind = [];
  mode = Option.map pos inode.mode;
  mtime_seconds = Option.map (λ (t : NodeTime). t.seconds) inode.mtime;
  mtime_nanos = Option.map (λ (t : NodeTime). pos t.nanos) inode.mtime;
  tombstone = pos 0;
  file_remote_digest = none;
  file_overlay_path = none;
  file_content_dirty = none;
  symlink_target = none;
  directory_remote_digest = none;
  directory_loaded = none;
})

abbrev is_active : SessionLifecycle → Bool
is_active active = true
is_active _ = false

abbrev pub schema_version : ℤ
schema_version = pos 1

-- `now_seconds`, from the seconds since the epoch; `none` for a clock before it.
unfoldable pub now_seconds : Option ℕ → Result SessionError ℤ
now_seconds none = err internal_error
now_seconds (some seconds) = if leb seconds i64_max then ok (pos seconds) else err internal_error

abbrev pub is_empty : {A : Type 0} → List A → Bool
is_empty [] = true
is_empty (x ∷ xs) = false

module _ (fault : Operation → Database → Bool) (is_uuid : Text → Bool) where
  -- A query that leaves the tables as they are.
  abbrev query : {A : Type 0} → Operation → (Database → A) → Sql A
  query operation f = execute fault operation (λ db. some (f db, db))

  unfoldable pub read_stored_session : Sql SessionMetadata
  read_stored_session = do
    found ← query read_session_metadata select_session
    row ← lift (ok_or failed_precondition found)
    lift (validate_session is_uuid row)

  unfoldable pub ensure_active : Sql (Unit {0})
  ensure_active = do
    session ← in_context read_stored_session
    lift (reject_if (not (is_active session.lifecycle)) failed_precondition)

  unfoldable pub get_inode_row : InodeId → Sql (Option StoreInode)
  get_inode_row id = do
    row ← query get_inode_by_id (select_by_id id)
    in_context (lift (transpose validate_inode_row row))

  unfoldable pub lookup_child_in_dir_inode : InodeId → Text → Sql (Option StoreInode)
  lookup_child_in_dir_inode parent name = do
    row ← query lookup_child_by_name (select_child parent name)
    in_context (lift (transpose validate_inode_row row))

  unfoldable pub get_directory_children_on : InodeId → Sql (List StoreInode)
  get_directory_children_on parent = do
    rows ← query list_children (select_children parent)
    in_context (lift (try_map validate_inode_row rows))

  -- `SessionStore::inode`, `child` and `get_directory_children`
  unfoldable pub inode : InodeId → Sql (Option StoreInode)
  inode id = do in_context ensure_active; get_inode_row id

  unfoldable pub child : InodeId → Text → Sql (Option StoreInode)
  child parent name = do
    in_context (lift (validate_inode_name name))
    in_context ensure_active
    lookup_child_in_dir_inode parent name

  unfoldable pub get_directory_children : InodeId → Sql (List StoreInode)
  get_directory_children parent = do in_context ensure_active; get_directory_children_on parent

  unfoldable pub insert_remote_inode : Option InodeId → NewRemoteInode → Sql InodeId
  insert_remote_inode parent inode = do
    rowid ← execute fault Types.insert_remote_inode (insert_inode_row (remote_row parent inode))
    lift (from_sqlite rowid)

  unfoldable pub insert_children : InodeId → List NewRemoteInode → Sql (Unit {0})
  insert_children parent [] = pure tt
  insert_children parent (child ∷ children) = do
    id ← in_context (insert_remote_inode (some parent) child)
    insert_children parent children

  -- The part for a directory that is not loaded.
  unfoldable pub materialize :
      InodeId → List NewRemoteInode → List StoreInode → Sql (List StoreInode)
  materialize parent children stored = do
    lift (reject_if (not (is_empty stored)) internal_error)
    in_context (lift (validate_remote_children children))
    insert_children parent children
    execute fault mark_directory_loaded (update_loaded parent)
    in_context (get_directory_children_on parent)

  unfoldable pub get_or_create_body : InodeId → List NewRemoteInode → Sql (List StoreInode)
  get_or_create_body parent children = do
    in_context ensure_active
    found ← in_context (get_inode_row parent)
    parent_inode ← lift (ok_or internal_error found)
    in_context (lift (ensure_inode_is_dir parent_inode))
    stored ← in_context (get_directory_children_on parent)
    if is_some_true parent_inode.directory_loaded
        then pure stored
        else materialize parent children stored

  unfoldable pub get_or_create_remote_dir_children :
      InodeId → List NewRemoteInode → Sql (List StoreInode)
  get_or_create_remote_dir_children parent children =
      with_transaction fault (get_or_create_body parent children)

  unfoldable pub close_body : ℤ → Sql (Unit {0})
  close_body seconds = do
    in_context ensure_active
    execute fault mark_session_closed (update_closed seconds)

  unfoldable pub close : Option ℕ → Sql (Unit {0})
  close now = do
    seconds ← in_context (lift (now_seconds now))
    with_transaction fault (close_body seconds)

  unfoldable pub insert_session : Text → ℕ → Digest → Text → ℤ → Sql (Unit {0})
  insert_session session_id daemon_pid root_digest mountpoint created_at_seconds =
      execute fault insert_session_metadata (
        insert_session_row (record {
          singleton = pos 1;
          session_id = session_id;
          daemon_pid = pos daemon_pid;
          lifecycle = lifecycle_text active;
          root_digest_hash = root_digest.hash;
          root_digest_size = root_digest.size_bytes;
          mountpoint = mountpoint;
          created_at_seconds = created_at_seconds;
          closed_at_seconds = none;
          log_level = codes "info";
          log_format = codes "text";
        }))

  unfoldable pub insert_root_inode : Digest → Sql (Unit {0})
  insert_root_inode root_digest = do
    id ←
        insert_remote_inode none
          (record { name = []; mode = none; mtime = none; content = remote_directory root_digest })
    lift (reject_if (not (id == root)) internal_error)

  unfoldable pub initialize_database : Text → ℕ → Digest → Text → Option ℕ → Sql (Unit {0})
  initialize_database session_id daemon_pid root_digest mountpoint now = do
    text ← lift (ok_or internal_error (to_str mountpoint))
    lift (reject_if (not (is_uuid session_id) || daemon_pid == 0) internal_error)
    seconds ← in_context (lift (now_seconds now))
    with_transaction fault do
      insert_session session_id daemon_pid root_digest text seconds
      in_context (insert_root_inode root_digest)

  unfoldable pub validate_schema_version : Sql (Unit {0})
  validate_schema_version = do
    version ← query read_schema_version (λ db. db.user_version)
    lift (reject_if (not (version == schema_version)) failed_precondition)

  -- The tables are created if they are not there, which changes no row.
  unfoldable pub record_version : Sql (Unit {0})
  record_version =
      execute fault record_schema_version
        (λ db. some (tt, record db { user_version = schema_version }))

  unfoldable pub when : Bool → Sql (Unit {0}) → Sql (Unit {0})
  when true m = m
  when false m = pure tt

  -- The tables are created if they are not there, which changes no row.
  unfoldable pub prepare_schema : Sql (Unit {0})
  prepare_schema = do
    version ← query read_schema_version (λ db. db.user_version)
    when (not (version == pos 0)) validate_schema_version
    query create_schema (λ db. tt)
    when (version == pos 0) record_version

  -- `SessionStore::create` on an opened connection, and `inspect` on a read-only one.
  unfoldable pub create : Text → ℕ → Digest → Text → Option ℕ → Sql (Unit {0})
  create session_id daemon_pid root_digest mountpoint now = do
    prepare_schema
    initialize_database session_id daemon_pid root_digest mountpoint now

  unfoldable pub inspect : Sql SessionMetadata
  inspect = do validate_schema_version; read_stored_session
