-- ===== src/Tests/MountCases.antt =====
-- crates/rfsd/src/filesystem.rs and fuse.rs at concrete inputs.
use remotefs.Base.{◌≡◌, refl, Bool, true, false, List, [], ◌∷◌, ok, arith, some}
use remotefs.Base.Int.{pos}
use remotefs.Base.Text.{codes}
use remotefs.Session.Types
use remotefs.Session.Types.{SessionError, NodeTime, root, closed, active}
use remotefs.Session.Store.Database.{empty_database}
use remotefs.Session.Store.Operations.{create, close}
use remotefs.Session.Store.Closing.{sound, close-SessionIs}
use remotefs.Session.Store.Lifecycle.{root_cause}
use remotefs.Session.Store.Creation.{create-IsUnloaded, create-IsNamespace}
use remotefs.Session.Store.Invariants.{IsNamespace}
use remotefs.Session.Facade.{Session}
use remotefs.Session.Safety.{IsSafe}
use remotefs.Mount.Filesystem.{from_session_error}
use remotefs.Mount.Fuse.{Errno, Entry, directory_type, errno_for_error, directory_entries}
use remotefs.Mount.Serve.{readdir, setattr, read, serve, serve_all, error, is_overridden}
use remotefs.Mount.Errors.{errno_of_cause, errno_for_error-root_cause}
use remotefs.Mount.Listing.{directory_entries-resume}
use remotefs.Mount.Keeps.{serve_all-IsSafe}
use remotefs.Mount.Closed.{closed-serve}
use remotefs.Base.Utf8.{to_str}
use remotefs.Tests.Data.{
  mnt-utf8, an_environment, abc_digest, abc_digest-IsValid, accepts_all, hash_all,
}
use remotefs.Session.Store.Operations.{
  get_or_create_remote_dir_children, get_directory_children_on, get_inode_row, insert_children,
  materialize, validate_schema_version, get_or_create_body, ensure_active, read_stored_session,
  prepare_schema, when, record_version, initialize_database, now_seconds, insert_session,
  insert_root_inode, insert_remote_inode, remote_row, inode, get_directory_children,
}
use remotefs.Session.Store.Metadata.{
  invalid_metadata, lifecycle_text, parse_lifecycle, validate_close_time, validate_session,
}
use remotefs.Base.Decimal.{decimal, decimal_ℤ}
use remotefs.Digest.{check_hash, from_str, is_bad_hash_char, new, parse_i64, to_string, for_bytes}
use remotefs.Session.Store.Rows.{kind_text}
use remotefs.Session.Store.Validate.{
  ensure_inode_is_dir, parse_kind, validate_children_after, validate_directory_inode,
  validate_file_inode, validate_inode, validate_inode_hierarchy, validate_inode_kind,
  validate_inode_mtime, validate_inode_name, validate_inode_row, validate_remote_children,
  validate_stored_bool, validate_stored_digest, validate_symlink_inode,
}
use remotefs.Session.Types.{new_node_time, to_u32, from_sqlite, new_inode_id, get}
use remotefs.Tree.Builder.{insert_by, sort_by}
use remotefs.Session.Store.Database.{with_transaction}
use remotefs.Mount.Fuse.{node, all_entries}
use remotefs.Mount.Filesystem.{getattr}
use remotefs.Session.Facade.{
  get_inode, get_visible_inode, list_directory, ensure_directory_loaded, load_directory,
  record_directory_read,
}
use remotefs.Session.Projection.{project_inode, decoded_directory_children}
use remotefs.Session.Cache.{
  read_blob, read_cached_blob, ensure_cached, fill_cache_after_lock, cache_contains, lookup,
  write_all, write, admit_pending_blob, verify, path,
}
use remotefs.Tree.Decode.{
  decode_directory, validate_directory, validate_sorted_names, validate_names,
  validate_node_properties,
}

errno_for_error-root_cause_example :
    errno_for_error (from_session_error (Types.context (Types.context Types.not_found)))
    ≡ errno_of_cause (root_cause (Types.context (Types.context Types.not_found)))
errno_for_error-root_cause_example =
    errno_for_error-root_cause (Types.context (Types.context Types.not_found))

abbrev two_entries : List Entry
two_entries =
    record { inode = 1; next_offset = 1; kind = directory_type; name = codes "." }
    ∷ record { inode = 1; next_offset = 2; kind = directory_type; name = codes ".." }
    ∷ []

-- A buffer for one entry.
abbrev pub room_for_one : List Entry → Entry → Bool
room_for_one [] e = true
room_for_one (a ∷ added) e = false

abbrev pub mounted : Session
mounted = record {
  db =
      (create sound accepts_all (codes "id") 7 abc_digest (codes "/mnt") (some 5) empty_database).1;
  cache = [];
  overlay = [];
  counters = record {
    directory_downloads = 0;
    directory_cache_hits = 0;
    file_downloads = 0;
    file_cache_hits = 0;
  };
}

lists : (directory_entries an_environment 1 (pos 0) mounted).0 ≡ ok two_entries
unfolding get_or_create_remote_dir_children invalid_metadata decimal decimal_ℤ check_hash from_str
    is_bad_hash_char new parse_i64 to_string lifecycle_text parse_lifecycle validate_close_time
    get_directory_children_on get_inode_row insert_children materialize validate_schema_version
    kind_text ensure_inode_is_dir parse_kind validate_children_after validate_directory_inode
    validate_file_inode validate_inode validate_inode_hierarchy validate_inode_kind
    validate_inode_mtime validate_inode_name validate_inode_row validate_remote_children
    validate_stored_bool validate_stored_digest validate_symlink_inode new_node_time to_u32
    insert_by sort_by with_transaction get_or_create_body ensure_active read_stored_session create
    prepare_schema when record_version initialize_database now_seconds insert_session to_str
    insert_root_inode insert_remote_inode remote_row from_sqlite validate_session directory_entries
    node all_entries new_inode_id get getattr remotefs.Mount.Filesystem.readdir get_inode
    get_visible_inode list_directory ensure_directory_loaded load_directory record_directory_read
    inode get_directory_children project_inode decoded_directory_children read_blob read_cached_blob
    ensure_cached fill_cache_after_lock cache_contains lookup write_all write admit_pending_blob
    verify for_bytes decode_directory validate_directory path validate_sorted_names validate_names
    validate_node_properties
lists = refl

directory_entries-resume_example :
    (directory_entries an_environment 1 (pos 1) mounted).0
    ≡ ok (record { inode = 1; next_offset = 2; kind = directory_type; name = codes ".." } ∷ [])
directory_entries-resume_example =
    directory_entries-resume an_environment 1 mounted []
      (record { inode = 1; next_offset = 1; kind = directory_type; name = codes "." })
      (record { inode = 1; next_offset = 2; kind = directory_type; name = codes ".." } ∷ []) lists
      (omega arith)

mounted-IsNamespace : IsNamespace mounted.db.session_metadata mounted.db
mounted-IsNamespace =
    create-IsNamespace (codes "id") 7 abc_digest (codes "/mnt") 5 accepts_all refl (omega arith)
      abc_digest-IsValid (omega arith) (omega arith) mnt-utf8

serve_all-IsSafe_example :
    IsSafe
      (IsNamespace mounted.db.session_metadata)
      hash_all
      []
      (serve_all an_environment room_for_one
        (readdir 1 (pos 0) ∷ setattr ∷ read 2 (pos 0) 3 ∷ [])
        mounted).1
serve_all-IsSafe_example =
    serve_all-IsSafe an_environment mounted.db.session_metadata [] room_for_one
      (readdir 1 (pos 0) ∷ setattr ∷ read 2 (pos 0) 3 ∷ []) mounted
      (record { tables = mounted-IsNamespace; cache = tt; same_overlay = refl })

abbrev unmounted : Session
unmounted = record mounted { db = (close sound accepts_all (some 9) mounted.db).1 }

handled : is_overridden (readdir 1 (pos 0)) ≡ true
unfolding is_overridden
handled = refl

closed-serve_example :
    (e : Errno) × (serve an_environment room_for_one (readdir 1 (pos 0)) unmounted
      ≡ (error e, unmounted))
closed-serve_example =
    closed-serve an_environment unmounted
      (close-SessionIs accepts_all mounted.db 9
        (create-IsUnloaded (codes "id") 7 abc_digest (codes "/mnt") 5 accepts_all refl (omega arith)
          abc_digest-IsValid (omega arith) (omega arith) mnt-utf8 (omega arith)).1.session
        (omega arith)).1
      room_for_one (readdir 1 (pos 0)) handled
