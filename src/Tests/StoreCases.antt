-- ===== src/Tests/StoreCases.antt =====
-- crates/rfs-common/src/session/store.rs at concrete inputs.
use remotefs.Base.{◌≡◌, refl, none, some, Bool, true, false, List, [], ◌∷◌, ok, err, arith, All}
use remotefs.Base.Int.{pos}
use remotefs.Base.Text.{codes}
use remotefs.Tree.Builder.{sort_by}
use remotefs.Session.Types.{
  Operation, SessionError, context, database, root, active, closed, mark_directory_loaded,
}
use remotefs.Session.Types
use remotefs.Session.Store.Rows.{NewRemoteInode, remote_file, remote_directory}
use remotefs.Session.Store.Validate.{validate_remote_children, validate_inode_row}
use remotefs.Session.Store.Database.{Database, empty_database}
use remotefs.Session.Store.Operations.{
  create, close, get_or_create_remote_dir_children, initialize_database, remote_row,
}
use remotefs.Session.Store.Operations
use remotefs.Session.Store.RowRoundTrip.{validate_inode_row-remote_row}
use remotefs.Session.Store.RemoteInode.{IsRemote, stored_inode}
use remotefs.Session.Store.Lifecycle.{SessionIs, Refused, closed-Refused}
use remotefs.Session.Store.Closing.{sound, close-SessionIs}
use remotefs.Session.Store.Tables.{inode_name}
use remotefs.Session.Store.Materialize.{numbered}
use remotefs.Session.Store.Children.{IsUnloaded, loaded, get_or_create-loaded, get_or_create_again}
use remotefs.Session.Store.Creation.{create-IsUnloaded}
use remotefs.Base.Utf8.{to_str}
use remotefs.Tests.Data.{mnt-utf8, abc_digest, abc_digest-IsValid, accepts_all}
use remotefs.Session.Store.Validate.{
  validate_inode_name, ensure_inode_is_dir, parse_kind, validate_children_after,
  validate_directory_inode, validate_file_inode, validate_inode, validate_inode_hierarchy,
  validate_inode_kind, validate_inode_mtime, validate_stored_bool, validate_stored_digest,
  validate_symlink_inode,
}
use remotefs.Session.Store.Operations.{
  prepare_schema, when, record_version, now_seconds, insert_session, insert_root_inode,
  insert_remote_inode, get_directory_children_on, get_inode_row, insert_children, materialize,
  validate_schema_version, get_or_create_body, ensure_active, read_stored_session, close_body,
}
use remotefs.Session.Store.Database.{with_transaction}
use remotefs.Session.Types.{from_sqlite, new_node_time, to_u32}
use remotefs.Session.Store.Metadata.{
  invalid_metadata, lifecycle_text, parse_lifecycle, validate_close_time, validate_session,
}
use remotefs.Base.Decimal.{decimal, decimal_ℤ}
use remotefs.Digest.{check_hash, from_str, is_bad_hash_char, new, parse_i64, to_string}
use remotefs.Session.Store.Rows.{kind_text}
use remotefs.Tree.Builder.{insert_by}

abbrev new_database : Database
new_database =
    (create sound accepts_all (codes "id") 7 abc_digest (codes "/mnt") (some 5) empty_database).1

created : IsUnloaded accepts_all root new_database
created =
    (create-IsUnloaded (codes "id") 7 abc_digest (codes "/mnt") 5 accepts_all refl (omega arith)
      abc_digest-IsValid (omega arith) (omega arith) mnt-utf8 (omega arith)).1

abbrev two_children : List NewRemoteInode
two_children =
    record { name = codes "b"; mode = some 420; mtime = none; content = remote_file abc_digest }
    ∷ record { name = codes "a"; mode = none; mtime = none; content = remote_directory abc_digest }
    ∷ []

two_children-valid : validate_remote_children two_children ≡ ok tt
unfolding validate_remote_children validate_inode_name
two_children-valid = refl

two_children-IsRemote : All IsRemote two_children
two_children-IsRemote = (
  record { mode_fits = refl; timed = tt; digested = (abc_digest-IsValid, omega arith) },
  (record { mode_fits = refl; timed = tt; digested = (abc_digest-IsValid, omega arith) }, tt),
)

one_identity : new_database.last_rowid ≡ 1
unfolding create prepare_schema when record_version initialize_database now_seconds with_transaction
    insert_session to_str insert_root_inode insert_remote_inode remote_row from_sqlite
one_identity = refl

get_or_create-loaded_example :
    get_or_create_remote_dir_children sound accepts_all root two_children new_database ≡ (
      ok (sort_by inode_name (numbered root new_database.last_rowid two_children)),
      loaded root two_children new_database,
    )
get_or_create-loaded_example =
    get_or_create-loaded accepts_all root new_database created two_children two_children-valid
      two_children-IsRemote (omega (arith, one_identity))

get_or_create_again_example :
    get_or_create_remote_dir_children sound accepts_all root []
      (loaded root two_children new_database)
    ≡ (
      ok (sort_by inode_name (numbered root new_database.last_rowid two_children)),
      loaded root two_children new_database,
    )
get_or_create_again_example =
    get_or_create_again accepts_all root new_database created two_children two_children-valid
      two_children-IsRemote []

abbrev closed_database : Database
closed_database = (close sound accepts_all (some 9) new_database).1

close-SessionIs_example :
    let after = close sound accepts_all (some 9) new_database in
    (after.0 ≡ ok tt)
    × SessionIs accepts_all closed after.1
    × (after.1.inodes ≡ new_database.inodes)
close-SessionIs_example = close-SessionIs accepts_all new_database 9 created.session (omega arith)

closed-Refused_example :
    Refused (Operations.inode sound accepts_all root) closed_database
    × Refused (Operations.child sound accepts_all root (codes "a")) closed_database
    × Refused (Operations.get_directory_children sound accepts_all root) closed_database
    × Refused
        (get_or_create_remote_dir_children sound accepts_all root two_children)
        closed_database
    × Refused (close sound accepts_all (some 10)) closed_database
closed-Refused_example =
    closed-Refused sound accepts_all closed_database root (codes "a") two_children 10
      (close-SessionIs accepts_all new_database 9 created.session (omega arith)).1 refl
      (omega arith)

-- SQLite fails when it marks a directory, and when it commits.
abbrev no_mark : Operation → Database → Bool
no_mark mark_directory_loaded db = true
no_mark _ db = false

abbrev no_commit : Operation → Database → Bool
no_commit Types.commit_transaction db = true
no_commit _ db = false

mark_fails :
    (get_or_create_remote_dir_children no_mark accepts_all root two_children new_database).0
    ≡ err (context (database mark_directory_loaded))
unfolding get_or_create_remote_dir_children invalid_metadata decimal decimal_ℤ check_hash from_str
    is_bad_hash_char new parse_i64 to_string lifecycle_text parse_lifecycle validate_close_time
    get_directory_children_on get_inode_row insert_children materialize validate_schema_version
    kind_text ensure_inode_is_dir parse_kind validate_children_after validate_directory_inode
    validate_file_inode validate_inode validate_inode_hierarchy validate_inode_kind
    validate_inode_mtime validate_inode_name validate_inode_row validate_remote_children
    validate_stored_bool validate_stored_digest validate_symlink_inode new_node_time to_u32
    insert_by sort_by with_transaction get_or_create_body ensure_active read_stored_session create
    prepare_schema when record_version initialize_database now_seconds insert_session to_str
    insert_root_inode insert_remote_inode remote_row from_sqlite validate_session
mark_fails = refl

validate_inode_row-remote_row_example :
    validate_inode_row
      (record (remote_row (some root) (record {
        name = codes "b";
        mode = some 420;
        mtime = none;
        content = remote_file abc_digest;
      })) { id = pos 2 })
    ≡ ok (
        stored_inode (pos 2) (some root) (record {
          name = codes "b";
          mode = some 420;
          mtime = none;
          content = remote_file abc_digest;
        }))
validate_inode_row-remote_row_example =
    validate_inode_row-remote_row (pos 2) (some root)
      (record { name = codes "b"; mode = some 420; mtime = none; content = remote_file abc_digest })
      refl (refl, refl, refl)
      (record { mode_fits = refl; timed = tt; digested = (abc_digest-IsValid, omega arith) })
