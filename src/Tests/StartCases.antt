-- ===== src/Tests/StartCases.antt =====
-- crates/rfsd/src/lib.rs: a start at concrete inputs.
use remotefs.Base.{
  ◌≡◌, refl, true, false, Option, none, some, err, if◌then◌else◌, ◌==◌, nat_eq, list_eq,
}
use remotefs.Base.Text.{Text, codes}
use remotefs.Digest.{to_string}
use remotefs.Session.Retained.{flawless}
use remotefs.Daemon.Arguments.{mounting, Cli}
use remotefs.Daemon.Start.{Calls, Machine, construct_daemon}
use remotefs.Daemon.Abandon.{IsAbandoned, construct_daemon-IsAbandoned}
use remotefs.Base.Utf8.{to_str}
use remotefs.Tests.Data.{abc_digest, an_environment}
use remotefs.Digest.{from_str}
use remotefs.Digest.{check_hash}
use remotefs.Digest.{is_bad_hash_char}
use remotefs.Base.Decimal.{decimal_ℤ}
use remotefs.Digest.{parse_i64}
use remotefs.Cas.Config.{new_config}
use remotefs.Cas.Names.{validate_instance_name}
use remotefs.Cas.Names.{validate_segment}
use remotefs.Cas.Retry.{validate_retry_attempts}
use remotefs.Cas.Config.{connect}
use remotefs.Cas.Names.{endpoint_from_grpc_url}
use remotefs.Cli.Settings.{rfs_home}
use remotefs.Session.Opening.{open_session}
use remotefs.Session.Home.{validate_mountpoint}
use remotefs.Session.Opening.{open_database}
use remotefs.Session.Store.Operations.{create}
use remotefs.Session.Store.Operations.{prepare_schema}
use remotefs.Session.Store.Operations.{when}
use remotefs.Session.Store.Operations.{record_version}
use remotefs.Session.Store.Operations.{initialize_database}
use remotefs.Session.Store.Operations.{now_seconds}
use remotefs.Session.Store.Database.{with_transaction}
use remotefs.Session.Store.Operations.{insert_session}
use remotefs.Session.Store.Operations.{insert_root_inode}
use remotefs.Session.Store.Operations.{insert_remote_inode}
use remotefs.Session.Store.Operations.{remote_row}
use remotefs.Session.Types.{from_sqlite}
use remotefs.Mount.Filesystem.{new_service}
use remotefs.Mount.Filesystem.{readdir}
use remotefs.Session.Facade.{list_directory}
use remotefs.Session.Facade.{ensure_directory_loaded}
use remotefs.Session.Facade.{get_visible_inode}
use remotefs.Session.Store.Operations.{inode}
use remotefs.Session.Store.Operations.{ensure_active}
use remotefs.Session.Store.Operations.{read_stored_session}
use remotefs.Session.Store.Metadata.{validate_session}
use remotefs.Session.Store.Metadata.{invalid_metadata}
use remotefs.Session.Store.Metadata.{parse_lifecycle}
use remotefs.Session.Store.Metadata.{validate_close_time}
use remotefs.Session.Types.{to_u32}
use remotefs.Digest.{new}
use remotefs.Session.Store.Operations.{get_inode_row}
use remotefs.Session.Store.Validate.{validate_inode_row}
use remotefs.Session.Store.Validate.{parse_kind}
use remotefs.Session.Store.Validate.{validate_inode_mtime}
use remotefs.Session.Store.Validate.{validate_stored_bool}
use remotefs.Session.Store.Validate.{validate_stored_digest}
use remotefs.Session.Store.Validate.{validate_inode}
use remotefs.Session.Store.Validate.{validate_inode_hierarchy}
use remotefs.Session.Store.Validate.{validate_inode_kind}
use remotefs.Session.Store.Validate.{validate_directory_inode}
use remotefs.Session.Facade.{load_directory}
use remotefs.Session.Cache.{read_blob}
use remotefs.Session.Cache.{ensure_cached}
use remotefs.Session.Cache.{cache_contains}
use remotefs.Session.Cache.{lookup}
use remotefs.Session.Cache.{fill_cache_after_lock}
use remotefs.Session.Cache.{write_all}
use remotefs.Session.Cache.{write}
use remotefs.Session.Cache.{admit_pending_blob}
use remotefs.Session.Cache.{verify}
use remotefs.Digest.{for_bytes}
use remotefs.Session.Cache.{path}
use remotefs.Tree.Decode.{decode_directory}
use remotefs.Tree.Decode.{validate_directory}
use remotefs.Tree.Decode.{validate_sorted_names}
use remotefs.Tree.Decode.{validate_names}
use remotefs.Base.Decimal.{decimal}
use remotefs.Daemon.Arguments.{connect_cas}
use remotefs.Daemon.Start.{bind_control_socket}
use remotefs.Daemon.Start.{start_session}
use remotefs.Digest.{from_reapi}
use remotefs.Mount.Filesystem.{from_session_error}
use remotefs.Session.Cache.{read_cached_blob}
use remotefs.Session.Facade.{record_directory_read}
use remotefs.Session.Home.{acquire}
use remotefs.Session.Home.{create_empty_file}
use remotefs.Session.Home.{create_session_directory}
use remotefs.Session.Home.{ensure_writable_home}
use remotefs.Session.Home.{layout_of}
use remotefs.Session.Home.{open_cache}
use remotefs.Session.Home.{open_overlay}
use remotefs.Session.Home.{remove_if_present}
use remotefs.Session.Home.{write_record}
use remotefs.Session.Opening.{create_store}
use remotefs.Session.Opening.{open_locked}
use remotefs.Session.Projection.{decoded_directory_children}
use remotefs.Session.Projection.{directory_child}
use remotefs.Session.Projection.{file_child}
use remotefs.Session.Projection.{node_metadata}
use remotefs.Session.Projection.{project_inode}
use remotefs.Session.Projection.{remote_digest}
use remotefs.Session.Projection.{symlink_child}
use remotefs.Session.Store.Metadata.{lifecycle_text}
use remotefs.Session.Store.Operations.{get_directory_children}
use remotefs.Session.Store.Operations.{get_directory_children_on}
use remotefs.Session.Store.Operations.{get_or_create_body}
use remotefs.Session.Store.Operations.{get_or_create_remote_dir_children}
use remotefs.Session.Store.Operations.{insert_children}
use remotefs.Session.Store.Operations.{materialize}
use remotefs.Session.Store.Operations.{validate_schema_version}
use remotefs.Session.Store.Rows.{kind_text}
use remotefs.Session.Store.Validate.{ensure_inode_is_dir}
use remotefs.Session.Store.Validate.{validate_children_after}
use remotefs.Session.Store.Validate.{validate_file_inode}
use remotefs.Session.Store.Validate.{validate_inode_name}
use remotefs.Session.Store.Validate.{validate_remote_children}
use remotefs.Session.Store.Validate.{validate_symlink_inode}
use remotefs.Session.Types.{new_node_time}
use remotefs.Tree.Builder.{insert_by}
use remotefs.Tree.Builder.{sort_by}
use remotefs.Tree.Decode.{sorted_after}
use remotefs.Tree.Decode.{validate_digest}
use remotefs.Tree.Decode.{validate_directory_node}
use remotefs.Tree.Decode.{validate_file_node}
use remotefs.Tree.Decode.{validate_node_properties}
use remotefs.Tree.Decode.{validate_symlink_node}
use remotefs.Tree.Metadata.{validate_name}
use remotefs.Tree.Metadata.{validate_timestamp}
use remotefs.Upload.Paths.{join}

-- A mount that the library refuses.
abbrev some_calls : Calls
some_calls = record {
  connects = λ endpoint. true;
  is_dir = some true;
  session_id = codes "id";
  pid = 7;
  now = some 5;
  logs = true;
  joins = true;
  mounts = false;
  binds = true;
  restricts = true;
  removes = true;
}

abbrev some_variables : Text → Option Text
some_variables name =
    if name == codes "RFS_HOME"
    then some (codes "/h")
    else if name == codes "RFS_CAS_URL"
    then some (codes "grpc://h")
    else none

abbrev some_arguments : Cli
some_arguments = record {
  root_digest = to_string abc_digest;
  mountpoint = codes "/mnt";
  cas_url = none;
  instance_name = some (codes "main");
}

abbrev new_machine : Machine
new_machine = record {
  home = record {
    is_there = false;
    lock_owner = none;
    lock_record = none;
    cache = none;
    session = none;
  };
  is_mounted = false;
  has_socket = false;
}

not_mounted :
    (construct_daemon an_environment some_calls some_variables flawless some_arguments
      new_machine).0
    ≡ err mounting
unfolding construct_daemon from_str to_string check_hash is_bad_hash_char decimal_ℤ parse_i64
    new_config validate_instance_name validate_segment validate_retry_attempts connect
    endpoint_from_grpc_url rfs_home open_session validate_mountpoint open_database create
    prepare_schema when record_version initialize_database now_seconds with_transaction
    insert_session to_str insert_root_inode insert_remote_inode remote_row from_sqlite new_service
    readdir list_directory ensure_directory_loaded get_visible_inode inode ensure_active
    read_stored_session validate_session invalid_metadata parse_lifecycle validate_close_time to_u32
    new get_inode_row validate_inode_row parse_kind validate_inode_mtime validate_stored_bool
    validate_stored_digest validate_inode validate_inode_hierarchy validate_inode_kind
    validate_directory_inode load_directory read_blob ensure_cached cache_contains lookup
    fill_cache_after_lock write_all write admit_pending_blob verify for_bytes path decode_directory
    validate_directory validate_sorted_names validate_names decimal connect_cas bind_control_socket
    start_session from_reapi from_session_error read_cached_blob record_directory_read acquire
    create_empty_file create_session_directory ensure_writable_home layout_of open_cache
    open_overlay remove_if_present write_record create_store open_locked decoded_directory_children
    directory_child file_child node_metadata project_inode remote_digest symlink_child
    lifecycle_text get_directory_children get_directory_children_on get_or_create_body
    get_or_create_remote_dir_children insert_children materialize validate_schema_version kind_text
    ensure_inode_is_dir validate_children_after validate_file_inode validate_inode_name
    validate_remote_children validate_symlink_inode new_node_time insert_by sort_by sorted_after
    validate_digest validate_directory_node validate_file_node validate_node_properties
    validate_symlink_node validate_name validate_timestamp join
not_mounted = refl

construct_daemon-IsAbandoned_example :
    IsAbandoned new_machine
      (construct_daemon an_environment some_calls some_variables flawless some_arguments
        new_machine).1
construct_daemon-IsAbandoned_example =
    construct_daemon-IsAbandoned an_environment some_calls some_variables flawless some_arguments
      new_machine mounting refl refl refl not_mounted
