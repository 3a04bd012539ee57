-- ===== src/Session/Types.antt =====
-- crates/rfs-common/src/session.rs: identities, times, lifecycle and errors. The text of a reason or
-- of a context is not kept.
use remotefs.Base.{ℕ, ◌^◌, Option, none, some, ◌&&◌, Result, ok, err}
use remotefs.Base.{leb, ltb, if◌then◌else◌, ◌==◌, nat_eq}
use remotefs.Base.Int.{ℤ, pos, negsuc, leb_ℤ, i64_max, int_eq}
use remotefs.Tree.Types.{min_timestamp_seconds, max_timestamp_seconds}

-- The labels under which SQLite's failures are reported.
pub data Operation : Type 0 where
  read_schema_version create_schema record_schema_version : Operation
  read_session_metadata insert_session_metadata mark_session_closed : Operation
  get_inode_by_id lookup_child_by_name list_children : Operation
  insert_remote_inode mark_directory_loaded : Operation
  begin_transaction commit_transaction : Operation
  open_connection set_busy_timeout set_journal_mode enable_foreign_keys : Operation

pub data SessionError : Type 0 where
  internal_error failed_precondition not_found not_directory is_directory : SessionError
  database : Operation → SessionError
  context : SessionError → SessionError

-- The positive `i64` of an inode.
abbrev pub InodeId : Type 0
InodeId = ℤ

abbrev pub root : InodeId
root = pos 1

-- `InodeId::new`, of a `u64`.
unfoldable pub new_inode_id : ℕ → Result SessionError InodeId
new_inode_id value =
    if leb value i64_max
    then (if value == 0 then err internal_error else ok (pos value))
    else err internal_error

-- `InodeId::get`; the source panics on a negative identity, which no constructor lets through.
unfoldable pub get : InodeId → ℕ
get (pos value) = value
get (negsuc value) = 0

unfoldable pub from_sqlite : ℤ → Result SessionError InodeId
from_sqlite value = if leb_ℤ value (pos 0) then err internal_error else ok value

pub record NodeTime : Type 0 where
  pub seconds : ℤ
  pub nanos : ℕ

abbrev pub unix_epoch : NodeTime
unix_epoch = record { seconds = pos 0; nanos = 0 }

-- `NodeTime::new`
unfoldable pub new_node_time : ℤ → ℕ → Option NodeTime
new_node_time seconds nanos =
    if leb_ℤ min_timestamp_seconds seconds
      && leb_ℤ seconds max_timestamp_seconds
      && ltb nanos 1_000_000_000
    then some (record { seconds = seconds; nanos = nanos })
    else none

pub data SessionLifecycle : Type 0 where
  initializing active closed : SessionLifecycle

-- `u32::try_from` of a signed number.
unfoldable pub to_u32 : ℤ → Option ℕ
to_u32 (pos n) = if ltb n (2 ^ 32) then some n else none
to_u32 (negsuc n) = none
