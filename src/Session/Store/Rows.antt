-- ===== src/Session/Store/Rows.antt =====
-- crates/rfs-common/src/session/store.rs, schema.sql: the rows as SQLite holds them, and the values
-- that the store reads them into.
use remotefs.Base.{ℕ, Option, Bool}
use remotefs.Base.Int.{ℤ}
use remotefs.Base.Text.{Text, codes}
use remotefs.Digest.{Digest}
use remotefs.Tree.Types.{NodeKind, file, directory, symlink}
use remotefs.Session.Types.{InodeId, NodeTime, SessionLifecycle}

pub record InodeRow : Type 0 where
  pub id : ℤ
  pub parent_id : Option ℤ
  pub name : Text
  pub kind : Text
  pub mode : Option ℤ
  pub mtime_seconds : Option ℤ
  pub mtime_nanos : Option ℤ
  pub tombstone : ℤ
  pub file_remote_digest : Option Text
  pub file_overlay_path : Option Text
  pub file_content_dirty : Option ℤ
  pub symlink_target : Option Text
  pub directory_remote_digest : Option Text
  pub directory_loaded : Option ℤ

-- `store::Inode`
pub record StoreInode : Type 0 where
  pub id : InodeId
  pub parent : Option InodeId
  pub name : Text
  pub kind : NodeKind
  pub mode : Option ℕ
  pub mtime : Option NodeTime
  pub tombstone : Bool
  pub file_remote_digest : Option Digest
  pub file_overlay_path : Option Text
  pub file_content_dirty : Option Bool
  pub symlink_target : Option Text
  pub directory_remote_digest : Option Digest
  pub directory_loaded : Option Bool

pub data RemoteContent : Type 0 where
  remote_file remote_directory : Digest → RemoteContent
  remote_symlink : Text → RemoteContent

pub record NewRemoteInode : Type 0 where
  pub name : Text
  pub mode : Option ℕ
  pub mtime : Option NodeTime
  pub content : RemoteContent

pub record SessionMetadataRow : Type 0 where
  pub singleton : ℤ
  pub session_id : Text
  pub daemon_pid : ℤ
  pub lifecycle : Text
  pub root_digest_hash : Text
  pub root_digest_size : ℤ
  pub mountpoint : Text
  pub created_at_seconds : ℤ
  pub closed_at_seconds : Option ℤ
  pub log_level : Text
  pub log_format : Text

pub record SessionMetadata : Type 0 where
  pub daemon_pid : ℕ
  pub lifecycle : SessionLifecycle
  pub root_digest : Digest
  pub mountpoint : Text

unfoldable pub kind_text : NodeKind → Text
kind_text file = codes "file"
kind_text directory = codes "directory"
kind_text symlink = codes "symlink"
