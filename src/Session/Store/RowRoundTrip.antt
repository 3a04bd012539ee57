-- ===== src/Session/Store/RowRoundTrip.antt =====
-- crates/rfs-common/src/session/store.rs: a row that `insert_remote_inode` writes is read back as
-- the inode that it was made from.
use mathlib.Core.Option
use remotefs.Base.{ℕ, ◌^◌, ◌≡◌, refl, Option, none, some, true, false, ok}
use remotefs.Base.{ok_or, transpose, arith, ltb, nat_eq, list_eq}
use remotefs.Base.Int.{pos, leb_ℤ, InI64, int_eq}
use remotefs.Base.Text.{Text}
use remotefs.Digest.{Digest, to_string}
use remotefs.Digest.Validity.{IsValid}
use remotefs.Digest.Display.{from_str-to_string}
use remotefs.Tree.Types.{NodeKind, file, directory, symlink}
use remotefs.Session.Types.{
  internal_error, InodeId, root, from_sqlite, NodeTime, new_node_time, to_u32,
}
use remotefs.Session.Store.Rows.{RemoteContent, NewRemoteInode, kind_text}
use remotefs.Session.Store.Rows.{remote_file, remote_directory, remote_symlink}
use remotefs.Session.Store.Validate.{bad_mode, validate_inode_row, parse_kind, validate_inode_mtime}
use remotefs.Session.Store.Validate.{validate_stored_bool, validate_stored_digest, validate_inode}
use remotefs.Session.Store.Validate.{
  validate_inode_hierarchy, validate_inode_kind, validate_inode_name,
}
use remotefs.Session.Store.Validate.{validate_file_inode, validate_symlink_inode}
use remotefs.Session.Store.Validate.{validate_directory_inode}
use remotefs.Session.Store.Operations.{remote_row}
use remotefs.Session.Store.RemoteInode.{
  file_digest, directory_digest, stored_inode, HasDigest, IsTime, IsRemote, IsPlaced,
}

parse_kind-kind_text : (k : NodeKind) → parse_kind (kind_text k) ≡ ok k
unfolding parse_kind
parse_kind-kind_text file = refl
parse_kind-kind_text directory = refl
parse_kind-kind_text symlink = refl

stored_digest :
    (d : Digest)
    → IsValid d
    → InI64 d.size_bytes
    → validate_stored_digest (some (to_string d)) ≡ ok (some d)
unfolding validate_stored_digest
stored_digest d v r = rw (from_str-to_string d v r)

mode_read :
    (m : Option ℕ)
    → bad_mode m ≡ false
    → transpose (λ x. ok_or internal_error (to_u32 x)) (Option.map pos m) ≡ ok m
unfolding to_u32
mode_read none h = refl
mode_read (some m) h = ground arith

time_read :
    (t : Option NodeTime)
    → IsTime t
    → validate_inode_mtime
        (Option.map (λ (x : NodeTime). x.seconds) t)
        (Option.map (λ (x : NodeTime). pos x.nanos) t)
      ≡ ok t
unfolding validate_inode_mtime to_u32
time_read none h = refl
time_read (some t) h = rw (small t h, h)
  where
    small : (t : NodeTime) → IsTime (some t) → ltb t.nanos (2 ^ 32) ≡ true
    small t h = unfold new_node_time in ground arith

from_sqlite_ok : (id : InodeId) → leb_ℤ id (pos 0) ≡ false → from_sqlite id ≡ ok id
unfolding from_sqlite
from_sqlite_ok id h = rw h

parent_read :
    (parent : Option InodeId) (id : InodeId) (new : NewRemoteInode)
    → IsPlaced id parent new
    → transpose from_sqlite parent ≡ ok parent
unfolding from_sqlite
parent_read none id new h = refl
parent_read (some p) id new h = rw (h.1)

hierarchy-ok :
    (id : InodeId) (parent : Option InodeId) (new : NewRemoteInode)
    → IsPlaced id parent new
    → validate_inode_hierarchy (stored_inode id parent new) ≡ ok tt
unfolding validate_inode_hierarchy validate_inode_name stored_inode
hierarchy-ok id none new h = ground (arith, int_eq.equals_iff id root)
hierarchy-ok id (some p) new h = ground arith

kind-ok :
    (id : InodeId) (parent : Option InodeId) (new : NewRemoteInode)
    → validate_inode_kind (stored_inode id parent new) ≡ ok tt
unfolding validate_inode_kind validate_file_inode validate_symlink_inode validate_directory_inode
    stored_inode
kind-ok id parent new = ground arith

-- The three columns that hold content.
content_read :
    (content : RemoteContent)
    → HasDigest content
    → (validate_stored_digest (Option.map to_string (file_digest content))
        ≡ ok (file_digest content))
      × (validate_stored_digest (Option.map to_string (directory_digest content))
          ≡ ok (directory_digest content))
unfolding validate_stored_digest
content_read (remote_file d) h = (rw (from_str-to_string d h.0 h.1), refl)
content_read (remote_directory d) h = (refl, rw (from_str-to_string d h.0 h.1))
content_read (remote_symlink t) h = (refl, refl)

inode_ok :
    (id : InodeId) (parent : Option InodeId) (new : NewRemoteInode)
    → IsPlaced id parent new
    → IsRemote new
    → validate_inode (stored_inode id parent new) ≡ ok tt
unfolding validate_inode stored_inode
inode_ok id parent new place h =
    rw (h.mode_fits, hierarchy-ok id parent new place, kind-ok id parent new)

row_read :
    (id : InodeId) (parent : Option InodeId) (name : Text) (mode : Option ℕ)
    (mtime : Option NodeTime) (content : RemoteContent)
    → leb_ℤ id (pos 0) ≡ false
    → let new : NewRemoteInode = record {
      name = name;
      mode = mode;
      mtime = mtime;
      content = content;
    } in
      IsPlaced id parent new
      → IsRemote new
      → validate_inode_row (record (remote_row parent new) { id = id })
        ≡ ok (stored_inode id parent new)
unfolding validate_inode_row remote_row validate_stored_bool stored_inode validate_stored_digest
row_read id parent name mode mtime (remote_file d) positive place h =
    let new : NewRemoteInode = record {
      name = name;
      mode = mode;
      mtime = mtime;
      content = remote_file d;
    } in
    rw (
      from_sqlite_ok id positive,
      parent_read parent id new place,
      parse_kind-kind_text file,
      mode_read mode h.mode_fits,
      time_read mtime h.timed,
      (content_read (remote_file d) h.digested).0,
      inode_ok id parent new place h,
    )
row_read id parent name mode mtime (remote_directory d) positive place h =
    let new : NewRemoteInode = record {
      name = name;
      mode = mode;
      mtime = mtime;
      content = remote_directory d;
    } in
    rw (
      from_sqlite_ok id positive,
      parent_read parent id new place,
      parse_kind-kind_text directory,
      mode_read mode h.mode_fits,
      time_read mtime h.timed,
      (content_read (remote_directory d) h.digested).1,
      inode_ok id parent new place h,
    )
row_read id parent name mode mtime (remote_symlink target) positive place h =
    let new : NewRemoteInode = record {
      name = name;
      mode = mode;
      mtime = mtime;
      content = remote_symlink target;
    } in
    rw (
      from_sqlite_ok id positive,
      parent_read parent id new place,
      parse_kind-kind_text symlink,
      mode_read mode h.mode_fits,
      time_read mtime h.timed,
      inode_ok id parent new place h,
    )

-- The row that is written for a remote node, with a positive identity in it, is validated and read as
-- that node: not deleted, clean, backed by its digest, with its name, mode and time. The node has a
-- mode, a time and a digest in range, and a name and a parent, or none if it is the root directory.
pub validate_inode_row-remote_row :
    (id : InodeId) (parent : Option InodeId) (new : NewRemoteInode)
    → leb_ℤ id (pos 0) ≡ false
    → IsPlaced id parent new
    → IsRemote new
    → validate_inode_row (record (remote_row parent new) { id = id })
      ≡ ok (stored_inode id parent new)
validate_inode_row-remote_row id parent new positive place h =
    row_read id parent new.name new.mode new.mtime new.content positive place h
