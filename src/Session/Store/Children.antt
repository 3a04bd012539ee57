-- ===== src/Session/Store/Children.antt =====
-- crates/rfs-common/src/session/store.rs: what a directory's children are after they were stored.
use remotefs.Base.{◌+◌, ◌≤◌, ◌≡◌, refl, subst, some}
use remotefs.Base.{Bool, true, false, List, [], ◌++◌, map, ok}
use remotefs.Base.{arith, All, length, ==_iff}
use remotefs.Base.{nat_eq, list_eq, option_eq}
use mathlib.Core.List.{map-append}
use remotefs.Base.Int.{pos, int_eq, i64_max}
use remotefs.Base.Text.{Text}
use remotefs.Tree.Types.{directory}
use remotefs.Tree.Builder.{sort_by}
use remotefs.Session.Types.{InodeId, active}
use remotefs.Session.Store.Rows.{InodeRow, StoreInode, NewRemoteInode}
use remotefs.Session.Store.Validate.{
  validate_inode_row, validate_remote_children, ensure_inode_is_dir,
}
use remotefs.Session.Store.Validate.{validate_inode, validate_inode_hierarchy, validate_inode_kind}
use remotefs.Session.Store.Validate.{validate_directory_inode, validate_stored_bool}
use remotefs.Session.Store.Validate.{is_some_true}
use remotefs.Session.Store.Database.{Database, find, any, select, is_child_of, row_name, load_row}
use remotefs.Session.Store.Database.{with_transaction}
use remotefs.Session.Store.Operations.{get_inode_row}
use remotefs.Session.Store.Operations.{get_directory_children_on, materialize, get_or_create_body}
use remotefs.Session.Store.Operations.{get_or_create_remote_dir_children}
use remotefs.Session.Store.RemoteInode.{IsRemote}
use remotefs.Session.Store.Lifecycle.{SessionIs}
use remotefs.Session.Store.Closing.{sound, ensure_active-ok}
use remotefs.Session.Store.Tables.{has_id, Bounded, InRange}
use remotefs.Session.Store.Tables.{InRange-find, select-append, select-load_row, find-load_row}
use remotefs.Session.Store.Tables.{find-append_some, any_of_find, test_of_find, inode_name}
use remotefs.Session.Store.Tables.{try_map-Reads, sort_by-Reads}
use remotefs.Session.Store.Materialize.{new_rows, numbered, grown, insert_children-grown}
use remotefs.Session.Store.Materialize.{Known}
use remotefs.Session.Store.NewRows.{
  select-new_rows, load_row-new_rows, has_child_of_none, new_rows-Reads,
}

-- A directory of an active session that is not loaded, in a database whose identities are in order.
pub record IsUnloaded (is_uuid : Text → Bool) (parent : InodeId) (db : Database) : Type 0 where
  pub row : InodeRow
  pub stored : StoreInode
  pub session : SessionIs is_uuid active db
  pub found : find (has_id parent) db.inodes ≡ some row
  pub read : validate_inode_row row ≡ ok stored
  pub is_directory : stored.kind ≡ directory
  pub unloaded : is_some_true stored.directory_loaded ≡ false
  pub childless : select (is_child_of parent) db.inodes ≡ []
  pub bounded : Bounded db.last_rowid db.inodes

-- The database once the children are stored and the directory is marked.
unfoldable pub loaded : InodeId → List NewRemoteInode → Database → Database
loaded parent cs db =
    let db' = grown parent cs db in record db' { inodes = map (load_row parent) db'.inodes }

ensure_dir-ok : (i : StoreInode) → i.kind ≡ directory → ensure_inode_is_dir i ≡ ok tt
unfolding ensure_inode_is_dir
ensure_dir-ok i h = ground arith

validate_inode-load :
    (i : StoreInode)
    → i.kind ≡ directory
    → validate_inode i ≡ ok tt
    → validate_inode (record i { directory_loaded = some true }) ≡ ok tt
unfolding validate_inode validate_inode_hierarchy validate_inode_kind validate_directory_inode
validate_inode-load i d h = ground arith

-- A stored directory is still read after it was marked as loaded, and is loaded then.
validate_inode_row-load :
    (row : InodeRow) (i : StoreInode)
    → validate_inode_row row ≡ ok i
    → i.kind ≡ directory
    → validate_inode_row (record row { directory_loaded = some (pos 1) })
      ≡ ok (record i { directory_loaded = some true })
unfolding validate_inode_row validate_stored_bool
validate_inode_row-load row i h d = ground (arith, validate_inode-load i d)

module _ (is_uuid : Text → Bool) (parent : InodeId) (db : Database)
    (u : IsUnloaded is_uuid parent db) where
  parent-InRange : InRange db.last_rowid parent
  parent-InRange =
      subst (InRange db.last_rowid)
        ((==_iff u.row.id parent).0 (test_of_find (has_id parent) db.inodes u.row u.found))
        (InRange-find db.last_rowid parent db.inodes u.row u.bounded u.found)

  get_inode_row-ok : get_inode_row sound is_uuid parent db ≡ (ok (some u.stored), db)
  unfolding get_inode_row
  get_inode_row-ok = ground (arith, u.found, u.read)

  get_directory_children_on-none : get_directory_children_on sound is_uuid parent db ≡ (ok [], db)
  unfolding get_directory_children_on sort_by
  get_directory_children_on-none = rw (u.childless) refl

  module _ (cs : List NewRemoteInode) (valid : validate_remote_children cs ≡ ok tt)
      (remote : All IsRemote cs) where
    select-loaded :
        select (is_child_of parent) (loaded parent cs db).inodes ≡ new_rows parent db.last_rowid cs
    unfolding loaded grown
    select-loaded = rw (
      map-append,
      load_row-new_rows parent db.last_rowid cs parent-InRange,
      select-append,
      select-load_row parent parent db.inodes u.childless,
      select-new_rows,
    )

    get_directory_children_on-loaded :
        get_directory_children_on sound is_uuid parent (loaded parent cs db)
        ≡ (ok (sort_by inode_name (numbered parent db.last_rowid cs)), loaded parent cs db)
    unfolding get_directory_children_on validate_remote_children
    get_directory_children_on-loaded = rw (
      select-loaded,
      try_map-Reads (sort_by row_name (new_rows parent db.last_rowid cs))
          (sort_by inode_name (numbered parent db.last_rowid cs))
          (sort_by-Reads (new_rows parent db.last_rowid cs) (numbered parent db.last_rowid cs)
            (new_rows-Reads parent db.last_rowid [] cs parent-InRange valid remote)),
    )

    materialize-ok :
        db.last_rowid + length cs ≤ i64_max
        → materialize sound is_uuid parent cs [] db
          ≡ (ok (sort_by inode_name (numbered parent db.last_rowid cs)), loaded parent cs db)
    unfolding materialize
    materialize-ok room =
        rw
          (
            valid,
            insert_children-grown is_uuid parent cs db [] parent-found none-known
                (unfold validate_remote_children in valid) room,
          )
          (unfold loaded in rw get_directory_children_on-loaded)
      where
        parent-found : any (has_id parent) db.inodes ≡ true
        parent-found = any_of_find (has_id parent) db.inodes u.row u.found

        none-known : Known parent [] db.inodes
        none-known n h = cc (h, has_child_of_none parent n db.inodes u.childless)

    -- For an unloaded directory of an active session, valid children, room for their identities and a
    -- SQLite that does not fail, the first call stores the children with fresh identities, marks the
    -- directory as loaded, and returns the children in the order of their names.
    pub get_or_create-loaded :
        db.last_rowid + length cs ≤ i64_max
        → get_or_create_remote_dir_children sound is_uuid parent cs db
          ≡ (ok (sort_by inode_name (numbered parent db.last_rowid cs)), loaded parent cs db)
    unfolding get_or_create_remote_dir_children get_or_create_body with_transaction
    get_or_create-loaded room = rw (
      ensure_active-ok is_uuid db u.session,
      get_inode_row-ok,
      ensure_dir-ok u.stored u.is_directory,
      get_directory_children_on-none,
      u.unloaded,
      materialize-ok room,
    )

    session-loaded : SessionIs is_uuid active (loaded parent cs db)
    unfolding loaded grown
    session-loaded = record {
      row = u.session.row;
      session = u.session.session;
      stored = u.session.stored;
      valid = u.session.valid;
      tells = u.session.tells;
    }

    get_inode_row-loaded :
        get_inode_row sound is_uuid parent (loaded parent cs db)
        ≡ (ok (some (record u.stored { directory_loaded = some true })), loaded parent cs db)
    unfolding get_inode_row loaded grown
    get_inode_row-loaded = rw (
      find-load_row parent (db.inodes ++ new_rows parent db.last_rowid cs) u.row (
          find-append_some (has_id parent) db.inodes (new_rows parent db.last_rowid cs) u.row
            u.found),
      validate_inode_row-load u.row u.stored u.read u.is_directory,
    )

    -- After that first call, a call returns the same children whatever it is given, and changes
    -- nothing, when SQLite does not fail.
    pub get_or_create_again :
        (others : List NewRemoteInode)
        → get_or_create_remote_dir_children sound is_uuid parent others (loaded parent cs db)
          ≡ (ok (sort_by inode_name (numbered parent db.last_rowid cs)), loaded parent cs db)
    unfolding get_or_create_remote_dir_children get_or_create_body with_transaction
    get_or_create_again others = rw (
      ensure_active-ok is_uuid (loaded parent cs db) session-loaded,
      get_inode_row-loaded,
      ensure_dir-ok (record u.stored { directory_loaded = some true }) u.is_directory,
      get_directory_children_on-loaded,
    )
