-- ===== src/Session/Store/Keeps.antt =====
-- crates/rfs-common/src/session/store.rs: invariants of the tables that every operation for a mounted
-- session keeps. The writes are those of new inodes and of the mark of a loaded directory.
use remotefs.Base.{◌≡◌, refl, sym, subst, Option, none, some, Bool, not, List, [], ◌∷◌, map}
use remotefs.Base.{Result, ok, err, arith, inl, inr, Bool-cases, ok_or, reject_if}
use remotefs.Base.Int.{ℤ}
use remotefs.Base.Text.{Text}
use remotefs.Session.Types
use remotefs.Session.Types.{SessionError, Operation, InodeId, from_sqlite, mark_directory_loaded}
use remotefs.Session.Action.{in_context, lift}
use remotefs.Base.State.{Keeps, and_then-Keeps}
use remotefs.Session.Store.Rows.{InodeRow, StoreInode, NewRemoteInode}
use remotefs.Session.Store.Validate.{ensure_inode_is_dir}
use remotefs.Session.Store.Validate.{validate_remote_children}
use remotefs.Session.Store.Database.{
  Database, Sql, execute, executed, insert_inode_row, update_loaded, load_row,
}
use remotefs.Session.Store.Database.{with_transaction, finish}
use remotefs.Session.Store.Operations
use remotefs.Session.Store.Operations.{
  ensure_active, read_stored_session, get_inode_row, inode, child,
}
use remotefs.Session.Store.Operations.{lookup_child_in_dir_inode, get_directory_children_on}
use remotefs.Session.Store.Operations.{
  get_directory_children, insert_children, materialize, remote_row,
}
use remotefs.Session.Store.Operations.{get_or_create_body, get_or_create_remote_dir_children}
use remotefs.Session.Store.Operations.{is_empty}

module _ (fault : Operation → Database → Bool) (is_uuid : Text → Bool) (db : Database) where
  ensure_active_unchanged : (ensure_active fault is_uuid db).1 ≡ db
  unfolding ensure_active read_stored_session
  ensure_active_unchanged = ground arith

  get_inode_row_unchanged : (id : InodeId) → (get_inode_row fault is_uuid id db).1 ≡ db
  unfolding get_inode_row
  get_inode_row_unchanged id = ground arith

  get_directory_children_on_unchanged :
      (parent : InodeId) → (get_directory_children_on fault is_uuid parent db).1 ≡ db
  unfolding get_directory_children_on
  get_directory_children_on_unchanged parent = ground arith

  -- The operations that only read leave the database as it is.
  pub reads_unchanged :
      (id : InodeId) (name : Text)
      → ((inode fault is_uuid id db).1 ≡ db)
        × ((child fault is_uuid id name db).1 ≡ db)
        × ((get_directory_children fault is_uuid id db).1 ≡ db)
  unfolding inode child get_directory_children get_inode_row get_directory_children_on
      lookup_child_in_dir_inode ensure_active read_stored_session
  reads_unchanged id name = (ground arith, ground arith, ground arith)

-- A predicate that a new row keeps, and the mark of a loaded directory too.
pub record IsTableInvariant (P : Database → Type 0) : Type 0 where
  pub inserted :
      (row : InodeRow) (id : ℤ) (db after : Database)
      → insert_inode_row row db ≡ some (id, after)
      → P db
      → P after
  pub marked :
      (id : InodeId) (db : Database) → P db → P (record db { inodes = map (load_row id) db.inodes })

module _ (fault : Operation → Database → Bool) (is_uuid : Text → Bool) (P : Database → Type 0)
    (invariant : IsTableInvariant P) where
  reads-Keeps : {A : Type 0} (m : Sql A) → ((db : Database) → (m db).1 ≡ db) → Keeps P m
  reads-Keeps m same db h = subst P (sym (same db)) h

  finish-Keeps :
      {A : Type 0} (r : Result SessionError A) (before after : Database)
      → P before
      → P after
      → P (finish fault r before after).1
  finish-Keeps (ok a) before after hb ha = ground (arith, hb, ha)
  finish-Keeps (err e) before after hb ha = hb

  with_transaction-Keeps : {A : Type 0} (m : Sql A) → Keeps P m → Keeps P (with_transaction fault m)
  unfolding with_transaction
  with_transaction-Keeps m k db h = elim (Bool-cases (fault Types.begin_transaction db)) [
    | inl broken ↦ rw broken h
    | inr sound ↦ rw sound (finish-Keeps (m db).0 db (m db).1 h (k db h))
  ]

  executed-Keeps :
      {A : Type 0} (o : Operation) (r : Option (A × Database)) (db : Database)
      → P db
      → ((a : A) (after : Database) → r ≡ some (a, after) → P after)
      → P (executed o r db).1
  executed-Keeps o none db h k = h
  executed-Keeps o (some (a, after)) db h k = k a after refl

  execute-Keeps :
      {A : Type 0} (o : Operation) (statement : Database → Option (A × Database))
      → ((db after : Database) (a : A) → statement db ≡ some (a, after) → P db → P after)
      → Keeps P (execute fault o statement)
  execute-Keeps o statement k db h = elim (Bool-cases (fault o db)) [
    | inl broken ↦ rw broken h
    | inr sound ↦ rw sound (executed-Keeps o (statement db) db h (λ a after e. k db after a e h))
  ]

  insert_remote_inode-Keeps :
      (parent : Option InodeId) (new : NewRemoteInode)
      → Keeps P (Operations.insert_remote_inode fault is_uuid parent new)
  unfolding Operations.insert_remote_inode
  insert_remote_inode-Keeps parent new =
      and_then-Keeps
        (execute fault Types.insert_remote_inode (insert_inode_row (remote_row parent new)))
        (λ rowid. lift (from_sqlite rowid))
        (execute-Keeps Types.insert_remote_inode (insert_inode_row (remote_row parent new))
          (λ db after id e h. invariant.inserted (remote_row parent new) id db after e h))
        (λ rowid db h. h)

  insert_children-Keeps :
      (parent : InodeId) (children : List NewRemoteInode)
      → Keeps P (insert_children fault is_uuid parent children)
  unfolding insert_children
  insert_children-Keeps parent [] = λ db h. h
  insert_children-Keeps parent (c ∷ cs) =
      and_then-Keeps (in_context (Operations.insert_remote_inode fault is_uuid (some parent) c))
        (λ id. insert_children fault is_uuid parent cs) (insert_remote_inode-Keeps (some parent) c)
        (λ id. insert_children-Keeps parent cs)

  mark-Keeps :
      (parent : InodeId) → Keeps P (execute fault mark_directory_loaded (update_loaded parent))
  mark-Keeps parent = execute-Keeps mark_directory_loaded (update_loaded parent) (λ db after a e h.
      let same : record db { inodes = map (load_row parent) db.inodes } ≡ after = ground arith in
      subst P same (invariant.marked parent db h))

  listing-Keeps :
      (parent : InodeId) → Keeps P (in_context (get_directory_children_on fault is_uuid parent))
  listing-Keeps parent =
      reads-Keeps (in_context (get_directory_children_on fault is_uuid parent))
        (λ db. get_directory_children_on_unchanged fault is_uuid db parent)

  materialize-Keeps :
      (parent : InodeId) (children : List NewRemoteInode) (stored : List StoreInode)
      → Keeps P (materialize fault is_uuid parent children stored)
  unfolding materialize
  materialize-Keeps parent children stored =
      and_then-Keeps (lift (reject_if (not (is_empty stored)) Types.internal_error)) _ (λ db h. h)
        λ _.
          and_then-Keeps (in_context (lift (validate_remote_children children))) _ (λ db h. h)
            λ _.
              and_then-Keeps (insert_children fault is_uuid parent children) _
                (insert_children-Keeps parent children)
                λ _.
                  and_then-Keeps (execute fault mark_directory_loaded (update_loaded parent)) _
                    (mark-Keeps parent) λ _. listing-Keeps parent

  get_or_create_body-Keeps :
      (parent : InodeId) (children : List NewRemoteInode)
      → Keeps P (get_or_create_body fault is_uuid parent children)
  unfolding get_or_create_body
  get_or_create_body-Keeps parent children =
      and_then-Keeps (in_context (ensure_active fault is_uuid)) _
        (reads-Keeps (in_context (ensure_active fault is_uuid))
          (ensure_active_unchanged fault is_uuid))
        λ _.
          and_then-Keeps (in_context (get_inode_row fault is_uuid parent)) _
            (reads-Keeps (in_context (get_inode_row fault is_uuid parent))
              (λ db. get_inode_row_unchanged fault is_uuid db parent))
            λ found.
              and_then-Keeps (lift (ok_or Types.internal_error found)) _ (λ db h. h)
                λ parent_inode.
                  and_then-Keeps (in_context (lift (ensure_inode_is_dir parent_inode))) _
                    (λ db h. h)
                    λ _.
                      and_then-Keeps (in_context (get_directory_children_on fault is_uuid parent)) _
                        (listing-Keeps parent)
                        λ stored.
                          λ db h. ground (arith, materialize-Keeps parent children stored db h, h)

  -- Storing the children of a directory keeps every such predicate, also when it fails.
  pub get_or_create-Keeps :
      (parent : InodeId) (children : List NewRemoteInode)
      → Keeps P (get_or_create_remote_dir_children fault is_uuid parent children)
  unfolding get_or_create_remote_dir_children
  get_or_create-Keeps parent children =
      with_transaction-Keeps (get_or_create_body fault is_uuid parent children)
        (get_or_create_body-Keeps parent children)
