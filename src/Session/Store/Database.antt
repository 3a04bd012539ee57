-- ===== src/Session/Store/Database.antt =====
-- crates/rfs-common/src/session/store.rs, schema.sql: the database of a session and the SQL
-- statements on it. A statement is a function on the tables, with the constraints of the schema.
-- SQLite's own failures (I/O, a busy database) are the argument `fault`.
use remotefs.Base.{ℕ, suc, Option, none, some, Bool, false, not, ◌&&◌, ◌||◌, List, [], ◌∷◌}
use remotefs.Base.{◌++◌, map, Result, ok, err, leb, if◌then◌else◌, ◌==◌, nat_eq, list_eq, option_eq}
use remotefs.Base.Int.{ℤ, pos, i64_max, int_eq}
use remotefs.Base.Text.{Text}
use remotefs.Tree.Builder.{sort_by}
use remotefs.Session.Types.{SessionError, Operation, database, context, begin_transaction}
use remotefs.Session.Types.{commit_transaction, InodeId, closed}
use remotefs.Session.Action.{Action}
use remotefs.Session.Store.Rows.{InodeRow, SessionMetadataRow}
use remotefs.Session.Store.Metadata.{lifecycle_text}

-- `last_rowid` is the row of `sqlite_sequence` that AUTOINCREMENT keeps.
pub record Database : Type 0 where
  pub user_version : ℤ
  pub session_metadata : List SessionMetadataRow
  pub inodes : List InodeRow
  pub last_rowid : ℕ

-- A new database file.
abbrev pub empty_database : Database
empty_database = record { user_version = pos 0; session_metadata = []; inodes = []; last_rowid = 0 }

abbrev pub find {ℓ} : {A : Type ℓ} → (A → Bool) → List A → Option A
find p [] = none
find p (x ∷ xs) = if p x then some x else find p xs

abbrev pub any {ℓ} : {A : Type ℓ} → (A → Bool) → List A → Bool
any p [] = false
any p (x ∷ xs) = p x || any p xs

abbrev pub select {ℓ} : {A : Type ℓ} → (A → Bool) → List A → List A
select p [] = []
select p (x ∷ xs) = let rest = select p xs in if p x then x ∷ rest else rest

-- Code that runs on a connection.
abbrev pub Sql : Type 0 → Type 0
Sql = Action Database

module _ {A : Type 0} where
  abbrev pub executed :
      Operation → Option (A × Database) → Database → Result SessionError A × Database
  executed operation none db = (err (database operation), db)
  executed operation (some (a, db')) db = (ok a, db')

module _ (fault : Operation → Database → Bool) {A : Type 0} where
  -- One statement: SQLite may fail, or a constraint of the schema does.
  abbrev pub execute : Operation → (Database → Option (A × Database)) → Sql A
  execute operation statement db =
      if fault operation db
      then (err (database operation), db)
      else executed operation (statement db) db

-- `SELECT … FROM session_metadata WHERE singleton = 1`
abbrev pub select_session : Database → Option SessionMetadataRow
select_session db = find (λ row. row.singleton == pos 1) db.session_metadata

-- `INSERT INTO session_metadata`, whose key is `singleton`.
abbrev pub insert_session_row : SessionMetadataRow → Database → Option (Unit {0} × Database)
insert_session_row row db =
    if any (λ r. r.singleton == row.singleton) db.session_metadata
    then none
    else some (tt, record db { session_metadata = db.session_metadata ++ row ∷ [] })

abbrev pub close_row : ℤ → SessionMetadataRow → SessionMetadataRow
close_row seconds row =
    if row.singleton == pos 1
    then record row { lifecycle = lifecycle_text closed; closed_at_seconds = some seconds }
    else row

-- `UPDATE session_metadata SET lifecycle = 'closed', closed_at_seconds = ?1 WHERE singleton = 1`
abbrev pub update_closed : ℤ → Database → Option (Unit {0} × Database)
update_closed seconds db =
    some (tt, record db { session_metadata = map (close_row seconds) db.session_metadata })

-- `SELECT … FROM inodes WHERE id = ?1`
abbrev pub select_by_id : InodeId → Database → Option InodeRow
select_by_id id db = find (λ row. row.id == id) db.inodes

abbrev pub is_child_of : InodeId → InodeRow → Bool
is_child_of parent row = row.parent_id == some parent

-- `SELECT … FROM inodes WHERE parent_id = ?1 AND name = ?2`
abbrev pub select_child : InodeId → Text → Database → Option InodeRow
select_child parent name db = find (λ row. is_child_of parent row && row.name == name) db.inodes

abbrev pub row_name : InodeRow → Text
row_name row = row.name

-- `SELECT … FROM inodes WHERE parent_id = ?1 ORDER BY name`
abbrev pub select_children : InodeId → Database → List InodeRow
select_children parent db = sort_by row_name (select (is_child_of parent) db.inodes)

-- The constraints of the table `inodes`: the parent is a row, and has no other child of the name.
-- A parent of NULL meets both.
abbrev pub violates_constraints : Option ℤ → Text → List InodeRow → Bool
violates_constraints none name rows = false
violates_constraints (some parent) name rows =
    not (any (λ row. row.id == parent) rows)
    || any (λ row. is_child_of parent row && row.name == name) rows

-- `INSERT INTO inodes`, with the identity that AUTOINCREMENT chooses in place of that of `row`.
abbrev pub insert_inode_row : InodeRow → Database → Option (ℤ × Database)
insert_inode_row row db =
    if leb i64_max db.last_rowid || violates_constraints row.parent_id row.name db.inodes
    then none
    else some (
      pos (suc db.last_rowid),
      record db {
        inodes = db.inodes ++ record row { id = pos (suc db.last_rowid) } ∷ [];
        last_rowid = suc db.last_rowid;
      },
    )

abbrev pub load_row : InodeId → InodeRow → InodeRow
load_row id row = if row.id == id then record row { directory_loaded = some (pos 1) } else row

-- `UPDATE inodes SET directory_loaded = 1 WHERE id = ?1`
abbrev pub update_loaded : InodeId → Database → Option (Unit {0} × Database)
update_loaded id db = some (tt, record db { inodes = map (load_row id) db.inodes })

module _ (fault : Operation → Database → Bool) {A : Type 0} where
  abbrev pub finish : Result SessionError A → Database → Database → Result SessionError A × Database
  finish (err e) before after = (err (context e), before)
  finish (ok a) before after =
      if fault commit_transaction after
      then (err (database commit_transaction), before)
      else (ok a, after)

  -- `with_transaction`: the body's writes are kept if it returns and the commit succeeds. A
  -- transaction that is dropped is rolled back.
  unfoldable pub with_transaction : Sql A → Sql A
  with_transaction body db =
      if fault begin_transaction db
      then (err (database begin_transaction), db)
      else finish (body db).0 db (body db).1
