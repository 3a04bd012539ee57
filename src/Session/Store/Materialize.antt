-- ===== src/Session/Store/Materialize.antt =====
-- crates/rfs-common/src/session/store.rs: `get_or_create_remote_dir_children` stores the children of
-- an unloaded directory once, and returns the stored ones from then on.
use remotefs.Base.{ℕ, suc, ◌+◌, ◌≤◌, ◌<◌, ◌≡◌, refl, sym, ◌∙◌, Option, some}
use remotefs.Base.{Bool, true, false, ◌&&◌, List, [], ◌∷◌, ◌++◌, ok}
use remotefs.Base.{arith, length, contains, Bool-cases, inl, inr, ◌==◌, ==_iff}
use remotefs.Base.{nat_eq, list_eq, option_eq}
use mathlib.Core.List.{append_assoc, append-nil}
use remotefs.Base.Int.{pos, int_eq, i64_max}
use remotefs.Base.Text.{Text}
use remotefs.Tree.Metadata.{is_bad_name}
use remotefs.Session.Types.{InodeId, from_sqlite}
use remotefs.Session.Store.Rows.{InodeRow, StoreInode, NewRemoteInode}
use remotefs.Session.Store.Validate.{validate_children_after, validate_inode_name}
use remotefs.Session.Store.Database.{Database, any, is_child_of}
use remotefs.Session.Store.Operations.{remote_row, insert_children, insert_remote_inode}
use remotefs.Session.Store.RemoteInode.{stored_inode}
use remotefs.Session.Store.Closing.{sound}
use remotefs.Session.Store.Tables.{any-append, has_child, has_id}

-- The rows that are written for the children, and the inodes they are read as, with identities
-- from the one after `last`.
abbrev pub new_row : InodeId → ℕ → NewRemoteInode → InodeRow
new_row parent last c = record (remote_row (some parent) c) { id = pos (suc last) }

unfoldable pub new_rows : InodeId → ℕ → List NewRemoteInode → List InodeRow
new_rows parent last [] = []
new_rows parent last (c ∷ cs) = new_row parent last c ∷ new_rows parent (suc last) cs

unfoldable pub numbered : InodeId → ℕ → List NewRemoteInode → List StoreInode
numbered parent last [] = []
numbered parent last (c ∷ cs) =
    stored_inode (pos (suc last)) (some parent) c ∷ numbered parent (suc last) cs

-- The columns of a written row that the statements look at.
pub remote_row_columns :
    (parent : Option InodeId) (c : NewRemoteInode)
    → ((remote_row parent c).parent_id ≡ parent) × ((remote_row parent c).name ≡ c.name)
unfolding remote_row
remote_row_columns parent c = ground arith

abbrev pub Known : InodeId → List Text → List InodeRow → Type 0
Known parent seen rows = (n : Text) → has_child parent n rows ≡ true → contains seen n ≡ true

-- What the list of children must meet, one at a time.
pub validate_children-cons :
    (seen : List Text) (c : NewRemoteInode) (cs : List NewRemoteInode)
    → validate_children_after seen (c ∷ cs) ≡ ok tt
    → (is_bad_name c.name ≡ false)
      × (contains seen c.name ≡ false)
      × (validate_children_after (c.name ∷ seen) cs ≡ ok tt)
unfolding validate_children_after validate_inode_name
validate_children-cons seen c cs h = ground arith

Known-append :
    (parent : InodeId) (seen : List Text) (last : ℕ) (c : NewRemoteInode) (rows : List InodeRow)
    → Known parent seen rows
    → Known parent (c.name ∷ seen) (rows ++ new_row parent last c ∷ [])
Known-append parent seen last c rows known n h = ground (
  arith,
  known n,
  any-append (λ row. is_child_of parent row && row.name == n) rows (new_row parent last c ∷ []),
  remote_row_columns (some parent) c,
  ==_iff c.name n,
  ==_iff n c.name,
)

-- The database with the rows of the children added.
unfoldable pub grown : InodeId → List NewRemoteInode → Database → Database
grown parent cs db = record db {
  inodes = db.inodes ++ new_rows parent db.last_rowid cs;
  last_rowid = db.last_rowid + length cs;
}

module _ (is_uuid : Text → Bool) (parent : InodeId) where
  insert_one :
      (db : Database) (c : NewRemoteInode)
      → any (has_id parent) db.inodes ≡ true
      → has_child parent c.name db.inodes ≡ false
      → db.last_rowid < i64_max
      → insert_remote_inode sound is_uuid (some parent) c db ≡ (
        ok (pos (suc db.last_rowid)),
        record db {
          inodes = db.inodes ++ new_row parent db.last_rowid c ∷ [];
          last_rowid = suc db.last_rowid;
        },
      )
  unfolding insert_remote_inode from_sqlite
  insert_one db c known fresh room =
      simp
        (
          (remote_row_columns (some parent) c).0,
          (remote_row_columns (some parent) c).1,
          known,
          fresh,
        )
        (ground arith)

  pub insert_children-grown :
      (cs : List NewRemoteInode) (db : Database) (seen : List Text)
      → any (has_id parent) db.inodes ≡ true
      → Known parent seen db.inodes
      → validate_children_after seen cs ≡ ok tt
      → db.last_rowid + length cs ≤ i64_max
      → insert_children sound is_uuid parent cs db ≡ (ok tt, grown parent cs db)
  unfolding insert_children grown new_rows
  insert_children-grown [] db seen known fresh valid room = λ i. (
    ok tt,
    record db {
      inodes = sym (append-nil db.inodes) i;
      last_rowid = (let e : db.last_rowid ≡ db.last_rowid + 0 = omega arith in e) i;
    },
  )
  insert_children-grown (c ∷ cs) db seen known fresh valid room =
      let (_, new, rest) = validate_children-cons seen c cs valid in
      let row = new_row parent db.last_rowid c in
      let unknown : has_child parent c.name db.inodes ≡ false =
        elim (Bool-cases (has_child parent c.name db.inodes)) [
          | inl old ↦ cc (fresh c.name old, new)
          | inr absent ↦ absent
        ] in
      let e : suc db.last_rowid + length cs ≡ db.last_rowid + suc (length cs) = omega arith in
      rw (insert_one db c known unknown (omega arith)) (
        insert_children-grown cs
          (record db { inodes = db.inodes ++ row ∷ []; last_rowid = suc db.last_rowid })
          (c.name ∷ seen) (rw any-append (rw known refl))
          (Known-append parent seen db.last_rowid c db.inodes fresh) rest (omega arith)
        ∙ λ i. (
          ok tt,
          record db {
            inodes = append_assoc db.inodes (row ∷ []) (new_rows parent (suc db.last_rowid) cs) i;
            last_rowid = e i;
          },
        ))
