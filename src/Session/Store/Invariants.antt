-- ===== src/Session/Store/Invariants.antt =====
-- crates/rfs-common/src/session/store.rs: the shape of the tables of a mounted session.
use remotefs.Base.{
  ℕ, suc, ◌≤◌, ◌≡◌, refl, subst, Bool, true, false, ◌&&◌, List, [], ◌∷◌, ◌++◌, map, some,
}
use remotefs.Base.{
  arith, All-append, length, length-append, inl, inr, Bool-cases, leb, ◌==◌, ==_iff, Option, nat_eq,
  list_eq, option_eq,
}
use remotefs.Base.Int.{ℤ, pos, negsuc, int_eq, i64_max}
use remotefs.Base.Text.{Text}
use remotefs.Session.Types.{InodeId}
use remotefs.Session.Store.Rows.{InodeRow, SessionMetadataRow}
use remotefs.Session.Store.Database.{
  Database, load_row, select, any, is_child_of, violates_constraints,
}
use remotefs.Session.Store.Tables.{Bounded, InRange, select-append}
use remotefs.Session.Store.Keeps.{IsTableInvariant}

abbrev pub is_named : InodeId → Text → InodeRow → Bool
is_named parent name row = is_child_of parent row && row.name == name

-- The session's row is this one, identities are positive and none is above the last one given
-- out, and no directory has two children of one name.
pub record IsNamespace (session : List SessionMetadataRow) (db : Database) : Type 0 where
  pub same_session : db.session_metadata ≡ session
  pub bounded : Bounded db.last_rowid db.inodes
  pub one_each :
      (parent : InodeId) (name : Text) → length (select (is_named parent name) db.inodes) ≤ 1

Bounded-wider : (last : ℕ) (rows : List InodeRow) → Bounded last rows → Bounded (suc last) rows
Bounded-wider last [] h = tt
Bounded-wider last (row ∷ rows) h = (InRange_wider row.id h.0, Bounded-wider last rows h.1)
  where
    InRange_wider : (id : ℤ) → InRange last id → InRange (suc last) id
    InRange_wider (pos n) h = ground arith
    InRange_wider (negsuc n) h = h

Bounded-load_row :
    (last : ℕ) (id : InodeId) (rows : List InodeRow)
    → Bounded last rows
    → Bounded last (map (load_row id) rows)
Bounded-load_row last id [] h = tt
Bounded-load_row last id (row ∷ rows) h = ground (arith, Bounded-load_row last id rows h.1, h.0)

length-select-load_row :
    (parent id : InodeId) (name : Text) (rows : List InodeRow)
    → length (select (is_named parent name) (map (load_row id) rows))
      ≡ length (select (is_named parent name) rows)
length-select-load_row parent id name [] = refl
length-select-load_row parent id name (row ∷ rows) =
    ground (arith, length-select-load_row parent id name rows)

select_of_none :
    (parent : InodeId) (name : Text) (rows : List InodeRow)
    → any (is_named parent name) rows ≡ false
    → select (is_named parent name) rows ≡ []
select_of_none parent name [] h = refl
select_of_none parent name (row ∷ rows) h = ground (arith, select_of_none parent name rows)

fresh_name :
    (parent : InodeId) (name : Text) (rows : List InodeRow) (row : InodeRow)
    → is_named parent name row ≡ true
    → violates_constraints row.parent_id row.name rows ≡ false
    → any (is_named parent name) rows ≡ false
fresh_name parent name rows row same fresh =
    let e = (==_iff row.parent_id (some parent)).0 (ground arith) in
    let n = (==_iff row.name name).0 (ground arith) in
    let f : violates_constraints (some parent) name rows ≡ false =
      subst (λ (p : Option ℤ). violates_constraints p name rows ≡ false) e
        (subst (λ (t : Text). violates_constraints row.parent_id t rows ≡ false) n fresh) in
    ground arith

one_each-append :
    (parent : InodeId) (name : Text) (rows : List InodeRow) (row : InodeRow)
    → length (select (is_named parent name) rows) ≤ 1
    → violates_constraints row.parent_id row.name rows ≡ false
    → length (select (is_named parent name) (rows ++ row ∷ [])) ≤ 1
one_each-append parent name rows row h fresh =
    let together = select-append (is_named parent name) rows (row ∷ []) in
    elim (Bool-cases (is_named parent name row)) [
      | inl same ↦ ground (
        arith,
        together,
        select_of_none parent name rows (fresh_name parent name rows row same fresh),
      )
      | inr other ↦ ground (arith, together, length-append (select (is_named parent name) rows) [])
    ]

pub IsNamespace-IsTableInvariant :
    (session : List SessionMetadataRow) → IsTableInvariant (IsNamespace session)
IsNamespace-IsTableInvariant session = record {
  inserted = λ row id db after e h.
      let fits : leb i64_max db.last_rowid ≡ false = ground arith in
      let fresh : violates_constraints row.parent_id row.name db.inodes ≡ false = ground arith in
      let new = record row { id = pos (suc db.last_rowid) } in
      let same : record db { inodes = db.inodes ++ new ∷ []; last_rowid = suc db.last_rowid }
          ≡ after =
        ground arith in
      subst (IsNamespace session) same (record {
        same_session = h.same_session;
        bounded =
            All-append (λ (r : InodeRow). InRange (suc db.last_rowid) r.id) db.inodes (new ∷ [])
              (Bounded-wider db.last_rowid db.inodes h.bounded) (ground arith, tt);
        one_each =
            λ parent name. one_each-append parent name db.inodes new (h.one_each parent name) fresh;
      });
  marked = λ id db h. record {
    same_session = h.same_session;
    bounded = Bounded-load_row db.last_rowid id db.inodes h.bounded;
    one_each = λ parent name.
        rw (length-select-load_row parent id name db.inodes) (h.one_each parent name);
  };
}
