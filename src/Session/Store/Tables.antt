-- ===== src/Session/Store/Tables.antt =====
-- crates/rfs-common/src/session/store.rs: the SQL statements on the rows of `inodes`.
use remotefs.Base.{ℕ, ◌≤◌, ◌<◌, ◌≡◌, refl, ◌∙◌, ap₂, subst, some, Bool, true, ◌&&◌, ◌||◌}
use remotefs.Base.{List, [], ◌∷◌, ◌++◌, map, ok, try_map, arith, All}
use remotefs.Base.{Bool-cases, inl, inr, ◌==◌, nat_eq, list_eq, option_eq}
use remotefs.Base.Int.{ℤ, pos, negsuc, int_eq}
use remotefs.Base.Text.{Text, text_leb}
use remotefs.Tree.Builder.{insert_by, sort_by}
use remotefs.Session.Types.{InodeId}
use remotefs.Session.Store.Rows.{InodeRow, StoreInode}
use remotefs.Session.Store.Validate.{validate_inode_row}
use remotefs.Session.Store.Database.{find, any, select, is_child_of, row_name, load_row}

module _ {ℓ} {A : Type ℓ} (p : A → Bool) where
  pub select-append : (xs ys : List A) → select p (xs ++ ys) ≡ select p xs ++ select p ys
  select-append [] ys = refl
  select-append (x ∷ xs) ys = ground (arith, select-append xs ys)

  pub any-append : (xs ys : List A) → any p (xs ++ ys) ≡ (any p xs || any p ys)
  any-append [] ys = refl
  any-append (x ∷ xs) ys = ground (arith, any-append xs ys)

  pub find-append_some : (xs ys : List A) (a : A) → find p xs ≡ some a → find p (xs ++ ys) ≡ some a
  find-append_some [] ys a h = cc
  find-append_some (x ∷ xs) ys a h = ground (arith, find-append_some xs ys a)

  pub any_of_find : (xs : List A) (a : A) → find p xs ≡ some a → any p xs ≡ true
  any_of_find [] a h = cc
  any_of_find (x ∷ xs) a h = ground (arith, any_of_find xs a)

  pub test_of_find : (xs : List A) (a : A) → find p xs ≡ some a → p a ≡ true
  test_of_find [] a h = cc
  test_of_find (x ∷ xs) a h = ground (arith, test_of_find xs a)

-- A row of the name below the parent, which the index of names forbids twice.
abbrev pub has_child : InodeId → Text → List InodeRow → Bool
has_child parent name = any (λ row. is_child_of parent row && row.name == name)

abbrev pub has_id : InodeId → InodeRow → Bool
has_id id row = row.id == id

-- Identities are positive and at most the last one that was given out.
abbrev pub InRange : ℕ → ℤ → Type 0
InRange last (pos n) = (0 < n) × (n ≤ last)
InRange last (negsuc n) = ⊥

abbrev pub Bounded : ℕ → List InodeRow → Type 0
Bounded last = All (λ (row : InodeRow). InRange last row.id)

pub InRange-find :
    (last : ℕ) (id : InodeId) (rows : List InodeRow) (row : InodeRow)
    → Bounded last rows
    → find (has_id id) rows ≡ some row
    → InRange last row.id
InRange-find last id [] row b h = cc
InRange-find last id (r ∷ rows) row b h = elim (Bool-cases (has_id id r)) [
  | inl same ↦ let e : r ≡ row = ground arith in subst (λ (x : InodeRow). InRange last x.id) e b.0
  | inr differ ↦ InRange-find last id rows row b.1 (ground arith)
]

-- Marking a directory as loaded keeps who is whose child.
is_child_of-load_row :
    (parent id : InodeId) (row : InodeRow)
    → is_child_of parent (load_row id row) ≡ is_child_of parent row
is_child_of-load_row parent id row = elim (Bool-cases (row.id == id)) [
  | inl same ↦ rw same
  | inr differ ↦ rw differ
]

pub select-load_row :
    (parent id : InodeId) (rows : List InodeRow)
    → select (is_child_of parent) rows ≡ []
    → select (is_child_of parent) (map (load_row id) rows) ≡ []
select-load_row parent id [] h = refl
select-load_row parent id (row ∷ rows) h =
    rw (is_child_of-load_row parent id row) (ground (arith, select-load_row parent id rows))

pub find-load_row :
    (id : InodeId) (rows : List InodeRow) (row : InodeRow)
    → find (has_id id) rows ≡ some row
    → find (has_id id) (map (load_row id) rows)
      ≡ some (record row { directory_loaded = some (pos 1) })
find-load_row id [] row h = cc
find-load_row id (r ∷ rows) row h = elim (Bool-cases (has_id id r)) [
  | inl same ↦ ground arith
  | inr differ ↦ ground (arith, find-load_row id rows row)
]

-- Rows that are read into inodes of the same names, one by one.
abbrev pub Reads : List InodeRow → List StoreInode → Type 0
Reads [] [] = Unit
Reads [] (i ∷ is) = ⊥
Reads (row ∷ rows) [] = ⊥
Reads (row ∷ rows) (i ∷ is) = (validate_inode_row row ≡ ok i) × (row.name ≡ i.name) × Reads rows is

abbrev pub inode_name : StoreInode → Text
inode_name i = i.name

pub try_map-Reads :
    (rows : List InodeRow) (is : List StoreInode)
    → Reads rows is
    → try_map validate_inode_row rows ≡ ok is
try_map-Reads [] [] h = refl
try_map-Reads [] (i ∷ is) h = absurd h
try_map-Reads (row ∷ rows) [] h = absurd h
try_map-Reads (row ∷ rows) (i ∷ is) h = rw (h.0, try_map-Reads rows is h.2)

insert_by-Reads :
    (row : InodeRow) (i : StoreInode) (rows : List InodeRow) (is : List StoreInode)
    → validate_inode_row row ≡ ok i
    → row.name ≡ i.name
    → Reads rows is
    → Reads (insert_by row_name row rows) (insert_by inode_name i is)
unfolding insert_by
insert_by-Reads row i [] [] v n h = (v, n, tt)
insert_by-Reads row i [] (j ∷ is) v n h = absurd h
insert_by-Reads row i (r ∷ rows) [] v n h = absurd h
insert_by-Reads row i (r ∷ rows) (j ∷ is) v n h =
    let e : text_leb row.name r.name ≡ text_leb i.name j.name = ap₂ text_leb n h.1 in
    elim (Bool-cases (text_leb i.name j.name)) [
      | inl le ↦ rw (e ∙ le, le) (v, n, h)
      | inr gt ↦ rw (e ∙ gt, gt) (h.0, h.1, insert_by-Reads row i rows is v n h.2)
    ]

-- `ORDER BY name` before or after the rows are read is the same.
pub sort_by-Reads :
    (rows : List InodeRow) (is : List StoreInode)
    → Reads rows is
    → Reads (sort_by row_name rows) (sort_by inode_name is)
unfolding sort_by
sort_by-Reads [] [] h = tt
sort_by-Reads [] (i ∷ is) h = absurd h
sort_by-Reads (row ∷ rows) [] h = absurd h
sort_by-Reads (row ∷ rows) (i ∷ is) h =
    insert_by-Reads row i (sort_by row_name rows) (sort_by inode_name is) h.0 h.1
      (sort_by-Reads rows is h.2)
