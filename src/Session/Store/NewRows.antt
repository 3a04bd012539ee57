-- ===== src/Session/Store/NewRows.antt =====
-- crates/rfs-common/src/session/store.rs: the rows of new children, selected, marked and read.
use remotefs.Base.{ℕ, suc, ◌≡◌, refl, some}
use remotefs.Base.{false, List, [], ◌∷◌, map, ok}
use remotefs.Base.{arith, All, ◌==◌}
use remotefs.Base.{nat_eq, list_eq, option_eq, ==_refl}
use remotefs.Base.Int.{pos, negsuc, leb_ℤ, int_eq}
use remotefs.Base.Text.{Text}
use remotefs.Session.Types.{InodeId, root}
use remotefs.Session.Store.Rows.{InodeRow, NewRemoteInode}
use remotefs.Session.Store.Validate.{validate_children_after}
use remotefs.Session.Store.Database.{select, is_child_of, load_row}
use remotefs.Session.Store.RowRoundTrip.{validate_inode_row-remote_row}
use remotefs.Session.Store.RemoteInode.{stored_inode, IsRemote}
use remotefs.Session.Store.Tables.{has_child, Reads, InRange}
use remotefs.Session.Store.Materialize.{new_rows, numbered}
use remotefs.Session.Store.Materialize.{remote_row_columns, validate_children-cons}

InRange-facts :
    (last : ℕ) (id : InodeId)
    → InRange last id
    → InRange (suc last) id
      × (leb_ℤ id (pos 0) ≡ false)
      × ((pos (suc last) == id) ≡ false)
      × ((pos (suc last) == root) ≡ false)
InRange-facts last (pos n) h = ground arith
InRange-facts last (negsuc n) h = absurd h

module _ (parent : InodeId) where
  pub select-new_rows :
      (last : ℕ) (cs : List NewRemoteInode)
      → select (is_child_of parent) (new_rows parent last cs) ≡ new_rows parent last cs
  unfolding new_rows
  select-new_rows last [] = refl
  select-new_rows last (c ∷ cs) =
      rw (
        (remote_row_columns (some parent) c).0,
        ==_refl (some parent),
        select-new_rows (suc last) cs,
      )

  pub load_row-new_rows :
      (last : ℕ) (cs : List NewRemoteInode)
      → InRange last parent
      → map (load_row parent) (new_rows parent last cs) ≡ new_rows parent last cs
  unfolding new_rows
  load_row-new_rows last [] h = refl
  load_row-new_rows last (c ∷ cs) h = rw (
    (InRange-facts last parent h).2,
    load_row-new_rows (suc last) cs (InRange-facts last parent h).0,
  )

  pub has_child_of_none :
      (n : Text) (rows : List InodeRow)
      → select (is_child_of parent) rows ≡ []
      → has_child parent n rows ≡ false
  has_child_of_none n [] h = refl
  has_child_of_none n (row ∷ rows) h = ground (arith, has_child_of_none n rows)

  pub new_rows-Reads :
      (last : ℕ) (seen : List Text) (cs : List NewRemoteInode)
      → InRange last parent
      → validate_children_after seen cs ≡ ok tt
      → All IsRemote cs
      → Reads (new_rows parent last cs) (numbered parent last cs)
  unfolding new_rows numbered stored_inode
  new_rows-Reads last seen [] place valid remote = tt
  new_rows-Reads last seen (c ∷ cs) place valid remote =
      let (named, _, rest) = validate_children-cons seen c cs valid in
      let (wider, positive, _, child) = InRange-facts last parent place in
      (
        validate_inode_row-remote_row (pos (suc last)) (some parent) c (ground arith)
            (child, positive, named) remote.0,
        (remote_row_columns (some parent) c).1,
        new_rows-Reads (suc last) (c.name ∷ seen) cs wider rest remote.1,
      )
