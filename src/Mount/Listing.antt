-- ===== src/Mount/Listing.antt =====
-- crates/rfsd/src/fuse.rs: a listing that is read in pages, each from the offset that the last entry
-- of the page before it carries.
use remotefs.Base.{ℕ, suc, ◌+◌, ◌<◌, ◌≡◌, refl, sym, ◌∙◌, Bool, List, [], ◌∷◌, ◌++◌}
use remotefs.Base.{ok, map_ok, arith, length, drop, ok_injective}
use remotefs.Base.{Bool-cases, inl, inr}
use remotefs.Base.State.{and_then-eq-ok}
use remotefs.Base.Int.{pos, i64_max}
use mathlib.Core.List.{append_assoc}
use remotefs.Session.Projection.{Inode}
use remotefs.Session.Facade.{Session, Environment}
use remotefs.Mount.Filesystem.{with_error, lift, readdir}
use remotefs.Mount.Fuse.{
  errno_for_error, node, require_directory, Entry, entries_of, all_entries, directory_entries,
}
use remotefs.Mount.Serve.{add_entries}

entries_of-numbered :
    (index : ℕ) (children : List Inode) (before : List Entry) (e : Entry) (rest : List Entry)
    → entries_of index children ≡ before ++ e ∷ rest
    → index + length before < i64_max
    → e.next_offset ≡ suc (index + length before)
entries_of-numbered index [] [] e rest h fits = ground arith
entries_of-numbered index [] (b ∷ before) e rest h fits = ground arith
entries_of-numbered index (c ∷ cs) [] e rest h fits = ground arith
entries_of-numbered index (c ∷ cs) (b ∷ before) e rest h fits =
    ground (arith, entries_of-numbered (index + 1) cs before e rest)

all_entries-numbered :
    (inode : ℕ) (node : Inode) (children : List Inode) (before : List Entry) (e : Entry)
    (rest : List Entry)
    → all_entries inode node children ≡ before ++ e ∷ rest
    → length before < i64_max
    → e.next_offset ≡ suc (length before)
unfolding all_entries
all_entries-numbered inode node children [] e rest h fits = ground arith
all_entries-numbered inode node children (a ∷ []) e rest h fits = ground arith
all_entries-numbered inode node children (a ∷ b ∷ before) e rest h fits =
    ground (arith, entries_of-numbered 2 children before e rest)

drop_after :
    (before : List Entry) (e : Entry) (rest : List Entry)
    → drop (suc (length before)) (before ++ e ∷ rest) ≡ rest
drop_after [] e rest = refl
drop_after (b ∷ before) e rest = drop_after before e rest

module _ (env : Environment) (inode : ℕ) (s : Session) where
  directory_entries_lem :
      (k : ℕ)
      → directory_entries env inode (pos k) s ≡ (
        map_ok (drop k) (directory_entries env inode (pos 0) s).0,
        (directory_entries env inode (pos 0) s).1,
      )
  unfolding directory_entries
  directory_entries_lem k = ground arith

  listing :
      (es : List Entry)
      → (directory_entries env inode (pos 0) s).0 ≡ ok es
      → (n : Inode) × (children : List Inode) × (es ≡ all_entries inode n children)
  unfolding directory_entries
  listing es h =
      let (n, _, r1) = and_then-eq-ok (node env inode s).0 _ _ h in
      let (_, _, r2) = and_then-eq-ok (require_directory n.kind) _ _ r1 in
      let read = with_error errno_for_error (readdir env n.inode) (node env inode s).1 in
      let (children, _, r3) =
        and_then-eq-ok read.0 (λ (cs : List Inode). lift (ok (all_entries inode n cs))) read.1 r2 in
      (n, children, sym (ok_injective r3))

  -- The listing from the `next_offset` of an entry, in the same session, holds exactly the entries
  -- that follow it in the listing from 0, when fewer than `i64::MAX` entries stand before it.
  pub directory_entries-resume :
      (before : List Entry) (e : Entry) (rest : List Entry)
      → (directory_entries env inode (pos 0) s).0 ≡ ok (before ++ e ∷ rest)
      → length before < i64_max
      → (directory_entries env inode (pos e.next_offset) s).0 ≡ ok rest
  directory_entries-resume before e rest h fits =
      let (n, children, same) = listing (before ++ e ∷ rest) h in
      rw (
        all_entries-numbered inode n children before e rest (sym same) fits,
        directory_entries_lem (suc (length before)),
        h,
        drop_after before e rest,
      )

-- A reply's buffer, whatever it has room for, takes a first part of the entries, in their order.
add_entries-prefix :
    (has_room : List Entry → Entry → Bool) (added es : List Entry)
    → (rest : List Entry) × (added ++ es ≡ add_entries has_room added es ++ rest)
unfolding add_entries
add_entries-prefix has_room added [] = ([], refl)
add_entries-prefix has_room added (e ∷ es) =
    let (rest, h) = add_entries-prefix has_room (added ++ e ∷ []) es in
    elim (Bool-cases (has_room added e)) [
      | inl room ↦ (rest, rw room (sym (append_assoc added (e ∷ []) es) ∙ h))
      | inr full ↦ (e ∷ es, rw full refl)
    ]
