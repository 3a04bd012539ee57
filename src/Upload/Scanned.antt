-- ===== src/Upload/Scanned.antt =====
-- crates/rfs-common/src/upload.rs: the scanned tree is complete, and lists its directories the deepest
-- first.
use remotefs.Base.{◌≡◌, ◌≤◌, subst, true, false, List, [], ◌∷◌, ◌++◌, map, arith, All}
use remotefs.Base.{ok, >>=-eq-ok, ok_injective, contains, nat_eq, list_eq, Bool-cases, inl, inr}
use mathlib.Core.List.{map-append}
use native.Mathlib.Nat.{le_trans}
use remotefs.Base.Text.{Text}
use remotefs.Upload.Types.{UploadOptions, RelativePath, LocalDirectory, LocalTree, validate_options}
use remotefs.Upload.Paths.{path_depth, directory_leb, insert_with, sort_with}
use remotefs.Upload.Scan.{
  Node, ScanState, new_scan, push_directory, check_root, scan_directory, arranged,
  scan_local_directory_with_options,
}
use remotefs.Upload.Members.{contains-append_last, sort_with-Within, sort_with-All, All-map}
use remotefs.Upload.Recording.{push_directory-Listed, scan_directory-Records}
use remotefs.Upload.Listing.{
  directory_path, file_path, AreListed, directory_paths, file_paths, Grows, Listed, AreListed-Grows,
}

abbrev pub IsAbove : LocalDirectory → LocalDirectory → Type 0
IsAbove d e = path_depth e.relative_path ≤ path_depth d.relative_path

-- No directory is listed before a deeper one.
abbrev pub IsDeepestFirst : List LocalDirectory → Type 0
IsDeepestFirst [] = Unit
IsDeepestFirst (d ∷ ds) = All (IsAbove d) ds × IsDeepestFirst ds

-- The tree lists the root, and every file and directory that is an entry of a listed directory. A
-- directory is one level below the one that it is an entry of, and is listed before it.
pub record IsScanned (tree : LocalTree) : Type 0 where
  pub has_root : contains (map directory_path tree.directories) [] ≡ true
  pub has_entries :
      All
        (AreListed (map directory_path tree.directories) (map file_path tree.files))
        tree.directories
  pub deepest_first : IsDeepestFirst tree.directories

leb-IsAbove : (d e : LocalDirectory) → directory_leb d e ≡ true → IsAbove d e
unfolding directory_leb
leb-IsAbove d e h = ground arith

not_leb_below : (d e : LocalDirectory) → directory_leb d e ≡ false → IsAbove e d
unfolding directory_leb
not_leb_below d e h = ground arith

All-IsAbove-trans :
    (d e : LocalDirectory) (l : List LocalDirectory)
    → IsAbove d e
    → All (IsAbove e) l
    → All (IsAbove d) l
All-IsAbove-trans d e l h hs =
    All-map (IsAbove e) (IsAbove d) l (λ (a : LocalDirectory) (k : IsAbove e a). le_trans k h) hs

insert-All-IsAbove :
    (a d : LocalDirectory) (l : List LocalDirectory)
    → IsAbove a d
    → All (IsAbove a) l
    → All (IsAbove a) (insert_with directory_leb d l)
unfolding insert_with
insert-All-IsAbove a d [] h hs = (h, tt)
insert-All-IsAbove a d (e ∷ l) h hs = elim (Bool-cases (directory_leb d e)) [
  | inl le ↦ rw le (h, hs)
  | inr gt ↦ rw gt (hs.0, insert-All-IsAbove a d l h hs.1)
]

insert-IsDeepestFirst :
    (d : LocalDirectory) (l : List LocalDirectory)
    → IsDeepestFirst l
    → IsDeepestFirst (insert_with directory_leb d l)
unfolding insert_with
insert-IsDeepestFirst d [] h = (tt, tt)
insert-IsDeepestFirst d (e ∷ l) (above, h) = elim (Bool-cases (directory_leb d e)) [
  | inl le ↦
      rw le ((leb-IsAbove d e le, All-IsAbove-trans d e l (leb-IsAbove d e le) above), (above, h))
  | inr gt ↦
      rw gt (insert-All-IsAbove e d l (not_leb_below d e gt) above, insert-IsDeepestFirst d l h)
]

sort-IsDeepestFirst : (l : List LocalDirectory) → IsDeepestFirst (sort_with directory_leb l)
unfolding sort_with
sort-IsDeepestFirst [] = tt
sort-IsDeepestFirst (d ∷ l) =
    insert-IsDeepestFirst d (sort_with directory_leb l) (sort-IsDeepestFirst l)

arranged-IsScanned :
    (root : Text) (d : LocalDirectory) (s : ScanState)
    → d.relative_path ≡ []
    → Listed (push_directory d s)
    → IsScanned (arranged root d s)
unfolding arranged
arranged-IsScanned root d s e listed =
    let all_directories = s.directories ++ d ∷ [] in
    let sorted = sort_with-Within directory_path directory_leb all_directories in
    let pushed = push_directory d s in
    let kept : ScanState = record s { directories = sort_with directory_leb all_directories } in
    let grows : Grows pushed kept = record { more_directories = sorted; more_files = λ a h. h } in
    record {
      has_root = sorted [] (
          subst (λ (p : RelativePath). contains (map directory_path all_directories) p ≡ true) e
            (rw map-append (contains-append_last (directory_paths s) d.relative_path)));
      has_entries =
          sort_with-All (AreListed (directory_paths kept) (file_paths kept)) directory_leb
            all_directories
            (All-map (AreListed (directory_paths pushed) (file_paths pushed))
              (AreListed (directory_paths kept) (file_paths kept)) all_directories
              (AreListed-Grows pushed kept grows) listed);
      deepest_first = sort-IsDeepestFirst all_directories;
    }

-- A scan that succeeds gives a tree that lists the root, and every file and directory that is an
-- entry of a listed directory; each directory stands before the one that holds it, so the deepest
-- come first.
pub scan_local_directory-IsScanned :
    (options : UploadOptions) (n : Node) (root : Text) (tree : LocalTree)
    → scan_local_directory_with_options options n root ≡ ok tree
    → IsScanned tree
unfolding scan_local_directory_with_options
scan_local_directory-IsScanned options n root tree h =
    let (_, _, h1) = >>=-eq-ok (validate_options options) _ h in
    let (_, _, h2) = >>=-eq-ok (check_root n root) _ h1 in
    let ((d, s), scanned, made) = >>=-eq-ok (scan_directory options n root [] new_scan) _ h2 in
    let (e, r) = scan_directory-Records options n root [] new_scan s d scanned in
    subst IsScanned (ok_injective made)
      (arranged-IsScanned root d s e (push_directory-Listed new_scan s d r tt))
