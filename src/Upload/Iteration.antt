-- ===== src/Upload/Iteration.antt =====
-- crates/rfs-common/src/upload.rs: the scan does not depend on the order in which the file system lists.
use remotefs.Base.{◌≡◌, refl, ap, ap₂, ◌∙◌, Option, some, List, [], ◌∷◌}
use remotefs.Base.{arith, ok, ◌>>=◌, ◌>>◌, map_err}
use mathlib.Core.Logic.{∥∥₁_elim}
use mathlib.Core.Path.{fun_ext}
use mathlib.Core.List.{Perm, Permᴰ}
use remotefs.Base.Text.{Text, text_leb}
use remotefs.Tree.Order.{text_leb_antisymm, text_leb_trans, text_leb_total}
use remotefs.Upload.Types.{UploadOptions, tree, validate_options}
use remotefs.Upload.Types.{RelativePath, Metadata, LocalDirectory, LocalDirectoryChild}
use remotefs.Upload.Paths.{component_name, join, join_relative, insert_with, sort_with}
use remotefs.Upload.Scan.{
  Node, folder, ScanState, Scanned, Descent, scan_node, prepend, new_scan, arranged, scan_entry,
  scan_entries, scan_directory, scan_local_directory_with_options,
}

-- The same tree of nodes, with the names of any directory in another order.
pub data SameNode : Node → Node → Type 0 where
  same : (n : Node) → SameNode n n
  relisted :
      (m : Metadata) {names others : List Text} {child child' : Text → Node}
      → Perm names others
      → ((name : Text) → SameNode (child name) (child' name))
      → SameNode (folder m (some names) child) (folder m (some others) child')

insert_swap :
    (a b : Text) (l : List Text)
    → insert_with text_leb a (insert_with text_leb b l)
      ≡ insert_with text_leb b (insert_with text_leb a l)
unfolding insert_with
insert_swap a b [] = ground (arith, text_leb_antisymm a b, text_leb_total a b)
insert_swap a b (c ∷ l) = ground (
  arith,
  text_leb_antisymm a b,
  text_leb_total a b,
  text_leb_trans a b c,
  text_leb_trans b a c,
  insert_swap a b l,
)

sort_permuted : (l m : List Text) → Permᴰ l m → sort_with text_leb l ≡ sort_with text_leb m
unfolding sort_with
sort_permuted l m Permᴰ.nil = refl
sort_permuted l m (Permᴰ.cons {a} {b} {l₁} {l₂} e p) = rw (e, sort_permuted l₁ l₂ p) refl
sort_permuted l m (Permᴰ.swap {a} {b} {a'} {b'} {l = rest} e e') =
    rw (e, e') (insert_swap b' a' (sort_with text_leb rest))
sort_permuted l m (Permᴰ.trans {l₁} {l₂} {l₃} p q) = sort_permuted l₁ l₂ p ∙ sort_permuted l₂ l₃ q

-- The order of a listing is lost when it is sorted.
sort-perm : (l m : List Text) → Perm l m → sort_with text_leb l ≡ sort_with text_leb m
sort-perm l m p = ∥∥₁_elim p (hlevel) (sort_permuted l m)

abbrev as_directory :
    Metadata → Text → RelativePath → Scanned (List LocalDirectoryChild) → Scanned LocalDirectory
as_directory m path relative scanned = scanned >>= λ x.
    ok (record { relative_path = relative; absolute_path = path; metadata = m; entries = x.0 }, x.1)

module _ (options : UploadOptions) where
  scan_node-same :
      (n n' : Node)
      → SameNode n n'
      → (descend : Descent) (name path : Text) (relative : RelativePath) (state : ScanState)
      → scan_node options n descend name path relative state
        ≡ scan_node options n' descend name path relative state
  unfolding scan_node
  scan_node-same n n' (same _) descend name path relative state = refl
  scan_node-same n n' (relisted m p below) descend name path relative state = refl

  scan_entries-same :
      (child child' : Text → Node)
      → ((name : Text) → SameNode (child name) (child' name))
      → (descend : Text → Descent) (path : Text) (relative : RelativePath) (names : List Text)
        (state : ScanState)
      → scan_entries options child descend path relative names state
        ≡ scan_entries options child' descend path relative names state
  unfolding scan_entries scan_entry
  scan_entries-same child child' h descend path relative [] state = refl
  scan_entries-same child child' h descend path relative (raw ∷ names) state =
      let one : scan_entry options child descend path relative raw state
          ≡ scan_entry options child' descend path relative raw state =
        ap
          (λ (next : Text → Scanned (Option LocalDirectoryChild)).
            map_err tree (component_name raw) >>= next)
          (fun_ext λ name.
            scan_node-same (child raw) (child' raw) (h raw) (descend raw) name (join path raw)
              (join_relative relative name) state) in
      ap₂
        (λ (first : Scanned (Option LocalDirectoryChild))
            (rest : ScanState → Scanned (List LocalDirectoryChild)).
          first >>= λ x. rest x.1 >>= λ x'. ok (prepend x.0 x'.0, x'.1))
        one (fun_ext λ state'. scan_entries-same child child' h descend path relative names state')

  scan_directory-same :
      (n n' : Node)
      → SameNode n n'
      → (path : Text) (relative : RelativePath) (state : ScanState)
      → scan_directory options n path relative state ≡ scan_directory options n' path relative state
  unfolding scan_directory
  scan_directory-same n n' (same _) path relative state = refl
  scan_directory-same n n' (relisted m {names} {others} {child} {child'} p below) path relative
        state =
      let descents : (λ (name : Text). scan_directory options (child name))
          ≡ (λ (name : Text). scan_directory options (child' name)) =
        fun_ext λ name. fun_ext λ q.
          fun_ext
            λ r. fun_ext λ s. scan_directory-same (child name) (child' name) (below name) q r s in
      let listed = sort-perm names others p in
      ap₂
        (λ (descend : Text → Descent) (sorted : List Text).
          as_directory m path relative
            (scan_entries options child descend path relative sorted state))
        descents listed
      ∙ ap (as_directory m path relative) (
          scan_entries-same child child' below
            (λ (name : Text). scan_directory options (child' name)) path relative
            (sort_with text_leb others) state)

  -- The scan of a local tree gives the same result, and refuses it with the same error, in whatever
  -- order the file system lists its directories, at any depth.
  pub scan_local_directory-same :
      (n n' : Node)
      → SameNode n n'
      → (root : Text)
      → scan_local_directory_with_options options n root
        ≡ scan_local_directory_with_options options n' root
  unfolding scan_local_directory_with_options
  scan_local_directory-same n n' (same _) root = refl
  scan_local_directory-same n n' (relisted m p below) root =
      ap
        (λ (scanned : Scanned LocalDirectory).
          validate_options options >> (scanned >>= λ x. ok (arranged root x.0 x.1)))
        (scan_directory-same n n' (relisted m p below) root [] new_scan)
