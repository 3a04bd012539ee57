-- ===== src/Upload/Recording.antt =====
-- crates/rfs-common/src/upload.rs: what the scan of a directory records of each entry, it also lists.
use remotefs.Base.{
  ℕ, ◌+◌, inl, inr, Bool-cases, ◌≡◌, refl, sym, ap, ◌∙◌, List, [], ◌∷◌, ◌++◌, map, arith, All,
  All-append,
}
use remotefs.Base.{ok, >>=-eq-ok, map_err, map_err-eq-ok, ok_injective}
use remotefs.Base.{nat_eq, list_eq, Option, none, subst, ok_or}
use mathlib.Core.List.{map-append, append-nil}
use remotefs.Base.Text.{Text, text_leb}
use remotefs.Tree.Types.{non_utf8_symlink_target}
use remotefs.Upload.Types.{
  UploadOptions, tree, context, filesystem, RelativePath, LocalFile, LocalDirectoryChild, file,
  directory, symlink, LocalDirectory, LocalSubDirectory, LocalSymlink, Metadata,
}
use remotefs.Upload.Paths.{join, join_relative, component_name, sort_with}
use remotefs.Base.Utf8.{to_str}
use remotefs.Upload.Scan.{
  Node, gone, regular_file, folder, link, special, ScanState, Descent, scan_node, scan_entry,
  scan_entries, scan_directory, prepend, push_directory, push_file, count_hard_link,
}
use remotefs.Upload.Members.{contains-append_left, contains-append_last, All-map}
use remotefs.Upload.Listing.{
  directory_path, file_path, AreListed, directory_paths, file_paths, Grows, Grows-trans, Listed,
  AreListed-Grows, Records, RecordsOf, Records-refl, Records-trans,
}

abbrev Descends : Descent → Type 0
Descends descend =
    (path : Text) (relative : RelativePath) (s t : ScanState) (d : LocalDirectory)
    → descend path relative s ≡ ok (d, t)
    → (d.relative_path ≡ relative) × Records s t d.relative_path d.entries

count_hard_link-same :
    (m : Metadata) (s : ScanState)
    → ((count_hard_link m s).directories ≡ s.directories) × ((count_hard_link m s).files ≡ s.files)
unfolding count_hard_link
count_hard_link-same m s = ground arith

Grows-of :
    (s t : ScanState) (directories : List LocalDirectory) (files : List LocalFile)
    → t.directories ≡ s.directories ++ directories
    → t.files ≡ s.files ++ files
    → Grows s t
Grows-of s t directories files e e' = record {
  more_directories = λ a h.
      rw (e, map-append)
        (contains-append_left (directory_paths s) (map directory_path directories) a h);
  more_files =
      λ a h. rw (e', map-append) (contains-append_left (file_paths s) (map file_path files) a h);
}

Listed-Grows : (s t : ScanState) → Grows s t → t.directories ≡ s.directories → Listed s → Listed t
Listed-Grows s t g e h = subst (All (AreListed (directory_paths t) (file_paths t))) (sym e) (
    All-map (AreListed (directory_paths s) (file_paths s))
      (AreListed (directory_paths t) (file_paths t)) s.directories (AreListed-Grows s t g) h)

file-Records :
    (s t : ScanState) (parent : RelativePath) (f : LocalFile)
    → t.directories ≡ s.directories
    → t.files ≡ s.files ++ f ∷ []
    → Records s t parent (file f ∷ [])
file-Records s t parent f e e' =
    let g = Grows-of s t [] (f ∷ []) (e ∙ sym (append-nil s.directories)) e' in
    record {
      grows = g;
      listed = Listed-Grows s t g e;
      entries_listed =
          (rw (e', map-append) (contains-append_last (file_paths s) f.relative_path), tt);
    }

link-Records :
    (s : ScanState) (n : ℕ) (parent : RelativePath) (l : LocalSymlink)
    → Records s (record s { symlinks = n }) parent (symlink l ∷ [])
link-Records s n parent l = record {
  grows = record { more_directories = λ a h. h; more_files = λ a h. h };
  listed = λ h. h;
  entries_listed = (tt, tt);
}

push_directory-Grows : (d : LocalDirectory) (t : ScanState) → Grows t (push_directory d t)
push_directory-Grows d t =
    Grows-of t (push_directory d t) (d ∷ []) [] refl (sym (append-nil t.files))

pub push_directory-Listed :
    (s t : ScanState) (d : LocalDirectory)
    → Records s t d.relative_path d.entries
    → Listed s
    → Listed (push_directory d t)
push_directory-Listed s t d r h =
    let u = push_directory d t in
    let g = push_directory-Grows d t in
    All-append (AreListed (directory_paths u) (file_paths u)) t.directories (d ∷ [])
      (All-map (AreListed (directory_paths t) (file_paths t))
        (AreListed (directory_paths u) (file_paths u)) t.directories (AreListed-Grows t u g)
        (r.listed h))
      (AreListed-Grows t u g d r.entries_listed, tt)

-- The directory itself is listed after all that it holds.
directory-Records :
    (s t : ScanState) (parent : RelativePath) (d : LocalDirectory) (entry : LocalSubDirectory)
    → Records s t d.relative_path d.entries
    → entry.relative_path ≡ d.relative_path
    → d.relative_path ≡ join_relative parent entry.name
    → Records s (push_directory d t) parent (directory entry ∷ [])
directory-Records s t parent d entry r e e' = record {
  grows = Grows-trans s t (push_directory d t) r.grows (push_directory-Grows d t);
  listed = push_directory-Listed s t d r;
  entries_listed =
      ((rw (e, map-append) (contains-append_last (directory_paths t) d.relative_path), e ∙ e'), tt);
}

module _ (options : UploadOptions) where
  scan_node-Records :
      (n : Node) (descend : Descent)
      → Descends descend
      → (name path : Text) (parent : RelativePath) (s t : ScanState)
        (entry : Option LocalDirectoryChild)
      → scan_node options n descend name path (join_relative parent name) s ≡ ok (entry, t)
      → Records s t parent (prepend entry [])
  unfolding scan_node
  scan_node-Records gone descend h name path parent s t entry e = cc
  scan_node-Records (regular_file m) descend h name path parent s t entry e =
      let (ds, fs) = count_hard_link-same m s in
      let f : LocalFile = record {
        name = name;
        relative_path = join_relative parent name;
        absolute_path = path;
        metadata = m;
      } in
      subst (RecordsOf s parent) (ok_injective e) (
        file-Records s (push_file f (count_hard_link m s)) parent f ds
          (ap (λ (l : List LocalFile). l ++ f ∷ []) fs))
  scan_node-Records (folder m l c) descend h name path parent s t entry e =
      let ((d, u), e', made) =
        >>=-eq-ok (map_err context (descend path (join_relative parent name) s)) _ e in
      let (p, r) =
        h path (join_relative parent name) s u d
          (map_err-eq-ok context (descend path (join_relative parent name) s) e') in
      subst (RecordsOf s parent) (ok_injective made) (
        directory-Records s u parent d
          (record { name = name; relative_path = join_relative parent name; metadata = m }) r
          (sym p) p)
  scan_node-Records (link m target) descend h name path parent s t entry e =
      let (bytes, _, e') = >>=-eq-ok (ok_or (filesystem path) target) _ e in
      let (text, _, made) =
        >>=-eq-ok (ok_or (tree (non_utf8_symlink_target path)) (to_str bytes)) _ e' in
      subst (RecordsOf s parent) (ok_injective made) (
        link-Records s (s.symlinks + 1) parent
          (record { name = name; target = text; metadata = m }))
  scan_node-Records (special m k) descend h name path parent s t entry e =
      elim (Bool-cases options.fail_on_unsupported_nodes) [
        | inl fails ↦ absurd (ground arith)
        | inr skips ↦
            let skipped : (none, s) ≡ (entry, t) = ground arith in
            subst (RecordsOf s parent) skipped (Records-refl s parent)
      ]

  module _ (child : Text → Node) (descend : Text → Descent)
      (h : (name : Text) → Descends (descend name)) where
    scan_entry-Records :
        (path : Text) (parent : RelativePath) (raw : Text) (s t : ScanState)
        (entry : Option LocalDirectoryChild)
        → scan_entry options child descend path parent raw s ≡ ok (entry, t)
        → Records s t parent (prepend entry [])
    unfolding scan_entry
    scan_entry-Records path parent raw s t entry e =
        let (name, _, e') = >>=-eq-ok (map_err tree (component_name raw)) _ e in
        scan_node-Records (child raw) (descend raw) (h raw) name (join path raw) parent s t entry e'

    scan_entries-Records :
        (path : Text) (parent : RelativePath) (names : List Text) (s t : ScanState)
        (entries : List LocalDirectoryChild)
        → scan_entries options child descend path parent names s ≡ ok (entries, t)
        → Records s t parent entries
    unfolding scan_entries
    scan_entries-Records path parent [] s t entries e =
        subst (λ (x : List LocalDirectoryChild × ScanState). Records s x.1 parent x.0)
          (ok_injective e) (Records-refl s parent)
    scan_entries-Records path parent (raw ∷ names) s t entries e =
        let ((entry, u), e1, e') =
          >>=-eq-ok (scan_entry options child descend path parent raw s) _ e in
        let ((rest, v), e2, made) =
          >>=-eq-ok (scan_entries options child descend path parent names u) _ e' in
        subst (λ (x : List LocalDirectoryChild × ScanState). Records s x.1 parent x.0)
          (ok_injective made)
          (Records-trans s u v parent entry rest (scan_entry-Records path parent raw s u entry e1)
            (scan_entries-Records path parent names u v rest e2))

  pub scan_directory-Records : (n : Node) → Descends (scan_directory options n)
  unfolding scan_directory
  scan_directory-Records gone path relative s t d e = cc
  scan_directory-Records (regular_file m) path relative s t d e = cc
  scan_directory-Records (link m target) path relative s t d e = cc
  scan_directory-Records (special m k) path relative s t d e = cc
  scan_directory-Records (folder m listing child) path relative s t d e =
      let descend = λ (name : Text). scan_directory options (child name) in
      let (names, _, e') = >>=-eq-ok (ok_or (filesystem path) listing) _ e in
      let ((entries, u), scanned, made) =
        >>=-eq-ok (scan_entries options child descend path relative (sort_with text_leb names) s) _
          e' in
      let r =
        scan_entries-Records child descend (λ (name : Text). scan_directory-Records (child name))
          path relative (sort_with text_leb names) s u entries scanned in
      subst
        (λ (x : LocalDirectory × ScanState).
          (x.0.relative_path ≡ relative) × Records s x.1 x.0.relative_path x.0.entries)
        (ok_injective made) (refl, r)
