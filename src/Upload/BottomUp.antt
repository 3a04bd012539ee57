-- ===== src/Upload/BottomUp.antt =====
-- crates/rfs-common/src/upload.rs: the bottom-up encoding finds every digest that it looks up.
use remotefs.Base.{ℕ, ◌≡◌, ap, subst, true, Option, some, List, [], ◌∷◌}
use remotefs.Base.{map, All, ok, >>=-eq-ok, map_err, ok_injective}
use remotefs.Base.{contains, ◌⊎◌, nat_eq, list_eq, inl, inr, ok_or}
use remotefs.Base.Text.{Text, codes}
use remotefs.Tree.Types
use remotefs.Tree.Types.{Directory, TreeWarnings, EncodedDirectory, no_warnings, merge, TreeError}
use remotefs.Tree.Builder.{encode, with_metadata}
use remotefs.Upload.Types.{
  UploadOptions, invalid_option, context, RelativePath, LocalDirectory, LocalTree, FileDigest,
}
use remotefs.Upload.Scan.{Node, scan_local_directory_with_options}
use remotefs.Upload.Hash.{Reads, hash_files}
use remotefs.Upload.Encode.{
  PathMap, get, collect, encode_entries, encode_directory, metadata_for, encode_directories,
  encode_local_tree,
}
use remotefs.Upload.Members.{Within, All-map}
use remotefs.Upload.Listing.{directory_path, file_path, AreListed}
use remotefs.Upload.Scanned.{IsScanned, IsDeepestFirst, scan_local_directory-IsScanned}
use remotefs.Upload.Lookups.{
  digest_path, FailsByTree, FailsByTree-bind, FailsByTree-context, FailsByTree-tree, Has,
  Has-digest, hash_files-Within, HasDigest, encode_entries-tree,
}
use remotefs.Upload.Ahead.{
  IsAhead, head-HasDigest, rest-AreAhead, first_of, Has-head, start-AreAhead,
}

module _ (sha256_hex : List ℕ → Text) (encode_to_vec : Directory → List ℕ) where
  encode_directory-tree :
      (d : LocalDirectory) (files known : PathMap)
      → All (HasDigest files known) d.entries
      → FailsByTree (encode_directory sha256_hex encode_to_vec d files known)
  unfolding encode_directory
  encode_directory-tree d files known h =
      let start = with_metadata (some (metadata_for Types.directory d.metadata)) in
      FailsByTree-bind (encode_entries files known d.entries start) _
        (encode_entries-tree files known d.entries start h)
        (λ b _. FailsByTree-tree (encode sha256_hex encode_to_vec b))

  encode_directories-tree :
      (files : PathMap) (ds : List LocalDirectory) (known : PathMap) (w : TreeWarnings)
      → IsDeepestFirst ds
      → All (λ (e : LocalDirectory). All (IsAhead files known ds e.relative_path) e.entries) ds
      → FailsByTree (encode_directories sha256_hex encode_to_vec files ds known w)
  unfolding encode_directories
  encode_directories-tree files [] known w deepest h = tt
  encode_directories-tree files (d ∷ ds) known w (above, deepest) (h, hs) =
      let encoded = encode_directory sha256_hex encode_to_vec d files known in
      FailsByTree-bind (map_err context encoded) _
        (FailsByTree-context encoded (
          encode_directory-tree d files known (
            All-map (IsAhead files known (d ∷ ds) d.relative_path) (HasDigest files known) d.entries
              (head-HasDigest files known d ds above) h)))
        λ e _.
          FailsByTree-bind
            (encode_directories sha256_hex encode_to_vec files ds
              ((d.relative_path, e.digest) ∷ known) (merge w e.warnings))
            _
            (encode_directories-tree files ds ((d.relative_path, e.digest) ∷ known)
              (merge w e.warnings) deepest (rest-AreAhead files known d e.digest ds ds hs))
            (λ x _. tt)

  -- Every directory that was encoded is known, with those that were known before.
  encode_directories-Has :
      (files : PathMap) (ds : List LocalDirectory) (known known' : PathMap) (w w' : TreeWarnings)
      (es : List EncodedDirectory) (path : RelativePath)
      → encode_directories sha256_hex encode_to_vec files ds known w ≡ ok (known', es, w')
      → (Has path known ⊎ (contains (map directory_path ds) path ≡ true))
      → Has path known'
  unfolding encode_directories
  encode_directories-Has files [] known known' w w' es path h (inl has) =
      subst (Has path) (ap first_of (ok_injective h)) has
  encode_directories-Has files [] known known' w w' es path h (inr listed) = cc
  encode_directories-Has files (d ∷ ds) known known' w w' es path h m =
      let (e, _, h1) =
        >>=-eq-ok (map_err context (encode_directory sha256_hex encode_to_vec d files known)) _ h in
      let known_now : PathMap = (d.relative_path, e.digest) ∷ known in
      let ((k, rest, v), h2, made) =
        >>=-eq-ok
          (encode_directories sha256_hex encode_to_vec files ds known_now (merge w e.warnings)) _
          h1 in
      subst (Has path) (ap first_of (ok_injective made)) (
        encode_directories-Has files ds known_now k (merge w e.warnings) v rest path h2
          (Has-head path known d e.digest ds m))

  -- The encoding of a tree that a scan made, with the digests of its files, fails only by an error of
  -- the encoding of a single directory: it finds the digest of every file and subdirectory, and that
  -- of the root.
  encode_local_tree-FailsByTree :
      (local : LocalTree) (digests : List FileDigest)
      → IsScanned local
      → Within (map file_path local.files) (map digest_path digests)
      → FailsByTree (encode_local_tree sha256_hex encode_to_vec local digests)
  unfolding encode_local_tree
  encode_local_tree-FailsByTree local digests scanned hashed =
      let files = collect digests [] in
      FailsByTree-bind
        (encode_directories sha256_hex encode_to_vec files local.directories [] no_warnings) _
        (encode_directories-tree files local.directories [] no_warnings scanned.deepest_first (
          All-map (AreListed (map directory_path local.directories) (map file_path local.files))
            (λ (e : LocalDirectory).
              All (IsAhead files [] local.directories e.relative_path) e.entries)
            local.directories (start-AreAhead local digests hashed) scanned.has_entries))
        λ (known, es, w) made.
          FailsByTree-bind (ok_or (invalid_option (codes "root")) (get [] known)) _
            (Has-digest (invalid_option (codes "root")) [] known (
              encode_directories-Has files local.directories [] known no_warnings w es [] made
                (inr scanned.has_root)))
            (λ root _. tt)

-- The encoding never misses a digest: for the tree of a scan that succeeded, and the digests of its
-- files, `encode_local_tree` either succeeds or fails because one directory cannot be encoded (a name
-- or a time that the format does not allow), and never because the digest of a file, of a
-- subdirectory or of the root is not there.
pub encode-scan_bottom_up :
    (sha256_hex : List ℕ → Text) (encode_to_vec : Directory → List ℕ)
    (open_file : Text → ℕ → Option Reads) (options : UploadOptions) (n : Node) (root : Text)
    (local : LocalTree) (digests : List FileDigest)
    → scan_local_directory_with_options options n root ≡ ok local
    → hash_files sha256_hex open_file local.files options ≡ ok digests
    → FailsByTree (encode_local_tree sha256_hex encode_to_vec local digests)
encode-scan_bottom_up sha256_hex encode_to_vec open_file options n root local digests scanned
      hashed =
    encode_local_tree-FailsByTree sha256_hex encode_to_vec local digests
      (scan_local_directory-IsScanned options n root local scanned)
      (hash_files-Within sha256_hex open_file local.files options digests hashed)
