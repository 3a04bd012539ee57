-- ===== src/Upload/Complete.antt =====
-- crates/rfs-common/src/upload.rs: a successful `upload_local_directory` leaves a complete tree behind.
use remotefs.Base.{ℕ, ◌≡◌, ap, List, Option, All, ok, map_err, map_err-eq-ok, ok_injective}
use remotefs.Base.Text.{Text}
use remotefs.Base.State.{and_then-eq-ok}
use remotefs.Digest.{Digest}
use remotefs.Tree.Types.{Directory, EncodedDirectory}
use remotefs.Upload.Types.{UploadOptions, context, EncodedDirectoryTree, validate_options}
use remotefs.Upload.Scan.{Node, scan_local_directory_with_options}
use remotefs.Upload.Hash.{Reads, hash_files}
use remotefs.Upload.Encode.{encode_local_tree}
use remotefs.Upload.Send.{BlobStore, upload_encoded_tree}
use remotefs.Upload.Sources.{IsSealed}
use remotefs.Upload.Members.{All-map}
use remotefs.Upload.Closure.{IsClosed, Refers, HasFile, HasDirectory, encode_local_tree-IsClosed}
use remotefs.Upload.Stored.{IsLawful, upload_encoded_tree-stored}
use remotefs.Upload.Pipeline.{UploadSummary, upload_local_directory}

module _ {S : Type 0} (store : BlobStore S) (holds : S → Digest → Type 0)
    (sha256_hex : List ℕ → Text) (encode_to_vec : Directory → List ℕ) where
  -- The store holds a whole tree with this root: every directory that can be reached from the root,
  -- and every file in one of them.
  pub record HoldsTree (s : S) (root : Digest) : Type 0 where
    pub tree : EncodedDirectoryTree
    pub rooted : tree.root_digest ≡ root
    pub closed : IsClosed sha256_hex encode_to_vec tree
    pub files_held : All (λ (f : Digest × Text). holds s f.0) tree.file_blobs
    pub directories_held : All (λ (d : EncodedDirectory). holds s d.digest) tree.directories

  -- When `upload_local_directory` succeeds against a store that keeps the promises of `BlobStore`, the
  -- store holds a whole tree whose root is the digest in the summary: the root is one of its
  -- directories, each digest in a node of a directory is that of a file or a directory of the tree, and
  -- all of those are stored.
  pub upload_local_directory-HoldsTree :
      IsLawful store holds
      → (open_file : Text → ℕ → Option Reads) (node : Node) (root : Text) (options : UploadOptions)
        (s : S) (summary : UploadSummary)
      → (upload_local_directory store sha256_hex encode_to_vec open_file node root options s).0
        ≡ ok summary
      → HoldsTree
          (upload_local_directory store sha256_hex encode_to_vec open_file node root options s).1
          summary.root_digest
  unfolding upload_local_directory
  upload_local_directory-HoldsTree lawful open_file node root options s summary h =
      let scanned = scan_local_directory_with_options options node root in
      let (_, e1, h1) = and_then-eq-ok (validate_options options) _ s h in
      let (local, e2, h2) = and_then-eq-ok (map_err context scanned) _ s h1 in
      let hashed = hash_files sha256_hex open_file local.files options in
      let (digests, e3, h3) = and_then-eq-ok (map_err context hashed) _ s h2 in
      let encoded = encode_local_tree sha256_hex encode_to_vec local digests in
      let (t, e4, h4) = and_then-eq-ok (map_err context encoded) _ s h3 in
      let sent = upload_encoded_tree store sha256_hex t s in
      let (stats, e5, made) = and_then-eq-ok (map_err context sent.0) _ sent.1 h4 in
      let closed =
        encode_local_tree-IsClosed sha256_hex encode_to_vec local digests t
          (map_err-eq-ok context encoded e4) in
      let is_sealed : All (IsSealed sha256_hex) t.directories =
        All-map
          (Refers sha256_hex encode_to_vec (HasFile sha256_hex encode_to_vec t)
            (HasDirectory sha256_hex encode_to_vec t))
          (IsSealed sha256_hex) t.directories (λ d r. r.2) closed.has_nodes in
      let (files, directories) =
        upload_encoded_tree-stored store sha256_hex holds lawful t s stats is_sealed
          (map_err-eq-ok context sent.0 e5) in
      rw (e1, e2, e3, e4, e5)
        (record {
          tree = t;
          rooted = ap (λ (x : UploadSummary). x.root_digest) (ok_injective made);
          closed = closed;
          files_held = files;
          directories_held = directories;
        })
