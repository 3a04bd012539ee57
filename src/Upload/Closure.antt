-- ===== src/Upload/Closure.antt =====
-- crates/rfs-common/src/upload.rs: an encoded tree refers to nothing outside itself.
use remotefs.Base.{ℕ, ◌≡◌, refl, subst, true, some, List, [], ◌∷◌, map}
use remotefs.Base.{All, ok, >>=-eq-ok, map_err, map_err-eq-ok, ok_injective, ok_or}
use remotefs.Base.{contains, nat_eq, list_eq, ==_refl}
use remotefs.Base.Int.{int_eq}
use remotefs.Base.Text.{Text, codes}
use remotefs.Digest.{Digest}
use remotefs.Tree.Types
use remotefs.Tree.Types.{
  Directory, EncodedDirectory, TreeWarnings, no_warnings, merge, TreeError, FileEntry,
  DirectoryEntry, SymlinkEntry,
}
use remotefs.Tree.Builder.{with_metadata, encode}
use remotefs.Tree.References.{FileRefers, DirectoryRefers, encode-references}
use remotefs.Upload.Types.{
  tree, invalid_option, context, LocalDirectory, LocalTree, FileDigest, EncodedDirectoryTree,
}
use remotefs.Upload.Encode.{
  PathMap, get, collect, digest_entry, file_blob, encode_entries, encode_directory, metadata_for,
  encode_directories, encode_local_tree,
}
use remotefs.Upload.Sources.{digest_eq, file_digest, directory_digest, IsSealed}
use remotefs.Upload.Members.{Within, All-contains_self, All-of_map, contains-cons}
use remotefs.Upload.Entries.{Holds, get-Holds, ok_or-some, encode_entries-EntriesHold}

digests-listed :
    (ds : List FileDigest)
    → All (λ (f : FileDigest). contains (map file_digest (map file_blob ds)) f.digest ≡ true) ds
digests-listed ds =
    let all = All-contains_self file_digest (map file_blob ds) in All-of_map file_blob _ ds all

module _ (sha256_hex : List ℕ → Text) (encode_to_vec : Directory → List ℕ) where
  -- The nodes of a directory refer to digests with the properties, and its digest is the one of its
  -- bytes.
  abbrev pub Refers : (Digest → Type 0) → (Digest → Type 0) → EncodedDirectory → Type 0
  Refers P Q e =
      All (FileRefers P) e.directory.files
      × All (DirectoryRefers Q) e.directory.directories
      × IsSealed sha256_hex e

  encode_directory-Refers :
      (P Q : Digest → Type 0) (files known : PathMap) (d : LocalDirectory) (e : EncodedDirectory)
      → Holds P files
      → Holds Q known
      → encode_directory sha256_hex encode_to_vec d files known ≡ ok e
      → Refers P Q e
  unfolding encode_directory with_metadata
  encode_directory-Refers P Q files known d e hf hk h =
      let start = with_metadata (some (metadata_for Types.directory d.metadata)) in
      let (b, made, encoded) = >>=-eq-ok (encode_entries files known d.entries start) _ h in
      let (fp, dq) =
        encode_entries-EntriesHold P Q files known hf hk d.entries start b (tt, tt) made in
      encode-references sha256_hex encode_to_vec P Q b e fp dq
        (map_err-eq-ok tree (encode sha256_hex encode_to_vec b) encoded)

  -- The result of the loop: the directories, and the map with which it ends.
  abbrev Encoded : Type 0
  Encoded = PathMap × List EncodedDirectory × TreeWarnings

  encode_directories-Refers :
      (P : Digest → Type 0) (all : List Digest) (files : PathMap) (ds : List LocalDirectory)
      (known known' : PathMap) (w w' : TreeWarnings) (es : List EncodedDirectory)
      → Holds P files
      → Holds (λ d. contains all d ≡ true) known
      → encode_directories sha256_hex encode_to_vec files ds known w ≡ ok (known', es, w')
      → Within (map directory_digest es) all
      → All (Refers P (λ d. contains all d ≡ true)) es × Holds (λ d. contains all d ≡ true) known'
  unfolding encode_directories
  encode_directories-Refers P all files [] known known' w w' es hf hk h within =
      let done : (known, [], w) ≡ (known', es, w') = ok_injective h in
      subst
        (λ (x : Encoded).
          All (Refers P (λ d. contains all d ≡ true)) x.1 × Holds (λ d. contains all d ≡ true) x.0)
        done (tt, hk)
  encode_directories-Refers P all files (d ∷ ds) known known' w w' es hf hk h within =
      let (e, first, h1) =
        >>=-eq-ok (map_err context (encode_directory sha256_hex encode_to_vec d files known)) _ h in
      let known_now : PathMap = (d.relative_path, e.digest) ∷ known in
      let ((k, rest, v), h2, made) =
        >>=-eq-ok
          (encode_directories sha256_hex encode_to_vec files ds known_now (merge w e.warnings)) _
          h1 in
      let done : (k, e ∷ rest, v) ≡ (known', es, w') = ok_injective made in
      let within_all : Within (map directory_digest (e ∷ rest)) all = λ a m.
        within a (subst (λ (x : Encoded). contains (map directory_digest x.1) a ≡ true) done m) in
      let others =
        encode_directories-Refers P all files ds known_now k (merge w e.warnings) v rest hf
          (within_all e.digest (rw (==_refl e.digest) refl), hk) h2
          (λ a m. within_all a (contains-cons e.digest (map directory_digest rest) a m)) in
      let one =
        encode_directory-Refers P (λ a. contains all a ≡ true) files known d e hf hk
          (map_err-eq-ok context (encode_directory sha256_hex encode_to_vec d files known) first) in
      subst
        (λ (x : Encoded).
          All (Refers P (λ a. contains all a ≡ true)) x.1 × Holds (λ a. contains all a ≡ true) x.0)
        done ((one, others.0), others.1)

  collect-Holds :
      (P : Digest → Type 0) (fs : List FileDigest) (m : PathMap)
      → All (λ (f : FileDigest). P f.digest) fs
      → Holds P m
      → Holds P (collect fs m)
  unfolding collect
  collect-Holds P [] m h hm = hm
  collect-Holds P (f ∷ fs) m (p, h) hm = collect-Holds P fs (digest_entry f ∷ m) h (p, hm)

  abbrev pub HasFile : EncodedDirectoryTree → Digest → Type 0
  HasFile t d = contains (map file_digest t.file_blobs) d ≡ true

  abbrev pub HasDirectory : EncodedDirectoryTree → Digest → Type 0
  HasDirectory t d = contains (map directory_digest t.directories) d ≡ true

  -- The root is a directory of the tree. Each digest in a node of one of its directories is that of a
  -- file or of a directory of the tree, and the digest of each directory is the one of its bytes.
  pub record IsClosed (t : EncodedDirectoryTree) : Type 0 where
    pub has_root : HasDirectory t t.root_digest
    pub has_nodes : All (Refers (HasFile t) (HasDirectory t)) t.directories

  -- A tree that `encode_local_tree` returns is closed: its root is one of its directories, and each
  -- digest in a node of one of its directories is that of a file or of a directory of the tree. The
  -- digest of each directory is the one of its bytes.
  pub encode_local_tree-IsClosed :
      (local : LocalTree) (digests : List FileDigest) (t : EncodedDirectoryTree)
      → encode_local_tree sha256_hex encode_to_vec local digests ≡ ok t
      → IsClosed t
  unfolding encode_local_tree
  encode_local_tree-IsClosed local digests t h =
      let files = collect digests [] in
      let missing = invalid_option (codes "root") in
      let ((known, es, w), encoded, h1) =
        >>=-eq-ok
          (encode_directories sha256_hex encode_to_vec files local.directories [] no_warnings) _
          h in
      let (root, found, made) = >>=-eq-ok (ok_or missing (get [] known)) _ h1 in
      let all_files = map file_digest (map file_blob digests) in
      let all_directories = map directory_digest es in
      let (refers, held) =
        encode_directories-Refers (λ d. contains all_files d ≡ true) all_directories files
          local.directories [] known no_warnings w es
          (collect-Holds (λ d. contains all_files d ≡ true) digests [] (digests-listed digests) tt)
          tt encoded (λ a m. m) in
      subst IsClosed (ok_injective made) (record {
        has_root =
            get-Holds (λ d. contains all_directories d ≡ true) [] known root held
              (ok_or-some missing (get [] known) found);
        has_nodes = refers;
      })
