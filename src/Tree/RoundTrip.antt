-- ===== src/Tree/RoundTrip.antt =====
-- crates/rfs-common/src/tree.rs: `decode_directory` accepts what `DirectoryBuilder::encode` returns.
use remotefs.Base.{ℕ, ◌≡◌, refl, Option, some, List, [], ◌∷◌, ◌++◌, map}
use remotefs.Base.{ok, map_err, map_err-eq-ok, >>=-eq-ok, ok_injective, subst, for_each, All}
use remotefs.Base.{All-append, ==_refl, true, nat_eq, list_eq}
use remotefs.Base.Int.{int_eq}
use remotefs.Base.Text.{Text, codes}
use remotefs.Digest.{Digest, for_bytes, digest_beq}
use remotefs.Digest.Validity.{IsValid}
use remotefs.Tree.Types.{NodeProperties, FileNode, DirectoryNode, SymlinkNode, Directory}
use remotefs.Tree.Types.{FileEntry, DirectoryEntry, TreeWarnings, no_warnings}
use remotefs.Tree.Types.{context, EncodedDirectory}
use remotefs.Tree.Metadata.{validate_name, normalize_optional_metadata}
use remotefs.Tree.Builder.{DirectoryBuilder, sort_entries, sort_by, builder_names}
use remotefs.Tree.Builder.{reject_duplicate_names, file_name, directory_name, symlink_name}
use remotefs.Tree.Builder.{file_node, directory_node, symlink_node, encode_all, encode}
use remotefs.Tree.Decode.{validate_directory, decode_directory, validate_file_node}
use remotefs.Tree.Decode.{validate_directory_node, validate_symlink_node, validate_node_properties}
use remotefs.Tree.Decode.{file_node_name, directory_node_name}
use remotefs.Tree.Decode.{symlink_node_name}
use remotefs.Tree.Sorting.{IsSorted, sort_by-IsSorted, sort_by-All}
use remotefs.Tree.Names.{Unique, seen_after, reject_seen-Unique, Unique-append, IsSorted-map, self}
use remotefs.Tree.Names.{validate_sorted_names-ok, validate_names-ok}
use remotefs.Tree.Nodes.{normalize_optional_metadata-valid, file_node-valid, directory_node-valid}
use remotefs.Tree.Nodes.{symlink_node-valid, encode_all-valid}
use remotefs.Tree.Built.{HasName, IsBuilt}

map-All {ℓ} :
    {A : Type ℓ} (P : Text → Type 0) (name : A → Text) (l : List A)
    → All (λ a. P (name a)) l
    → All P (map name l)
map-All P name [] h = tt
map-All P name (a ∷ l) h = (h.0, map-All P name l h.1)

abbrev IsName : Text → Type 0
IsName n = validate_name n ≡ ok tt

-- The names of one kind of entry, as the builder leaves them.
record Walked (names : List Text) : Type 0 where
  sorted : IsSorted self names
  valid : All IsName names

sort_by-Walked {ℓ} :
    {A : Type ℓ} (name : A → Text) (l : List A)
    → All (HasName name) l
    → Walked (map name (sort_by name l))
sort_by-Walked name l h = record {
  sorted = IsSorted-map name (sort_by name l) (sort_by-IsSorted name l);
  valid = map-All IsName name (sort_by name l) (sort_by-All name (HasName name) l h);
}

-- A directory with such names, and with nodes that pass their tests, is valid.
validate_directory-ok :
    (d : Directory) (fs ds ls : List Text)
    → map file_node_name d.files ≡ fs
    → map directory_node_name d.directories ≡ ds
    → map symlink_node_name d.symlinks ≡ ls
    → Walked fs
    → Walked ds
    → Walked ls
    → Unique [] (fs ++ (ds ++ ls))
    → validate_node_properties (codes ".") d.node_properties ≡ ok tt
    → for_each validate_file_node d.files ≡ ok tt
    → for_each validate_directory_node d.directories ≡ ok tt
    → for_each validate_symlink_node d.symlinks ≡ ok tt
    → validate_directory d ≡ ok tt
unfolding validate_directory
validate_directory-ok d fs ds ls ef ed el wf wd wl u hp hf hd hl =
    let (uf, udl) = Unique-append [] fs (ds ++ ls) u in
    let (ud, ul) = Unique-append (seen_after [] fs) ds ls udl in
    let valid =
      All-append IsName fs (ds ++ ls) wf.valid (All-append IsName ds ls wd.valid wl.valid) in
    rw (
      ef,
      ed,
      el,
      validate_sorted_names-ok [] fs wf.sorted uf,
      validate_sorted_names-ok (seen_after [] fs) ds wd.sorted ud,
      validate_sorted_names-ok (seen_after (seen_after [] fs) ds) ls wl.sorted ul,
      validate_names-ok [] (fs ++ (ds ++ ls)) valid u,
      hp,
      hf,
      hd,
      hl,
    )

-- The directory of the nodes that are made of the entries of a well-formed builder.
nodes-valid :
    (b : DirectoryBuilder) (np : Option NodeProperties × TreeWarnings)
    (fs : List FileNode × TreeWarnings) (ds : List DirectoryNode × TreeWarnings)
    (ls : List SymlinkNode × TreeWarnings)
    → IsBuilt b
    → reject_duplicate_names (sort_entries b) ≡ ok tt
    → normalize_optional_metadata b.metadata (codes ".") no_warnings ≡ ok np
    → encode_all file_node (sort_by file_name b.files) np.1 ≡ ok fs
    → encode_all directory_node (sort_by directory_name b.directories) fs.1 ≡ ok ds
    → encode_all symlink_node (sort_by symlink_name b.symlinks) ds.1 ≡ ok ls
    → validate_directory
        (record { files = fs.0; directories = ds.0; symlinks = ls.0; node_properties = np.0 })
      ≡ ok tt
unfolding sort_entries reject_duplicate_names
nodes-valid b np fs ds ls h fresh made_np made_fs made_ds made_ls =
    let files =
      encode_all-valid file_node file_name file_node_name validate_file_node
        (λ (x : FileEntry). IsValid x.digest) (λ w w' x n v m. file_node-valid w w' x n v m)
        (sort_by file_name b.files) np.1 fs.1 fs.0
        (sort_by-All file_name (λ (x : FileEntry). IsValid x.digest) b.files h.file_digests)
        made_fs in
    let directories =
      encode_all-valid directory_node directory_name directory_node_name validate_directory_node
        (λ (x : DirectoryEntry). IsValid x.digest)
        (λ w w' x n v m. directory_node-valid w w' x n v m) (sort_by directory_name b.directories)
        fs.1 ds.1 ds.0
        (sort_by-All directory_name (λ (x : DirectoryEntry). IsValid x.digest) b.directories
          h.directory_digests)
        made_ds in
    let symlinks =
      encode_all-valid symlink_node symlink_name symlink_node_name validate_symlink_node
        (HasName symlink_name) (λ w w' x n v m. symlink_node-valid w w' x n m)
        (sort_by symlink_name b.symlinks) ds.1 ls.1 ls.0
        (sort_by-All symlink_name (HasName symlink_name) b.symlinks h.symlink_names) made_ls in
    validate_directory-ok _ _ _ _ files.0 directories.0 symlinks.0
      (sort_by-Walked file_name b.files h.file_names)
      (sort_by-Walked directory_name b.directories h.directory_names)
      (sort_by-Walked symlink_name b.symlinks h.symlink_names)
      (reject_seen-Unique [] (builder_names (sort_entries b)) fresh)
      (normalize_optional_metadata-valid b.metadata (codes ".") (codes ".") no_warnings np.1 np.0
        made_np)
      files.1 directories.1 symlinks.1

-- The directory that `encode` returns is one that the decoder holds valid.
encode-valid :
    (sha256_hex : List ℕ → Text) (encode_to_vec : Directory → List ℕ) (b : DirectoryBuilder)
    (e : EncodedDirectory)
    → IsBuilt b
    → encode sha256_hex encode_to_vec b ≡ ok e
    → (validate_directory e.directory ≡ ok tt)
      × (e.bytes ≡ encode_to_vec e.directory)
      × (e.digest ≡ for_bytes sha256_hex e.bytes)
unfolding encode sort_entries
encode-valid sha256_hex encode_to_vec b e h encoded =
    let s = sort_entries b in
    let (_, fresh, r1) = >>=-eq-ok (map_err context (reject_duplicate_names s)) _ encoded in
    let (np, made_np, r2) =
      >>=-eq-ok (map_err context (normalize_optional_metadata s.metadata (codes ".") no_warnings)) _
        r1 in
    let (fs, made_fs, r3) = >>=-eq-ok (map_err context (encode_all file_node s.files np.1)) _ r2 in
    let (ds, made_ds, r4) =
      >>=-eq-ok (map_err context (encode_all directory_node s.directories fs.1)) _ r3 in
    let (ls, made_ls, r5) =
      >>=-eq-ok (map_err context (encode_all symlink_node s.symlinks ds.1)) _ r4 in
    let valid =
      nodes-valid b np fs ds ls h (map_err-eq-ok context (reject_duplicate_names s) fresh)
        (map_err-eq-ok context _ made_np)
        (map_err-eq-ok context (encode_all file_node s.files np.1) made_fs)
        (map_err-eq-ok context (encode_all directory_node s.directories fs.1) made_ds)
        (map_err-eq-ok context (encode_all symlink_node s.symlinks ds.1) made_ls) in
    subst
      (λ (x : EncodedDirectory).
        (validate_directory x.directory ≡ ok tt)
        × (x.bytes ≡ encode_to_vec x.directory)
        × (x.digest ≡ for_bytes sha256_hex x.bytes))
      (ok_injective r5) (valid, refl, refl)

digest_beq_refl : (d : Digest) → digest_beq d d ≡ true
digest_beq_refl d = rw (==_refl d.hash, ==_refl d.size_bytes)

-- When `encode` returns for a well-formed builder, `decode_directory` accepts its digest and bytes and
-- returns its directory, provided that prost decodes those bytes to what it encoded.
pub decode_directory-encode :
    (sha256_hex : List ℕ → Text) (encode_to_vec : Directory → List ℕ)
    (decode : List ℕ → Option Directory) (b : DirectoryBuilder) (e : EncodedDirectory)
    → IsBuilt b
    → encode sha256_hex encode_to_vec b ≡ ok e
    → decode (encode_to_vec e.directory) ≡ some e.directory
    → decode_directory sha256_hex decode e.digest e.bytes ≡ ok e.directory
unfolding decode_directory
decode_directory-encode sha256_hex encode_to_vec decode b e h encoded decoded =
    let (valid, bytes, digest) = encode-valid sha256_hex encode_to_vec b e h encoded in
    rw (bytes, digest, bytes, digest_beq_refl, decoded, valid)
