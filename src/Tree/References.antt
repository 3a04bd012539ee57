-- ===== src/Tree/References.antt =====
-- crates/rfs-common/src/tree.rs: the nodes of an encoded directory refer to the digests of its entries.
use remotefs.Base.{
  ℕ, ◌≡◌, refl, subst, Option, some, List, [], ◌∷◌, Result, ok, map_err, map_err-eq-ok,
}
use remotefs.Base.{>>=-eq-ok, ok_injective, arith, All}
use remotefs.Base.Text.{Text, codes}
use remotefs.Digest.{Digest, ReapiDigest, to_reapi, for_bytes}
use remotefs.Tree.Types.{FileNode, DirectoryNode, Directory, FileEntry, DirectoryEntry}
use remotefs.Tree.Types.{TreeWarnings, no_warnings, TreeError, context, EncodedDirectory}
use remotefs.Tree.Metadata.{normalize_optional_metadata}
use remotefs.Tree.Builder.{DirectoryBuilder, sort_entries, file_name, directory_name}
use remotefs.Tree.Builder.{reject_duplicate_names, file_node, directory_node, symlink_node}
use remotefs.Tree.Builder.{encode_all, encode}
use remotefs.Tree.Sorting.{sort_by-All}

module _ (P : Digest → Type 0) where
  -- A node's digest is the message of one that has the property.
  abbrev pub RefersTo : Option ReapiDigest → Type 0
  RefersTo r = (d : Digest) × (r ≡ some (to_reapi d)) × P d

  abbrev pub FileRefers : FileNode → Type 0
  FileRefers n = RefersTo n.digest

  abbrev pub DirectoryRefers : DirectoryNode → Type 0
  DirectoryRefers n = RefersTo n.digest

file_node-digest :
    (e : FileEntry) (w w' : TreeWarnings) (n : FileNode)
    → file_node e w ≡ ok (n, w')
    → n.digest ≡ some (to_reapi e.digest)
unfolding file_node
file_node-digest e w w' n h =
    let (normal, _, made) =
      >>=-eq-ok (map_err context (normalize_optional_metadata (some e.metadata) e.name w)) _ h in
    ground arith

directory_node-digest :
    (e : DirectoryEntry) (w w' : TreeWarnings) (n : DirectoryNode)
    → directory_node e w ≡ ok (n, w')
    → n.digest ≡ some (to_reapi e.digest)
unfolding directory_node
directory_node-digest e w w' n h =
    let (normal, _, made) =
      >>=-eq-ok (map_err context (normalize_optional_metadata (some e.metadata) e.name w)) _ h in
    ground arith

module _ {A B : Type 0} (f : A → TreeWarnings → Result TreeError (B × TreeWarnings))
    (P : A → Type 0) (Q : B → Type 0)
    (each : (a : A) (w w' : TreeWarnings) (b : B) → P a → f a w ≡ ok (b, w') → Q b) where
  encode_all-All :
      (l : List A) (w w' : TreeWarnings) (nodes : List B)
      → All P l
      → encode_all f l w ≡ ok (nodes, w')
      → All Q nodes
  unfolding encode_all
  encode_all-All [] w w' nodes p h =
      subst (λ (x : List B × TreeWarnings). All Q x.0) (ok_injective h) tt
  encode_all-All (a ∷ l) w w' nodes p h =
      let (one, made, rest) = >>=-eq-ok (map_err context (f a w)) _ h in
      let (others, encoded, whole) = >>=-eq-ok (encode_all f l one.1) _ rest in
      subst (λ (x : List B × TreeWarnings). All Q x.0) (ok_injective whole)
        (
          each a w one.1 one.0 p.0 (map_err-eq-ok context (f a w) made),
          encode_all-All l one.1 others.1 others.0 p.1 encoded,
        )

-- What holds of the digests of a builder's files, and of its directories, holds of the digests in the
-- nodes that `encode` makes; its result has the digest of its bytes.
pub encode-references :
    (sha256_hex : List ℕ → Text) (encode_to_vec : Directory → List ℕ) (P Q : Digest → Type 0)
    (b : DirectoryBuilder) (e : EncodedDirectory)
    → All (λ (x : FileEntry). P x.digest) b.files
    → All (λ (x : DirectoryEntry). Q x.digest) b.directories
    → encode sha256_hex encode_to_vec b ≡ ok e
    → All (FileRefers P) e.directory.files
      × All (DirectoryRefers Q) e.directory.directories
      × (for_bytes sha256_hex e.bytes ≡ e.digest)
unfolding encode sort_entries
encode-references sha256_hex encode_to_vec P Q b e fp dq encoded =
    let s = sort_entries b in
    let (_, _, r1) = >>=-eq-ok (map_err context (reject_duplicate_names s)) _ encoded in
    let (np, _, r2) =
      >>=-eq-ok (map_err context (normalize_optional_metadata s.metadata (codes ".") no_warnings)) _
        r1 in
    let (fs, made_fs, r3) = >>=-eq-ok (map_err context (encode_all file_node s.files np.1)) _ r2 in
    let (ds, made_ds, r4) =
      >>=-eq-ok (map_err context (encode_all directory_node s.directories fs.1)) _ r3 in
    let (ls, _, r5) = >>=-eq-ok (map_err context (encode_all symlink_node s.symlinks ds.1)) _ r4 in
    let files =
      encode_all-All file_node (λ (x : FileEntry). P x.digest) (FileRefers P)
        (λ a w w' n p made. (a.digest, file_node-digest a w w' n made, p)) s.files np.1 fs.1 fs.0
        (sort_by-All file_name (λ (x : FileEntry). P x.digest) b.files fp)
        (map_err-eq-ok context (encode_all file_node s.files np.1) made_fs) in
    let directories =
      encode_all-All directory_node (λ (x : DirectoryEntry). Q x.digest) (DirectoryRefers Q)
        (λ a w w' n p made. (a.digest, directory_node-digest a w w' n made, p)) s.directories fs.1
        ds.1 ds.0 (sort_by-All directory_name (λ (x : DirectoryEntry). Q x.digest) b.directories dq)
        (map_err-eq-ok context (encode_all directory_node s.directories fs.1) made_ds) in
    subst
      (λ (x : EncodedDirectory).
        All (FileRefers P) x.directory.files
        × All (DirectoryRefers Q) x.directory.directories
        × (for_bytes sha256_hex x.bytes ≡ x.digest))
      (ok_injective r5) (files, directories, refl)
