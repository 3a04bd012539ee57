-- ===== src/Upload/Lookups.antt =====
-- crates/rfs-common/src/upload.rs: what the encoding looks up, and that it fails by nothing else.
use remotefs.Base.{ℕ, ◌≡◌, refl, ap, ap₂, ◌∙◌, subst, true, Option, List, [], ◌∷◌}
use remotefs.Base.{
  map, arith, All, Result, ok, err, ◌>>=◌, >>=-eq-ok, map_err, map_err-eq-ok, ok_injective,
}
use remotefs.Base.{
  contains, nat_eq, list_eq, Bool-cases, inl, inr, is_some, ok_or, try_map, ==_iff, ◌==◌, ==_refl,
}
use remotefs.Base.Text.{Text, codes}
use remotefs.Digest.{Digest}
use remotefs.Tree.Types.{TreeError}
use remotefs.Tree.Builder.{DirectoryBuilder}
use remotefs.Upload.Types.{
  UploadOptions, UploadError, tree, cas, filesystem, invalid_option, unexpected_missing_digest,
  context, RelativePath, LocalFile, LocalDirectoryChild, file, directory, symlink, FileDigest,
  validate_options, hash_chunk_bytes,
}
use remotefs.Upload.Paths.{digest_leb}
use remotefs.Upload.Hash.{Reads, finish_hash, hash_file, hash_files, hash_reads}
use remotefs.Upload.Encode.{PathMap, get, collect, digest_entry, encode_entry, encode_entries}
use remotefs.Upload.Members.{Within, sort_with-Within}
use remotefs.Upload.Listing.{file_path}

abbrev pub digest_path : FileDigest → RelativePath
digest_path f = f.relative_path

-- An error of the tree encoding, not of the pipeline.
abbrev pub IsTreeError : UploadError → Type 0
IsTreeError (tree e) = Unit
IsTreeError (context e) = IsTreeError e
IsTreeError (cas e) = ⊥
IsTreeError (filesystem path) = ⊥
IsTreeError (invalid_option name) = ⊥
IsTreeError (unexpected_missing_digest d) = ⊥

abbrev pub FailsByTree : {A : Type 0} → Result UploadError A → Type 0
FailsByTree (ok a) = Unit
FailsByTree (err e) = IsTreeError e

module _ {A B : Type 0} where
  pub FailsByTree-bind :
      (r : Result UploadError A) (f : A → Result UploadError B)
      → FailsByTree r
      → ((a : A) → r ≡ ok a → FailsByTree (f a))
      → FailsByTree (r >>= f)
  FailsByTree-bind (ok a) f h k = k a refl
  FailsByTree-bind (err e) f h k = h

module _ {A : Type 0} where
  pub FailsByTree-context :
      (r : Result UploadError A) → FailsByTree r → FailsByTree (map_err context r)
  FailsByTree-context (ok a) h = tt
  FailsByTree-context (err e) h = h

  pub FailsByTree-tree : (r : Result TreeError A) → FailsByTree (map_err tree r)
  FailsByTree-tree (ok a) = tt
  FailsByTree-tree (err e) = tt

abbrev pub Has : RelativePath → PathMap → Type 0
Has path m = is_some (get path m) ≡ true

pub Has-digest :
    (e : UploadError) (path : RelativePath) (m : PathMap)
    → Has path m
    → FailsByTree (ok_or e (get path m))
Has-digest e path m h = ground arith

pub Has-insert :
    (path known : RelativePath) (d : Digest) (m : PathMap) → Has path m → Has path ((known, d) ∷ m)
unfolding get
Has-insert path known d m h = ground arith

pub Has-inserted : (path : RelativePath) (d : Digest) (m : PathMap) → Has path ((path, d) ∷ m)
unfolding get
Has-inserted path d m = rw (==_refl path) refl

collect-keeps :
    (files : List FileDigest) (m : PathMap) (path : RelativePath)
    → Has path m
    → Has path (collect files m)
unfolding collect
collect-keeps [] m path h = h
collect-keeps (f ∷ files) m path h =
    collect-keeps files (digest_entry f ∷ m) path (Has-insert path f.relative_path f.digest m h)

pub collect-Has :
    (files : List FileDigest) (m : PathMap) (path : RelativePath)
    → contains (map digest_path files) path ≡ true
    → Has path (collect files m)
unfolding collect
collect-Has [] m path h = cc
collect-Has (f ∷ files) m path h = elim (Bool-cases (path == f.relative_path)) [
  | inl same ↦
      let found : path ≡ f.relative_path = (==_iff path f.relative_path).0 same in
      collect-keeps files (digest_entry f ∷ m) path
        (rw found (Has-inserted f.relative_path f.digest m))
  | inr other ↦ collect-Has files (digest_entry f ∷ m) path (rw other at h)
]

module _ (sha256_hex : List ℕ → Text) (open_file : Text → ℕ → Option Reads) where
  finish_hash-path :
      (f : LocalFile) (read_all : List ℕ × ℕ) (d : FileDigest)
      → finish_hash sha256_hex open_file f read_all ≡ ok d
      → f.relative_path ≡ d.relative_path
  unfolding finish_hash
  finish_hash-path f read_all d h = ground arith

  hash_file-path :
      (chunk_bytes : ℕ) (f : LocalFile) (d : FileDigest)
      → hash_file sha256_hex open_file chunk_bytes f ≡ ok d
      → f.relative_path ≡ d.relative_path
  unfolding hash_file
  hash_file-path chunk_bytes f d h =
      let (reads, _, h1) =
        >>=-eq-ok (ok_or (filesystem f.absolute_path) (open_file f.absolute_path chunk_bytes)) _
          h in
      let (hashed, _, h2) =
        >>=-eq-ok (hash_reads sha256_hex open_file f.absolute_path reads [] 0) _ h1 in
      finish_hash-path f hashed d h2

  hash_each-paths :
      (chunk_bytes : ℕ) (files : List LocalFile) (digests : List FileDigest)
      → try_map (λ f. map_err context (hash_file sha256_hex open_file chunk_bytes f)) files
        ≡ ok digests
      → map file_path files ≡ map digest_path digests
  hash_each-paths chunk_bytes [] digests h = ap (map digest_path) (ok_injective h)
  hash_each-paths chunk_bytes (f ∷ files) digests h =
      let hashed = hash_file sha256_hex open_file chunk_bytes f in
      let (d, first, h1) = >>=-eq-ok (map_err context hashed) _ h in
      let (ds, rest, made) = >>=-eq-ok (try_map _ files) _ h1 in
      ap₂ ◌∷◌ (hash_file-path chunk_bytes f d (map_err-eq-ok context hashed first))
        (hash_each-paths chunk_bytes files ds rest)
      ∙ ap (map digest_path) (ok_injective made)

  -- Every scanned file has a digest.
  pub hash_files-Within :
      (files : List LocalFile) (options : UploadOptions) (digests : List FileDigest)
      → hash_files sha256_hex open_file files options ≡ ok digests
      → Within (map file_path files) (map digest_path digests)
  unfolding hash_files
  hash_files-Within files options digests h path m =
      let (_, _, h1) = >>=-eq-ok (validate_options options) _ h in
      let (hashed, each, made) = >>=-eq-ok (try_map _ files) _ h1 in
      let paths = hash_each-paths (hash_chunk_bytes options) files hashed each in
      subst (λ (ds : List FileDigest). contains (map digest_path ds) path ≡ true)
        (ok_injective made)
        (sort_with-Within digest_path digest_leb hashed path
          (subst (λ (ps : List RelativePath). contains ps path ≡ true) paths m))

-- What the encoding looks up for one entry.
abbrev pub HasDigest : PathMap → PathMap → LocalDirectoryChild → Type 0
HasDigest files directories (file f) = Has f.relative_path files
HasDigest files directories (directory d) = Has d.relative_path directories
HasDigest files directories (symlink l) = Unit

encode_entry-tree :
    (files directories : PathMap) (c : LocalDirectoryChild) (b : DirectoryBuilder)
    → HasDigest files directories c
    → FailsByTree (encode_entry files directories c b)
unfolding encode_entry
encode_entry-tree files directories (file f) b h =
    FailsByTree-bind (ok_or (invalid_option (codes "file_digests")) (get f.relative_path files)) _
      (Has-digest (invalid_option (codes "file_digests")) f.relative_path files h)
      (λ d _. FailsByTree-tree _)
encode_entry-tree files directories (directory d) b h =
    FailsByTree-bind
      (ok_or (invalid_option (codes "directory_digests")) (get d.relative_path directories)) _
      (Has-digest (invalid_option (codes "directory_digests")) d.relative_path directories h)
      (λ e _. FailsByTree-tree _)
encode_entry-tree files directories (symlink l) b h = FailsByTree-tree _

pub encode_entries-tree :
    (files directories : PathMap) (cs : List LocalDirectoryChild) (b : DirectoryBuilder)
    → All (HasDigest files directories) cs
    → FailsByTree (encode_entries files directories cs b)
unfolding encode_entries
encode_entries-tree files directories [] b h = tt
encode_entries-tree files directories (c ∷ cs) b h =
    FailsByTree-bind (encode_entry files directories c b) _
      (encode_entry-tree files directories c b h.0)
      (λ b' _. encode_entries-tree files directories cs b' h.1)
