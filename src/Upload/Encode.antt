-- ===== src/Upload/Encode.antt =====
-- crates/rfs-common/src/upload.rs: the encoding of a scanned tree as directories, bottom-up.
use remotefs.Base.{ℕ, ◌%◌, ◌^◌, ◌-◌, Option, none, some, List, [], ◌∷◌, map}
use remotefs.Base.{Result, ok, ◌>>=◌, ok_or, map_err, if◌then◌else◌, ltb, ◌==◌, nat_eq, list_eq}
use remotefs.Base.Int.{ℤ, pos, negsuc}
use remotefs.Base.Text.{Text, codes}
use remotefs.Digest.{Digest}
use remotefs.Tree.Types
use remotefs.Tree.Types.{NodeKind, NodeMetadata, TreeWarnings, no_warnings, EncodedDirectory, merge}
use remotefs.Tree.Types.{Directory}
use remotefs.Tree.Builder.{
  DirectoryBuilder, with_metadata, add_file, add_directory, add_symlink, encode,
}
use remotefs.Upload.Types.{
  UploadError, tree, invalid_option, context, Metadata, RelativePath, LocalDirectoryChild, file,
  directory, symlink, LocalDirectory, LocalTree, FileDigest, EncodedDirectoryTree,
}

-- `as i32` of an `i64`: the low 32 bits, with their sign.
unfoldable pub as_i32 : ℤ → ℤ
as_i32 (pos n) =
    let low = n % 2 ^ 32 in if ltb low (2 ^ 31) then pos low else negsuc (2 ^ 32 - 1 - low)
as_i32 (negsuc n) =
    let low = n % 2 ^ 32 in if ltb low (2 ^ 31) then negsuc low else pos (2 ^ 32 - 1 - low)

unfoldable pub metadata_for : NodeKind → Metadata → NodeMetadata
unfolding as_i32
metadata_for kind m = record {
  mode = some (m.mode % 2 ^ 12);
  mtime = some (record { seconds = m.mtime; nanos = as_i32 m.mtime_nsec });
  kind = kind;
}

-- A `HashMap<PathBuf, Digest>`: an entry hides those of the same path after it.
abbrev pub PathMap : Type 0
PathMap = List (RelativePath × Digest)

unfoldable pub get : RelativePath → PathMap → Option Digest
get path [] = none
get path ((known, digest) ∷ rest) = if known == path then some digest else get path rest

abbrev pub digest_entry : FileDigest → RelativePath × Digest
digest_entry f = (f.relative_path, f.digest)

-- `collect::<HashMap<_, _>>()`, where a later entry replaces an earlier one.
unfoldable pub collect : List FileDigest → PathMap → PathMap
collect [] m = m
collect (f ∷ files) m = collect files (digest_entry f ∷ m)

abbrev pub file_blob : FileDigest → Digest × Text
file_blob f = (f.digest, f.absolute_path)

unfoldable pub encode_entry :
    PathMap → PathMap → LocalDirectoryChild → DirectoryBuilder → Result UploadError DirectoryBuilder
unfolding get metadata_for
encode_entry files directories (file f) builder = do
  digest ← ok_or (invalid_option (codes "file_digests")) (get f.relative_path files)
  map_err tree (
      add_file
        (record { name = f.name; digest = digest; metadata = metadata_for Types.file f.metadata })
        builder)
encode_entry files directories (directory d) builder = do
  digest ← ok_or (invalid_option (codes "directory_digests")) (get d.relative_path directories)
  map_err tree (
      add_directory
        (record {
          name = d.name;
          digest = digest;
          metadata = metadata_for Types.directory d.metadata;
        })
        builder)
encode_entry files directories (symlink s) builder = map_err tree (
    add_symlink
      (record {
        name = s.name;
        target = s.target;
        metadata = metadata_for Types.symlink s.metadata;
      })
      builder)

-- The loop over the entries of one directory.
unfoldable pub encode_entries :
    PathMap
    → PathMap
    → List LocalDirectoryChild
    → DirectoryBuilder
    → Result UploadError DirectoryBuilder
unfolding encode_entry
encode_entries files directories [] builder = ok builder
encode_entries files directories (entry ∷ entries) builder = do
  builder' ← encode_entry files directories entry builder
  encode_entries files directories entries builder'

module _ (sha256_hex : List ℕ → Text) (encode_to_vec : Directory → List ℕ) where
  unfoldable pub encode_directory :
      LocalDirectory → PathMap → PathMap → Result UploadError EncodedDirectory
  unfolding encode_entries with_metadata
  encode_directory local files directories = do
    builder ←
        encode_entries files directories local.entries
          (with_metadata (some (metadata_for Types.directory local.metadata)))
    map_err tree (encode sha256_hex encode_to_vec builder)

  -- The loop over the directories, with what it has gathered.
  unfoldable pub encode_directories :
      PathMap
      → List LocalDirectory
      → PathMap
      → TreeWarnings
      → Result UploadError (PathMap × List EncodedDirectory × TreeWarnings)
  unfolding encode_directory
  encode_directories files [] known warnings = ok (known, [], warnings)
  encode_directories files (local ∷ locals) known warnings = do
    encoded ← map_err context (encode_directory local files known)
    (known', rest, warnings') ←
        encode_directories files locals ((local.relative_path, encoded.digest) ∷ known)
          (merge warnings encoded.warnings)
    ok (known', encoded ∷ rest, warnings')

  unfoldable pub encode_local_tree :
      LocalTree → List FileDigest → Result UploadError EncodedDirectoryTree
  unfolding collect encode_directories
  encode_local_tree local file_digests = do
    (known, encoded, warnings) ←
        encode_directories (collect file_digests []) local.directories [] no_warnings
    root_digest ← ok_or (invalid_option (codes "root")) (get [] known)
    ok (record {
      root_digest = root_digest;
      directories = encoded;
      file_blobs = map file_blob file_digests;
      warnings = warnings;
    })
