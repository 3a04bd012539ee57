-- ===== src/Upload/Types.antt =====
-- crates/rfs-common/src/upload.rs: options, the scanned tree and errors. The text of a reason or of a
-- context is not kept.
use remotefs.Base.{ℕ, ◌+◌, ◌*◌, ◌/◌, min, if◌then◌else◌, ltb, List}
use remotefs.Base.{Result, ◌>>◌, reject_if, ◌==◌, nat_eq, Bool}
use remotefs.Base.Int.{ℤ}
use remotefs.Base.Text.{Text, codes}
use remotefs.Digest.{Digest}
use remotefs.Tree.Types.{TreeError, TreeWarnings, EncodedDirectory}
use remotefs.Cas.Blobs.{CasError}

pub record UploadOptions : Type 0 where
  pub hash_workers : ℕ
  pub in_flight_bytes : ℕ
  pub fail_on_unsupported_nodes : Bool

pub record UploadWarnings : Type 0 where
  pub hard_links : ℕ
  pub masked_setuid : ℕ
  pub masked_setgid : ℕ
  pub absolute_symlinks : ℕ
  pub escaping_symlinks : ℕ

-- `UploadWarnings::default`
abbrev pub no_upload_warnings : UploadWarnings
no_upload_warnings = record {
  hard_links = 0;
  masked_setuid = 0;
  masked_setgid = 0;
  absolute_symlinks = 0;
  escaping_symlinks = 0;
}

unfoldable pub merge_tree : UploadWarnings → TreeWarnings → UploadWarnings
merge_tree w warnings = record w {
  masked_setuid = w.masked_setuid + warnings.masked_setuid;
  masked_setgid = w.masked_setgid + warnings.masked_setgid;
  absolute_symlinks = w.absolute_symlinks + warnings.absolute_symlinks;
  escaping_symlinks = w.escaping_symlinks + warnings.escaping_symlinks;
}

pub data UploadError : Type 0 where
  tree : TreeError → UploadError
  cas : CasError → UploadError
  filesystem invalid_option : Text → UploadError
  unexpected_missing_digest : Digest → UploadError
  context : UploadError → UploadError

-- What `std::fs::Metadata` gives of one node.
pub record Metadata : Type 0 where
  pub mode : ℕ
  pub mtime : ℤ
  pub mtime_nsec : ℤ
  pub dev : ℕ
  pub ino : ℕ
  pub len : ℕ

-- A path below the root, by its components.
abbrev pub RelativePath : Type 0
RelativePath = List Text

pub record LocalFile : Type 0 where
  pub name : Text
  pub relative_path : RelativePath
  pub absolute_path : Text
  pub metadata : Metadata

pub record LocalSubDirectory : Type 0 where
  pub name : Text
  pub relative_path : RelativePath
  pub metadata : Metadata

pub record LocalSymlink : Type 0 where
  pub name : Text
  pub target : Text
  pub metadata : Metadata

pub data LocalDirectoryChild : Type 0 where
  file : LocalFile → LocalDirectoryChild
  directory : LocalSubDirectory → LocalDirectoryChild
  symlink : LocalSymlink → LocalDirectoryChild

pub record LocalDirectory : Type 0 where
  pub relative_path : RelativePath
  pub absolute_path : Text
  pub metadata : Metadata
  pub entries : List LocalDirectoryChild

pub record LocalTree : Type 0 where
  pub root : Text
  pub directories : List LocalDirectory
  pub files : List LocalFile
  pub symlinks : ℕ
  pub warnings : UploadWarnings

pub record FileDigest : Type 0 where
  pub relative_path : RelativePath
  pub absolute_path : Text
  pub digest : Digest
  pub size_bytes : ℕ

-- crates/rfs-common/src/tree.rs
pub record EncodedDirectoryTree : Type 0 where
  pub root_digest : Digest
  pub directories : List EncodedDirectory
  pub file_blobs : List (Digest × Text)
  pub warnings : TreeWarnings

unfoldable pub validate_options : UploadOptions → Result UploadError (Unit {0})
validate_options options = do
  reject_if (options.hash_workers == 0) (invalid_option (codes "hash_workers"))
  reject_if (options.in_flight_bytes == 0) (invalid_option (codes "in_flight_bytes"))
  reject_if (ltb options.in_flight_bytes options.hash_workers)
      (invalid_option (codes "in_flight_bytes"))

abbrev pub hash_chunk_limit : ℕ
hash_chunk_limit = 1024 * 1024

unfoldable pub hash_chunk_bytes : UploadOptions → ℕ
hash_chunk_bytes options =
    let share = options.in_flight_bytes / options.hash_workers in
    min hash_chunk_limit (if ltb share 1 then 1 else share)

-- `usize::clamp` to 2 and 8.
unfoldable pub default_hash_workers_for : ℕ → ℕ
default_hash_workers_for available =
    if ltb available 2 then 2 else if ltb 8 available then 8 else available
