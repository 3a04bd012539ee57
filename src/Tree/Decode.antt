-- ===== src/Tree/Decode.antt =====
-- crates/rfs-common/src/tree.rs: `decode_directory` and the validation of what was decoded.
use remotefs.Base.{ℕ, Bool, false, not, Option, none, some, List, [], ◌∷◌, ◌++◌, map}
use remotefs.Base.{Result, ok, err, ◌>>=◌, ◌>>◌, map_err, ok_or, reject_if, for_each}
use remotefs.Base.{if◌then◌else◌, contains, nat_eq, list_eq}
use remotefs.Base.Text.{Text, codes, text_leb}
use remotefs.Digest.{Digest, ReapiDigest, digest_beq, from_reapi, for_bytes}
use remotefs.Tree.Types.{NodeProperties, FileNode, DirectoryNode, SymlinkNode, Directory, TreeError}
use remotefs.Tree.Types.{duplicate_name, missing_digest, invalid_digest, digest_mismatch, context}
use remotefs.Tree.Types.{decode as decode_failed}
use remotefs.Tree.Metadata.{validate_name, validate_timestamp}

abbrev previous_ge : Option Text → Text → Bool
previous_ge none name = false
previous_ge (some previous) name = text_leb name previous

-- The loop of `validate_sorted_names`, with its `previous`.
unfoldable pub sorted_after : Option Text → List Text → Result TreeError (Unit {0})
sorted_after previous [] = ok tt
sorted_after previous (name ∷ names) =
    let rest = sorted_after (some name) names in
    if previous_ge previous name then err (duplicate_name name) else rest

unfoldable pub validate_sorted_names : List Text → Result TreeError (Unit {0})
unfolding sorted_after
validate_sorted_names names = sorted_after none names

validate_mtime_of : Text → NodeProperties → Result TreeError (Unit {0})
validate_mtime_of name p = elim p.mtime [
  | none ↦ ok tt
  | some t ↦ map_err context (validate_timestamp name t)
]

unfoldable pub validate_node_properties : Text → Option NodeProperties → Result TreeError (Unit {0})
unfolding validate_mtime_of
validate_node_properties name none = ok tt
validate_node_properties name (some p) = validate_mtime_of name p

unfoldable pub validate_digest : Text → Option ReapiDigest → Result TreeError (Unit {0})
validate_digest name digest = do
  d ← ok_or (missing_digest name) digest
  checked ← map_err (invalid_digest name) (from_reapi d)
  ok tt

-- The walk over all names: each is valid and new.
unfoldable pub validate_names : List Text → List Text → Result TreeError (Unit {0})
validate_names seen [] = ok tt
validate_names seen (name ∷ names) = do
  map_err context (validate_name name)
  reject_if (contains seen name) (duplicate_name name)
  validate_names (name ∷ seen) names

abbrev pub file_node_name : FileNode → Text
file_node_name n = n.name

abbrev pub directory_node_name : DirectoryNode → Text
directory_node_name n = n.name

abbrev pub symlink_node_name : SymlinkNode → Text
symlink_node_name n = n.name

abbrev pub directory_names : Directory → List Text
directory_names d =
    map file_node_name d.files
    ++ (map directory_node_name d.directories ++ map symlink_node_name d.symlinks)

unfoldable pub validate_file_node : FileNode → Result TreeError (Unit {0})
validate_file_node node = do
  validate_digest node.name node.digest
  map_err context (validate_node_properties node.name node.node_properties)

-- The properties of a child directory are not looked at.
unfoldable pub validate_directory_node : DirectoryNode → Result TreeError (Unit {0})
validate_directory_node node = validate_digest node.name node.digest

unfoldable pub validate_symlink_node : SymlinkNode → Result TreeError (Unit {0})
validate_symlink_node node =
    map_err context (validate_node_properties node.name node.node_properties)

unfoldable pub validate_directory : Directory → Result TreeError (Unit {0})
validate_directory d = do
  map_err context (validate_sorted_names (map file_node_name d.files))
  map_err context (validate_sorted_names (map directory_node_name d.directories))
  map_err context (validate_sorted_names (map symlink_node_name d.symlinks))
  validate_names [] (directory_names d)
  map_err context (validate_node_properties (codes ".") d.node_properties)
  for_each validate_file_node d.files
  for_each validate_directory_node d.directories
  for_each validate_symlink_node d.symlinks

-- SHA-256 in hexadecimal, and prost's `Directory::decode`, whose error is not kept.
module _ (sha256_hex : List ℕ → Text) (decode : List ℕ → Option Directory) where
  unfoldable pub decode_directory : Digest → List ℕ → Result TreeError Directory
  decode_directory expected bytes = do
    let actual = for_bytes sha256_hex bytes
    reject_if (not (digest_beq actual expected)) (digest_mismatch expected actual)
    directory ← ok_or (decode_failed expected) (decode bytes)
    map_err context (validate_directory directory)
    ok directory
