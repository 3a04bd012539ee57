-- ===== src/Tree/Builder.antt =====
-- crates/rfs-common/src/tree.rs: `DirectoryBuilder`, and the encoding of one directory.
use remotefs.Base.{ℕ, Bool, ◌||◌, Option, none, some, List, [], ◌∷◌, ◌++◌, map}
use remotefs.Base.{Result, ok, err, ◌>>=◌, ◌>>◌, map_err, if◌then◌else◌, contains, nat_eq, list_eq}
use remotefs.Base.Text.{Text, codes, text_leb, starts_with}
use remotefs.Digest.{to_reapi, for_bytes}
use remotefs.Tree.Types.{NodeMetadata, NodeProperties, FileNode, DirectoryNode, SymlinkNode}
use remotefs.Tree.Types.{Directory, FileEntry, DirectoryEntry, SymlinkEntry, TreeWarnings}
use remotefs.Tree.Types.{no_warnings, add, absolute_symlink, escaping_symlink, TreeError}
use remotefs.Tree.Types.{duplicate_name, context, EncodedDirectory}
use remotefs.Tree.Metadata.{has_bit, normalize_optional_metadata, validate_name, target_escapes}

pub record DirectoryBuilder : Type 0 where
  pub metadata : Option NodeMetadata
  pub files : List FileEntry
  pub directories : List DirectoryEntry
  pub symlinks : List SymlinkEntry

unfoldable pub with_metadata : Option NodeMetadata → DirectoryBuilder
with_metadata metadata = record { metadata = metadata; files = []; directories = []; symlinks = [] }

unfoldable pub add_file : FileEntry → DirectoryBuilder → Result TreeError DirectoryBuilder
add_file entry b = do
  map_err context (validate_name entry.name)
  ok (record b { files = b.files ++ entry ∷ [] })

unfoldable pub add_directory : DirectoryEntry → DirectoryBuilder → Result TreeError DirectoryBuilder
add_directory entry b = do
  map_err context (validate_name entry.name)
  ok (record b { directories = b.directories ++ entry ∷ [] })

unfoldable pub add_symlink : SymlinkEntry → DirectoryBuilder → Result TreeError DirectoryBuilder
add_symlink entry b = do
  map_err context (validate_name entry.name)
  ok (record b { symlinks = b.symlinks ++ entry ∷ [] })

module _ {ℓ} {A : Type ℓ} (name : A → Text) where
  unfoldable pub insert_by : A → List A → List A
  insert_by a [] = a ∷ []
  insert_by a (b ∷ l) =
      let rest = insert_by a l in if text_leb (name a) (name b) then a ∷ b ∷ l else b ∷ rest

  -- `sort_by` on the names, which is stable.
  unfoldable pub sort_by : List A → List A
  unfolding insert_by
  sort_by [] = []
  sort_by (a ∷ l) = insert_by a (sort_by l)

abbrev pub file_name : FileEntry → Text
file_name e = e.name

abbrev pub directory_name : DirectoryEntry → Text
directory_name e = e.name

abbrev pub symlink_name : SymlinkEntry → Text
symlink_name e = e.name

unfoldable pub sort_entries : DirectoryBuilder → DirectoryBuilder
unfolding sort_by
sort_entries b = record b {
  files = sort_by file_name b.files;
  directories = sort_by directory_name b.directories;
  symlinks = sort_by symlink_name b.symlinks;
}

-- The names of all entries, in the order in which they are walked.
abbrev pub builder_names : DirectoryBuilder → List Text
builder_names b =
    map file_name b.files ++ (map directory_name b.directories ++ map symlink_name b.symlinks)

-- The walk over names with the set of those already seen.
unfoldable pub reject_seen : List Text → List Text → Result TreeError (Unit {0})
reject_seen seen [] = ok tt
reject_seen seen (name ∷ names) =
    let rest = reject_seen (name ∷ seen) names in
    if contains seen name then err (duplicate_name name) else rest

unfoldable pub reject_duplicate_names : DirectoryBuilder → Result TreeError (Unit {0})
unfolding reject_seen
reject_duplicate_names b = reject_seen [] (builder_names b)

abbrev unix_mode_or_zero : Option NodeProperties → ℕ
unix_mode_or_zero none = 0
unix_mode_or_zero (some p) = elim p.unix_mode [ none ↦ 0 | some mode ↦ mode ]

-- `mode & 0o111 != 0`
abbrev has_execute_bit : ℕ → Bool
has_execute_bit mode = has_bit 0 mode || (has_bit 3 mode || has_bit 6 mode)

unfoldable pub file_node : FileEntry → TreeWarnings → Result TreeError (FileNode × TreeWarnings)
file_node entry warnings = do
  normal ← map_err context (normalize_optional_metadata (some entry.metadata) entry.name warnings)
  ok (
    record {
      name = entry.name;
      digest = some (to_reapi entry.digest);
      is_executable = has_execute_bit (unix_mode_or_zero normal.0);
      node_properties = normal.0;
    },
    normal.1,
  )

unfoldable pub directory_node :
    DirectoryEntry → TreeWarnings → Result TreeError (DirectoryNode × TreeWarnings)
directory_node entry warnings = do
  normal ← map_err context (normalize_optional_metadata (some entry.metadata) entry.name warnings)
  ok (
    record { name = entry.name; digest = some (to_reapi entry.digest); node_properties = normal.0 },
    normal.1,
  )

unfoldable pub link_warnings : SymlinkEntry → TreeWarnings → TreeWarnings
link_warnings entry w =
    let w' =
      if starts_with b'/' entry.target
      then add (absolute_symlink entry.name entry.target) w
      else w in
    if target_escapes entry.target then add (escaping_symlink entry.name entry.target) w' else w'

unfoldable pub symlink_node :
    SymlinkEntry → TreeWarnings → Result TreeError (SymlinkNode × TreeWarnings)
unfolding link_warnings
symlink_node entry warnings = do
  let linked = link_warnings entry warnings
  normal ← map_err context (normalize_optional_metadata (some entry.metadata) entry.name linked)
  ok (record { name = entry.name; target = entry.target; node_properties = normal.0 }, normal.1)

module _ {ℓ κ} {A : Type ℓ} {B : Type κ}
    (f : A → TreeWarnings → Result TreeError (B × TreeWarnings)) where
  -- `.map(…).collect::<Result<Vec<_>, _>>()?` with a closure that adds to the warnings.
  unfoldable pub encode_all : List A → TreeWarnings → Result TreeError (List B × TreeWarnings)
  encode_all [] w = ok ([], w)
  encode_all (a ∷ l) w = do
    (node, w') ← map_err context (f a w)
    (nodes, w'') ← encode_all l w'
    ok (node ∷ nodes, w'')

-- SHA-256 in hexadecimal, and prost's `encode_to_vec` of a `Directory`.
module _ (sha256_hex : List ℕ → Text) (encode_to_vec : Directory → List ℕ) where
  -- The last part of `encode`: the bytes and their digest.
  unfoldable pub seal : Directory → TreeWarnings → EncodedDirectory
  seal directory warnings = record {
    digest = for_bytes sha256_hex (encode_to_vec directory);
    bytes = encode_to_vec directory;
    directory = directory;
    warnings = warnings;
  }

  unfoldable pub encode : DirectoryBuilder → Result TreeError EncodedDirectory
  unfolding seal
  encode builder = do
    let b = sort_entries builder
    map_err context (reject_duplicate_names b)
    (node_properties, w) ←
        map_err context (normalize_optional_metadata b.metadata (codes ".") no_warnings)
    (files, w') ← map_err context (encode_all file_node b.files w)
    (directories, w'') ← map_err context (encode_all directory_node b.directories w')
    (symlinks, w''') ← map_err context (encode_all symlink_node b.symlinks w'')
    ok (
        seal
          (record {
            files = files;
            directories = directories;
            symlinks = symlinks;
            node_properties = node_properties;
          })
          w''')
