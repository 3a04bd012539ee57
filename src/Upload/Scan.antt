-- ===== src/Upload/Scan.antt =====
-- crates/rfs-common/src/upload.rs: the scan of the local file system. A node is what the system calls
-- answer at one path, the same at every call while the scan runs.
use remotefs.Base.{ℕ, ◌+◌, Bool, true, false, Option, none, some, List, [], ◌∷◌, ◌++◌}
use remotefs.Base.{Result, ok, err, ◌>>=◌, ◌>>◌, ok_or, map_err, if◌then◌else◌}
use remotefs.Base.{nat_eq, eqb, ◌&&◌}
use remotefs.Base.Text.{Text, codes, text_leb}
use remotefs.Tree.Types.{non_utf8_symlink_target, unsupported_node_type}
use remotefs.Upload.Types.{
  UploadOptions, UploadWarnings, no_upload_warnings, UploadError, tree, filesystem, invalid_option,
  context, Metadata, RelativePath, LocalFile, LocalDirectoryChild, file, directory, symlink,
  LocalDirectory, LocalTree, validate_options,
}
use remotefs.Upload.Paths.{component_name, join, join_relative, directory_leb, sort_with}
use remotefs.Base.Utf8.{to_str}

pub data Special : Type 0 where
  block_device character_device fifo socket unknown : Special

unfoldable pub node_type_name : Special → Text
node_type_name block_device = codes "block device"
node_type_name character_device = codes "character device"
node_type_name fifo = codes "fifo"
node_type_name socket = codes "socket"
node_type_name unknown = codes "unknown"

-- `gone` has no metadata. A directory has the names that `read_dir` gives, or `none` where that
-- fails, and a node below each name. A link has the target that `read_link` gives.
pub data Node : Type 0 where
  gone : Node
  regular_file : Metadata → Node
  folder : Metadata → Option (List Text) → (Text → Node) → Node
  link : Metadata → Option Text → Node
  special : Metadata → Special → Node

pub record ScanState : Type 0 where
  pub directories : List LocalDirectory
  pub files : List LocalFile
  pub symlinks : ℕ
  pub warnings : UploadWarnings
  pub hard_links : List (ℕ × ℕ)

-- `ScanState::default`
abbrev pub new_scan : ScanState
new_scan = record {
  directories = [];
  files = [];
  symlinks = 0;
  warnings = no_upload_warnings;
  hard_links = [];
}

abbrev pub same_pair : ℕ × ℕ → ℕ × ℕ → Bool
same_pair (a, b) (c, d) = eqb a c && eqb b d

-- `HashSet::contains`
abbrev pub is_known : List (ℕ × ℕ) → ℕ × ℕ → Bool
is_known [] pair = false
is_known (known ∷ rest) pair = if same_pair known pair then true else is_known rest pair

unfoldable pub count_hard_link : Metadata → ScanState → ScanState
count_hard_link m state =
    if is_known state.hard_links (m.dev, m.ino)
    then record state {
      warnings = record state.warnings { hard_links = state.warnings.hard_links + 1 };
    }
    else record state { hard_links = (m.dev, m.ino) ∷ state.hard_links }

abbrev pub Scanned : Type 0 → Type 0
Scanned A = Result UploadError (A × ScanState)

abbrev pub push_file : LocalFile → ScanState → ScanState
push_file f state = record state { files = state.files ++ f ∷ [] }

abbrev pub push_directory : LocalDirectory → ScanState → ScanState
push_directory d state = record state { directories = state.directories ++ d ∷ [] }

-- The scan of a directory, as the loop over the entries of its parent calls it.
abbrev pub Descent : Type 0
Descent = Text → RelativePath → ScanState → Scanned LocalDirectory

abbrev pub prepend :
    Option LocalDirectoryChild → List LocalDirectoryChild → List LocalDirectoryChild
prepend none entries = entries
prepend (some entry) entries = entry ∷ entries

module _ (options : UploadOptions) where
  -- The branches on the type of one entry. Nothing is recorded of a skipped one.
  unfoldable pub scan_node :
      Node → Descent → Text → Text → RelativePath → ScanState → Scanned (Option LocalDirectoryChild)
  unfolding count_hard_link node_type_name to_str
  scan_node gone descend name path relative state = err (filesystem path)
  scan_node (regular_file m) descend name path relative state =
      let f : LocalFile = record {
        name = name;
        relative_path = relative;
        absolute_path = path;
        metadata = m;
      } in
      ok (some (file f), push_file f (count_hard_link m state))
  scan_node (folder m listing child) descend name path relative state = do
    (scanned, state') ← map_err context (descend path relative state)
    ok (
      some (directory (record { name = name; relative_path = relative; metadata = m })),
      push_directory scanned state',
    )
  scan_node (link m target) descend name path relative state = do
    bytes ← ok_or (filesystem path) target
    text ← ok_or (tree (non_utf8_symlink_target path)) (to_str bytes)
    ok (
      some (symlink (record { name = name; target = text; metadata = m })),
      record state { symlinks = state.symlinks + 1 },
    )
  scan_node (special m kind) descend name path relative state =
      if options.fail_on_unsupported_nodes
      then err (tree (unsupported_node_type path (node_type_name kind)))
      else ok (none, state)

  module _ (child : Text → Node) (descend : Text → Descent) (path : Text)
      (relative : RelativePath) where
    unfoldable pub scan_entry : Text → ScanState → Scanned (Option LocalDirectoryChild)
    unfolding component_name
    scan_entry raw state = do
      name ← map_err tree (component_name raw)
      scan_node (child raw) (descend raw) name (join path raw) (join_relative relative name) state

    -- The loop over the sorted entries.
    unfoldable pub scan_entries : List Text → ScanState → Scanned (List LocalDirectoryChild)
    unfolding scan_entry
    scan_entries [] state = ok ([], state)
    scan_entries (raw ∷ names) state = do
      (entry, state') ← scan_entry raw state
      (entries, state'') ← scan_entries names state'
      ok (prepend entry entries, state'')

  unfoldable pub scan_directory : Node → Descent
  unfolding scan_entries sort_with
  scan_directory gone path relative state = err (filesystem path)
  scan_directory (folder m listing child) path relative state = do
    names ← ok_or (filesystem path) listing
    (entries, state') ←
        scan_entries child (λ name. scan_directory (child name)) path relative
          (sort_with text_leb names) state
    ok (
      record { relative_path = relative; absolute_path = path; metadata = m; entries = entries },
      state',
    )
  scan_directory _ path relative state = err (filesystem path)

-- The parts of a scan, with the root's directory among the others, the deepest first.
unfoldable pub arranged : Text → LocalDirectory → ScanState → LocalTree
unfolding directory_leb sort_with
arranged root root_directory state = record {
  root = root;
  directories = sort_with directory_leb (state.directories ++ root_directory ∷ []);
  files = state.files;
  symlinks = state.symlinks;
  warnings = state.warnings;
}

abbrev pub check_root : Node → Text → Result UploadError (Unit {0})
check_root gone root = err (filesystem root)
check_root (folder m listing child) root = ok tt
check_root _ root = err (invalid_option (codes "root"))

unfoldable pub scan_local_directory_with_options :
    UploadOptions → Node → Text → Result UploadError LocalTree
unfolding validate_options scan_directory arranged
scan_local_directory_with_options options node root = do
  validate_options options
  check_root node root
  (root_directory, state) ← scan_directory options node root [] new_scan
  ok (arranged root root_directory state)
