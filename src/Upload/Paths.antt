-- ===== src/Upload/Paths.antt =====
-- crates/rfs-common/src/upload.rs: names, paths and their order.
use remotefs.Base.{ℕ, Bool, true, false, List, [], ◌∷◌, ◌++◌}
use remotefs.Base.{Result, ok_or, if◌then◌else◌, ltb, ◌==◌, nat_eq, length}
use remotefs.Base.Text.{Text, text_leb}
use remotefs.Base.Utf8.{to_str}
use remotefs.Tree.Types.{TreeError, non_utf8_name}
use remotefs.Upload.Types.{RelativePath, LocalDirectory, FileDigest}

-- `component_name`, of a path with the given last component.
unfoldable pub component_name : Text → Result TreeError Text
unfolding to_str
component_name name = ok_or (non_utf8_name name) (to_str name)

ends_with_separator : Text → Bool
ends_with_separator [] = false
ends_with_separator (c ∷ []) = c == b'/'
ends_with_separator (c ∷ d ∷ s) = ends_with_separator (d ∷ s)

-- `Path::join` with one component.
unfoldable pub join : Text → Text → Text
unfolding ends_with_separator
join [] name = name
join (c ∷ path) name =
    if ends_with_separator (c ∷ path) then (c ∷ path) ++ name else (c ∷ path) ++ b'/' ∷ name

-- The same below the root.
abbrev pub join_relative : RelativePath → Text → RelativePath
join_relative path name = path ++ name ∷ []

-- `as_os_str().as_bytes()`
unfoldable pub path_bytes : RelativePath → Text
path_bytes [] = []
path_bytes (name ∷ []) = name
path_bytes (name ∷ next ∷ path) = name ++ b'/' ∷ path_bytes (next ∷ path)

unfoldable pub path_depth : RelativePath → ℕ
path_depth path = length path

-- The order in which directories are encoded: the deepest first, then by the bytes of the path.
unfoldable pub directory_leb : LocalDirectory → LocalDirectory → Bool
unfolding path_depth path_bytes
directory_leb left right =
    if ltb (path_depth right.relative_path) (path_depth left.relative_path)
    then true
    else if path_depth right.relative_path == path_depth left.relative_path
    then text_leb (path_bytes left.relative_path) (path_bytes right.relative_path)
    else false

unfoldable pub digest_leb : FileDigest → FileDigest → Bool
unfolding path_bytes
digest_leb left right = text_leb (path_bytes left.relative_path) (path_bytes right.relative_path)

module _ {ℓ} {A : Type ℓ} (leb_by : A → A → Bool) where
  unfoldable pub insert_with : A → List A → List A
  insert_with a [] = a ∷ []
  insert_with a (b ∷ l) = let rest = insert_with a l in if leb_by a b then a ∷ b ∷ l else b ∷ rest

  -- `sort_by`, which is stable.
  unfoldable pub sort_with : List A → List A
  unfolding insert_with
  sort_with [] = []
  sort_with (a ∷ l) = insert_with a (sort_with l)
