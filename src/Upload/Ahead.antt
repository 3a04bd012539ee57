-- ===== src/Upload/Ahead.antt =====
-- crates/rfs-common/src/upload.rs: the directories that are still to be encoded, and what is known for them.
use remotefs.Base.{◌≡◌, ◌≤◌, ◌<◌, ap, true, List, [], ◌∷◌}
use remotefs.Base.{map, arith, All}
use remotefs.Base.{
  contains, ◌⊎◌, nat_eq, list_eq, Bool-cases, inl, inr, ==_iff, ◌==◌, length, length-append,
}
use remotefs.Base.Text.{Text}
use remotefs.Digest.{Digest}
use remotefs.Tree.Types.{TreeWarnings, EncodedDirectory}
use remotefs.Upload.Types.{
  RelativePath, LocalDirectoryChild, file, directory, symlink, LocalDirectory, LocalTree,
  FileDigest,
}
use remotefs.Upload.Paths.{path_depth, join_relative}
use remotefs.Upload.Encode.{PathMap, collect}
use remotefs.Upload.Members.{Within, All-map}
use remotefs.Upload.Listing.{directory_path, file_path, IsListed, AreListed}
use remotefs.Upload.Scanned.{IsAbove}
use remotefs.Upload.Lookups.{digest_path, Has, Has-insert, Has-inserted, collect-Has, HasDigest}

-- Each entry of a directory that is still to be encoded has its digest already, or is itself still
-- to be encoded, one level below.
abbrev pub IsAhead :
    PathMap → PathMap → List LocalDirectory → RelativePath → LocalDirectoryChild → Type 0
IsAhead files known rest parent (file f) = Has f.relative_path files
IsAhead files known rest parent (directory d) =
    (Has d.relative_path known ⊎ (contains (map directory_path rest) d.relative_path ≡ true))
    × (d.relative_path ≡ join_relative parent d.name)
IsAhead files known rest parent (symlink l) = Unit

length-join :
    (parent : RelativePath) (name : Text) → length parent < length (join_relative parent name)
length-join parent name = omega (arith, length-append parent (name ∷ []))

-- A directory in the rest of the list is no deeper than its head.
not_deeper :
    (d : LocalDirectory) (rest : List LocalDirectory) (path : RelativePath)
    → All (IsAbove d) rest
    → contains (map directory_path rest) path ≡ true
    → path_depth path ≤ path_depth d.relative_path
not_deeper d [] path h m = cc
not_deeper d (e ∷ rest) path h m = elim (Bool-cases (path == e.relative_path)) [
  | inl same ↦ rw ((==_iff path e.relative_path).0 same) h.0
  | inr other ↦ not_deeper d rest path h.1 (rw other at m)
]

-- The entries of the head of the list have their digests.
pub head-HasDigest :
    (files known : PathMap) (d : LocalDirectory) (rest : List LocalDirectory)
    → All (IsAbove d) rest
    → (c : LocalDirectoryChild) → IsAhead files known (d ∷ rest) d.relative_path c
    → HasDigest files known c
unfolding path_depth
head-HasDigest files known d rest above (file f) h = h
head-HasDigest files known d rest above (directory e) (inl has, p) = has
head-HasDigest files known d rest above (directory e) (inr listed, p) =
    let deeper = length-join d.relative_path e.name in
    elim (Bool-cases (e.relative_path == d.relative_path)) [
      | inl same ↦
          absurd (
            omega (arith, ap length ((==_iff e.relative_path d.relative_path).0 same), ap length p))
      | inr other ↦
          absurd (
            omega
              (arith, not_deeper d rest e.relative_path above (rw other at listed), ap length p))
    ]
head-HasDigest files known d rest above (symlink l) h = tt

-- When the head is encoded, the others are ahead of what is left.
rest-IsAhead :
    (files known : PathMap) (d : LocalDirectory) (digest : Digest) (rest : List LocalDirectory)
    (parent : RelativePath) (c : LocalDirectoryChild)
    → IsAhead files known (d ∷ rest) parent c
    → IsAhead files ((d.relative_path, digest) ∷ known) rest parent c
rest-IsAhead files known d digest rest parent (file f) h = h
rest-IsAhead files known d digest rest parent (directory e) (inl has, p) =
    (inl (Has-insert e.relative_path d.relative_path digest known has), p)
rest-IsAhead files known d digest rest parent (directory e) (inr listed, p) =
    elim (Bool-cases (e.relative_path == d.relative_path)) [
      | inl same ↦ (
        inl (
            rw ((==_iff e.relative_path d.relative_path).0 same)
              (Has-inserted d.relative_path digest known)),
        p,
      )
      | inr other ↦ (inr (rw other at listed), p)
    ]
rest-IsAhead files known d digest rest parent (symlink l) h = tt

pub rest-AreAhead :
    (files known : PathMap) (d : LocalDirectory) (digest : Digest) (rest ds : List LocalDirectory)
    → All
        (λ (e : LocalDirectory). All (IsAhead files known (d ∷ rest) e.relative_path) e.entries)
        ds
    → All
        (λ (e : LocalDirectory).
          All (IsAhead files ((d.relative_path, digest) ∷ known) rest e.relative_path) e.entries)
        ds
rest-AreAhead files known d digest rest [] h = tt
rest-AreAhead files known d digest rest (e ∷ ds) h = (
  All-map (IsAhead files known (d ∷ rest) e.relative_path)
      (IsAhead files ((d.relative_path, digest) ∷ known) rest e.relative_path) e.entries
      (rest-IsAhead files known d digest rest e.relative_path) h.0,
  rest-AreAhead files known d digest rest ds h.1,
)

abbrev pub first_of : PathMap × List EncodedDirectory × TreeWarnings → PathMap
first_of (known, es, w) = known

pub Has-head :
    (path : RelativePath) (known : PathMap) (d : LocalDirectory) (digest : Digest)
    (ds : List LocalDirectory)
    → (Has path known ⊎ (contains (map directory_path (d ∷ ds)) path ≡ true))
    → (Has path ((d.relative_path, digest) ∷ known)
        ⊎ (contains (map directory_path ds) path ≡ true))
Has-head path known d digest ds (inl has) = inl (Has-insert path d.relative_path digest known has)
Has-head path known d digest ds (inr listed) = elim (Bool-cases (path == d.relative_path)) [
  | inl found ↦
      inl (rw ((==_iff path d.relative_path).0 found) (Has-inserted d.relative_path digest known))
  | inr other ↦ inr (rw other at listed)
]

start-IsAhead :
    (local : LocalTree) (digests : List FileDigest)
    → Within (map file_path local.files) (map digest_path digests)
    → (parent : RelativePath) (c : LocalDirectoryChild)
    → IsListed (map directory_path local.directories) (map file_path local.files) parent c
    → IsAhead (collect digests []) [] local.directories parent c
start-IsAhead local digests h parent (file f) listed =
    collect-Has digests [] f.relative_path (h f.relative_path listed)
start-IsAhead local digests h parent (directory d) (listed, p) = (inr listed, p)
start-IsAhead local digests h parent (symlink l) listed = tt

pub start-AreAhead :
    (local : LocalTree) (digests : List FileDigest)
    → Within (map file_path local.files) (map digest_path digests)
    → (d : LocalDirectory)
    → AreListed (map directory_path local.directories) (map file_path local.files) d
    → All (IsAhead (collect digests []) [] local.directories d.relative_path) d.entries
start-AreAhead local digests h d listed =
    All-map
      (IsListed (map directory_path local.directories) (map file_path local.files) d.relative_path)
      (IsAhead (collect digests []) [] local.directories d.relative_path) d.entries
      (start-IsAhead local digests h d.relative_path) listed
