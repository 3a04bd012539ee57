-- ===== src/Upload/Listing.antt =====
-- crates/rfs-common/src/upload.rs: the files and directories that the state of a scan lists.
use remotefs.Base.{◌≡◌, true, List, [], map, All}
use remotefs.Base.{contains}
use remotefs.Base.{nat_eq, list_eq, Option, some, none}
use remotefs.Upload.Types.{
  RelativePath, LocalFile, LocalDirectoryChild, file, directory, symlink, LocalDirectory,
}
use remotefs.Upload.Paths.{join_relative}
use remotefs.Upload.Scan.{ScanState, prepend}
use remotefs.Upload.Members.{Within, All-map}

abbrev pub directory_path : LocalDirectory → RelativePath
directory_path d = d.relative_path

abbrev pub file_path : LocalFile → RelativePath
file_path f = f.relative_path

-- The entry of a directory at `parent` is among the files and the directories that are listed, a
-- directory one level below its parent.
abbrev pub IsListed :
    List RelativePath → List RelativePath → RelativePath → LocalDirectoryChild → Type 0
IsListed directories files parent (file f) = contains files f.relative_path ≡ true
IsListed directories files parent (directory d) =
    (contains directories d.relative_path ≡ true) × (d.relative_path ≡ join_relative parent d.name)
IsListed directories files parent (symlink s) = Unit

abbrev pub AreListed : List RelativePath → List RelativePath → LocalDirectory → Type 0
AreListed directories files d = All (IsListed directories files d.relative_path) d.entries

abbrev pub directory_paths : ScanState → List RelativePath
directory_paths s = map directory_path s.directories

abbrev pub file_paths : ScanState → List RelativePath
file_paths s = map file_path s.files

-- A later state of the scan lists what an earlier one did.
pub record Grows (s t : ScanState) : Type 0 where
  pub more_directories : Within (directory_paths s) (directory_paths t)
  pub more_files : Within (file_paths s) (file_paths t)

Grows-refl : (s : ScanState) → Grows s s
Grows-refl s = record { more_directories = λ a h. h; more_files = λ a h. h }

pub Grows-trans : (s t u : ScanState) → Grows s t → Grows t u → Grows s u
Grows-trans s t u g h = record {
  more_directories = λ a m. h.more_directories a (g.more_directories a m);
  more_files = λ a m. h.more_files a (g.more_files a m);
}

abbrev pub Listed : ScanState → Type 0
Listed s = All (AreListed (directory_paths s) (file_paths s)) s.directories

IsListed-Grows :
    (s t : ScanState)
    → Grows s t
    → (parent : RelativePath) (c : LocalDirectoryChild)
    → IsListed (directory_paths s) (file_paths s) parent c
    → IsListed (directory_paths t) (file_paths t) parent c
IsListed-Grows s t g parent (file f) h = g.more_files f.relative_path h
IsListed-Grows s t g parent (directory d) (h, p) = (g.more_directories d.relative_path h, p)
IsListed-Grows s t g parent (symlink l) h = tt

pub AreListed-Grows :
    (s t : ScanState)
    → Grows s t
    → (d : LocalDirectory) → AreListed (directory_paths s) (file_paths s) d
    → AreListed (directory_paths t) (file_paths t) d
AreListed-Grows s t g d h =
    All-map (IsListed (directory_paths s) (file_paths s) d.relative_path)
      (IsListed (directory_paths t) (file_paths t) d.relative_path) d.entries
      (IsListed-Grows s t g d.relative_path) h

-- What a step of the scan from `s` to `t` guarantees, and of the entries that it returns.
pub record Records (s t : ScanState) (parent : RelativePath) (entries : List LocalDirectoryChild)
    : Type 0 where
  pub grows : Grows s t
  pub listed : Listed s → Listed t
  pub entries_listed : All (IsListed (directory_paths t) (file_paths t) parent) entries

abbrev pub RecordsOf : ScanState → RelativePath → Option LocalDirectoryChild × ScanState → Type 0
RecordsOf s parent (entry, t) = Records s t parent (prepend entry [])

pub Records-refl : (s : ScanState) (parent : RelativePath) → Records s s parent []
Records-refl s parent = record { grows = Grows-refl s; listed = λ h. h; entries_listed = tt }

pub Records-trans :
    (s t u : ScanState) (parent : RelativePath) (entry : Option LocalDirectoryChild)
    (entries : List LocalDirectoryChild)
    → Records s t parent (prepend entry [])
    → Records t u parent entries
    → Records s u parent (prepend entry entries)
Records-trans s t u parent none entries r q = record {
  grows = Grows-trans s t u r.grows q.grows;
  listed = λ h. q.listed (r.listed h);
  entries_listed = q.entries_listed;
}
Records-trans s t u parent (some entry) entries r q = record {
  grows = Grows-trans s t u r.grows q.grows;
  listed = λ h. q.listed (r.listed h);
  entries_listed = (IsListed-Grows t u q.grows parent entry r.entries_listed.0, q.entries_listed);
}
