-- ===== src/Tree/Types.antt =====
-- crates/rfs-common/src/tree.rs: entries, nodes, warnings and errors. The nodes are the messages of
-- the REAPI that prost generates. The text of a reason or of a context is not kept.
use remotefs.Base.{ℕ, ◌+◌, Option, Bool, List}
use remotefs.Base.Int.{ℤ, pos, negsuc}
use remotefs.Base.Text.{Text}
use remotefs.Digest.{Digest, ReapiDigest, DigestError}

pub data NodeKind : Type 0 where
  file directory symlink : NodeKind

pub record Timestamp : Type 0 where
  pub seconds : ℤ
  pub nanos : ℤ

pub record NodeMetadata : Type 0 where
  pub mode : Option ℕ
  pub mtime : Option Timestamp
  pub kind : NodeKind

pub record NodeProperty : Type 0 where
  pub name : Text
  pub value : Text

pub record NodeProperties : Type 0 where
  pub properties : List NodeProperty
  pub mtime : Option Timestamp
  pub unix_mode : Option ℕ

pub record FileNode : Type 0 where
  pub name : Text
  pub digest : Option ReapiDigest
  pub is_executable : Bool
  pub node_properties : Option NodeProperties

pub record DirectoryNode : Type 0 where
  pub name : Text
  pub digest : Option ReapiDigest
  pub node_properties : Option NodeProperties

pub record SymlinkNode : Type 0 where
  pub name : Text
  pub target : Text
  pub node_properties : Option NodeProperties

pub record Directory : Type 0 where
  pub files : List FileNode
  pub directories : List DirectoryNode
  pub symlinks : List SymlinkNode
  pub node_properties : Option NodeProperties

pub record FileEntry : Type 0 where
  pub name : Text
  pub digest : Digest
  pub metadata : NodeMetadata

pub record DirectoryEntry : Type 0 where
  pub name : Text
  pub digest : Digest
  pub metadata : NodeMetadata

pub record SymlinkEntry : Type 0 where
  pub name : Text
  pub target : Text
  pub metadata : NodeMetadata

pub record TreeWarnings : Type 0 where
  pub masked_setuid : ℕ
  pub masked_setgid : ℕ
  pub absolute_symlinks : ℕ
  pub escaping_symlinks : ℕ

pub data TreeWarning : Type 0 where
  masked_setuid masked_setgid : Text → TreeWarning
  absolute_symlink escaping_symlink : Text → Text → TreeWarning

-- `TreeWarnings::default`
abbrev pub no_warnings : TreeWarnings
no_warnings = record {
  masked_setuid = 0;
  masked_setgid = 0;
  absolute_symlinks = 0;
  escaping_symlinks = 0;
}

unfoldable pub add : TreeWarning → TreeWarnings → TreeWarnings
add (masked_setuid path) w = record w { masked_setuid = w.masked_setuid + 1 }
add (masked_setgid path) w = record w { masked_setgid = w.masked_setgid + 1 }
add (absolute_symlink path target) w = record w { absolute_symlinks = w.absolute_symlinks + 1 }
add (escaping_symlink path target) w = record w { escaping_symlinks = w.escaping_symlinks + 1 }

unfoldable pub merge : TreeWarnings → TreeWarnings → TreeWarnings
merge w other = record {
  masked_setuid = w.masked_setuid + other.masked_setuid;
  masked_setgid = w.masked_setgid + other.masked_setgid;
  absolute_symlinks = w.absolute_symlinks + other.absolute_symlinks;
  escaping_symlinks = w.escaping_symlinks + other.escaping_symlinks;
}

-- `non_utf8_name`, `non_utf8_symlink_target` and `unsupported_node_type` come from the scan, and
-- `filesystem` from the file system.
pub data TreeError : Type 0 where
  invalid_name duplicate_name missing_digest : Text → TreeError
  non_utf8_name non_utf8_symlink_target filesystem : Text → TreeError
  unsupported_node_type : Text → Text → TreeError
  unsupported_timestamp : Text → ℤ → ℤ → TreeError
  decode : Digest → TreeError
  digest_mismatch : Digest → Digest → TreeError
  invalid_digest : Text → DigestError → TreeError
  context : TreeError → TreeError

pub record EncodedDirectory : Type 0 where
  pub digest : Digest
  pub bytes : List ℕ
  pub directory : Directory
  pub warnings : TreeWarnings

-- -62_135_596_800 and 253_402_300_799: the years 1 to 9999.
abbrev pub min_timestamp_seconds : ℤ
min_timestamp_seconds = negsuc 62_135_596_799

abbrev pub max_timestamp_seconds : ℤ
max_timestamp_seconds = pos 253_402_300_799
