-- ===== src/Tests/TreeCases.antt =====
-- crates/rfs-common/src/tree.rs at concrete inputs.
use remotefs.Base.{ℕ, ◌≡◌, ◌↔◌, refl, Option, none, some, true, false, List, [], ◌∷◌, ok}
use remotefs.Base.Text.{codes, split}
use remotefs.Digest.{for_bytes, to_reapi}
use remotefs.Tree.Types.{
  NodeKind, NodeMetadata, file, directory, symlink, Directory, EncodedDirectory, no_warnings,
}
use remotefs.Tree.Types.{FileEntry, DirectoryEntry, SymlinkEntry}
use remotefs.Tree.Types.{add, masked_setuid, escaping_symlink}
use remotefs.Tree.Metadata.{normalize, validate_name, target_escapes, masked_mode, mode_warnings}
use remotefs.Tree.Builder.{
  DirectoryBuilder, encode, sort_entries, sort_by, file_node, directory_node,
}
use remotefs.Tree.Builder.{symlink_node, encode_all, seal, reject_duplicate_names, link_warnings}
use remotefs.Tree.Decode.{decode_directory}
use remotefs.Tree.Built.{IsBuilt}
use remotefs.Tree.RoundTrip.{decode_directory-encode}
use remotefs.Tree.Targets.{Leaves, target_escapes_iff}
use remotefs.Tests.Data.{hash_all, abc, abc_digest, abc_digest-IsValid}
use remotefs.Tree.Metadata.{
  normalize_optional_metadata, into_node_properties, validate_mtime, escapes_from, next_depth,
}
use remotefs.Tree.Types.{merge}

abbrev plain : NodeKind → NodeMetadata
plain kind = record { mode = none; mtime = none; kind = kind }

abbrev tool : FileEntry
tool = record { name = codes "tool"; digest = abc_digest; metadata = plain file }

abbrev library_dir : DirectoryEntry
library_dir = record { name = codes "lib"; digest = abc_digest; metadata = plain directory }

abbrev up_link : SymlinkEntry
up_link = record { name = codes "link"; target = codes "../x"; metadata = plain symlink }

abbrev a_builder : DirectoryBuilder
a_builder = record {
  metadata = none;
  files = tool ∷ [];
  directories = library_dir ∷ [];
  symlinks = up_link ∷ [];
}

a_builder-IsBuilt : IsBuilt a_builder
unfolding validate_name
a_builder-IsBuilt = record {
  file_names = (refl, tt);
  directory_names = (refl, tt);
  symlink_names = (refl, tt);
  file_digests = (abc_digest-IsValid, tt);
  directory_digests = (abc_digest-IsValid, tt);
}

abbrev a_directory : Directory
a_directory = record {
  files =
      record {
        name = codes "tool";
        digest = some (to_reapi abc_digest);
        is_executable = false;
        node_properties = none;
      }
      ∷ [];
  directories =
      record { name = codes "lib"; digest = some (to_reapi abc_digest); node_properties = none }
      ∷ [];
  symlinks = record { name = codes "link"; target = codes "../x"; node_properties = none } ∷ [];
  node_properties = none;
}

-- An encoding of one value, and its decoding.
abbrev to_abc : Directory → List ℕ
to_abc d = abc

abbrev of_abc : List ℕ → Option Directory
of_abc bytes = some a_directory

abbrev an_encoding : EncodedDirectory
an_encoding = record {
  digest = for_bytes hash_all abc;
  bytes = abc;
  directory = a_directory;
  warnings = add (escaping_symlink (codes "link") (codes "../x")) no_warnings;
}

encoded : encode hash_all to_abc a_builder ≡ ok an_encoding
unfolding encode seal sort_entries sort_by file_node directory_node symlink_node encode_all
    reject_duplicate_names link_warnings target_escapes normalize_optional_metadata normalize
    for_bytes into_node_properties validate_mtime add merge mode_warnings to_reapi
encoded = refl

decode_directory-encode_example :
    decode_directory hash_all of_abc an_encoding.digest an_encoding.bytes ≡ ok a_directory
decode_directory-encode_example =
    decode_directory-encode hash_all to_abc of_abc a_builder an_encoding a_builder-IsBuilt encoded
      refl

target_escapes_iff_example :
    (target_escapes (codes "a/../../b") ≡ true) ↔ Leaves 0 (split b'/' (codes "a/../../b"))
target_escapes_iff_example = target_escapes_iff (codes "a/../../b")

escapes : target_escapes (codes "a/../../b") ≡ true
unfolding target_escapes escapes_from next_depth
escapes = refl

stays : target_escapes (codes "./a//b/../../c") ≡ false
unfolding target_escapes escapes_from next_depth
stays = refl

-- 0o4755, and without the bit that is masked.
abbrev setuid_tool : NodeMetadata
setuid_tool = record { mode = some 2541; mtime = none; kind = file }

abbrev plain_tool : NodeMetadata
plain_tool = record { mode = some 493; mtime = none; kind = file }

setuid_masked :
    normalize setuid_tool (codes "tool")
    ≡ ok (plain_tool, add (masked_setuid (codes "tool")) no_warnings)
unfolding normalize masked_mode mode_warnings add validate_mtime
setuid_masked = refl
