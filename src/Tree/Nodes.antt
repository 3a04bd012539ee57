-- ===== src/Tree/Nodes.antt =====
-- crates/rfs-common/src/tree.rs: each node that the builder writes passes the decoder's tests.
use remotefs.Base.{ℕ, ◌≡◌, Option, none, some, List, [], ◌∷◌, map, Result, ok}
use remotefs.Base.{map_err, map_err-eq-ok, >>=-eq-ok, for_each, arith, All}
use remotefs.Base.Text.{Text}
use remotefs.Digest.{Digest, to_reapi}
use remotefs.Digest.Validity.{IsValid, from_reapi-to_reapi}
use remotefs.Tree.Types.{
  NodeKind, NodeMetadata, NodeProperties, Timestamp, FileNode, DirectoryNode, SymlinkNode,
}
use remotefs.Tree.Types.{FileEntry, DirectoryEntry, SymlinkEntry, TreeWarnings, TreeError, context}
use remotefs.Tree.Metadata.{validate_timestamp, normalize, normalize_optional_metadata}
use remotefs.Tree.Metadata.{into_node_properties}
use remotefs.Tree.Builder.{file_node, directory_node, symlink_node, link_warnings, encode_all}
use remotefs.Tree.Decode.{validate_node_properties, validate_digest, validate_file_node}
use remotefs.Tree.Decode.{validate_directory_node, validate_symlink_node}

validate_timestamp_anywhere :
    (path name : Text) (t : Timestamp)
    → validate_timestamp path t ≡ ok tt
    → validate_timestamp name t ≡ ok tt
unfolding validate_timestamp
validate_timestamp_anywhere path name t h = ground arith

normal_properties :
    (mode : Option ℕ) (mtime : Option Timestamp) (kind : NodeKind) (path name : Text)
    (w w' : TreeWarnings) (p : Option NodeProperties)
    → normalize_optional_metadata (some (record { mode = mode; mtime = mtime; kind = kind })) path w
      ≡ ok (p, w')
    → validate_node_properties name p ≡ ok tt
unfolding normalize_optional_metadata normalize into_node_properties validate_node_properties
normal_properties none none kind path name w w' p h = ground arith
normal_properties (some m) none kind path name w w' p h = ground arith
normal_properties none (some t) kind path name w w' p h =
    ground (arith, validate_timestamp_anywhere path name t)
normal_properties (some m) (some t) kind path name w w' p h =
    ground (arith, validate_timestamp_anywhere path name t)

-- What the builder makes of metadata is valid wherever the decoder looks at it.
pub normalize_optional_metadata-valid :
    (m : Option NodeMetadata) (path name : Text) (w w' : TreeWarnings) (p : Option NodeProperties)
    → normalize_optional_metadata m path w ≡ ok (p, w')
    → validate_node_properties name p ≡ ok tt
normalize_optional_metadata-valid none path name w w' p h =
    unfold normalize_optional_metadata validate_node_properties in ground arith
normalize_optional_metadata-valid (some m) path name w w' p h =
    normal_properties m.mode m.mtime m.kind path name w w' p h

validate_digest-to_reapi :
    (name : Text) (d : Digest) → IsValid d → validate_digest name (some (to_reapi d)) ≡ ok tt
unfolding validate_digest
validate_digest-to_reapi name d v = rw (from_reapi-to_reapi d v)

module _ (w w' : TreeWarnings) where
  pub file_node-valid :
      (e : FileEntry) (n : FileNode)
      → IsValid e.digest
      → file_node e w ≡ ok (n, w')
      → (n.name ≡ e.name) × (validate_file_node n ≡ ok tt)
  unfolding file_node validate_file_node
  file_node-valid e n v h =
      let (normal, made, rest) =
        >>=-eq-ok (map_err context (normalize_optional_metadata (some e.metadata) e.name w)) _ h in
      ground (
        arith,
        normalize_optional_metadata-valid (some e.metadata) e.name e.name w normal.1 normal.0
            (map_err-eq-ok context _ made),
        validate_digest-to_reapi e.name e.digest v,
      )

  pub directory_node-valid :
      (e : DirectoryEntry) (n : DirectoryNode)
      → IsValid e.digest
      → directory_node e w ≡ ok (n, w')
      → (n.name ≡ e.name) × (validate_directory_node n ≡ ok tt)
  unfolding directory_node validate_directory_node
  directory_node-valid e n v h = ground (arith, validate_digest-to_reapi e.name e.digest v)

  pub symlink_node-valid :
      (e : SymlinkEntry) (n : SymlinkNode)
      → symlink_node e w ≡ ok (n, w')
      → (n.name ≡ e.name) × (validate_symlink_node n ≡ ok tt)
  unfolding symlink_node validate_symlink_node
  symlink_node-valid e n h =
      let linked = link_warnings e w in
      let (normal, made, rest) =
        >>=-eq-ok (map_err context (normalize_optional_metadata (some e.metadata) e.name linked)) _
          h in
      ground (
        arith,
        normalize_optional_metadata-valid (some e.metadata) e.name e.name linked normal.1 normal.0
            (map_err-eq-ok context _ made),
      )

module _ {ℓ κ} {A : Type ℓ} {B : Type κ}
    (f : A → TreeWarnings → Result TreeError (B × TreeWarnings)) (name : A → Text)
    (node_name : B → Text) (check : B → Result TreeError (Unit {0})) (P : A → Type 0)
    (each : (w w' : TreeWarnings) (a : A) (b : B)
      → P a
      → f a w ≡ ok (b, w')
      → (node_name b ≡ name a) × (check b ≡ ok tt)) where
  -- The nodes of a list keep its names in order, and each passes its test.
  pub encode_all-valid :
      (l : List A) (w w' : TreeWarnings) (nodes : List B)
      → All P l
      → encode_all f l w ≡ ok (nodes, w')
      → (map node_name nodes ≡ map name l) × (for_each check nodes ≡ ok tt)
  unfolding encode_all
  encode_all-valid [] w w' nodes p h = ground arith
  encode_all-valid (a ∷ l) w w' nodes p h =
      let (one, made, rest) = >>=-eq-ok (map_err context (f a w)) _ h in
      let (others, encoded, whole) = >>=-eq-ok (encode_all f l one.1) _ rest in
      ground (
        arith,
        each w one.1 a one.0 p.0 (map_err-eq-ok context _ made),
        encode_all-valid l one.1 others.1 others.0 p.1 encoded,
      )
