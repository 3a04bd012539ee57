-- ===== src/Tree/Metadata.antt =====
-- crates/rfs-common/src/tree.rs: modes, times and the other tests on one entry.
use mathlib.Core.Option
use remotefs.Base.{ℕ, ◌+◌, ◌-◌, ◌/◌, ◌%◌, ◌^◌, Bool, true, false, not, ◌&&◌, ◌||◌}
use remotefs.Base.{Option, none, some, List, [], ◌∷◌, Result, ok, err, ◌>>=◌, ◌>>◌}
use remotefs.Base.{map_err, if◌then◌else◌, contains, ◌==◌, nat_eq, list_eq}
use remotefs.Base.Int.{pos, leb_ℤ}
use remotefs.Base.Text.{Text, codes, split}
use remotefs.Tree.Types.{
  NodeKind, file, directory, symlink, Timestamp, NodeMetadata, NodeProperties,
}
use remotefs.Tree.Types.{TreeWarnings, no_warnings, add, merge, masked_setuid, masked_setgid}
use remotefs.Tree.Types.{TreeError, invalid_name, unsupported_timestamp, context}
use remotefs.Tree.Types.{min_timestamp_seconds, max_timestamp_seconds}

-- `mode & (1 << k) != 0`, and `mode & ((1 << k) - 1)`.
abbrev pub has_bit : ℕ → ℕ → Bool
has_bit k mode = mode / 2 ^ k % 2 == 1

abbrev pub low_bits : ℕ → ℕ → ℕ
low_bits k mode = mode % 2 ^ k

-- The bits 0o4000 and 0o2000, and the masks 0o777 and 0o1777.
unfoldable pub masked_mode : NodeKind → ℕ → ℕ
masked_mode file mode = low_bits 9 mode
masked_mode directory mode = low_bits 10 mode
masked_mode symlink mode = low_bits 9 mode

unfoldable pub mode_warnings : Text → Option ℕ → TreeWarnings
mode_warnings path none = no_warnings
mode_warnings path (some mode) =
    let setuid = if has_bit 11 mode then add (masked_setuid path) no_warnings else no_warnings in
    if has_bit 10 mode then add (masked_setgid path) setuid else setuid

unfoldable pub validate_timestamp : Text → Timestamp → Result TreeError (Unit {0})
validate_timestamp path t =
    if not (leb_ℤ (pos 0) t.nanos && leb_ℤ t.nanos (pos 999_999_999))
      || not (leb_ℤ min_timestamp_seconds t.seconds)
      || not (leb_ℤ t.seconds max_timestamp_seconds)
    then err (unsupported_timestamp path t.seconds t.nanos)
    else ok tt

unfoldable pub validate_mtime : Text → Option Timestamp → Result TreeError (Unit {0})
validate_mtime path none = ok tt
validate_mtime path (some t) = map_err context (validate_timestamp path t)

-- `NodeMetadata::normalize`
unfoldable pub normalize : NodeMetadata → Text → Result TreeError (NodeMetadata × TreeWarnings)
unfolding validate_mtime
normalize m path = do
  validate_mtime path m.mtime
  ok (record m { mode = Option.map (masked_mode m.kind) m.mode }, mode_warnings path m.mode)

unfoldable pub properties_of : Option ℕ → Option Timestamp → Option NodeProperties
properties_of none none = none
properties_of mode mtime = some (record { properties = []; mtime = mtime; unix_mode = mode })

-- `NodeMetadata::into_node_properties`
unfoldable pub into_node_properties : NodeMetadata → Option NodeProperties
unfolding properties_of
into_node_properties m = properties_of m.mode m.mtime

unfoldable pub normalize_optional_metadata :
    Option NodeMetadata
    → Text
    → TreeWarnings
    → Result TreeError (Option NodeProperties × TreeWarnings)
normalize_optional_metadata none path warnings = ok (none, warnings)
normalize_optional_metadata (some metadata) path warnings = do
  normal ← map_err context (normalize metadata path)
  ok (into_node_properties normal.0, merge warnings normal.1)

-- One path component: neither empty, nor `.` or `..`, nor with a `/`.
abbrev pub is_bad_name : Text → Bool
is_bad_name name = name == [] || (name == codes "." || name == codes "..") || contains name b'/'

unfoldable pub validate_name : Text → Result TreeError (Unit {0})
validate_name name = if is_bad_name name then err (invalid_name name) else ok tt

-- One turn of the loop over the components of a link target. The depth is an `i32` in the source, which
-- differs only beyond 2^31 components. The result is the depth after it, or `none` for
-- the early return at a `..` that leaves the tree.
unfoldable pub next_depth : ℕ → Text → Option ℕ
next_depth depth component =
    if component == [] || component == codes "."
    then some depth
    else if component == codes ".."
    then (if depth == 0 then none else some (depth - 1))
    else some (depth + 1)

unfoldable pub escapes_from : ℕ → List Text → Bool
escapes_from depth [] = false
escapes_from depth (component ∷ rest) = elim (next_depth depth component) [
  | none ↦ true
  | some deeper ↦ escapes_from deeper rest
]

unfoldable pub target_escapes : Text → Bool
unfolding escapes_from next_depth
target_escapes target = escapes_from 0 (split b'/' target)
