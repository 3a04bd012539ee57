-- ===== src/Tree/Modes.antt =====
-- crates/rfs-common/src/tree.rs: what `normalize` keeps of a mode and of a time.
use mathlib.Core.Option
use remotefs.Base.{ℕ, ◌≡◌, refl, false, Option, none, some, ok, arith}
use remotefs.Base.{nat_eq, ap, >>=-eq-ok, ok_injective}
use remotefs.Base.Text.{Text}
use remotefs.Tree.Types.{
  NodeKind, file, directory, symlink, NodeMetadata, TreeWarnings, no_warnings,
}
use remotefs.Tree.Metadata.{masked_mode, mode_warnings, normalize, has_bit, validate_mtime}

masked_mode_lem :
    (kind : NodeKind) (m : ℕ)
    → (masked_mode kind (masked_mode kind m) ≡ masked_mode kind m)
      × (has_bit 11 (masked_mode kind m) ≡ false)
      × (has_bit 10 (masked_mode kind m) ≡ false)
unfolding masked_mode
masked_mode_lem file m = ground arith
masked_mode_lem directory m = ground arith
masked_mode_lem symlink m = ground arith

mode_warnings_masked :
    (kind : NodeKind) (path : Text) (mode : Option ℕ)
    → (Option.map (masked_mode kind) (Option.map (masked_mode kind) mode)
        ≡ Option.map (masked_mode kind) mode)
      × (mode_warnings path (Option.map (masked_mode kind) mode) ≡ no_warnings)
unfolding mode_warnings
mode_warnings_masked kind path none = (refl, refl)
mode_warnings_masked kind path (some m) =
    let (same, setuid, setgid) = masked_mode_lem kind m in
    (ap (λ (x : ℕ). some x) same, rw (setuid, setgid))

-- Metadata that `normalize` returned is returned by it once more, with no warning.
normalize_idem :
    (m n : NodeMetadata) (path : Text) (w : TreeWarnings)
    → normalize m path ≡ ok (n, w)
    → normalize n path ≡ ok (n, no_warnings)
unfolding normalize
normalize_idem m n path w h =
    let (_, timed, made) = >>=-eq-ok (validate_mtime path m.mtime) _ h in
    let e : record m { mode = Option.map (masked_mode m.kind) m.mode } ≡ n =
      ap (λ (p : NodeMetadata × TreeWarnings). p.0) (ok_injective made) in
    let (same, quiet) = mode_warnings_masked m.kind path m.mode in
    rw (← e) (rw (timed, same, quiet))
