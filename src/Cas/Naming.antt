-- ===== src/Cas/Naming.antt =====
-- crates/rfs-common/src/cas.rs: a resource name tells the instance and the digest apart.
use remotefs.Base.{ℕ, ◌≡◌, refl, Option, none, some, true, false, List, [], ◌∷◌, ◌++◌}
use remotefs.Base.{
  ok, arith, all, if◌then◌else◌, for_each, ◌==◌, ==_refl, nat_eq, list_eq, Bool-cases, inl, inr,
}
use mathlib.Core.Option
use remotefs.Base.Int.{ℤ, pos, negsuc, is_negative}
use remotefs.Base.Text.{Text, codes, split, Lacks}
use remotefs.Base.Decimal.{decimal, decimal_ℤ, is_digit, all-decimal}
use remotefs.Digest.{Digest}
use remotefs.Digest.Validity.{IsValid}
use remotefs.Digest.Display.{hex-Lacks}
use remotefs.Cas.Names.{validate_segment, validate_instance_name, bytestream_read_resource_name}

split-some : (sep : ℕ) (s : Text) → (w : Text) × (ws : List Text) × (split sep s ≡ w ∷ ws)
split-some sep [] = ([], [], refl)
split-some sep (c ∷ s) =
    let (w, ws, e) = split-some sep s in
    elim (Bool-cases (c == sep)) [
      | inl same ↦ ([], split sep s, rw same refl)
      | inr other ↦ (c ∷ w, ws, rw (other, e) refl)
    ]

split-append : (sep : ℕ) (s t : Text) → split sep (s ++ sep ∷ t) ≡ split sep s ++ split sep t
split-append sep [] t = rw (==_refl sep)
split-append sep (c ∷ s) t =
    let (w, ws, e) = split-some sep s in
    elim (Bool-cases (c == sep)) [
      | inl same ↦ rw (same, split-append sep s t)
      | inr other ↦ rw (other, split-append sep s t, e)
    ]

split-Lacks : (sep : ℕ) (s : Text) → Lacks sep s → split sep s ≡ s ∷ []
split-Lacks sep [] h = refl
split-Lacks sep (c ∷ s) h = rw (h.0, split-Lacks sep s h.1)

digits-Lacks : (s : Text) → all is_digit s ≡ true → Lacks b'/' s
digits-Lacks [] h = tt
digits-Lacks (c ∷ s) h = ground (arith, digits-Lacks s)

size-Lacks : (size : ℤ) → is_negative size ≡ false → Lacks b'/' (decimal_ℤ size)
unfolding decimal_ℤ
size-Lacks (pos n) h = digits-Lacks (decimal n) (all-decimal n)
size-Lacks (negsuc n) h = cc

-- The segments before the first `blobs`, and the two that follow it and end the name.
abbrev pub two_more : List Text → Option (List Text × Text × Text)
two_more (hash ∷ size ∷ []) = some ([], hash, size)
two_more _ = none

abbrev pub with_segment : Text → List Text × Text × Text → List Text × Text × Text
with_segment segment (segments, hash, size) = (segment ∷ segments, hash, size)

read_segments : List Text → Option (List Text × Text × Text)
read_segments [] = none
read_segments (segment ∷ segments) =
    let later = read_segments segments in
    if segment == codes "blobs" then two_more segments else Option.map (with_segment segment) later

segments-read :
    (instance_name : Text) (segments : List Text) (hash size : Text)
    → for_each (validate_segment instance_name) segments ≡ ok tt
    → read_segments (segments ++ codes "blobs" ∷ hash ∷ size ∷ []) ≡ some (segments, hash, size)
unfolding read_segments validate_segment
segments-read instance_name [] hash size h = refl
segments-read instance_name (segment ∷ segments) hash size h =
    ground (arith, segments-read instance_name segments hash size)

-- The name under which a blob is read, for an instance name that `validate_instance_name` lets through
-- and a valid digest, is read back as the segments of that instance name, the hash and the size.
bytestream_read_resource_name-segments :
    (instance_name : Text) (d : Digest)
    → validate_instance_name instance_name ≡ ok tt
    → IsValid d
    → read_segments (split b'/' (bytestream_read_resource_name instance_name d))
      ≡ some (split b'/' instance_name, d.hash, decimal_ℤ d.size_bytes)
unfolding validate_instance_name bytestream_read_resource_name
bytestream_read_resource_name-segments instance_name d valid v =
    let segments : for_each (validate_segment instance_name) (split b'/' instance_name) ≡ ok tt =
      ground arith in
    rw
      (
        split-append b'/' instance_name
            (codes "blobs/" ++ (d.hash ++ b'/' ∷ decimal_ℤ d.size_bytes)),
        split-append b'/' d.hash (decimal_ℤ d.size_bytes),
        split-Lacks b'/' d.hash (hex-Lacks d.hash v.hex),
        split-Lacks b'/' (decimal_ℤ d.size_bytes) (size-Lacks d.size_bytes v.nonneg),
      )
      (segments-read instance_name (split b'/' instance_name) d.hash (decimal_ℤ d.size_bytes)
        segments)
