-- ===== src/Digest/Validity.antt =====
-- crates/rfs-common/src/digest.rs: which digests `new`, `from_reapi` and `from_str` let through.
use remotefs.Base.{◌≡◌, refl, ◌↔◌, true, false, not, ok, ok_or, arith, length, all}
use remotefs.Base.{>>=-eq-ok}
use remotefs.Base.Int.{is_negative, InI64}
use remotefs.Base.Text.{Text, codes, strip_prefix, split_once}
use remotefs.Digest.{
  Digest, unsupported_hash, invalid_format, ReapiDigest, is_bad_hash_char, check_hash, new,
  to_reapi,
}
use remotefs.Digest.{from_reapi, from_str, parse_parts, parse_i64}

-- What a value of the type promises: 64 lowercase hexadecimal digits and a size of at least 0.
pub record IsValid (d : Digest) : Type 0 where
  pub sized : length d.hash ≡ 64
  pub hex : all (λ c. not (is_bad_hash_char c)) d.hash ≡ true
  pub nonneg : is_negative d.size_bytes ≡ false

-- `new` returns a digest exactly for a hash of 64 lowercase hexadecimal digits and a size of at
-- least 0, and the digest has those parts.
pub new-eq-ok : (d e : Digest) → (new d.hash d.size_bytes ≡ ok e) ↔ ((d ≡ e) × IsValid d)
unfolding new check_hash
new-eq-ok d e = ground arith

-- A valid digest is read back from its REAPI message.
pub from_reapi-to_reapi : (d : Digest) → IsValid d → from_reapi (to_reapi d) ≡ ok d
unfolding from_reapi to_reapi
from_reapi-to_reapi d v = (new-eq-ok d d).1 (refl, v)

-- A digest that is read from a REAPI message is valid, and has that message.
pub from_reapi-IsValid :
    (r : ReapiDigest) (d : Digest) → from_reapi r ≡ ok d → (to_reapi d ≡ r) × IsValid d
unfolding from_reapi to_reapi new check_hash
from_reapi-IsValid r d h = ground arith

parse_parts-IsValid :
    (hash size : Text) (d : Digest)
    → parse_parts (hash, size) ≡ ok d
    → IsValid d × InI64 d.size_bytes
unfolding parse_parts parse_i64 check_hash
parse_parts-IsValid hash size d h = ground arith

-- A digest that `from_str` reads from a text is valid, and its size fits an `i64`.
from_str-IsValid : (s : Text) (d : Digest) → from_str s ≡ ok d → IsValid d × InI64 d.size_bytes
unfolding from_str
from_str-IsValid s d h =
    let (stripped, _, after_prefix) =
      >>=-eq-ok (ok_or unsupported_hash (strip_prefix (codes "sha256:") s)) _ h in
    let (parts, _, after_split) =
      >>=-eq-ok (ok_or invalid_format (split_once b'/' stripped)) _ after_prefix in
    parse_parts-IsValid parts.0 parts.1 d after_split
