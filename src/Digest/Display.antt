-- ===== src/Digest/Display.antt =====
-- crates/rfs-common/src/digest.rs: `Display` and `FromStr` are inverse.
use remotefs.Base.{ℕ, ◌≤◌, ◌≡◌, true, false, not, [], ◌∷◌, ok, arith, length, all}
use remotefs.Base.{nat_eq}
use remotefs.Base.Int.{ℤ, pos, negsuc, is_negative, i64_max, InI64}
use remotefs.Base.Text.{Text, split_once-append, Lacks}
use remotefs.Base.Decimal.{decimal, decimal_ℤ, value-decimal, all-decimal, length-decimal_pos}
use remotefs.Digest.{
  Digest, is_bad_hash_char, check_hash, from_str, to_string, parse_parts, parse_i64,
}
use remotefs.Digest.Validity.{IsValid}

pub hex-Lacks : (s : Text) → all (λ c. not (is_bad_hash_char c)) s ≡ true → Lacks b'/' s
unfolding is_bad_hash_char
hex-Lacks [] h = tt
hex-Lacks (c ∷ s) h = ground (arith, hex-Lacks s)

parse_parts-decimal :
    (hash : Text) (n : ℕ)
    → length hash ≡ 64
    → all (λ c. not (is_bad_hash_char c)) hash ≡ true
    → n ≤ i64_max
    → parse_parts (hash, decimal n) ≡ ok (record { hash = hash; size_bytes = pos n })
unfolding parse_parts parse_i64 check_hash
parse_parts-decimal hash n h k l =
    ground (arith, value-decimal n, all-decimal n, length-decimal_pos n)

from_str-parts :
    (hash : Text) (size : ℤ)
    → length hash ≡ 64
    → all (λ c. not (is_bad_hash_char c)) hash ≡ true
    → is_negative size ≡ false
    → InI64 size
    → from_str (to_string (record { hash = hash; size_bytes = size }))
      ≡ ok (record { hash = hash; size_bytes = size })
unfolding from_str to_string decimal_ℤ
from_str-parts hash (pos n) h k s r =
    rw (split_once-append b'/' hash (decimal n) (hex-Lacks hash k))
      (parse_parts-decimal hash n h k r)
from_str-parts hash (negsuc n) h k s r = cc

-- A valid digest, of a size that fits an `i64`, is read back from the text that is displayed for it.
pub from_str-to_string :
    (d : Digest) → IsValid d → InI64 d.size_bytes → from_str (to_string d) ≡ ok d
from_str-to_string d v r = from_str-parts d.hash d.size_bytes v.sized v.hex v.nonneg r
