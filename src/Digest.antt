-- ===== src/Digest.antt =====
-- crates/rfs-common/src/digest.rs: the identity of a blob, its text form and its check.
pub mod Validity
pub mod Display
pub mod Verify
use remotefs.Base.{ℕ, ◌≤◌, ◌≡◌, Bool, true, false, not, ◌&&◌, ◌||◌, Option, none, some, List, []}
use remotefs.Base.{◌∷◌, ◌++◌, Result, ok, err, ◌>>=◌, ◌>>◌, reject_if, ok_or, length, all, leb}
use remotefs.Base.{if◌then◌else◌, Eq, ◌==◌, nat_eq, list_eq}
use remotefs.Base.Int.{ℤ, pos, is_negative, i64_max, int_eq}
use remotefs.Base.Text.{Text, codes, strip_prefix, split_once}
use remotefs.Base.Decimal.{is_digit, decimal_ℤ, value}

pub record Digest : Type 0 where
  pub hash : Text
  pub size_bytes : ℤ

pub data DigestError : Type 0 where
  invalid_format unsupported_hash invalid_hash : DigestError
  invalid_size : Text → DigestError
  size_mismatch : ℤ → ℤ → DigestError
  hash_mismatch : Text → Text → DigestError

-- The message of the REAPI, which has the same two fields and no guarantee.
pub record ReapiDigest : Type 0 where
  pub hash : Text
  pub size_bytes : ℤ

abbrev is_ascii_lowercase : ℕ → Bool
is_ascii_lowercase c = leb b'a' c && leb c b'z'

abbrev pub is_ascii_uppercase : ℕ → Bool
is_ascii_uppercase c = leb b'A' c && leb c b'Z'

abbrev is_ascii_alphabetic : ℕ → Bool
is_ascii_alphabetic c = is_ascii_lowercase c || is_ascii_uppercase c

abbrev is_ascii_hexdigit : ℕ → Bool
is_ascii_hexdigit c = is_digit c || (leb b'a' c && leb c b'f') || (leb b'A' c && leb c b'F')

-- The test that the loops over the characters of a hash make.
unfoldable pub is_bad_hash_char : ℕ → Bool
is_bad_hash_char c =
    not (is_ascii_hexdigit c) || (is_ascii_alphabetic c && not (is_ascii_lowercase c))

unfoldable pub check_hash : Text → Result DigestError (Unit {0})
check_hash hash = do
  reject_if (not (length hash == 64)) invalid_hash
  reject_if (not (all (λ c. not (is_bad_hash_char c)) hash)) invalid_hash

unfoldable pub new : Text → ℤ → Result DigestError Digest
new hash size_bytes = do
  check_hash hash
  reject_if (is_negative size_bytes) (invalid_size (decimal_ℤ size_bytes))
  ok (record { hash = hash; size_bytes = size_bytes })

unfoldable pub to_reapi : Digest → ReapiDigest
to_reapi d = record { hash = d.hash; size_bytes = d.size_bytes }

-- Both `from_reapi` and `TryFrom`.
unfoldable pub from_reapi : ReapiDigest → Result DigestError Digest
from_reapi d = new d.hash d.size_bytes

-- `parse::<i64>` of a text of digits.
unfoldable pub parse_i64 : Text → Option ℤ
parse_i64 s = if leb (value 0 s) i64_max then some (pos (value 0 s)) else none

parse_parts : Text × Text → Result DigestError Digest
parse_parts (hash_part, size_part) = do
  check_hash hash_part
  reject_if (length size_part == 0) invalid_format
  reject_if (not (all is_digit size_part)) (invalid_size size_part)
  size_bytes ← ok_or (invalid_size size_part) (parse_i64 size_part)
  reject_if (is_negative size_bytes) (invalid_size size_part)
  ok (record { hash = hash_part; size_bytes = size_bytes })

-- `FromStr`
unfoldable pub from_str : Text → Result DigestError Digest
unfolding parse_parts
from_str s = do
  stripped ← ok_or unsupported_hash (strip_prefix (codes "sha256:") s)
  parts ← ok_or invalid_format (split_once b'/' stripped)
  parse_parts parts

-- `Display`
unfoldable pub to_string : Digest → Text
to_string d = codes "sha256:" ++ (d.hash ++ b'/' ∷ decimal_ℤ d.size_bytes)

abbrev pub digest_beq : Digest → Digest → Bool
digest_beq a b = a.hash == b.hash && a.size_bytes == b.size_bytes

-- SHA-256 in lowercase hexadecimal, from the crates `sha2` and `hex`.
module _ (sha256_hex : List ℕ → Text) where
  unfoldable pub for_bytes : List ℕ → Digest
  for_bytes bytes = record { hash = sha256_hex bytes; size_bytes = pos (length bytes) }

  unfoldable pub verify_bytes : Digest → List ℕ → Result DigestError (Unit {0})
  unfolding for_bytes
  verify_bytes d bytes = do
    let actual = for_bytes bytes
    reject_if (not (actual.size_bytes == d.size_bytes))
        (size_mismatch d.size_bytes actual.size_bytes)
    reject_if (not (actual.hash == d.hash)) (hash_mismatch d.hash actual.hash)
    ok tt
