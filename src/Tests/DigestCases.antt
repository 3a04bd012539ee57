-- ===== src/Tests/DigestCases.antt =====
-- crates/rfs-common/src/digest.rs at concrete inputs.
use remotefs.Base.{◌≡◌, ok, arith}
use remotefs.Digest.{from_str, to_string}
use remotefs.Digest.Display.{from_str-to_string}
use remotefs.Tests.Data.{abc_digest, abc_digest-IsValid}

from_str-to_string_example : from_str (to_string abc_digest) ≡ ok abc_digest
from_str-to_string_example = from_str-to_string abc_digest abc_digest-IsValid (omega arith)
