-- ===== src/Tests/Data.antt =====
-- Inputs that the tests share.
use remotefs.Base.{ℕ, ◌≡◌, none, some, Bool, true, false, List, [], ◌∷◌, refl}
use remotefs.Base.Int.{pos}
use remotefs.Base.Text.{Text, codes}
use remotefs.Base.Utf8.{to_str}
use remotefs.Digest.{Digest, is_bad_hash_char}
use remotefs.Digest.Validity.{IsValid}
use remotefs.Session.Cache.{RemoteStream}
use remotefs.Session.Facade.{Environment}

abbrev pub some_hash : Text
some_hash = codes "00112233445566778899aabbccddeeff00112233445566778899aabbccddeeff"

-- A hash function of one value.
abbrev pub hash_all : List ℕ → Text
hash_all bytes = some_hash

abbrev pub abc : List ℕ
abc = codes "abc"

abbrev pub abc_digest : Digest
abc_digest = record { hash = some_hash; size_bytes = pos 3 }

pub abc_digest-IsValid : IsValid abc_digest
unfolding is_bad_hash_char
abc_digest-IsValid = record { sized = refl; hex = refl; nonneg = refl }

abbrev pub accepts_all : Text → Bool
accepts_all text = true

-- A remote store that sends `abc` in two chunks.
abbrev pub abc_stream : Digest → RemoteStream
abc_stream digest = record { chunks = codes "a" ∷ codes "bc" ∷ []; completes = true }

abbrev pub an_environment : Environment
an_environment = record {
  fault = λ operation db. false;
  is_uuid = accepts_all;
  sha256_hex = hash_all;
  decode = λ bytes.
      some (record { files = []; directories = []; symlinks = []; node_properties = none });
  stream_blob = abc_stream;
}

pub mnt-utf8 : to_str (codes "/mnt") ≡ some (codes "/mnt")
unfolding to_str
mnt-utf8 = refl
