-- ===== src/Tests/CacheCases.antt =====
-- crates/rfs-common/src/session/cache.rs at concrete inputs.
use remotefs.Base.{ℕ, ◌≡◌, refl, ap, Result, Bool, true, List, [], ◌∷◌, ok}
use remotefs.Digest.{for_bytes, is_bad_hash_char}
use remotefs.Digest.Validity.{IsValid}
use remotefs.Session.Types.{SessionError}
use mathlib.Core.List.{flatten}
use remotefs.Session.Cache.{cache_contains, lookup, Files, path, read_blob, read_range}
use remotefs.Session.Cache.Integrity.{read_blob-verified, read_blob-honest}
use remotefs.Session.Cache.Ranges.{IsRange, read_range-IsRange}
use remotefs.Base.{◌↔◌, err}
use remotefs.Tests.Data.{hash_all, abc, abc_digest, abc_digest-IsValid, abc_stream}

hash_all-IsValid : (bytes : List ℕ) → IsValid (for_bytes hash_all bytes)
unfolding for_bytes is_bad_hash_char
hash_all-IsValid bytes = record { sized = refl; hex = refl; nonneg = refl }

abbrev abc_cached : Files
abc_cached = (path abc_digest, abc) ∷ []

abc_digested : for_bytes hash_all abc ≡ abc_digest
unfolding for_bytes
abc_digested = refl

downloads : read_blob hash_all abc_stream abc_digest [] ≡ (ok (abc, true), abc_cached)
unfolding cache_contains lookup flatten
downloads = read_blob-honest hash_all abc_stream abc_digest [] abc refl abc_digested refl refl

read_blob-honest_example :
    read_blob hash_all abc_stream abc_digest [] ≡ (ok (abc, true), abc_cached)
unfolding cache_contains lookup flatten
read_blob-honest_example =
    read_blob-honest hash_all abc_stream abc_digest [] abc refl abc_digested refl refl

read_blob-verified_example : for_bytes hash_all abc ≡ abc_digest
read_blob-verified_example =
    read_blob-verified hash_all abc_stream hash_all-IsValid abc_digest [] abc true
      abc_digest-IsValid tt
      (ap (λ (r : Result SessionError (List ℕ × Bool) × Files). r.0) downloads)

read_range-IsRange_example :
    let range = read_range hash_all abc_stream abc_digest 1 5 [] in
    let whole = read_blob hash_all abc_stream abc_digest [] in
    (range.1 ≡ whole.1)
    × ((e : SessionError) → (range.0 ≡ err e) ↔ (whole.0 ≡ err e))
    × ((bytes : List ℕ) (downloaded : Bool)
        → range.0 ≡ ok (bytes, downloaded)
        → (content : List ℕ) × (whole.0 ≡ ok (content, downloaded)) × IsRange content 1 5 bytes)
read_range-IsRange_example = read_range-IsRange hash_all abc_stream abc_digest 1 5 []
