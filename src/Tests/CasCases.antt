-- ===== src/Tests/CasCases.antt =====
-- crates/rfs-common/src/cas.rs at concrete inputs.
use remotefs.Base.{
  true, if◌then◌else◌, ◌==◌, nat_eq, ◌≤◌, ◌<◌, ℕ, ◌≡◌, refl, inl, Option, none, some, All, List, [],
  ◌∷◌, Result, ok, arith,
}
use remotefs.Base.Text.{Text, codes}
use remotefs.Cas.Blobs.{CasError, Blob, bytes, file_path, UpdateRequest}
use remotefs.Cas.Batch.{ByteStream, Transfer, UpdateResponse, upload_blobs_to_cas}
use remotefs.Tests.Server.{disk_of, a_remote}
use remotefs.Digest.{Digest}
use remotefs.Base.Int.{pos}
use remotefs.Cas.Packing.{Fits, upload_blobs_to_cas-Fits}
use remotefs.Cas.Retry.{
  Outcome, response, failed, timed_out, unavailable, retry_rpc, settled, retry_rpc-returns,
}
use remotefs.Cas.Retry.{
  retry_rpc-settled, is_retried, RpcError, is_retryable_status, validate_retry_attempts,
}
use remotefs.Tests.Data.{abc, abc_digest}

abbrev a_digest : Digest
a_digest = record abc_digest { size_bytes = pos 1 }

-- A disk on which every file holds `abc`.
abbrev a_disk : Text → Option (List ℕ)
a_disk path = some abc

-- A store that takes everything.
abbrev takes_all : List Transfer → List UpdateRequest → Result CasError (List UpdateResponse)
takes_all sent [] = ok []
takes_all sent (r ∷ rs) = ok (record { digest = r.digest; status = none } ∷ [])

abbrev takes_stream : ByteStream
takes_stream = a_remote.stream

-- The last one is larger than the budget, and is on disk.
abbrev three_blobs : List Blob
three_blobs =
    record { digest = a_digest; contents = bytes (codes "a") }
    ∷ record { digest = a_digest; contents = bytes (codes "a") }
    ∷ record { digest = abc_digest; contents = file_path (codes "f") }
    ∷ []

-- Each blob takes a call of its own.
abbrev small_budget : ℕ
small_budget = 1

upload_blobs_to_cas-Fits_example :
    All
      (Fits small_budget)
      (upload_blobs_to_cas (disk_of a_disk) small_budget takes_all takes_stream three_blobs).1
upload_blobs_to_cas-Fits_example =
    upload_blobs_to_cas-Fits (disk_of a_disk) small_budget takes_all takes_stream three_blobs

-- Unavailable, then silent, then there.
abbrev third_time : ℕ → Outcome ℕ
third_time attempt =
    if attempt == 1
    then failed (record { code = unavailable; message = [] })
    else if attempt == 2
    then timed_out
    else response 7

three_valid : validate_retry_attempts 3 ≡ ok tt
unfolding validate_retry_attempts
three_valid = refl

retry_rpc-returns_example : (r : Result RpcError ℕ) × (retry_rpc 3 third_time ≡ some r)
retry_rpc-returns_example = retry_rpc-returns 3 third_time three_valid

retried_before : (i : ℕ) → 1 ≤ i → i < 3 → is_retried (third_time i) ≡ true
unfolding is_retryable_status
retried_before i from below = ground arith

retry_rpc-settled_example : retry_rpc 3 third_time ≡ some (settled 3 (third_time 3))
retry_rpc-settled_example =
    retry_rpc-settled 3 third_time 3 (omega arith) (omega arith) retried_before (inl refl)
