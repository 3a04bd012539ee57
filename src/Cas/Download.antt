-- ===== src/Cas/Download.antt =====
-- crates/rfs-common/src/cas.rs: the verified download of one blob, into a destination that may fail.
use remotefs.Base.{
  ℕ, ◌+◌, ◌^◌, Bool, not, Option, none, some, List, [], ◌∷◌, ◌++◌, Result, ok, err, map_err, ok_or,
  reject_if,
}
use remotefs.Base.{if◌then◌else◌, length, nat_eq, ltb, leb}
use remotefs.Base.Int.{ℤ, pos, i64_max, int_eq}
use remotefs.Base.Text.{Text}
use remotefs.Base.State.{Stateful, and_then, lift, within}
use remotefs.Digest.{Digest, digest_beq, verify_bytes}
use remotefs.Cas.Blobs.{
  CasError, rpc, reapi_conversion, missing_response, blob_status, verification, stream_write,
  context, digest_size_usize,
}
use remotefs.Cas.Batch.{is_failure}

-- One blob of a response to `BatchReadBlobs`.
pub record ReadResponse : Type 0 where
  pub status : Option ℤ
  pub payload : List ℕ

-- What the next message of a `ByteStream.Read` comes to; after the last, the stream ends.
pub data Chunk : Type 0 where
  payload : List ℕ → Chunk
  failed idle : Chunk

-- The destination, by what was written to it.
abbrev pub Download : Type 0
Download = Stateful CasError (List ℕ) (Unit {0})

-- The bytes of a stream so far, and their count.
pub record Progress : Type 0 where
  pub hashed : List ℕ
  pub written : ℕ

abbrev pub first_of : List ReadResponse → Option ReadResponse
first_of [] = none
first_of (r ∷ rs) = some r

-- SHA-256 in hexadecimal, and whether a destination takes more bytes after what was written.
module _ (sha256_hex : List ℕ → Text) (accepts : List ℕ → List ℕ → Bool) where
  unfoldable pub verify_download : Digest → List ℕ → Result CasError (Unit {0})
  verify_download digest bytes =
      map_err (λ _. verification digest) (verify_bytes sha256_hex digest bytes)

  -- `write_all`, which writes all or, where it fails, is taken to write nothing.
  unfoldable pub write_all : Digest → List ℕ → Download
  write_all digest bytes destination =
      if accepts destination bytes
      then (ok tt, destination ++ bytes)
      else (err (stream_write digest), destination)

  -- The answer to the call, retries included.
  unfoldable pub batch_read_blob :
      Result CasError (List ReadResponse) → Digest → Stateful CasError (List ℕ) (List ℕ)
  unfolding verify_download
  batch_read_blob answer digest = and_then (lift (map_err context answer)) λ responses.
      and_then (lift (ok_or (missing_response digest) (first_of responses))) λ response.
        and_then (lift (reject_if (is_failure response.status) (blob_status digest))) λ _.
          and_then (lift (map_err context (verify_download digest response.payload)))
            λ _. lift (ok response.payload)

  -- What follows the loop over the chunks.
  unfoldable pub finish_stream : Digest → Progress → Result CasError (Unit {0})
  finish_stream digest progress =
      if not (leb progress.written i64_max)
      then err reapi_conversion
      else reject_if
          (not (
            digest_beq
              (record { hash = sha256_hex progress.hashed; size_bytes = pos progress.written })
              digest))
          (blob_status digest)

  -- `checked_add` on a `u64`.
  unfoldable pub count_chunk : Digest → List ℕ → Progress → Result CasError Progress
  count_chunk digest bytes progress =
      if ltb (progress.written + length bytes) (2 ^ 64)
      then ok
          (record { hashed = progress.hashed ++ bytes; written = progress.written + length bytes })
      else err (blob_status digest)

  unfoldable pub read_chunks : Digest → List Chunk → Progress → Download
  unfolding write_all count_chunk finish_stream
  read_chunks digest [] progress = lift (finish_stream digest progress)
  read_chunks digest (failed ∷ chunks) progress = lift (err rpc)
  read_chunks digest (idle ∷ chunks) progress = lift (err rpc)
  read_chunks digest (payload bytes ∷ chunks) progress = and_then (write_all digest bytes) λ _.
      and_then (lift (count_chunk digest bytes progress))
        λ progress'. read_chunks digest chunks progress'

  unfoldable pub bytestream_read_into : Result CasError (List Chunk) → Digest → Download
  unfolding read_chunks
  bytestream_read_into answer digest =
      and_then (lift (map_err context answer))
        λ chunks. read_chunks digest chunks (record { hashed = []; written = 0 })

  -- `threshold` is `download_blob_stream_threshold_bytes`.
  unfoldable pub stream_blob :
      ℕ → Result CasError (List ReadResponse) → Result CasError (List Chunk) → Digest → Download
  stream_blob threshold batch stream digest = and_then (lift (digest_size_usize digest)) λ size.
      if leb size threshold
      then and_then (within context (batch_read_blob batch digest)) (write_all digest)
      else within context (bytestream_read_into stream digest)

  -- The destination is the memory.
  unfoldable pub download_blob :
      ℕ
      → Result CasError (List ReadResponse)
      → Result CasError (List Chunk)
      → Digest
      → Result CasError (Unit {0}) × List ℕ
  download_blob threshold batch stream digest = stream_blob threshold batch stream digest []
