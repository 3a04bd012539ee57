-- ===== src/Cas/Client.antt =====
-- crates/rfs-common/src/cas.rs: `CasClient::find_missing_blobs` and `CasClient::upload_blobs`, by which a
-- client is a `BlobStore`. The state is the sequence of calls that were made.
use remotefs.Base.{ℕ, ◌+◌, ◌^◌, List, [], ◌∷◌, ◌++◌, map, Result, ok, err, ◌>>=◌, map_err, try_map}
use remotefs.Base.{if◌then◌else◌, ltb, length, nat_eq, list_eq}
use remotefs.Base.Int.{pos, negsuc}
use remotefs.Base.State.{Stateful, and_then, lift, pure}
use remotefs.Digest.{Digest, ReapiDigest, to_reapi, from_reapi}
use remotefs.Cas.Blobs.{
  CasError, reapi_conversion, blob_status, invalid_response_digest, context, Blob, UpdateRequest,
}
use remotefs.Cas.Batch.{Disk, ByteStream, Transfer, UpdateResponse, upload_blobs_to_cas}
use remotefs.Upload.Send.{BlobStore, UploadStats}

unfoldable pub parse_response_digests : List ReapiDigest → Result CasError (List Digest)
parse_response_digests digests = map_err (λ _. invalid_response_digest) (try_map from_reapi digests)

unfoldable pub digest_size_u64 : Digest → Result CasError ℕ
digest_size_u64 digest = elim digest.size_bytes [ pos n ↦ ok n | negsuc n ↦ err reapi_conversion ]

-- The `try_fold` with `checked_add` on a `u64`.
unfoldable pub total_size : ℕ → List Blob → Result CasError ℕ
unfolding digest_size_u64
total_size total [] = ok total
total_size total (blob ∷ blobs) = do
  size ← digest_size_u64 blob.digest
  sum ← (if ltb (total + size) (2 ^ 64) then ok (total + size) else err (blob_status blob.digest))
  total_size sum blobs

-- The remote store: what it answers, retries included, after the calls that were made.
pub record Remote : Type 0 where
  pub find_missing : List Transfer → List ReapiDigest → Result CasError (List ReapiDigest)
  pub update : List Transfer → List UpdateRequest → Result CasError (List UpdateResponse)
  pub stream : ByteStream

-- `ByteStream.Write` after the calls that were made before.
abbrev pub stream_after : List Transfer → ByteStream → ByteStream
stream_after before stream = record {
  instance_name = stream.instance_name;
  fresh_uuid = λ calls. stream.fresh_uuid (before ++ calls);
  takes = λ calls. stream.takes (before ++ calls);
  answer = λ calls. stream.answer (before ++ calls);
}

module _ (disk : Disk) (budget : ℕ) (remote : Remote) where
  unfoldable pub find_missing_blobs : List Digest → Stateful CasError (List Transfer) (List Digest)
  unfolding parse_response_digests
  find_missing_blobs digests before = (
    map_err context (remote.find_missing before (map to_reapi digests)) >>= parse_response_digests,
    before,
  )

  -- The transfer of the blobs, after the calls that were made.
  unfoldable pub send : List Blob → Stateful CasError (List Transfer) (Unit {0})
  send blobs before =
      let (result, sent) =
        upload_blobs_to_cas disk budget (λ calls. remote.update (before ++ calls))
          (stream_after before remote.stream) blobs in
      (map_err context result, before ++ sent)

  unfoldable pub upload_blobs : List Blob → Stateful CasError (List Transfer) UploadStats
  unfolding total_size send
  upload_blobs blobs = and_then (lift (total_size 0 blobs)) λ bytes_uploaded.
      and_then (send blobs)
        λ _. pure (record { uploaded_blobs = length blobs; bytes_uploaded = bytes_uploaded })

  abbrev pub cas_client : BlobStore (List Transfer)
  cas_client = record { find_missing_blobs = find_missing_blobs; upload_blobs = upload_blobs }
