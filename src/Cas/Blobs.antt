-- ===== src/Cas/Blobs.antt =====
-- crates/rfs-common/src/cas.rs: blobs, errors, and the blobs that are read into memory. The texts of
-- errors are not kept.
use remotefs.Base.{ℕ, Option, some, not, List, Result, ok, err, ◌>>=◌, ◌>>◌, ok_or}
use remotefs.Base.{reject_if, length, ◌==◌, nat_eq}
use remotefs.Base.Int.{pos, negsuc}
use remotefs.Base.Text.{Text}
use remotefs.Digest.{Digest, ReapiDigest, to_reapi}

pub data CasError : Type 0 where
  rpc reapi_conversion io invalid_response_digest : CasError
  missing_response blob_status verification stream_write : Digest → CasError
  context : CasError → CasError

pub data BlobContents : Type 0 where
  bytes : List ℕ → BlobContents
  file_path : Text → BlobContents

pub record Blob : Type 0 where
  pub digest : Digest
  pub contents : BlobContents

-- `digest_size_usize`, on a machine of 64 bits.
unfoldable pub digest_size_usize : Digest → Result CasError ℕ
digest_size_usize digest = elim digest.size_bytes [ pos n ↦ ok n | negsuc n ↦ err reapi_conversion ]

-- The file system, by path.
module _ (read_file : Text → Option (List ℕ)) where
  unfoldable pub load_contents : Digest → BlobContents → ℕ → Result CasError Blob
  load_contents digest (bytes payload) expected_size = do
    reject_if (not (length payload == expected_size)) (blob_status digest)
    ok (record { digest = digest; contents = bytes payload })
  load_contents digest (file_path path) expected_size = do
    payload ← ok_or io (read_file path)
    reject_if (not (length payload == expected_size)) (blob_status digest)
    ok (record { digest = digest; contents = bytes payload })

  unfoldable pub load_blob_as_bytes : Blob → ℕ → Result CasError Blob
  load_blob_as_bytes blob expected_size = load_contents blob.digest blob.contents expected_size

pub record UpdateRequest : Type 0 where
  pub digest : Option ReapiDigest
  pub payload : List ℕ

unfoldable pub batch_update_request : Blob → Result CasError UpdateRequest
batch_update_request blob = elim blob.contents [
  | bytes payload ↦ ok (record { digest = some (to_reapi blob.digest); payload = payload })
  | file_path path ↦ err (blob_status blob.digest)
]
