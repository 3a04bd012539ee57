-- ===== src/Cas/Batch.antt =====
-- crates/rfs-common/src/cas.rs: the packing of blobs into `BatchUpdateBlobs` requests.
use remotefs.Base.{
  ℕ, ◌+◌, Option, none, some, Bool, true, false, not, ◌&&◌, List, [], ◌∷◌, ◌++◌, Result, ok, err,
}
use remotefs.Base.{
  ◌>>=◌, reject_if, try_map, for_each, ltb, if◌then◌else◌, ◌==◌, nat_eq, list_eq, option_eq, ok_or,
}
use remotefs.Base.Int.{ℤ, pos, int_eq}
use remotefs.Base.Text.{Text}
use remotefs.Base.State.{Stateful, and_then, lift, within}
use remotefs.Digest.{Digest, ReapiDigest, to_reapi}
use remotefs.Cas.Names.{bytestream_write_resource_name}
use remotefs.Cas.Chunks.{
  WriteStatus, WriteRequest, FileReads, read_all, bytes_requests, send_bytestream_file_requests,
  send_bytestream_bytes_write, send_bytestream_file_write,
}
use remotefs.Cas.Blobs.{bytes, file_path, rpc}
use remotefs.Cas.Blobs.{CasError, missing_response, blob_status, context, Blob, digest_size_usize}
use remotefs.Cas.Blobs.{load_blob_as_bytes, UpdateRequest, batch_update_request}

pub record BatchUpdateState : Type 0 where
  pub blobs : List Blob
  pub bytes : ℕ
  pub next_index : ℕ

abbrev pub new_batch : BatchUpdateState
new_batch = record { blobs = []; bytes = 0; next_index = 0 }

abbrev pub no_blobs : List Blob → Bool
no_blobs [] = true
no_blobs (b ∷ bs) = false

unfoldable pub would_exceed_budget : BatchUpdateState → ℕ → ℕ → Bool
would_exceed_budget batch blob_size budget =
    not (no_blobs batch.blobs) && ltb budget (batch.bytes + blob_size)

unfoldable pub push : Blob → ℕ → BatchUpdateState → BatchUpdateState
push blob blob_size batch = record batch {
  blobs = batch.blobs ++ blob ∷ [];
  bytes = batch.bytes + blob_size;
}

-- The batch that `take` leaves.
unfoldable pub taken : BatchUpdateState → BatchUpdateState
taken batch = record { blobs = []; bytes = 0; next_index = batch.next_index + 1 }

pub record UpdateResponse : Type 0 where
  pub digest : Option ReapiDigest
  pub status : Option ℤ

-- A call of the remote store, one batch or one stream: what it is for, and the requests of its last
-- attempt.
pub data Transfer : Type 0 where
  batch_update : List Blob → List UpdateRequest → Transfer
  bytestream_write : Blob → List WriteRequest → Transfer

-- How `ByteStream.Write` is called: the instance, the fresh UUID of a call, which of the requests the
-- channel takes, and the size that the remote store answers, after the calls that were made.
pub record ByteStream : Type 0 where
  pub instance_name : Text
  pub fresh_uuid : List Transfer → Text
  pub takes : List Transfer → ℕ → Bool
  pub answer : List Transfer → List WriteRequest → Result WriteStatus ℤ

-- The batch in progress, and the calls that were made.
pub record Upload : Type 0 where
  pub batch : BatchUpdateState
  pub sent : List Transfer

abbrev pub Uploading : Type 0
Uploading = Stateful CasError Upload (Unit {0})

unfoldable pub reapi_beq : ReapiDigest → ReapiDigest → Bool
reapi_beq d e = d.hash == e.hash && d.size_bytes == e.size_bytes

unfoldable pub is_for : Blob → UpdateResponse → Bool
is_for blob response = elim response.digest [
  | none ↦ false
  | some d ↦ reapi_beq d (to_reapi blob.digest)
]

unfoldable pub find_response : Blob → List UpdateResponse → Option UpdateResponse
find_response blob [] = none
find_response blob (r ∷ rs) = if is_for blob r then some r else find_response blob rs

unfoldable pub is_failure : Option ℤ → Bool
is_failure none = false
is_failure (some code) = not (code == pos 0)

-- The loop over the responses.
unfoldable pub check_response : List UpdateResponse → Blob → Result CasError (Unit {0})
check_response responses blob = do
  response ← ok_or (missing_response blob.digest) (find_response blob responses)
  reject_if (is_failure response.status) (blob_status blob.digest)

-- The reads of a file until its end, by path.
abbrev pub Disk : Type 0
Disk = Text → Option FileReads

-- A file that is read as a whole.
abbrev pub read_file : Disk → Text → Option (List ℕ)
read_file disk path = elim (disk path) [ none ↦ none | some reads ↦ read_all reads ]

-- The result of the call, with its context.
abbrev pub in_write : Result WriteStatus ℤ → Result CasError (Unit {0})
in_write (ok size) = ok tt
in_write (err status) = err (context rpc)

-- `bytestream_write_blob`, after the calls that were made; an attempt that is tried again leaves no trace.
module _ (disk : Disk) (stream : ByteStream) (sent : List Transfer) where
  abbrev pub resource_of : Digest → Text
  resource_of digest =
      bytestream_write_resource_name (stream.fresh_uuid sent) stream.instance_name digest

  -- The requests of the write.
  unfoldable pub bytestream_requests : Blob → List WriteRequest
  bytestream_requests blob = elim blob.contents [
    | bytes payload ↦ bytes_requests (resource_of blob.digest) payload
    | file_path path ↦
        (send_bytestream_file_requests (stream.takes sent) (resource_of blob.digest) (disk path)).0
  ]

  unfoldable pub bytestream_write_file : Digest → Text → Result WriteStatus ℤ
  bytestream_write_file digest path =
      send_bytestream_file_write (stream.answer sent) (stream.takes sent) (resource_of digest)
        digest (disk path)

  unfoldable pub bytestream_write_blob : Blob → Result CasError (Unit {0})
  unfolding bytestream_write_file
  bytestream_write_blob blob = in_write (elim blob.contents [
    | bytes payload ↦
        send_bytestream_bytes_write (stream.answer sent) (resource_of blob.digest) blob.digest
          payload
    | file_path path ↦ bytestream_write_file blob.digest path
  ])

-- What the remote store answers to a batch, retries included, after the calls that were made.
module _ (disk : Disk) (budget : ℕ)
    (update : List Transfer → List UpdateRequest → Result CasError (List UpdateResponse))
    (stream : ByteStream) where
  unfoldable pub upload_batch_to_cas : List Blob → Uploading
  upload_batch_to_cas batch u =
      and_then (lift (try_map batch_update_request batch))
        (λ requests u'.
          let u'' : Upload = record u' { sent = u'.sent ++ batch_update batch requests ∷ [] } in
          and_then (lift (update u'.sent requests))
            (λ responses. lift (for_each (check_response responses) batch)) u'')
        u

  unfoldable pub flush_batch_update : Uploading
  flush_batch_update u =
      if no_blobs u.batch.blobs
      then (ok tt, u)
      else within context (upload_batch_to_cas u.batch.blobs) (record u { batch = taken u.batch })

  unfoldable pub upload_oversized_blob : Blob → Uploading
  unfolding bytestream_write_blob bytestream_requests
  upload_oversized_blob blob u =
      within context (lift (bytestream_write_blob disk stream u.sent blob)) (record u {
        sent = u.sent ++ bytestream_write blob (bytestream_requests disk stream u.sent blob) ∷ [];
      })

  -- The body of the loop for a blob that fits a batch.
  unfoldable pub add_to_batch : Blob → ℕ → Uploading
  add_to_batch blob blob_size =
      and_then (lift (load_blob_as_bytes (read_file disk) blob blob_size)) λ loaded u.
        and_then
          (if would_exceed_budget u.batch blob_size budget
            then flush_batch_update
            else lift (ok tt))
          (λ _ u'. (ok tt, record u' { batch = push loaded blob_size u'.batch })) u

  unfoldable pub upload_one : Blob → Uploading
  upload_one blob = and_then (lift (digest_size_usize blob.digest)) λ blob_size.
      if ltb budget blob_size
      then and_then flush_batch_update (λ _. upload_oversized_blob blob)
      else add_to_batch blob blob_size

  unfoldable pub upload_each : List Blob → Uploading
  upload_each [] = lift (ok tt)
  upload_each (blob ∷ blobs) = and_then (upload_one blob) (λ _. upload_each blobs)

  -- `upload_blobs_to_cas`, from an empty batch, with the calls that it makes.
  unfoldable pub upload_blobs_to_cas : List Blob → Result CasError (Unit {0}) × List Transfer
  upload_blobs_to_cas blobs =
      let done =
        and_then (upload_each blobs) (λ _. flush_batch_update)
          (record { batch = new_batch; sent = [] }) in
      (done.0, done.1.sent)
