-- ===== src/Cas/Order.antt =====
-- crates/rfs-common/src/cas.rs: an upload that succeeds has sent every blob once, in order, with its bytes.
use remotefs.Base.{ℕ, ◌≡◌, refl, Option, some, List, [], ◌∷◌, ◌++◌, map}
use remotefs.Base.{Result, ok, arith, >>=-eq-ok, ok_injective, subst}
use remotefs.Digest.{Digest, ReapiDigest, to_reapi}
use remotefs.Cas.Blobs.{
  CasError, Blob, BlobContents, bytes, file_path, io, blob_status, load_blob_as_bytes,
  load_contents, UpdateRequest,
}
use remotefs.Base.{reject_if, ok_or, not, length, ◌==◌, nat_eq}
use remotefs.Cas.Assembly.{assemble}
use remotefs.Cas.Batch.{
  Transfer, batch_update, bytestream_write, UpdateResponse, Disk, ByteStream, read_file,
  upload_blobs_to_cas,
}
use remotefs.Cas.Carried.{all_carried, all_carried-append, upload_blobs_to_cas-carried}
use remotefs.Cas.Written.{content_of}

abbrev pub digest_of : Blob → Digest
digest_of b = b.digest

abbrev pub carried_by : Transfer → List Digest
carried_by (batch_update bs requests) = map digest_of bs
carried_by (bytestream_write b requests) = b.digest ∷ []

-- The digests of the blobs in the calls, in their order.
abbrev pub sent_digests : List Transfer → List Digest
sent_digests ts = all_carried carried_by ts

pub sent_digests-append :
    (ts us : List Transfer) → sent_digests (ts ++ us) ≡ sent_digests ts ++ sent_digests us
sent_digests-append = all_carried-append carried_by

-- A blob as the remote store gets it: the digest, and the bytes.
abbrev pub Piece : Type 0
Piece = Option ReapiDigest × Option (List ℕ)

abbrev pub request_piece : UpdateRequest → Piece
request_piece request = (request.digest, some request.payload)

-- What the requests of a call carry: a stream is put together by the receiver.
abbrev pub pieces_of : Transfer → List Piece
pieces_of (batch_update bs requests) = map request_piece requests
pieces_of (bytestream_write b requests) = (some (to_reapi b.digest), assemble [] requests) ∷ []

module _ (disk : Disk) where
  -- The digest of a blob with its bytes, in memory or on disk.
  abbrev pub piece_of : Blob → Piece
  piece_of b = (some (to_reapi b.digest), content_of disk b.contents)

  load-piece :
      (d : Digest) (c : BlobContents) (n : ℕ) (loaded : Blob)
      → load_contents (read_file disk) d c n ≡ ok loaded
      → (loaded.digest ≡ d) × (piece_of loaded ≡ piece_of (record { digest = d; contents = c }))
  unfolding load_contents
  load-piece d (bytes content) n loaded h =
      let (_, same, made) = >>=-eq-ok (reject_if (not (length content == n)) (blob_status d)) _ h in
      subst
        (λ (b : Blob).
          (b.digest ≡ d)
          × (piece_of b ≡ piece_of (record { digest = d; contents = bytes content })))
        (ok_injective made) (refl, refl)
  load-piece d (file_path path) n loaded h =
      let (content, e, read) = >>=-eq-ok (ok_or io (read_file disk path)) _ h in
      let (_, same, made) =
        >>=-eq-ok (reject_if (not (length content == n)) (blob_status d)) _ read in
      let found : read_file disk path ≡ some content = ground arith in
      subst
        (λ (b : Blob).
          (b.digest ≡ d)
          × (piece_of b ≡ piece_of (record { digest = d; contents = file_path path })))
        (ok_injective made) (refl, rw found refl)

  module _ (budget : ℕ)
      (update : List Transfer → List UpdateRequest → Result CasError (List UpdateResponse))
      (stream : ByteStream) where
    pub upload_blobs_to_cas-digests :
        (blobs : List Blob)
        → (upload_blobs_to_cas disk budget update stream blobs).0 ≡ ok tt
        → sent_digests (upload_blobs_to_cas disk budget update stream blobs).1 ≡ map digest_of blobs
    unfolding load_blob_as_bytes
    upload_blobs_to_cas-digests =
        upload_blobs_to_cas-carried disk budget update stream digest_of carried_by
          (λ b loaded n size e. (load-piece b.digest b.contents n loaded e).0)
          (λ batch requests e. refl) (λ sent b e. refl)
