-- ===== src/Cas/Written.antt =====
-- crates/rfs-common/src/cas.rs: what `bytestream_write_blob` has sent when it succeeds.
use remotefs.Base.{
  ℕ, Bool, ◌≡◌, refl, Option, none, some, List, [], Result, ok, err, >>=-eq-ok, arith,
}
use remotefs.Base.Int.{ℤ, int_eq}
use remotefs.Base.Text.{Text}
use remotefs.Digest.{Digest}
use remotefs.Cas.Blobs.{Blob, BlobContents, bytes, file_path}
use remotefs.Cas.Chunks.{
  WriteRequest, WriteStatus, FileReads, read_all, bytes_requests, send_bytestream_bytes_write,
  send_bytestream_file_requests, send_bytestream_file_write, bytestream_committed_size_error,
  checked,
}
use remotefs.Cas.Assembly.{assemble}
use remotefs.Cas.Streams.{Names, send_requests-Names, send_requests-assemble}
use remotefs.Cas.Batch.{
  Transfer, Disk, ByteStream, read_file, resource_of, bytestream_requests, bytestream_write_file,
  bytestream_write_blob, in_write,
}

-- The bytes of a blob, in memory or on disk.
abbrev pub content_of : Disk → BlobContents → Option (List ℕ)
content_of disk (bytes payload) = some payload
content_of disk (file_path path) = read_file disk path

-- The requests are a complete write of these contents under the name, and the answer to them is the size.
pub record IsWrite (answer : List WriteRequest → Result WriteStatus ℤ) (name : Text) (d : Digest)
    (requests : List WriteRequest) (contents : Option (List ℕ)) : Type 0 where
  pub content : List ℕ
  pub whole : contents ≡ some content
  pub put : assemble [] requests ≡ some content
  pub named : Names name requests
  pub answered : answer requests ≡ ok d.size_bytes

checked-size :
    (size : ℤ) (d : Digest) {committed : ℤ} → checked size d ≡ ok committed → size ≡ d.size_bytes
unfolding bytestream_committed_size_error
checked-size size d h = ground (arith, int_eq.equals_iff size d.size_bytes)

module _ (answer : List WriteRequest → Result WriteStatus ℤ) (name : Text) (d : Digest) where
  bytes-IsWrite :
      (payload : List ℕ) (size : ℤ)
      → send_bytestream_bytes_write answer name d payload ≡ ok size
      → IsWrite answer name d (bytes_requests name payload) (some payload)
  unfolding send_bytestream_bytes_write
  bytes-IsWrite payload size h =
      let (committed, e, fine) = >>=-eq-ok (answer (bytes_requests name payload)) _ h in
      record {
        content = payload;
        whole = refl;
        put = refl;
        named = (refl, tt);
        answered = ground (arith, checked-size committed d fine);
      }

  file-IsWrite :
      (takes : ℕ → Bool) (reads : Option FileReads) (size : ℤ)
      → send_bytestream_file_write answer takes name d reads ≡ ok size
      → IsWrite answer name d
          (send_bytestream_file_requests takes name reads).0
          (elim reads [ none ↦ none | some rs ↦ read_all rs ])
  unfolding send_bytestream_file_write send_bytestream_file_requests
  file-IsWrite takes none size h = cc
  file-IsWrite takes (some reads) size h =
      let (_, produced, h1) =
        >>=-eq-ok (send_bytestream_file_requests takes name (some reads)).1 _ h in
      let (committed, e, fine) =
        >>=-eq-ok (answer (send_bytestream_file_requests takes name (some reads)).0) _ h1 in
      let (content, whole, put) = send_requests-assemble takes name reads [] produced in
      record {
        content = content;
        whole = whole;
        put = put;
        named = send_requests-Names takes name reads 0;
        answered = ground (arith, checked-size committed d fine);
      }

in_write-ok : (r : Result WriteStatus ℤ) → in_write r ≡ ok tt → (size : ℤ) × (r ≡ ok size)
in_write-ok (ok size) h = (size, refl)
in_write-ok (err status) h = cc

module _ (disk : Disk) (stream : ByteStream) (sent : List Transfer) where
  written-contents :
      (d : Digest) (c : BlobContents)
      → bytestream_write_blob disk stream sent (record { digest = d; contents = c }) ≡ ok tt
      → IsWrite
          (stream.answer sent)
          (resource_of disk stream sent d)
          d
          (bytestream_requests disk stream sent (record { digest = d; contents = c }))
          (content_of disk c)
  unfolding bytestream_write_blob bytestream_requests bytestream_write_file
  written-contents d (bytes payload) h =
      let (size, fine) = in_write-ok _ h in
      bytes-IsWrite (stream.answer sent) (resource_of disk stream sent d) d payload size fine
  written-contents d (file_path path) h =
      let (size, fine) = in_write-ok _ h in
      file-IsWrite (stream.answer sent) (resource_of disk stream sent d) d (stream.takes sent)
        (disk path) size fine

  -- When `bytestream_write_blob` succeeds, its requests were a complete write of the bytes of the blob, in
  -- memory or as the reads of its file give them: a receiver by the protocol puts exactly these bytes
  -- together, every request names the resource of the digest, and the remote store answered with the
  -- size of the digest.
  pub bytestream_write_blob-IsWrite :
      (b : Blob)
      → bytestream_write_blob disk stream sent b ≡ ok tt
      → IsWrite
          (stream.answer sent)
          (resource_of disk stream sent b.digest)
          b.digest
          (bytestream_requests disk stream sent b)
          (content_of disk b.contents)
  bytestream_write_blob-IsWrite b = written-contents b.digest b.contents
