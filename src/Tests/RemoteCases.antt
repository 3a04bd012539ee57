-- ===== src/Tests/RemoteCases.antt =====
-- crates/rfs-common/src/cas.rs: the client in front of a remote store, and downloads, at concrete inputs.
use remotefs.Base.{ℕ, ◌≡◌, refl, Bool, true, Option, some, List, [], ◌∷◌, ◌++◌, Result, ok}
use remotefs.Base.Text.{Text, codes}
use remotefs.Digest.{for_bytes}
use remotefs.Cas.Blobs.{CasError, Blob, file_path}
use remotefs.Cas.Batch.{bytestream_write_blob, bytestream_requests, resource_of}
use remotefs.Cas.Chunks.{send_bytestream_file_write}
use remotefs.Cas.Written.{IsWrite, content_of, bytestream_write_blob-IsWrite}
use remotefs.Cas.Client.{cas_client}
use remotefs.Cas.Refines.{cas_client-IsLawful}
use remotefs.Cas.Chunks.{FileReads, send_bytestream_file_requests}
use remotefs.Cas.Assembly.{assemble, always, send_bytestream_file_requests-assemble}
use remotefs.Cas.Download.{ReadResponse, Chunk, payload, stream_blob}
use remotefs.Cas.Verified.{stream_blob-Wrote}
use remotefs.Upload.Stored.{IsLawful}
use remotefs.Tests.Data.{abc, abc_digest, hash_all}
use remotefs.Tests.Server.{disk_of, a_remote, a_remote-IsRemote, HeldThere}
use remotefs.Cas.Blobs.{digest_size_usize}
use remotefs.Cas.Download.{bytestream_read_into}

abbrev a_file : Text → Option (List ℕ)
a_file path = some abc

cas_client-IsLawful_example : IsLawful (cas_client (disk_of a_file) 4 a_remote) HeldThere
cas_client-IsLawful_example =
    cas_client-IsLawful (disk_of a_file) 4 a_remote HeldThere a_remote-IsRemote

abbrev takes_bytes : List ℕ → List ℕ → Bool
takes_bytes written bytes = true

-- The blob in two messages.
abbrev two_chunks : Result CasError (List Chunk)
two_chunks = ok (payload (codes "a") ∷ payload (codes "bc") ∷ [])

abbrev no_responses : Result CasError (List ReadResponse)
no_responses = ok []

streamed :
    (stream_blob hash_all takes_bytes 2 no_responses two_chunks abc_digest (codes "x")).0 ≡ ok tt
unfolding stream_blob digest_size_usize bytestream_read_into
streamed = refl

stream_blob-Wrote_example :
    (content : List ℕ) × ((stream_blob hash_all takes_bytes 2 no_responses two_chunks abc_digest
        (codes "x")).1
      ≡ codes "x" ++ content)
    × (for_bytes hash_all content ≡ abc_digest)
stream_blob-Wrote_example =
    stream_blob-Wrote hash_all takes_bytes 2 no_responses two_chunks abc_digest (codes "x") streamed

abbrev two_reads : FileReads
two_reads = some (codes "ab") ∷ some (codes "c") ∷ []

send_bytestream_file_requests-assemble_example :
    (assemble [] (send_bytestream_file_requests always (codes "r") (some two_reads)).0 ≡ some abc)
    × ((send_bytestream_file_requests always (codes "r") (some two_reads)).1 ≡ ok tt)
send_bytestream_file_requests-assemble_example =
    send_bytestream_file_requests-assemble (codes "r") two_reads abc
      (codes "c", refl, ([], refl, refl))

-- `abc` on disk, in a stream.
abbrev abc_blob : Blob
abc_blob = record { digest = abc_digest; contents = file_path (codes "f") }

abc_written : bytestream_write_blob (disk_of a_file) a_remote.stream [] abc_blob ≡ ok tt
unfolding bytestream_write_blob send_bytestream_file_write
abc_written = refl

bytestream_write_blob-IsWrite_example :
    IsWrite
      (a_remote.stream.answer [])
      (resource_of (disk_of a_file) a_remote.stream [] abc_digest)
      abc_digest
      (bytestream_requests (disk_of a_file) a_remote.stream [] abc_blob)
      (content_of (disk_of a_file) (file_path (codes "f")))
bytestream_write_blob-IsWrite_example =
    bytestream_write_blob-IsWrite (disk_of a_file) a_remote.stream [] abc_blob abc_written
