-- ===== src/Cas/Chunks.antt =====
-- crates/rfs-common/src/cas.rs: the requests of a `ByteStream.Write`.
use remotefs.Base.{
  ℕ, ◌+◌, Bool, true, false, not, Option, none, some, List, [], ◌∷◌, ◌++◌, Result, ok, err, ◌>>=◌,
  ◌>>◌,
}
use remotefs.Base.{if◌then◌else◌, length, ◌==◌, nat_eq}
use remotefs.Base.Int.{ℤ, int_eq}
use remotefs.Base.Text.{Text}
use remotefs.Digest.{Digest}

pub data WriteStatus : Type 0 where
  internal data_loss rejected : WriteStatus

pub record WriteRequest : Type 0 where
  pub resource_name : Text
  pub write_offset : ℕ
  pub finish_write : Bool
  pub payload : List ℕ

-- What the reads of the file give, as in an upload: the bytes of one read, or `none` where it fails.
abbrev pub FileReads : Type 0
FileReads = List (Option (List ℕ))

abbrev pub is_empty : List ℕ → Bool
is_empty [] = true
is_empty (b ∷ more) = false

-- The bytes that reads until the end of the file give together, or `none` where one fails.
unfoldable pub read_all : FileReads → Option (List ℕ)
read_all [] = some []
read_all (none ∷ reads) = none
read_all (some [] ∷ reads) = some []
read_all (some (b ∷ bytes) ∷ reads) = elim (read_all reads) [
  | none ↦ none
  | some rest ↦ some ((b ∷ bytes) ++ rest)
]

-- The one request for bytes in memory.
abbrev pub bytes_requests : Text → List ℕ → List WriteRequest
bytes_requests resource_name payload =
    record {
      resource_name = resource_name;
      write_offset = 0;
      finish_write = true;
      payload = payload;
    }
    ∷ []

-- The requests that reach the channel, and how the producer ends. The receiver takes the request of
-- each offset or has gone.
module _ (takes : ℕ → Bool) (resource_name : Text) where
  abbrev pub request_of : ℕ → List ℕ → WriteRequest
  request_of offset read = record {
    resource_name = resource_name;
    write_offset = offset;
    finish_write = is_empty read;
    payload = read;
  }

  unfoldable pub send_requests : FileReads → ℕ → List WriteRequest × Result WriteStatus (Unit {0})
  send_requests [] offset =
      if takes offset then (request_of offset [] ∷ [], ok tt) else ([], err internal)
  send_requests (none ∷ reads) offset = ([], err internal)
  send_requests (some read ∷ reads) offset =
      let (rest, result) = send_requests reads (offset + length read) in
      if not (takes offset)
      then ([], err internal)
      else if is_empty read
      then (request_of offset read ∷ [], ok tt)
      else (request_of offset read ∷ rest, result)

  -- `send_bytestream_file_requests`
  unfoldable pub send_bytestream_file_requests :
      Option FileReads → List WriteRequest × Result WriteStatus (Unit {0})
  unfolding send_requests
  send_bytestream_file_requests none = ([], err internal)
  send_bytestream_file_requests (some reads) = send_requests reads 0

unfoldable pub bytestream_committed_size_error : ℤ → Digest → Option WriteStatus
bytestream_committed_size_error committed_size digest =
    if not (committed_size == digest.size_bytes) then some data_loss else none

abbrev pub checked : ℤ → Digest → Result WriteStatus ℤ
checked committed_size digest = elim (bytestream_committed_size_error committed_size digest) [
  | none ↦ ok committed_size
  | some status ↦ err status
]

-- The server: what it answers to a sequence of requests, the size that it committed.
module _ (write : List WriteRequest → Result WriteStatus ℤ) where
  unfoldable pub send_bytestream_bytes_write : Text → Digest → List ℕ → Result WriteStatus ℤ
  unfolding bytestream_committed_size_error
  send_bytestream_bytes_write resource_name digest payload = do
    committed_size ← write (bytes_requests resource_name payload)
    checked committed_size digest

  unfoldable pub send_bytestream_file_write :
      (ℕ → Bool) → Text → Digest → Option FileReads → Result WriteStatus ℤ
  unfolding bytestream_committed_size_error send_bytestream_file_requests
  send_bytestream_file_write takes resource_name digest reads = do
    (send_bytestream_file_requests takes resource_name reads).1
    committed_size ← write (send_bytestream_file_requests takes resource_name reads).0
    checked committed_size digest
