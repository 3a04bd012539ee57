-- ===== src/Upload/Hash.antt =====
-- crates/rfs-common/src/upload.rs: the hashing of scanned files. The tasks are awaited in the order of
-- the files, so the model runs them in that order.
use remotefs.Base.{ℕ, ◌+◌, ◌-◌, ◌%◌, ◌^◌, not, Option, none, some, List, [], ◌∷◌, ◌++◌}
use remotefs.Base.{Result, ok, err, ◌>>=◌, ◌>>◌, ok_or, map_err, reject_if, try_map}
use remotefs.Base.{if◌then◌else◌, ltb, ◌==◌, nat_eq, length}
use remotefs.Base.Int.{ℤ, pos, negsuc}
use remotefs.Base.Text.{Text, codes}
use remotefs.Digest
use remotefs.Upload.Types.{
  UploadOptions, UploadError, filesystem, invalid_option, context, LocalFile, FileDigest,
  validate_options, hash_chunk_bytes,
}
use remotefs.Upload.Paths.{digest_leb, sort_with}

-- What the reads of one open file give, each the bytes of one read, or `none` where it fails. After
-- the last, a read gives no bytes.
abbrev pub Reads : Type 0
Reads = List (Option (List ℕ))

abbrev pub u64_modulus : ℕ
u64_modulus = 2 ^ 64

-- `as i64` of a `u64`.
unfoldable pub as_i64 : ℕ → ℤ
as_i64 n = if ltb n (2 ^ 63) then pos n else negsuc (u64_modulus - 1 - n)

-- SHA-256 in hexadecimal of all bytes that the hasher was given, and the opening of a file for reads
-- with a buffer of the given size.
module _ (sha256_hex : List ℕ → Text) (open_file : Text → ℕ → Option Reads) where
  -- The loop, with the bytes given to the hasher so far and their count.
  unfoldable pub hash_reads : Text → Reads → List ℕ → ℕ → Result UploadError (List ℕ × ℕ)
  hash_reads path [] hashed size_bytes = ok (hashed, size_bytes)
  hash_reads path (none ∷ reads) hashed size_bytes = err (filesystem path)
  hash_reads path (some [] ∷ reads) hashed size_bytes = ok (hashed, size_bytes)
  hash_reads path (some (b ∷ bytes) ∷ reads) hashed size_bytes =
      hash_reads path reads (hashed ++ b ∷ bytes) ((size_bytes + length (b ∷ bytes)) % u64_modulus)

  -- What follows the loop.
  unfoldable pub finish_hash : LocalFile → List ℕ × ℕ → Result UploadError FileDigest
  unfolding as_i64
  finish_hash file (hashed, size_bytes) = do
    reject_if (not (size_bytes == file.metadata.len)) (invalid_option (codes "file_size"))
    digest ←
        map_err (λ _. invalid_option (codes "digest"))
          (Digest.new (sha256_hex hashed) (as_i64 size_bytes))
    ok (record {
      relative_path = file.relative_path;
      absolute_path = file.absolute_path;
      digest = digest;
      size_bytes = size_bytes;
    })

  unfoldable pub hash_file : ℕ → LocalFile → Result UploadError FileDigest
  unfolding hash_reads finish_hash
  hash_file chunk_bytes file = do
    reads ← ok_or (filesystem file.absolute_path) (open_file file.absolute_path chunk_bytes)
    read_all ← hash_reads file.absolute_path reads [] 0
    finish_hash file read_all

  unfoldable pub hash_files : List LocalFile → UploadOptions → Result UploadError (List FileDigest)
  unfolding validate_options hash_chunk_bytes digest_leb sort_with
  hash_files files options = do
    validate_options options
    digests ← try_map (λ file. map_err context (hash_file (hash_chunk_bytes options) file)) files
    ok (sort_with digest_leb digests)
