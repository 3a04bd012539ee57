-- ===== src/Session/Cache.antt =====
-- crates/rfs-common/src/session/cache.rs: the verified local cache in front of the remote store. The
-- cache directory is a map from paths to contents; failures of the local disk are not modelled.
use remotefs.Base.{
  ℕ, ◌+◌, ◌-◌, min, Option, none, some, Bool, true, false, not, List, [], ◌∷◌, ◌++◌,
}
use remotefs.Base.{
  Result, ok, err, reject_if, ltb, if◌then◌else◌, length, take, drop, ◌==◌, nat_eq, list_eq,
}
use remotefs.Base.Int.{ℤ, pos, negsuc}
use remotefs.Base.Text.{Text, codes}
use remotefs.Base.Decimal.{decimal_ℤ}
use remotefs.Digest.{Digest, digest_beq, for_bytes}
use remotefs.Session.Types.{SessionError, internal_error}
pub mod Integrity
pub mod Ranges
use remotefs.Session.Action.{Action, ◌>>=◌, ◌>>◌, lift, pure}

-- The files below a root, by their path from it.
abbrev pub Files : Type 0
Files = List (Text × List ℕ)

unfoldable pub lookup : Text → Files → Option (List ℕ)
lookup path [] = none
lookup path ((p, bytes) ∷ files) = if p == path then some bytes else lookup path files

-- `CachedBlobStore::path`, from the root: two characters of the hash, then hash and size.
unfoldable pub path : Digest → Text
path digest = take 2 digest.hash ++ b'/' ∷ (digest.hash ++ b'-' ∷ decimal_ℤ digest.size_bytes)

abbrev is_cached : Option (List ℕ) → Bool
is_cached none = false
is_cached (some bytes) = true

unfoldable pub cache_contains : Digest → Files → Bool
cache_contains digest files = is_cached (lookup (path digest) files)

-- What a remote store does with a destination: the chunks that it writes, and whether it then
-- reports success.
pub record RemoteStream : Type 0 where
  pub chunks : List (List ℕ)
  pub completes : Bool

-- `PendingBlob`; the running hash is that of the bytes written so far.
pub record PendingBlob : Type 0 where
  pub expected : Digest
  pub written : List ℕ

-- `Write::write`, which accepts a whole chunk or none of it.
unfoldable pub write : List ℕ → PendingBlob → Result SessionError PendingBlob
write bytes pending = elim pending.expected.size_bytes [
  | negsuc n ↦ err internal_error
  | pos expected ↦
      if ltb expected (length pending.written + length bytes)
      then err internal_error
      else ok (record pending { written = pending.written ++ bytes })
]

-- `stream_blob` into the pending file: it stops at the first chunk that is refused.
unfoldable pub write_all : List (List ℕ) → PendingBlob → Result SessionError PendingBlob
write_all [] pending = ok pending
write_all (chunk ∷ chunks) pending = elim (write chunk pending) [
  | err e ↦ err internal_error
  | ok more ↦ write_all chunks more
]

-- `read_file_range` of a file that is there.
unfoldable pub file_range : List ℕ → ℕ → ℕ → List ℕ
file_range bytes offset size = take (min (length bytes - offset) size) (drop offset bytes)

unfoldable pub read_file_range : Text → ℕ → ℕ → Action Files (List ℕ)
unfolding file_range
read_file_range path offset size files = elim (lookup path files) [
  | none ↦ (err internal_error, files)
  | some bytes ↦ (ok (file_range bytes offset size), files)
]

module _ (sha256_hex : List ℕ → Text) where
  unfoldable pub verify : PendingBlob → Result SessionError (Unit {0})
  verify pending =
      reject_if (not (digest_beq (for_bytes sha256_hex pending.written) pending.expected))
        internal_error

  -- Verification, then a rename that keeps an entry which is there already.
  unfoldable pub admit_pending_blob : PendingBlob → Action Files (Unit {0})
  admit_pending_blob pending = do
    lift (verify pending)
    λ files.
        if cache_contains pending.expected files
        then (ok tt, files)
        else (ok tt, (path pending.expected, pending.written) ∷ files)

  module _ (stream_blob : Digest → RemoteStream) where
    unfoldable pub fill_cache_after_lock : Digest → Action Files Bool
    fill_cache_after_lock digest files =
        if cache_contains digest files
        then (ok false, files)
        else (do
          pending ←
              lift
                (write_all (stream_blob digest).chunks (record { expected = digest; written = [] }))
          lift (reject_if (not (stream_blob digest).completes) internal_error)
          admit_pending_blob pending
          pure true)
            files

    -- The lock of the digest is taken and released around the second check: one reader at a time.
    unfoldable pub ensure_cached : Digest → Action Files Bool
    ensure_cached digest files =
        if cache_contains digest files
        then (ok false, files)
        else fill_cache_after_lock digest files

    unfoldable pub read_cached_blob : Digest → Action Files (List ℕ)
    read_cached_blob digest files = elim (lookup (path digest) files) [
      | none ↦ (err internal_error, files)
      | some bytes ↦ (ok bytes, files)
    ]

    unfoldable pub read_blob : Digest → Action Files (List ℕ × Bool)
    unfolding read_cached_blob
    read_blob digest = do
      downloaded ← ensure_cached digest
      bytes ← read_cached_blob digest
      pure (bytes, downloaded)

    unfoldable pub read_range : Digest → ℕ → ℕ → Action Files (List ℕ × Bool)
    unfolding read_file_range
    read_range digest offset size = do
      downloaded ← ensure_cached digest
      bytes ← read_file_range (path digest) offset size
      pure (bytes, downloaded)
