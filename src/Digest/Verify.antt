-- ===== src/Digest/Verify.antt =====
-- crates/rfs-common/src/digest.rs: `verify_bytes` against `for_bytes`.
use remotefs.Base.{ℕ, ◌≡◌, ◌≢◌, ◌↔◌, true, List, ok, err, arith, length, ==_iff, nat_eq, list_eq}
use remotefs.Base.Int.{pos, int_eq}
use remotefs.Base.Text.{Text}
use remotefs.Digest.{Digest, digest_beq, for_bytes, verify_bytes, size_mismatch, hash_mismatch}

pub digest_beq_iff : (d e : Digest) → (digest_beq d e ≡ true) ↔ (d ≡ e)
digest_beq_iff d e =
    ground (arith, ==_iff d.hash e.hash, int_eq.equals_iff d.size_bytes e.size_bytes)

module _ (sha256_hex : List ℕ → Text) where
  -- `verify_bytes` returns `Ok` exactly for the bytes of which `for_bytes` computes this digest.
  pub verify_bytes-eq-ok :
      (d : Digest) (bytes : List ℕ)
      → (verify_bytes sha256_hex d bytes ≡ ok tt) ↔ (for_bytes sha256_hex bytes ≡ d)
  unfolding verify_bytes
  verify_bytes-eq-ok d bytes =
      ground (
        arith,
        int_eq.equals_iff (pos (length bytes)) d.size_bytes,
        ==_iff (sha256_hex bytes) d.hash,
      )

  -- Bytes of another size than the digest's are refused for their size, whatever their hash is.
  verify_bytes-size_mismatch :
      (d : Digest) (bytes : List ℕ)
      → pos (length bytes) ≢ d.size_bytes
      → verify_bytes sha256_hex d bytes ≡ err (size_mismatch d.size_bytes (pos (length bytes)))
  unfolding verify_bytes
  verify_bytes-size_mismatch d bytes differ =
      ground (arith, int_eq.equals_iff (pos (length bytes)) d.size_bytes)

  -- Bytes of the digest's size and of another hash are refused for their hash.
  verify_bytes-hash_mismatch :
      (d : Digest) (bytes : List ℕ)
      → pos (length bytes) ≡ d.size_bytes
      → sha256_hex bytes ≢ d.hash
      → verify_bytes sha256_hex d bytes ≡ err (hash_mismatch d.hash (sha256_hex bytes))
  unfolding verify_bytes
  verify_bytes-hash_mismatch d bytes same differ =
      ground (
        arith,
        int_eq.equals_iff (pos (length bytes)) d.size_bytes,
        ==_iff (sha256_hex bytes) d.hash,
      )
