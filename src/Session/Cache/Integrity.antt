-- ===== src/Session/Cache/Integrity.antt =====
-- crates/rfs-common/src/session/cache.rs: what a remote store can and cannot bring into the cache.
use remotefs.Base.{ℕ, ◌+◌, ◌≤◌, ◌≡◌, refl, sym, ◌∙◌, ap, some, Bool, true, false}
use remotefs.Base.{
  List, [], ◌∷◌, ◌++◌, Result, ok, err, arith, All, length, length-append, take, drop, ==_iff,
  ==_refl,
}
use remotefs.Base.{nat_eq, list_eq}
use remotefs.Base.{length-take}
use remotefs.Base.Int.{ℤ, pos, negsuc, is_negative, int_eq}
use mathlib.Core.List.{flatten, append-nil, append_assoc}
use remotefs.Base.Text.{Text}
use remotefs.Base.Decimal.{decimal_ℤ, value, value-decimal}
use remotefs.Digest.Validity.{IsValid}
use remotefs.Digest.{Digest, digest_beq, for_bytes}
use remotefs.Digest.Verify.{digest_beq_iff}
use remotefs.Session.Types.{SessionError}
use remotefs.Session.Cache.{Files, lookup, path, cache_contains, RemoteStream, PendingBlob, write}
use remotefs.Session.Cache.{write_all, verify, admit_pending_blob, fill_cache_after_lock}
use remotefs.Session.Cache.{ensure_cached, read_blob, read_cached_blob, read_range, read_file_range}

write_expected :
    (chunk : List ℕ) (p q : PendingBlob) → write chunk p ≡ ok q → q.expected ≡ p.expected
unfolding write
write_expected chunk p q h = ground arith

write_step :
    (c : List ℕ) (cs : List (List ℕ)) (p q : PendingBlob)
    → ((m : PendingBlob) → write_all cs m ≡ ok q → q.expected ≡ m.expected)
    → (r : Result SessionError PendingBlob) → write c p ≡ r
    → write_all (c ∷ cs) p ≡ ok q
    → q.expected ≡ p.expected
unfolding write_all
write_step c cs p q ih (ok m) e h = ih m (ground arith) ∙ write_expected c p m e
write_step c cs p q ih (err d) e h = ground arith

write_all_expected :
    (chunks : List (List ℕ)) (p q : PendingBlob)
    → write_all chunks p ≡ ok q
    → q.expected ≡ p.expected
write_all_expected [] p q h = unfold write_all in ground arith
write_all_expected (c ∷ cs) p q h =
    write_step c cs p q (λ m. write_all_expected cs m q) (write c p) refl h

cut :
    (xs ys xs' ys' : List ℕ)
    → length xs ≡ length xs'
    → xs ++ ys ≡ xs' ++ ys'
    → (xs ≡ xs') × (ys ≡ ys')
cut [] ys [] ys' same h = (refl, h)
cut [] ys (x ∷ xs') ys' same h = absurd (omega arith)
cut (x ∷ xs) ys [] ys' same h = absurd (omega arith)
cut (x ∷ xs) ys (x' ∷ xs') ys' same h = ground (arith, cut xs ys xs' ys')

decimal_injective :
    (a b : ℤ) → is_negative a ≡ false → is_negative b ≡ false → decimal_ℤ a ≡ decimal_ℤ b → a ≡ b
unfolding decimal_ℤ
decimal_injective (pos m) (pos n) hm hn h =
    ap pos (sym (value-decimal m) ∙ ap (value 0) h ∙ value-decimal n)
decimal_injective (pos m) (negsuc n) hm hn h = cc
decimal_injective (negsuc m) b hm hn h = cc

-- Valid digests are cached at different paths.
path_injective : (d e : Digest) → IsValid d → IsValid e → path d ≡ path e → d ≡ e
unfolding path
path_injective d e vd ve h =
    let (_, tails) =
      cut (take 2 d.hash) (b'/' ∷ (d.hash ++ b'-' ∷ decimal_ℤ d.size_bytes)) (take 2 e.hash)
        (b'/' ∷ (e.hash ++ b'-' ∷ decimal_ℤ e.size_bytes))
        (omega (arith, length-take 2 d.hash, length-take 2 e.hash, vd.sized, ve.sized)) h in
    let (hashes, sizes) =
      cut d.hash (b'-' ∷ decimal_ℤ d.size_bytes) e.hash (b'-' ∷ decimal_ℤ e.size_bytes)
        (vd.sized ∙ sym ve.sized) (ap (drop 1) tails) in
    let same_size =
      decimal_injective d.size_bytes e.size_bytes vd.nonneg ve.nonneg (ap (drop 1) sizes) in
    cc

-- Chunks that fit are all written.
write_all-ok :
    (chunks : List (List ℕ)) (p : PendingBlob) (n : ℕ)
    → p.expected.size_bytes ≡ pos n
    → length p.written + length (flatten chunks) ≤ n
    → write_all chunks p ≡ ok (record p { written = p.written ++ flatten chunks })
unfolding write_all write flatten
write_all-ok [] p n size fits = rw append-nil
write_all-ok (c ∷ cs) p n size fits =
    let more : PendingBlob = record p { written = p.written ++ c } in
    let rest =
      write_all-ok cs more n size
        (omega (arith, length-append p.written c, length-append c (flatten cs))) in
    ground (arith, length-append c (flatten cs), rest, append_assoc p.written c (flatten cs))

module _ (sha256_hex : List ℕ → Text) where
  -- Every entry stands at the path of the digest of its bytes.
  abbrev pub Intact : Files → Type 0
  Intact files =
      All (λ (entry : Text × List ℕ). path (for_bytes sha256_hex entry.1) ≡ entry.0) files

  lookup-Intact :
      (files : Files) (p : Text) (bytes : List ℕ)
      → Intact files
      → lookup p files ≡ some bytes
      → path (for_bytes sha256_hex bytes) ≡ p
  unfolding lookup
  lookup-Intact [] p bytes h found = cc
  lookup-Intact ((q, content) ∷ files) p bytes h found =
      ground (arith, ==_iff q p, lookup-Intact files p bytes h.1, h.0)

  admit-Intact :
      (files : Files) (p : PendingBlob)
      → Intact files
      → Intact (admit_pending_blob sha256_hex p files).1
  unfolding admit_pending_blob verify
  admit-Intact files p h =
      ground (arith, digest_beq_iff (for_bytes sha256_hex p.written) p.expected, h)

  module _ (stream_blob : Digest → RemoteStream) where
    fill-Intact :
        (d : Digest) (files : Files)
        → Intact files
        → (r : Result SessionError PendingBlob)
        → write_all (stream_blob d).chunks (record { expected = d; written = [] }) ≡ r
        → Intact (fill_cache_after_lock sha256_hex stream_blob d files).1
    unfolding fill_cache_after_lock
    fill-Intact d files h (ok p) e = ground (arith, admit-Intact files p h, h)
    fill-Intact d files h (err x) e = ground (arith, h)

    ensure_cached-Intact :
        (d : Digest) (files : Files)
        → Intact files
        → Intact (ensure_cached sha256_hex stream_blob d files).1
    unfolding ensure_cached
    ensure_cached-Intact d files h = ground (arith, fill-Intact d files h _ refl, h)

    -- Whatever the remote store does, `read_blob` and `read_range` leave an intact cache intact, also
    -- when they fail.
    pub reading-Intact :
        (d : Digest) (offset size : ℕ) (files : Files)
        → Intact files
        → Intact (read_blob sha256_hex stream_blob d files).1
          × Intact (read_range sha256_hex stream_blob d offset size files).1
    unfolding read_blob read_cached_blob read_range read_file_range
    reading-Intact d offset size files h = (
      ground (arith, ensure_cached-Intact d files h),
      ground (arith, ensure_cached-Intact d files h),
    )

    -- The bytes that `read_blob` returns for a valid digest are those of the digest, whatever the
    -- remote store sent, if the cache was intact and SHA-256 gives 64 lowercase hexadecimal digits.
    pub read_blob-verified :
        ((content : List ℕ) → IsValid (for_bytes sha256_hex content))
        → (d : Digest) (files : Files) (bytes : List ℕ) (downloaded : Bool) → IsValid d
        → Intact files
        → (read_blob sha256_hex stream_blob d files).0 ≡ ok (bytes, downloaded)
        → for_bytes sha256_hex bytes ≡ d
    unfolding read_blob read_cached_blob
    read_blob-verified hex d files bytes downloaded v h read =
        let after = (ensure_cached sha256_hex stream_blob d files).1 in
        path_injective (for_bytes sha256_hex bytes) d (hex bytes) v
          (lookup-Intact after (path d) bytes (ensure_cached-Intact d files h) (ground arith))

    -- A blob that `read_blob` returned is returned again from the cache, whatever the remote store
    -- does from then on, and the cache stays as it is.
    read_blob_again :
        (d : Digest) (files : Files) (bytes : List ℕ) (downloaded : Bool)
        → (read_blob sha256_hex stream_blob d files).0 ≡ ok (bytes, downloaded)
        → (other : Digest → RemoteStream)
        → let after = (read_blob sha256_hex stream_blob d files).1 in
          read_blob sha256_hex other d after ≡ (ok (bytes, false), after)
    unfolding read_blob read_cached_blob ensure_cached cache_contains
    read_blob_again d files bytes downloaded read other = ground arith

    -- If the blob is not cached and the remote store sends, in whatever chunks, bytes of this digest
    -- and reports success, `read_blob` downloads these bytes, returns and caches them.
    pub read_blob-honest :
        (d : Digest) (files : Files) (bytes : List ℕ)
        → cache_contains d files ≡ false
        → for_bytes sha256_hex bytes ≡ d
        → flatten (stream_blob d).chunks ≡ bytes
        → (stream_blob d).completes ≡ true
        → read_blob sha256_hex stream_blob d files ≡ (ok (bytes, true), (path d, bytes) ∷ files)
    unfolding read_blob read_cached_blob ensure_cached fill_cache_after_lock admit_pending_blob
        verify lookup for_bytes
    read_blob-honest d files bytes missing is all done =
        rw (missing, written, done, matches, missing) (ground (arith, ==_refl (path d)))
      where
        written :
            write_all (stream_blob d).chunks (record { expected = d; written = [] })
            ≡ ok (record { expected = d; written = bytes })
        written =
            write_all-ok (stream_blob d).chunks (record { expected = d; written = [] })
              (length bytes) (sym (ap (λ (x : Digest). x.size_bytes) is))
              (omega (arith, ap (λ (l : List ℕ). length l) all))
            ∙ ap (λ (l : List ℕ). ok (record { expected = d; written = l })) all

        matches : digest_beq (for_bytes sha256_hex bytes) d ≡ true
        matches = (digest_beq_iff (for_bytes sha256_hex bytes) d).1 is
