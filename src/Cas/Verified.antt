-- ===== src/Cas/Verified.antt =====
-- crates/rfs-common/src/cas.rs: a download that succeeds has written exactly the blob of its digest.
use remotefs.Base.{ℕ, ◌+◌, ◌≡◌, refl, sym, ap, ◌∙◌, subst, Bool, true, false, List, [], ◌∷◌, ◌++◌}
use remotefs.Base.{
  Result, ok, map_err, map_err-eq-ok, ok_injective, ok_or, reject_if, arith, leb, length,
  length-append, if◌then◌else◌,
}
use mathlib.Core.List.{append-nil, append_assoc}
use remotefs.Base.Int.{pos}
use remotefs.Base.Text.{Text}
use remotefs.Base.State.{resume-ok, and_then, within}
use remotefs.Digest.{Digest, for_bytes, verify_bytes}
use remotefs.Digest.Verify.{verify_bytes-eq-ok, digest_beq_iff}
use remotefs.Cas.Blobs.{
  CasError, context, verification, missing_response, blob_status, digest_size_usize,
}
use remotefs.Cas.Batch.{is_failure}
use remotefs.Cas.Download.{
  Download, ReadResponse, Chunk, payload, failed, idle, Progress, first_of, verify_download,
  write_all, batch_read_blob, finish_stream, count_chunk, read_chunks, bytestream_read_into,
  stream_blob,
}

module _ (sha256_hex : List ℕ → Text) (accepts : List ℕ → List ℕ → Bool) where
  -- What was written is the blob of the digest.
  abbrev pub Wrote : Digest → List ℕ → List ℕ → Type 0
  Wrote digest before after =
      (content : List ℕ) × (after ≡ before ++ content) × (for_bytes sha256_hex content ≡ digest)

  write_all-ok :
      (digest : Digest) (bytes destination : List ℕ)
      → (write_all sha256_hex accepts digest bytes destination).0 ≡ ok tt
      → (write_all sha256_hex accepts digest bytes destination).1 ≡ destination ++ bytes
  unfolding write_all
  write_all-ok digest bytes destination h = ground arith

  finish_stream-ok :
      (digest : Digest) (p : Progress)
      → p.written ≡ length p.hashed
      → finish_stream sha256_hex accepts digest p ≡ ok tt
      → for_bytes sha256_hex p.hashed ≡ digest
  unfolding finish_stream for_bytes
  finish_stream-ok digest p counted h = ground (
    arith,
    digest_beq_iff (record { hash = sha256_hex p.hashed; size_bytes = pos p.written }) digest,
  )

  count_chunk-ok :
      (digest : Digest) (bytes : List ℕ) (p q : Progress)
      → count_chunk sha256_hex accepts digest bytes p ≡ ok q
      → (q.hashed ≡ p.hashed ++ bytes) × (q.written ≡ p.written + length bytes)
  unfolding count_chunk
  count_chunk-ok digest bytes p q h = ground arith

  read_chunks-ok :
      (digest : Digest) (chunks : List Chunk) (p : Progress) (destination : List ℕ)
      → p.written ≡ length p.hashed
      → (read_chunks sha256_hex accepts digest chunks p destination).0 ≡ ok tt
      → (content : List ℕ) × ((read_chunks sha256_hex accepts digest chunks p destination).1
          ≡ destination ++ content)
        × (for_bytes sha256_hex (p.hashed ++ content) ≡ digest)
  unfolding read_chunks
  read_chunks-ok digest [] p destination counted h =
      ([], sym (append-nil destination), rw append-nil (finish_stream-ok digest p counted h))
  read_chunks-ok digest (failed ∷ chunks) p destination counted h = cc
  read_chunks-ok digest (idle ∷ chunks) p destination counted h = cc
  read_chunks-ok digest (payload bytes ∷ chunks) p destination counted h =
      let wrote = write_all sha256_hex accepts digest bytes destination in
      let (_, e, h1, same) = resume-ok wrote.0 _ wrote.1 h in
      let (q, e', h2, same') =
        resume-ok (count_chunk sha256_hex accepts digest bytes p) _ wrote.1 h1 in
      let (hashed, written) = count_chunk-ok digest bytes p q e' in
      let (rest, after, whole) =
        read_chunks-ok digest chunks q wrote.1
          (written
            ∙ (omega (arith, counted, length-append p.hashed bytes) ∙ ap length (sym hashed)))
          h2 in
      (
        bytes ++ rest,
        same
            ∙ (same'
                ∙ (after
                    ∙ (ap (λ (l : List ℕ). l ++ rest) (write_all-ok digest bytes destination e)
                        ∙ append_assoc destination bytes rest))),
        subst (λ (l : List ℕ). for_bytes sha256_hex l ≡ digest)
            (ap (λ (l : List ℕ). l ++ rest) hashed ∙ append_assoc p.hashed bytes rest) whole,
      )

  batch_read_blob-ok :
      (answer : Result CasError (List ReadResponse)) (digest : Digest) (destination bytes : List ℕ)
      → (batch_read_blob sha256_hex accepts answer digest destination).0 ≡ ok bytes
      → ((batch_read_blob sha256_hex accepts answer digest destination).1 ≡ destination)
        × (for_bytes sha256_hex bytes ≡ digest)
  unfolding batch_read_blob verify_download
  batch_read_blob-ok answer digest destination bytes h =
      let (responses, _, h1, s1) = resume-ok (map_err context answer) _ destination h in
      let (response, _, h2, s2) =
        resume-ok (ok_or (missing_response digest) (first_of responses)) _ destination h1 in
      let failure : Result CasError (Unit {0}) =
        reject_if (is_failure response.status) (blob_status digest) in
      let (_, _, h3, s3) = resume-ok failure _ destination h2 in
      let checked = verify_bytes sha256_hex digest response.payload in
      let (_, e, h4, s4) =
        resume-ok (map_err context (map_err (λ _. verification digest) checked)) _ destination h3 in
      let valid =
        map_err-eq-ok (λ _. verification digest) checked
          (map_err-eq-ok context (map_err (λ _. verification digest) checked) e) in
      (
        s1 ∙ (s2 ∙ (s3 ∙ s4)),
        subst (λ (l : List ℕ). for_bytes sha256_hex l ≡ digest) (ok_injective h4)
            ((verify_bytes-eq-ok sha256_hex digest response.payload).0 valid),
      )

  abbrev Writes : Digest → Download → Type 0
  Writes digest m =
      (destination : List ℕ)
      → (m destination).0 ≡ ok tt
      → Wrote digest destination (m destination).1

  if-Writes :
      (digest : Digest) (b : Bool) (m n : Download)
      → Writes digest m
      → Writes digest n
      → Writes digest (if b then m else n)
  if-Writes digest true m n hm hn = hm
  if-Writes digest false m n hm hn = hn

  batch-Writes :
      (answer : Result CasError (List ReadResponse)) (digest : Digest)
      → Writes digest (
          and_then
            (within context (batch_read_blob sha256_hex accepts answer digest))
            (write_all sha256_hex accepts digest))
  batch-Writes answer digest destination h =
      let read = batch_read_blob sha256_hex accepts answer digest destination in
      let (bytes, e, h1, s1) =
        resume-ok (map_err context read.0) (write_all sha256_hex accepts digest) read.1 h in
      let (same, honest) =
        batch_read_blob-ok answer digest destination bytes (map_err-eq-ok context read.0 e) in
      (
        bytes,
        s1 ∙ (write_all-ok digest bytes read.1 h1 ∙ ap (λ (l : List ℕ). l ++ bytes) same),
        honest,
      )

  stream-Writes :
      (answer : Result CasError (List Chunk)) (digest : Digest)
      → Writes digest (within context (bytestream_read_into sha256_hex accepts answer digest))
  unfolding bytestream_read_into
  stream-Writes answer digest destination h =
      let read = bytestream_read_into sha256_hex accepts answer digest destination in
      let (chunks, _, h1, s1) =
        resume-ok (map_err context answer) _ destination (map_err-eq-ok context read.0 h) in
      let (content, after, honest) =
        read_chunks-ok digest chunks (record { hashed = []; written = 0 }) destination refl h1 in
      (content, s1 ∙ after, honest)

  -- When `stream_blob` succeeds, through a batch or a stream, it has written to the destination exactly
  -- the content of which `for_bytes` computes the digest that was asked for, whatever the server sends.
  pub stream_blob-Wrote :
      (threshold : ℕ) (batch : Result CasError (List ReadResponse))
      (stream : Result CasError (List Chunk)) (digest : Digest) (destination : List ℕ)
      → (stream_blob sha256_hex accepts threshold batch stream digest destination).0 ≡ ok tt
      → Wrote digest destination
          (stream_blob sha256_hex accepts threshold batch stream digest destination).1
  unfolding stream_blob
  stream_blob-Wrote threshold batch stream digest destination h =
      let (size, _, h1, s1) = resume-ok (digest_size_usize digest) _ destination h in
      subst (Wrote digest destination) (sym s1) (
        if-Writes digest (leb size threshold) _ _ (batch-Writes batch digest)
          (stream-Writes stream digest) destination h1)
