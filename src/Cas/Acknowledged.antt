-- ===== src/Cas/Acknowledged.antt =====
-- crates/rfs-common/src/cas.rs: after a transfer that succeeds, the remote store holds what was sent.
use remotefs.Base.{ℕ, ◌≡◌, refl, sym, subst, List, [], ◌∷◌, ◌++◌, map, All, All-append}
use remotefs.Base.{
  Result, ok, arith, inl, inr, Bool-cases, ltb, try_map, for_each, >>=-eq-ok, map_err-eq-ok,
}
use mathlib.Core.List.{append-nil}
use remotefs.Base.State.{and_then, and_then-eq-ok}
use remotefs.Digest.{Digest}
use remotefs.Base.{nat_eq, list_eq}
use remotefs.Base.Int.{int_eq}
use remotefs.Cas.Blobs.{
  CasError, context, Blob, digest_size_usize, load_blob_as_bytes, UpdateRequest,
  batch_update_request,
}
use remotefs.Cas.Batch.{
  new_batch, no_blobs, would_exceed_budget, taken, Transfer, batch_update, bytestream_write, Upload,
  UpdateResponse, Uploading, check_response, Disk, ByteStream, read_file, bytestream_requests,
  bytestream_write_blob,
}
use remotefs.Cas.Batch.{
  upload_batch_to_cas, flush_batch_update, upload_oversized_blob, add_to_batch, upload_one,
  upload_each, upload_blobs_to_cas,
}
use remotefs.Cas.Written.{bytestream_write_blob-IsWrite}
use remotefs.Cas.Order.{digest_of, sent_digests, sent_digests-append}
use remotefs.Upload.Members.{All-map}
use remotefs.Cas.Protocol.{
  Any, IsRequested, IsStored, Acknowledges, checked-IsStored, batch-IsRequested,
}

module _ (disk : Disk) (budget : ℕ)
    (update : List Transfer → List UpdateRequest → Result CasError (List UpdateResponse))
    (stream : ByteStream) (held : List Transfer → Digest → Type 0)
    (server : Acknowledges held update stream) where
  -- All that was sent is held.
  abbrev Acked : Upload → Type 0
  Acked u = All (held u.sent) (sent_digests u.sent)

  call-Acked :
      (u : Upload) (t : Transfer)
      → Acked u
      → All (held (u.sent ++ t ∷ [])) (sent_digests (t ∷ []))
      → All (held (u.sent ++ t ∷ [])) (sent_digests (u.sent ++ t ∷ []))
  call-Acked u t h new =
      subst (All (held (u.sent ++ t ∷ []))) (sym (sent_digests-append u.sent (t ∷ []))) (
        All-append (held (u.sent ++ t ∷ [])) (sent_digests u.sent) (sent_digests (t ∷ []))
          (All-map (held u.sent) (held (u.sent ++ t ∷ [])) (sent_digests u.sent)
            (server.keeps u.sent t) h)
          new)

  checked-held :
      (before : List Transfer) (requests : List UpdateRequest) (responses : List UpdateResponse)
      (batch : List Blob)
      → ((d : Digest) → Any (IsRequested d) requests → Any (IsStored d) responses → held before d)
      → All (λ (b : Blob). Any (IsRequested b.digest) requests) batch
      → for_each (check_response responses) batch ≡ ok tt
      → All (held before) (map digest_of batch)
  checked-held before requests responses [] h asked checked = tt
  checked-held before requests responses (b ∷ batch) h (first, others) checked =
      let (_, one, rest) = >>=-eq-ok (check_response responses b) _ checked in
      (
        h b.digest first (checked-IsStored responses b (ground arith)),
        checked-held before requests responses batch h others rest,
      )

  batch-Acked :
      (batch : List Blob) (u : Upload)
      → Acked u
      → (upload_batch_to_cas disk budget update stream batch u).0 ≡ ok tt
      → Acked (upload_batch_to_cas disk budget update stream batch u).1
  unfolding upload_batch_to_cas
  batch-Acked batch u acked h =
      let (requests, e, sent) = and_then-eq-ok (try_map batch_update_request batch) _ u h in
      let call = batch_update batch requests in
      let u' : Upload = record u { sent = u.sent ++ call ∷ [] } in
      let (responses, e', checked) = and_then-eq-ok (update u.sent requests) _ u' sent in
      let stored =
        checked-held u'.sent requests responses batch
          (server.batch_held u.sent batch requests responses e')
          (batch-IsRequested batch requests e) checked in
      rw (e, e')
        (call-Acked u call acked
          (subst (All (held u'.sent)) (sym (append-nil (map digest_of batch))) stored))

  abbrev flush : Uploading
  flush = flush_batch_update disk budget update stream

  flush-Acked : (u : Upload) → Acked u → (flush u).0 ≡ ok tt → Acked (flush u).1
  unfolding flush_batch_update taken
  flush-Acked u acked h = elim (Bool-cases (no_blobs u.batch.blobs)) [
    | inl empty ↦ rw empty acked
    | inr some_blobs ↦
        let flushed : Upload = record u { batch = taken u.batch } in
        let sent : (upload_batch_to_cas disk budget update stream u.batch.blobs flushed).0 ≡ ok tt =
          ground arith in
        rw some_blobs (batch-Acked u.batch.blobs flushed acked sent)
  ]

  oversized-Acked :
      (b : Blob) (u : Upload)
      → Acked u
      → (upload_oversized_blob disk budget update stream b u).0 ≡ ok tt
      → Acked (upload_oversized_blob disk budget update stream b u).1
  unfolding upload_oversized_blob
  oversized-Acked b u acked h =
      let done = map_err-eq-ok context (bytestream_write_blob disk stream u.sent b) h in
      let w = bytestream_write_blob-IsWrite disk stream u.sent b done in
      let requests = bytestream_requests disk stream u.sent b in
      call-Acked u (bytestream_write b requests) acked (
        server.stream_held u.sent b requests (stream.fresh_uuid u.sent) w.content w.named w.put
            w.answered,
        tt,
      )

  add_to_batch-Acked :
      (b : Blob) (n : ℕ) (u : Upload)
      → Acked u
      → (add_to_batch disk budget update stream b n u).0 ≡ ok tt
      → Acked (add_to_batch disk budget update stream b n u).1
  unfolding add_to_batch
  add_to_batch-Acked b n u acked h =
      let (loaded, e, rest) = and_then-eq-ok (load_blob_as_bytes (read_file disk) b n) _ u h in
      elim (Bool-cases (would_exceed_budget u.batch n budget)) [
        | inl exceeds ↦
            let flushed : (flush u).0 ≡ ok tt = ground arith in
            rw (e, exceeds, flushed) (flush-Acked u acked flushed)
        | inr fits ↦ rw (e, fits) acked
      ]

  one-Acked :
      (b : Blob) (u : Upload)
      → Acked u
      → (upload_one disk budget update stream b u).0 ≡ ok tt
      → Acked (upload_one disk budget update stream b u).1
  unfolding upload_one
  one-Acked b u acked h =
      let (n, e, branch) = and_then-eq-ok (digest_size_usize b.digest) _ u h in
      elim (Bool-cases (ltb budget n)) [
        | inl beyond ↦
            let whole : (and_then flush (λ _. upload_oversized_blob disk budget update stream b)
                  u).0
                ≡ ok tt =
              ground arith in
            let (_, flushed, written) = and_then-eq-ok (flush u).0 _ (flush u).1 whole in
            rw (e, beyond, flushed)
              (oversized-Acked b (flush u).1 (flush-Acked u acked (flushed)) written)
        | inr fits ↦ rw (e, fits) (add_to_batch-Acked b n u acked (ground arith))
      ]

  each-Acked :
      (bs : List Blob) (u : Upload)
      → Acked u
      → (upload_each disk budget update stream bs u).0 ≡ ok tt
      → Acked (upload_each disk budget update stream bs u).1
  unfolding upload_each
  each-Acked [] u acked h = acked
  each-Acked (b ∷ bs) u acked h =
      let after = (upload_one disk budget update stream b u).1 in
      let (_, one, r1) = and_then-eq-ok (upload_one disk budget update stream b u).0 _ after h in
      rw one (each-Acked bs after (one-Acked b u acked one) r1)

  -- After a transfer that succeeds, a remote store that holds what it acknowledges holds every blob that
  -- was sent.
  pub upload_blobs_to_cas-held :
      (blobs : List Blob)
      → (upload_blobs_to_cas disk budget update stream blobs).0 ≡ ok tt
      → let sent = (upload_blobs_to_cas disk budget update stream blobs).1 in
        All (held sent) (sent_digests sent)
  unfolding upload_blobs_to_cas
  upload_blobs_to_cas-held blobs h =
      let start : Upload = record { batch = new_batch; sent = [] } in
      let after = (upload_each disk budget update stream blobs start).1 in
      let (_, each, flushed) =
        and_then-eq-ok (upload_each disk budget update stream blobs start).0 _ after h in
      let whole : and_then (upload_each disk budget update stream blobs) (λ _. flush) start
          ≡ flush after =
        rw each refl in
      subst (λ (x : Result CasError (Unit {0}) × Upload). Acked x.1) (sym whole)
        (flush-Acked after (each-Acked blobs start tt each) flushed)
