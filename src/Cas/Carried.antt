-- ===== src/Cas/Carried.antt =====
-- crates/rfs-common/src/cas.rs: what the calls of an upload that succeeds carry, for any measure of
-- blobs and calls.
use remotefs.Base.{ℕ, ◌≡◌, refl, sym, ◌∙◌, ap, true, List, [], ◌∷◌, ◌++◌, map}
use remotefs.Base.{Result, ok, arith, inl, inr, Bool-cases, ltb, try_map}
use mathlib.Core.List.{append-nil, append_assoc, map-append}
use remotefs.Base.Int.{pos}
use remotefs.Base.State.{and_then, and_then-eq-ok}
use remotefs.Cas.Blobs.{
  CasError, Blob, digest_size_usize, load_blob_as_bytes, UpdateRequest, batch_update_request,
}
use remotefs.Cas.Batch.{
  new_batch, no_blobs, would_exceed_budget, push, taken, Transfer, batch_update, bytestream_write,
  Upload, UpdateResponse, Uploading, Disk, ByteStream, read_file, bytestream_requests,
  bytestream_write_blob,
}
use remotefs.Cas.Batch.{
  upload_batch_to_cas, flush_batch_update, upload_oversized_blob, add_to_batch, upload_one,
  upload_each, upload_blobs_to_cas,
}
use remotefs.Cas.Packing.{digest_size}
use remotefs.Base.{map_err-eq-ok}
use remotefs.Cas.Blobs.{context}

abbrev pub all_carried : {X : Type 0} → (Transfer → List X) → List Transfer → List X
all_carried carried [] = []
all_carried carried (t ∷ ts) = carried t ++ all_carried carried ts

pub all_carried-append :
    {X : Type 0} (carried : Transfer → List X) (ts us : List Transfer)
    → all_carried carried (ts ++ us) ≡ all_carried carried ts ++ all_carried carried us
all_carried-append carried [] us = refl
all_carried-append carried (t ∷ ts) us = rw (all_carried-append carried ts us, append_assoc)

nothing : (bs : List Blob) → no_blobs bs ≡ true → bs ≡ []
nothing [] h = refl
nothing (b ∷ bs) h = cc

module _ (disk : Disk) (budget : ℕ)
    (update : List Transfer → List UpdateRequest → Result CasError (List UpdateResponse))
    (stream : ByteStream) {X : Type 0} (of : Blob → X) (carried : Transfer → List X)
    (of_loaded : (b loaded : Blob) (n : ℕ)
      → b.digest.size_bytes ≡ pos n
      → load_blob_as_bytes (read_file disk) b n ≡ ok loaded
      → of loaded ≡ of b)
    (of_batch : (batch : List Blob) (requests : List UpdateRequest)
      → try_map batch_update_request batch ≡ ok requests
      → carried (batch_update batch requests) ≡ map of batch)
    (of_stream : (sent : List Transfer) (b : Blob)
      → bytestream_write_blob disk stream sent b ≡ ok tt
      → carried (bytestream_write b (bytestream_requests disk stream sent b)) ≡ of b ∷ []) where
  -- With those that wait in the batch.
  abbrev taken_in : Upload → List X
  taken_in u = all_carried carried u.sent ++ map of u.batch.blobs

  batch-ok :
      (batch : List Blob) (u : Upload)
      → (upload_batch_to_cas disk budget update stream batch u).0 ≡ ok tt
      → let after = (upload_batch_to_cas disk budget update stream batch u).1 in
        (after.batch ≡ u.batch)
        × (all_carried carried after.sent ≡ all_carried carried u.sent ++ map of batch)
  unfolding upload_batch_to_cas
  batch-ok batch u h =
      let (requests, e, sent) = and_then-eq-ok (try_map batch_update_request batch) _ u h in
      let (responses, e', checked) =
        and_then-eq-ok (update u.sent requests) _
          (record u { sent = u.sent ++ batch_update batch requests ∷ [] }) sent in
      rw (e, e') (refl, rw (all_carried-append carried, of_batch batch requests e, append-nil) refl)

  flush-ok :
      (u : Upload)
      → (flush_batch_update disk budget update stream u).0 ≡ ok tt
      → let after = (flush_batch_update disk budget update stream u).1 in
        (after.batch.blobs ≡ []) × (taken_in after ≡ taken_in u)
  unfolding flush_batch_update taken
  flush-ok u h = elim (Bool-cases (no_blobs u.batch.blobs)) [
    | inl empty ↦ rw empty (nothing u.batch.blobs empty, refl)
    | inr some_blobs ↦
        let flushed : Upload = record u { batch = taken u.batch } in
        let sent : (upload_batch_to_cas disk budget update stream u.batch.blobs flushed).0 ≡ ok tt =
          ground arith in
        let (same, carried_on) = batch-ok u.batch.blobs flushed sent in
        rw (some_blobs, same, carried_on) (refl, append-nil _)
  ]

  abbrev flush : Uploading
  flush = flush_batch_update disk budget update stream

  oversized-ok :
      (b : Blob) (u : Upload)
      → (and_then flush (λ _. upload_oversized_blob disk budget update stream b) u).0 ≡ ok tt
      → taken_in (and_then flush (λ _. upload_oversized_blob disk budget update stream b) u).1
        ≡ taken_in u ++ of b ∷ []
  unfolding upload_oversized_blob
  oversized-ok b u h =
      let (_, flushed, written) = and_then-eq-ok (flush u).0 _ (flush u).1 h in
      let (emptied, kept) = flush-ok u flushed in
      let waiting : all_carried carried (flush u).1.sent ≡ taken_in u =
        sym (append-nil (all_carried carried (flush u).1.sent))
        ∙ (ap (λ (bs : List Blob). all_carried carried (flush u).1.sent ++ map of bs) (sym emptied)
            ∙ kept) in
      let done : bytestream_write_blob disk stream (flush u).1.sent b ≡ ok tt =
        map_err-eq-ok context (bytestream_write_blob disk stream (flush u).1.sent b) written in
      rw
        (
          flushed,
          all_carried-append carried,
          emptied,
          of_stream (flush u).1.sent b done,
          append-nil,
          append-nil,
          waiting,
        )
        refl

  push_taken :
      (b loaded : Blob) (n : ℕ) (u : Upload)
      → of loaded ≡ of b
      → taken_in (record u { batch = push loaded n u.batch }) ≡ taken_in u ++ of b ∷ []
  unfolding push
  push_taken b loaded n u same = rw (map-append, same, append_assoc)

  add_to_batch-ok :
      (b : Blob) (n : ℕ) (u : Upload)
      → b.digest.size_bytes ≡ pos n
      → (add_to_batch disk budget update stream b n u).0 ≡ ok tt
      → taken_in (add_to_batch disk budget update stream b n u).1 ≡ taken_in u ++ of b ∷ []
  unfolding add_to_batch
  add_to_batch-ok b n u size h =
      let (loaded, e, rest) = and_then-eq-ok (load_blob_as_bytes (read_file disk) b n) _ u h in
      let same = of_loaded b loaded n size e in
      elim (Bool-cases (would_exceed_budget u.batch n budget)) [
        | inl exceeds ↦
            let flushed : (flush u).0 ≡ ok tt = ground arith in
            rw (e, exceeds, flushed)
              (push_taken b loaded n (flush u).1 same
                ∙ ap (λ (l : List X). l ++ of b ∷ []) (flush-ok u flushed).1)
        | inr fits ↦ rw (e, fits) (push_taken b loaded n u same)
      ]

  one-ok :
      (b : Blob) (u : Upload)
      → (upload_one disk budget update stream b u).0 ≡ ok tt
      → taken_in (upload_one disk budget update stream b u).1 ≡ taken_in u ++ of b ∷ []
  unfolding upload_one
  one-ok b u h =
      let (n, e, branch) = and_then-eq-ok (digest_size_usize b.digest) _ u h in
      elim (Bool-cases (ltb budget n)) [
        | inl beyond ↦ rw (e, beyond) (oversized-ok b u (ground arith))
        | inr fits ↦ rw (e, fits) (add_to_batch-ok b n u (digest_size b.digest n e) (ground arith))
      ]

  each-ok :
      (bs : List Blob) (u : Upload)
      → (upload_each disk budget update stream bs u).0 ≡ ok tt
      → taken_in (upload_each disk budget update stream bs u).1 ≡ taken_in u ++ map of bs
  unfolding upload_each
  each-ok [] u h = sym (append-nil (taken_in u))
  each-ok (b ∷ bs) u h =
      let after = (upload_one disk budget update stream b u).1 in
      let (_, one, r1) = and_then-eq-ok (upload_one disk budget update stream b u).0 _ after h in
      rw one (
        each-ok bs after r1
        ∙ (ap (λ (l : List X). l ++ map of bs) (one-ok b u one)
            ∙ append_assoc (taken_in u) (of b ∷ []) (map of bs)))

  pub upload_blobs_to_cas-carried :
      (blobs : List Blob)
      → (upload_blobs_to_cas disk budget update stream blobs).0 ≡ ok tt
      → all_carried carried (upload_blobs_to_cas disk budget update stream blobs).1 ≡ map of blobs
  unfolding upload_blobs_to_cas
  upload_blobs_to_cas-carried blobs h =
      let start : Upload = record { batch = new_batch; sent = [] } in
      let after = (upload_each disk budget update stream blobs start).1 in
      let (_, each, flushed) =
        and_then-eq-ok (upload_each disk budget update stream blobs start).0 _ after h in
      let (emptied, kept) = flush-ok after flushed in
      let whole : and_then (upload_each disk budget update stream blobs) (λ _. flush) start
          ≡ flush after =
        rw each refl in
      ap (λ (x : Result CasError (Unit {0}) × Upload). all_carried carried x.1.sent) whole
      ∙ (sym (append-nil (all_carried carried (flush after).1.sent))
          ∙ (ap (λ (bs : List Blob). all_carried carried (flush after).1.sent ++ map of bs)
                (sym emptied)
              ∙ (kept ∙ each-ok blobs start each)))
