-- ===== src/Cas/Packing.antt =====
-- crates/rfs-common/src/cas.rs: what `upload_blobs_to_cas` sends.
use remotefs.Base.{
  ℕ, ◌+◌, ◌≤◌, ◌<◌, ◌≡◌, refl, ◌∙◌, ap, subst, Option, true, false, List, [], ◌∷◌, ◌++◌,
}
use remotefs.Base.{
  Result, ok, arith, not, ok_or, reject_if, ◌==◌, nat_eq, All, All-append, length, inl, inr,
  Bool-cases, ltb, ltb→lt, try_map, >>=-eq-ok, ok_injective,
}
use remotefs.Base.Int.{pos, negsuc}
use remotefs.Base.Text.{Text}
use remotefs.Base.State.{Keeps, and_then-Keeps, resume_after}
use remotefs.Digest.{Digest}
use remotefs.Cas.Blobs.{
  CasError, Blob, BlobContents, bytes, file_path, io, blob_status, digest_size_usize,
  load_blob_as_bytes, load_contents, UpdateRequest, batch_update_request,
}
use remotefs.Cas.Batch.{
  BatchUpdateState, new_batch, no_blobs, would_exceed_budget, push, taken, Transfer, batch_update,
  bytestream_write, Upload, UpdateResponse, Disk, ByteStream, read_file,
}
use remotefs.Cas.Batch.{
  bytestream_requests, upload_batch_to_cas, flush_batch_update, upload_oversized_blob, add_to_batch,
  upload_one, upload_each, upload_blobs_to_cas,
}

abbrev pub size_of : Digest → ℕ
size_of digest = elim digest.size_bytes [ pos n ↦ n | negsuc n ↦ 0 ]

-- In memory, with as many bytes as its digest says.
pub record IsLoaded (b : Blob) : Type 0 where
  pub content : List ℕ
  pub held : b.contents ≡ bytes content
  pub sized : b.digest.size_bytes ≡ pos (length content)

abbrev pub total : List Blob → ℕ
total [] = 0
total (b ∷ bs) = size_of b.digest + total bs

-- The bytes that the requests of a batch carry.
abbrev pub payload_total : List UpdateRequest → ℕ
payload_total [] = 0
payload_total (r ∷ rs) = length r.payload + payload_total rs

-- A batch has blobs, all in memory, within the budget together, as its requests are; a stream is of a blob beyond it.
abbrev pub Fits : ℕ → Transfer → Type 0
Fits budget (batch_update bs requests) =
    (no_blobs bs ≡ false)
    × All IsLoaded bs
    × (total bs ≤ budget)
    × (payload_total requests ≡ total bs)
Fits budget (bytestream_write b requests) = budget < size_of b.digest

total-append : (bs cs : List Blob) → total (bs ++ cs) ≡ total bs + total cs
total-append [] cs = omega arith
total-append (b ∷ bs) cs = omega (arith, total-append bs cs)

empty_total : (bs : List Blob) → no_blobs bs ≡ true → total bs ≡ 0
empty_total [] h = refl
empty_total (b ∷ bs) h = cc

record IsPacked (budget : ℕ) (u : Upload) : Type 0 where
  fits : All (Fits budget) u.sent
  loaded : All IsLoaded u.batch.blobs
  counted : u.batch.bytes ≡ total u.batch.blobs
  within_budget : u.batch.bytes ≤ budget

pub load-IsLoaded :
    (read_file : Text → Option (List ℕ)) (d : Digest) (c : BlobContents) (n : ℕ) (loaded : Blob)
    → d.size_bytes ≡ pos n
    → load_contents read_file d c n ≡ ok loaded
    → IsLoaded loaded × (loaded.digest ≡ d)
unfolding load_contents
load-IsLoaded read_file d (bytes content) n loaded size h =
    let (_, same, made) = >>=-eq-ok (reject_if (not (length content == n)) (blob_status d)) _ h in
    subst (λ (b : Blob). IsLoaded b × (b.digest ≡ d)) (ok_injective made)
      (record { content = content; held = refl; sized = ground arith }, refl)
load-IsLoaded read_file d (file_path path) n loaded size h =
    let (content, _, read) = >>=-eq-ok (ok_or io (read_file path)) _ h in
    let (_, same, made) =
      >>=-eq-ok (reject_if (not (length content == n)) (blob_status d)) _ read in
    subst (λ (b : Blob). IsLoaded b × (b.digest ≡ d)) (ok_injective made)
      (record { content = content; held = refl; sized = ground arith }, refl)

pub digest_size : (d : Digest) (n : ℕ) → digest_size_usize d ≡ ok n → d.size_bytes ≡ pos n
unfolding digest_size_usize
digest_size d n h = ground arith

request-IsLoaded :
    (b : Blob) (request : UpdateRequest)
    → IsLoaded b
    → batch_update_request b ≡ ok request
    → length request.payload ≡ size_of b.digest
unfolding batch_update_request
request-IsLoaded b request loaded made =
    let made' = rw loaded.held at made in
    let same : request.payload ≡ loaded.content = ground arith in rw (same, loaded.sized) refl

payload_total-requests :
    (bs : List Blob) (requests : List UpdateRequest)
    → All IsLoaded bs
    → try_map batch_update_request bs ≡ ok requests
    → payload_total requests ≡ total bs
payload_total-requests [] requests loaded made = ground arith
payload_total-requests (b ∷ bs) requests (first, rest) made =
    let (r, e, h1) = >>=-eq-ok (batch_update_request b) _ made in
    let (rs, e', all) = >>=-eq-ok (try_map batch_update_request bs) _ h1 in
    subst (λ (q : List UpdateRequest). payload_total q ≡ total (b ∷ bs)) (ok_injective all)
      (omega (arith, request-IsLoaded b r first e, payload_total-requests bs rs rest e'))

module _ (disk : Disk) (budget : ℕ)
    (update : List Transfer → List UpdateRequest → Result CasError (List UpdateResponse))
    (stream : ByteStream) where
  upload_batch_after :
      (P : Upload → Type 0) (batch : List Blob) (u : Upload)
      → P u
      → ((requests : List UpdateRequest)
          → try_map batch_update_request batch ≡ ok requests
          → P (record u { sent = u.sent ++ batch_update batch requests ∷ [] }))
      → P (upload_batch_to_cas disk budget update stream batch u).1
  unfolding upload_batch_to_cas
  upload_batch_after P batch u before after =
      resume_after P (try_map batch_update_request batch) _ u before λ requests e.
        resume_after P (update u.sent requests) _
          (record u { sent = u.sent ++ batch_update batch requests ∷ [] }) (after requests e)
          (λ responses _. after requests e)

  flush-Keeps : Keeps (IsPacked budget) (flush_batch_update disk budget update stream)
  unfolding flush_batch_update taken
  flush-Keeps u h = elim (Bool-cases (no_blobs u.batch.blobs)) [
    | inl empty ↦ rw empty h
    | inr some_blobs ↦ rw some_blobs (
        upload_batch_after (IsPacked budget) u.batch.blobs (record u { batch = taken u.batch })
          (record { fits = h.fits; loaded = tt; counted = refl; within_budget = omega arith })
          (λ requests e. record {
            fits =
                All-append (Fits budget) u.sent (batch_update u.batch.blobs requests ∷ []) h.fits (
                  (
                    some_blobs,
                    h.loaded,
                    omega (arith, h.counted, h.within_budget),
                    payload_total-requests u.batch.blobs requests h.loaded e,
                  ),
                  tt,
                );
            loaded = tt;
            counted = refl;
            within_budget = omega arith;
          }))
  ]

  oversized-Keeps :
      (b : Blob)
      → budget < size_of b.digest
      → Keeps (IsPacked budget) (upload_oversized_blob disk budget update stream b)
  unfolding upload_oversized_blob
  oversized-Keeps b beyond u h = record {
    fits =
        All-append (Fits budget) u.sent
          (bytestream_write b (bytestream_requests disk stream u.sent b) ∷ []) h.fits (beyond, tt);
    loaded = h.loaded;
    counted = h.counted;
    within_budget = h.within_budget;
  }

  push-IsPacked :
      (b : Blob) (n : ℕ) (u : Upload)
      → IsPacked budget u
      → IsLoaded b
      → b.digest.size_bytes ≡ pos n
      → u.batch.bytes + n ≤ budget
      → IsPacked budget (record u { batch = push b n u.batch })
  unfolding push
  push-IsPacked b n u h loaded size room = record {
    fits = h.fits;
    loaded = All-append IsLoaded u.batch.blobs (b ∷ []) h.loaded (loaded, tt);
    counted = ground (arith, total-append u.batch.blobs (b ∷ []), h.counted);
    within_budget = room;
  }

  flush_taken :
      (u : Upload)
      → no_blobs u.batch.blobs ≡ false
      → (flush_batch_update disk budget update stream u).1.batch ≡ taken u.batch
  unfolding flush_batch_update
  flush_taken u some_blobs = rw some_blobs (
      upload_batch_after (λ (x : Upload). x.batch ≡ taken u.batch) u.batch.blobs
        (record u { batch = taken u.batch }) refl (λ requests _. refl))

  add_to_batch-Keeps :
      (b : Blob) (n : ℕ)
      → b.digest.size_bytes ≡ pos n
      → n ≤ budget
      → Keeps (IsPacked budget) (add_to_batch disk budget update stream b n)
  unfolding add_to_batch load_blob_as_bytes would_exceed_budget taken
  add_to_batch-Keeps b n size small u h =
      resume_after (IsPacked budget) (load_blob_as_bytes (read_file disk) b n) _ u h λ loaded e.
        let (held, digested) = load-IsLoaded (read_file disk) b.digest b.contents n loaded size e in
        let sized : loaded.digest.size_bytes ≡ pos n =
          ap (λ (d : Digest). d.size_bytes) digested ∙ size in
        elim (Bool-cases (would_exceed_budget u.batch n budget)) [
          | inl exceeds ↦
              let emptied : (flush_batch_update disk budget update stream u).1.batch.bytes ≡ 0 =
                ap (λ (b : BatchUpdateState). b.bytes) (flush_taken u (ground arith)) in
              rw exceeds (
                resume_after (IsPacked budget) (flush_batch_update disk budget update stream u).0 _
                  (flush_batch_update disk budget update stream u).1 (flush-Keeps u h)
                  λ _ _.
                    push-IsPacked loaded n (flush_batch_update disk budget update stream u).1
                      (flush-Keeps u h) held sized (omega (arith, emptied, small)))
          | inr fits ↦ rw fits (
              push-IsPacked loaded n u h held sized
                (ground (arith, h.counted, empty_total u.batch.blobs)))
        ]

  upload_one-Keeps : (b : Blob) → Keeps (IsPacked budget) (upload_one disk budget update stream b)
  unfolding upload_one
  upload_one-Keeps b u h = resume_after (IsPacked budget) (digest_size_usize b.digest) _ u h λ n e.
      let size : b.digest.size_bytes ≡ pos n = digest_size b.digest n e in
      elim (Bool-cases (ltb budget n)) [
        | inl beyond ↦ rw beyond (
            and_then-Keeps (flush_batch_update disk budget update stream)
              (λ _. upload_oversized_blob disk budget update stream b) flush-Keeps
              (λ _. oversized-Keeps b (ground (arith, ltb→lt budget n beyond))) u h)
        | inr fits ↦ rw fits (add_to_batch-Keeps b n size (ground arith) u h)
      ]

  upload_each-Keeps :
      (bs : List Blob) → Keeps (IsPacked budget) (upload_each disk budget update stream bs)
  unfolding upload_each
  upload_each-Keeps [] = λ u h. h
  upload_each-Keeps (b ∷ bs) =
      and_then-Keeps (upload_one disk budget update stream b)
        (λ _. upload_each disk budget update stream bs) (upload_one-Keeps b)
        (λ _. upload_each-Keeps bs)

  -- Whatever the remote store answers, and whether the upload fails or not, each
  -- `BatchUpdateBlobs` call that `upload_blobs_to_cas` makes carries at least one blob, only blobs in
  -- memory of their digest's size, and no more bytes than the budget; each stream carries a blob
  -- that is larger than the budget.
  pub upload_blobs_to_cas-Fits :
      (blobs : List Blob)
      → All (Fits budget) (upload_blobs_to_cas disk budget update stream blobs).1
  unfolding upload_blobs_to_cas
  upload_blobs_to_cas-Fits blobs =
      (and_then-Keeps (upload_each disk budget update stream blobs)
        (λ _. flush_batch_update disk budget update stream) (upload_each-Keeps blobs)
        (λ _. flush-Keeps) (record { batch = new_batch; sent = [] })
        (record { fits = tt; loaded = tt; counted = refl; within_budget = omega arith })).fits
