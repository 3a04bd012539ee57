-- ===== src/Cas/Refines.antt =====
-- crates/rfs-common/src/cas.rs: a `CasClient` keeps the promises of `BlobStore`.
use remotefs.Base.{ℕ, ◌≡◌, sym, subst, true, List, [], ◌∷◌, ◌++◌, map, All, ◌⊎◌, inl, inr}
use remotefs.Base.{
  ok, arith, try_map, >>=-eq-ok, map_err, map_err-eq-ok, ok_injective, contains, Eq, nat_eq,
  list_eq,
}
use mathlib.Core.List.{append-nil, append_assoc}
use remotefs.Base.Int.{int_eq}
use remotefs.Base.State.{and_then-eq-ok, resume_after}
use remotefs.Digest.{Digest, ReapiDigest, to_reapi, from_reapi}
use remotefs.Digest.Validity.{from_reapi-IsValid}
use remotefs.Cas.Blobs.{context, invalid_response_digest, Blob}
use remotefs.Cas.Batch.{Disk, Transfer, reapi_beq, upload_blobs_to_cas}
use remotefs.Cas.Order.{digest_of, upload_blobs_to_cas-digests}
use remotefs.Cas.Client.{
  Remote, stream_after, parse_response_digests, total_size, find_missing_blobs, send, upload_blobs,
  cas_client,
}
use remotefs.Cas.Protocol.{reapi_beq_iff, Acknowledges}
use remotefs.Cas.Acknowledged.{upload_blobs_to_cas-held}
use remotefs.Upload.Send.{UploadStats}
use remotefs.Upload.Sources.{digest_eq}
use remotefs.Upload.Stored.{IsLawful}
use remotefs.Upload.Members.{All-at}

instance abbrev pub reapi_eq : Eq ReapiDigest
reapi_eq = record { equals = reapi_beq; equals_iff = reapi_beq_iff }

-- What the protocol promises of a remote store in which digests are held after a history of calls: it
-- holds what it acknowledges, and of the digests that it is asked for it reports those that it does not
-- hold.
pub record IsRemote (remote : Remote) (held : List Transfer → Digest → Type 0) : Type 0 where
  pub acknowledges : Acknowledges held remote.update remote.stream
  pub reports :
      (before : List Transfer) (ds : List Digest) (missing : List ReapiDigest)
      → remote.find_missing before (map to_reapi ds) ≡ ok missing
      → (d : Digest) → contains ds d ≡ true
      → (contains missing (to_reapi d) ≡ true) ⊎ held before d

-- The digests that are parsed are those of the response.
parsed-contains :
    (response : List ReapiDigest) (missing : List Digest) (d : Digest)
    → try_map from_reapi response ≡ ok missing
    → contains response (to_reapi d) ≡ true
    → contains missing d ≡ true
unfolding to_reapi reapi_beq
parsed-contains [] missing d h m = cc
parsed-contains (r ∷ response) missing d h m =
    let (e, first, h1) = >>=-eq-ok (from_reapi r) _ h in
    let (es, rest, made) = >>=-eq-ok (try_map from_reapi response) _ h1 in
    let same = (from_reapi-IsValid r e first).0 in
    let at_head : contains (to_reapi e ∷ response) (to_reapi d) ≡ true =
      subst (λ (x : ReapiDigest). contains (x ∷ response) (to_reapi d) ≡ true) (sym same) m in
    subst (λ (ds : List Digest). contains ds d ≡ true) (ok_injective made)
      (ground (arith, parsed-contains response es d rest))

module _ (disk : Disk) (budget : ℕ) (remote : Remote) (held : List Transfer → Digest → Type 0)
    (is_remote : IsRemote remote held) where
  -- The remote store after the calls that were made before.
  later :
      (before : List Transfer)
      → Acknowledges
          (λ calls. held (before ++ calls))
          (λ calls. remote.update (before ++ calls))
          (stream_after before remote.stream)
  later before =
      let server = is_remote.acknowledges in
      record {
        batch_held = λ calls batch requests responses answered d asked stored.
            subst (λ (h : List Transfer). held h d) (append_assoc before calls _)
              (server.batch_held (before ++ calls) batch requests responses answered d asked
                stored);
        stream_held = λ calls b requests uuid content named put answered.
            subst (λ (h : List Transfer). held h b.digest) (append_assoc before calls _)
              (server.stream_held (before ++ calls) b requests uuid content named put answered);
        keeps = λ calls t d h.
            subst (λ (l : List Transfer). held l d) (append_assoc before calls (t ∷ []))
              (server.keeps (before ++ calls) t d h);
      }

  held-append :
      (before calls : List Transfer) (d : Digest) → held before d → held (before ++ calls) d
  held-append before [] d h = subst (λ (l : List Transfer). held l d) (sym (append-nil before)) h
  held-append before (t ∷ calls) d h =
      subst (λ (l : List Transfer). held l d) (append_assoc before (t ∷ []) calls)
        (held-append (before ++ t ∷ []) calls d (is_remote.acknowledges.keeps before t d h))

  send-held :
      (blobs : List Blob) (before : List Transfer)
      → (send disk budget remote blobs before).0 ≡ ok tt
      → All (held (send disk budget remote blobs before).1) (map digest_of blobs)
  unfolding send
  send-held blobs before h =
      let update = λ (calls : List Transfer). remote.update (before ++ calls) in
      let stream = stream_after before remote.stream in
      let sent = (upload_blobs_to_cas disk budget update stream blobs).1 in
      let succeeded =
        map_err-eq-ok context (upload_blobs_to_cas disk budget update stream blobs).0 h in
      subst (All (held (before ++ sent)))
        (upload_blobs_to_cas-digests disk budget update stream blobs succeeded)
        (upload_blobs_to_cas-held disk budget update stream (λ calls. held (before ++ calls))
          (later before) blobs succeeded)

  send-keeps :
      (bs : List Blob) (before : List Transfer) (d : Digest)
      → held before d
      → held (send disk budget remote bs before).1 d
  unfolding send
  send-keeps bs before d h = held-append before _ d h

  find_missing_blobs-reports :
      (ds missing : List Digest) (before : List Transfer)
      → (find_missing_blobs disk budget remote ds before).0 ≡ ok missing
      → (d : Digest) → contains ds d ≡ true
      → (contains missing d ≡ true) ⊎ held before d
  unfolding find_missing_blobs parse_response_digests
  find_missing_blobs-reports ds missing before answered d asked =
      let answer = remote.find_missing before (map to_reapi ds) in
      let (response, e, parsed) = >>=-eq-ok (map_err context answer) _ answered in
      elim (is_remote.reports before ds response (map_err-eq-ok context answer e) d asked) [
        | inl reported ↦ inl (
            parsed-contains response missing d
              (map_err-eq-ok (λ _. invalid_response_digest) (try_map from_reapi response) parsed)
              reported)
        | inr already ↦ inr already
      ]

  upload_blobs-stores :
      (bs : List Blob) (before : List Transfer) (stats : UploadStats)
      → (upload_blobs disk budget remote bs before).0 ≡ ok stats
      → All (held (upload_blobs disk budget remote bs before).1) (map digest_of bs)
  unfolding upload_blobs
  upload_blobs-stores bs before stats h =
      let (total, e, h1) = and_then-eq-ok (total_size 0 bs) _ before h in
      let sent = send disk budget remote bs before in
      let (_, e', made) = and_then-eq-ok sent.0 _ sent.1 h1 in rw (e, e') (send-held bs before e')

  upload_blobs-keeps :
      (bs : List Blob) (before : List Transfer) (d : Digest)
      → held before d
      → held (upload_blobs disk budget remote bs before).1 d
  unfolding upload_blobs
  upload_blobs-keeps bs before d h =
      resume_after (λ (l : List Transfer). held l d) (total_size 0 bs) _ before h
        λ total _.
          resume_after (λ (l : List Transfer). held l d) (send disk budget remote bs before).0 _
            (send disk budget remote bs before).1 (send-keeps bs before d h)
            (λ _ _. send-keeps bs before d h)

  -- A `CasClient` keeps the promises of `BlobStore`, in front of a remote store that keeps those of the
  -- protocol: what it is asked for and does not report as missing is held, an upload that succeeds
  -- leaves every blob that it was given held, and none is forgotten. This holds whatever the budget of
  -- a batch is, for batches and streams.
  pub cas_client-IsLawful : IsLawful (cas_client disk budget remote) held
  unfolding find_missing_blobs
  cas_client-IsLawful = record {
    reports_missing = λ ds missing before answered d asked.
        find_missing_blobs-reports ds missing before answered d asked;
    stores = λ bs before stats h d m.
        All-at (held (upload_blobs disk budget remote bs before).1) (map digest_of bs) d
          (upload_blobs-stores bs before stats h) m;
    keeps = upload_blobs-keeps;
  }
