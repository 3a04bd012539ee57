-- ===== src/Cas/Protocol.antt =====
-- crates/rfs-common/src/cas.rs: what the protocol promises of a remote store, and how responses tell it.
use remotefs.Base.{ℕ, ◌≡◌, refl, subst, Option, List, [], ◌∷◌, ◌++◌, All}
use remotefs.Base.{Result, ok, arith, inl, inr, Bool-cases, try_map, >>=-eq-ok}
use remotefs.Base.Text.{Text}
use remotefs.Digest.{Digest, ReapiDigest, to_reapi}
use remotefs.Base.{
  ◌⊎◌, ◌↔◌, ◌∙◌, ap, none, some, true, false, ok_or, ok_injective, ==_iff, nat_eq, list_eq,
}
use remotefs.Base.Int.{ℤ, pos, int_eq}
use remotefs.Cas.Blobs.{CasError, missing_response, Blob, UpdateRequest, batch_update_request}
use remotefs.Cas.Batch.{
  Transfer, batch_update, bytestream_write, UpdateResponse, check_response, find_response, is_for,
  is_failure, reapi_beq, ByteStream,
}
use remotefs.Cas.Chunks.{WriteRequest}
use remotefs.Cas.Names.{bytestream_write_resource_name}
use remotefs.Cas.Assembly.{assemble}
use remotefs.Cas.Streams.{Names}
use remotefs.Upload.Members.{All-map}

pub reapi_beq_iff : (d e : ReapiDigest) → (reapi_beq d e ≡ true) ↔ (d ≡ e)
unfolding reapi_beq
reapi_beq_iff d e =
    ground (arith, ==_iff d.hash e.hash, int_eq.equals_iff d.size_bytes e.size_bytes)

abbrev pub Any : {A : Type 0} → (A → Type 0) → List A → Type 0
Any P [] = ⊥
Any P (x ∷ xs) = P x ⊎ Any P xs

abbrev pub IsRequested : Digest → UpdateRequest → Type 0
IsRequested d request = request.digest ≡ some (to_reapi d)

-- The response is for the digest, and its status is absent or the code 0.
abbrev pub IsStored : Digest → UpdateResponse → Type 0
IsStored d response =
    (response.digest ≡ some (to_reapi d))
    × ((response.status ≡ none) ⊎ (response.status ≡ some (pos 0)))

-- A remote store that holds what it acknowledges, and forgets nothing. It acknowledges a digest that a
-- batch requests by a response of success for it, and one that a complete write is named for by its size.
-- A call is answered after those of the history.
pub record Acknowledges (held : List Transfer → Digest → Type 0)
    (update : List Transfer → List UpdateRequest → Result CasError (List UpdateResponse))
    (stream : ByteStream) : Type 0 where
  pub batch_held :
      (before : List Transfer) (batch : List Blob) (requests : List UpdateRequest)
      (responses : List UpdateResponse)
      → update before requests ≡ ok responses
      → (d : Digest) → Any (IsRequested d) requests
      → Any (IsStored d) responses
      → held (before ++ batch_update batch requests ∷ []) d
  pub stream_held :
      (before : List Transfer) (b : Blob) (requests : List WriteRequest) (uuid : Text)
      (content : List ℕ)
      → Names (bytestream_write_resource_name uuid stream.instance_name b.digest) requests
      → assemble [] requests ≡ some content
      → stream.answer before requests ≡ ok b.digest.size_bytes
      → held (before ++ bytestream_write b requests ∷ []) b.digest
  pub keeps :
      (before : List Transfer) (t : Transfer) (d : Digest)
      → held before d
      → held (before ++ t ∷ []) d

is_for-digest :
    (b : Blob) (response : UpdateResponse) (digest : Option ReapiDigest)
    → response.digest ≡ digest
    → is_for b response ≡ true
    → response.digest ≡ some (to_reapi b.digest)
unfolding is_for
is_for-digest b response none e h = let h' = rw e at h in cc
is_for-digest b response (some d) e h =
    let h' = rw e at h in
    e ∙ ap (λ (x : ReapiDigest). some x) ((reapi_beq_iff d (to_reapi b.digest)).0 h')

is_failure-status :
    (status : Option ℤ) → is_failure status ≡ false → (status ≡ none) ⊎ (status ≡ some (pos 0))
unfolding is_failure
is_failure-status none h = inl refl
is_failure-status (some code) h =
    inr (ap (λ (c : ℤ). some c) ((int_eq.equals_iff code (pos 0)).0 (ground arith)))

found-IsStored :
    (b : Blob) (responses : List UpdateResponse) (r : UpdateResponse)
    → find_response b responses ≡ some r
    → is_failure r.status ≡ false
    → Any (IsStored b.digest) responses
unfolding find_response
found-IsStored b [] r found fine = cc
found-IsStored b (a ∷ responses) r found fine = elim (Bool-cases (is_for b a)) [
  | inl here ↦
      let same : a ≡ r = ground arith in
      inl (
        is_for-digest b a a.digest refl here,
        is_failure-status a.status (ap (λ (x : UpdateResponse). is_failure x.status) same ∙ fine),
      )
  | inr other ↦ inr (found-IsStored b responses r (ground arith) fine)
]

pub checked-IsStored :
    (responses : List UpdateResponse) (b : Blob)
    → check_response responses b ≡ ok tt
    → Any (IsStored b.digest) responses
unfolding check_response
checked-IsStored responses b h =
    let (r, found, fine) =
      >>=-eq-ok (ok_or (missing_response b.digest) (find_response b responses)) _ h in
    found-IsStored b responses r (ground arith) (ground arith)

request-IsRequested :
    (b : Blob) (r : UpdateRequest) → batch_update_request b ≡ ok r → IsRequested b.digest r
unfolding batch_update_request
request-IsRequested b r h = ground arith

pub batch-IsRequested :
    (batch : List Blob) (requests : List UpdateRequest)
    → try_map batch_update_request batch ≡ ok requests
    → All (λ (b : Blob). Any (IsRequested b.digest) requests) batch
batch-IsRequested [] requests made = tt
batch-IsRequested (b ∷ batch) requests made =
    let (r, e, h1) = >>=-eq-ok (batch_update_request b) _ made in
    let (rs, e', all) = >>=-eq-ok (try_map batch_update_request batch) _ h1 in
    subst (λ (q : List UpdateRequest). All (λ (c : Blob). Any (IsRequested c.digest) q) (b ∷ batch))
      (ok_injective all)
      (
        inl (request-IsRequested b r e),
        All-map (λ (c : Blob). Any (IsRequested c.digest) rs)
            (λ (c : Blob). Any (IsRequested c.digest) (r ∷ rs)) batch (λ c later. inr later)
            (batch-IsRequested batch rs e'),
      )
