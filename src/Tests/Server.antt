-- ===== src/Tests/Server.antt =====
-- A remote store that takes what it is sent, and knows what it has.
use remotefs.Base.{
  ◌≡◌, subst, Bool-cases, true, Option, none, some, List, [], ◌∷◌, ◌++◌, map, ◌⊎◌, inl, inr,
  if◌then◌else◌, ok, err, arith, contains, ok_injective, length, ℕ,
}
use remotefs.Base.Int.{pos}
use remotefs.Base.Text.{Text, codes}
use remotefs.Digest.{Digest, ReapiDigest, to_reapi, digest_beq}
use remotefs.Digest.Verify.{digest_beq_iff}
use remotefs.Cas.Blobs.{UpdateRequest}
use remotefs.Cas.Chunks.{rejected}
use remotefs.Cas.Assembly.{assemble}
use remotefs.Cas.Batch.{Transfer, bytestream_write, batch_update, UpdateResponse, Disk}
use remotefs.Cas.Carried.{all_carried, all_carried-append}
use remotefs.Cas.Client.{Remote}
use remotefs.Cas.Protocol.{reapi_beq_iff, Any, IsRequested}
use remotefs.Cas.Refines.{IsRemote, reapi_eq}
use remotefs.Upload.Sources.{digest_eq}
use remotefs.Upload.Members.{contains-append_left, contains-append_right}

-- A disk whose files are read at once.
abbrev pub disk_of : (Text → Option (List ℕ)) → Disk
disk_of files path = elim (files path) [ none ↦ none | some content ↦ some (some content ∷ []) ]

abbrev requested_digests : List UpdateRequest → List ReapiDigest
requested_digests [] = []
requested_digests (r ∷ rs) = elim r.digest [
  | none ↦ requested_digests rs
  | some d ↦ d ∷ requested_digests rs
]

abbrev digests_of : Transfer → List ReapiDigest
digests_of (batch_update bs requests) = requested_digests requests
digests_of (bytestream_write b requests) = to_reapi b.digest ∷ []

abbrev known_after : List Transfer → List ReapiDigest
known_after calls = all_carried digests_of calls

-- The store holds what it was sent.
abbrev pub HeldThere : List Transfer → Digest → Type 0
HeldThere calls d = contains (known_after calls) (to_reapi d) ≡ true

-- The digests that the store does not hold.
abbrev unknown_to : List ReapiDigest → List ReapiDigest → List ReapiDigest
unknown_to known [] = []
unknown_to known (r ∷ rs) =
    let rest = unknown_to known rs in if contains known r then rest else r ∷ rest

abbrev answer : UpdateRequest → UpdateResponse
answer request = record { digest = request.digest; status = none }

-- A stream is answered with the size of what it was put together to.
abbrev pub a_remote : Remote
a_remote = record {
  find_missing = λ calls ds. ok (unknown_to (known_after calls) ds);
  update = λ calls requests. ok (map answer requests);
  stream = record {
    instance_name = codes "main";
    fresh_uuid = λ calls. codes "u";
    takes = λ calls offset. true;
    answer = λ calls requests. elim (assemble [] requests) [
      | none ↦ err rejected
      | some c ↦ ok (pos (length c))
    ];
  };
}

unknown_to-head :
    (known rs : List ReapiDigest) (d : ReapiDigest)
    → (contains (unknown_to known (d ∷ rs)) d ≡ true) ⊎ (contains known d ≡ true)
unknown_to-head known rs d = elim (Bool-cases (contains known d)) [
  | inl here ↦ inr here
  | inr missing ↦ inl (ground (arith, reapi_beq_iff d d))
]

unknown_to-reports :
    (known : List ReapiDigest) (ds : List Digest) (d : Digest)
    → contains ds d ≡ true
    → (contains (unknown_to known (map to_reapi ds)) (to_reapi d) ≡ true)
      ⊎ (contains known (to_reapi d) ≡ true)
unknown_to-reports known [] d h = cc
unknown_to-reports known (e ∷ ds) d h = elim (Bool-cases (digest_beq d e)) [
  | inl same ↦
      subst
        (λ (x : Digest).
          (contains (unknown_to known (to_reapi x ∷ map to_reapi ds)) (to_reapi d) ≡ true)
          ⊎ (contains known (to_reapi d) ≡ true))
        ((digest_beq_iff d e).0 same) (unknown_to-head known (map to_reapi ds) (to_reapi d))
  | inr other ↦ ground (arith, unknown_to-reports known ds d)
]

requested_cons :
    (digest : Option ReapiDigest) (requests : List UpdateRequest) (d : Digest)
    → contains (requested_digests requests) (to_reapi d) ≡ true
    → contains
        (elim digest [
          | none ↦ requested_digests requests
          | some e ↦ e ∷ requested_digests requests
        ])
        (to_reapi d)
      ≡ true
requested_cons none requests d h = h
requested_cons (some e) requests d h = ground arith

requested-known :
    (requests : List UpdateRequest) (d : Digest)
    → Any (IsRequested d) requests
    → contains (requested_digests requests) (to_reapi d) ≡ true
requested-known [] d h = absurd h
requested-known (r ∷ requests) d (inl here) =
    rw here (ground (arith, reapi_beq_iff (to_reapi d) (to_reapi d)))
requested-known (r ∷ requests) d (inr there) =
    let rest = requested-known requests d there in requested_cons r.digest requests d rest

held-before :
    (before : List Transfer) (t : Transfer) (d : Digest)
    → HeldThere before d
    → HeldThere (before ++ t ∷ []) d
held-before before t d h =
    rw (all_carried-append digests_of before (t ∷ []))
      (contains-append_left (known_after before) (known_after (t ∷ [])) (to_reapi d) h)

held-last :
    (before : List Transfer) (t : Transfer) (d : Digest)
    → contains (digests_of t) (to_reapi d) ≡ true
    → HeldThere (before ++ t ∷ []) d
held-last before t d h = rw (all_carried-append digests_of before (t ∷ [])) (
    contains-append_right (known_after before) (known_after (t ∷ [])) (to_reapi d)
      (contains-append_left (digests_of t) [] (to_reapi d) h))

pub a_remote-IsRemote : IsRemote a_remote HeldThere
a_remote-IsRemote = record {
  acknowledges = record {
    batch_held = λ before batch requests responses answered d asked stored.
        held-last before (batch_update batch requests) d (requested-known requests d asked);
    stream_held = λ before b requests uuid content named put answered.
        held-last before (bytestream_write b requests) b.digest
          (ground (arith, reapi_beq_iff (to_reapi b.digest) (to_reapi b.digest)));
    keeps = held-before;
  };
  reports = λ before ds missing answered d asked.
      subst (λ (ms : List ReapiDigest). (contains ms (to_reapi d) ≡ true) ⊎ HeldThere before d)
        (ok_injective answered) (unknown_to-reports (known_after before) ds d asked);
}
