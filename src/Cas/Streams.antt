-- ===== src/Cas/Streams.antt =====
-- crates/rfs-common/src/cas.rs: the requests of a file write whose producer succeeds, in whatever way the
-- channel takes them.
use remotefs.Base.{
  ℕ, ◌+◌, ◌≡◌, refl, sym, ap, ◌∙◌, Bool, Bool-cases, inl, inr, true, Option, none, some, List, [],
  ◌∷◌, ◌++◌, All, ok, length, ==_refl, length-append, nat_eq, arith,
}
use mathlib.Core.List.{append_assoc}
use remotefs.Base.Text.{Text}
use remotefs.Cas.Chunks.{WriteRequest, FileReads, read_all, request_of, send_requests}
use remotefs.Cas.Assembly.{assemble}

-- Every request is for the resource.
abbrev pub Names : Text → List WriteRequest → Type 0
Names name requests = All (λ (r : WriteRequest). r.resource_name ≡ name) requests

module _ (takes : ℕ → Bool) (name : Text) where
  pub send_requests-Names :
      (reads : FileReads) (offset : ℕ) → Names name (send_requests takes name reads offset).0
  unfolding send_requests
  send_requests-Names [] offset = elim (Bool-cases (takes offset)) [
    | inl taken ↦ rw taken (refl, tt)
    | inr gone ↦ rw gone tt
  ]
  send_requests-Names (none ∷ reads) offset = tt
  send_requests-Names (some [] ∷ reads) offset = elim (Bool-cases (takes offset)) [
    | inl taken ↦ rw taken (refl, tt)
    | inr gone ↦ rw gone tt
  ]
  send_requests-Names (some (b ∷ bytes) ∷ reads) offset = elim (Bool-cases (takes offset)) [
    | inl taken ↦ rw taken (refl, send_requests-Names reads (offset + length (b ∷ bytes)))
    | inr gone ↦ rw gone tt
  ]

  taken-at :
      (read : Option (List ℕ)) (reads : FileReads) (offset : ℕ)
      → (send_requests takes name (read ∷ reads) offset).1 ≡ ok tt
      → takes offset ≡ true
  unfolding send_requests
  taken-at none reads offset h = cc
  taken-at (some read) reads offset h = ground arith

  some_requests :
      (reads : FileReads) (offset : ℕ)
      → (send_requests takes name reads offset).1 ≡ ok tt
      → (first : WriteRequest) × (more : List WriteRequest) × ((send_requests takes name reads
            offset).0
          ≡ first ∷ more)
  unfolding send_requests
  some_requests [] offset h =
      let taken : takes offset ≡ true = ground arith in
      rw taken (request_of takes name offset [], [], refl)
  some_requests (none ∷ reads) offset h = cc
  some_requests (some [] ∷ reads) offset h =
      rw (taken-at (some []) reads offset h) (request_of takes name offset [], [], refl)
  some_requests (some (b ∷ bytes) ∷ reads) offset h =
      rw (taken-at (some (b ∷ bytes)) reads offset h)
        (request_of takes name offset (b ∷ bytes), _, refl)

  pub send_requests-assemble :
      (reads : FileReads) (committed : List ℕ)
      → (send_requests takes name reads (length committed)).1 ≡ ok tt
      → (content : List ℕ) × (read_all reads ≡ some content)
        × (assemble committed (send_requests takes name reads (length committed)).0
            ≡ some (committed ++ content))
  unfolding send_requests read_all
  send_requests-assemble [] committed h =
      let taken : takes (length committed) ≡ true = ground arith in
      rw (taken, ==_refl (length committed)) ([], refl, refl)
  send_requests-assemble (none ∷ reads) committed h = cc
  send_requests-assemble (some [] ∷ reads) committed h =
      rw (taken-at (some []) reads (length committed) h, ==_refl (length committed))
        ([], refl, refl)
  send_requests-assemble (some (b ∷ bytes) ∷ reads) committed h =
      let taken = taken-at (some (b ∷ bytes)) reads (length committed) h in
      let next = committed ++ b ∷ bytes in
      let longer : length committed + length (b ∷ bytes) ≡ length next =
        sym (length-append committed (b ∷ bytes)) in
      let fine : (send_requests takes name reads (length next)).1 ≡ ok tt =
        rw (taken, longer) at h in
      let (first, more, e) = some_requests reads (length next) fine in
      let (content, whole, put) = send_requests-assemble reads next fine in
      rw (taken, whole, longer, e, ==_refl (length committed))
        (
          (b ∷ bytes) ++ content,
          refl,
          ap (assemble next) (sym e)
              ∙ (put ∙ ap (λ (l : List ℕ). some l) (append_assoc committed (b ∷ bytes) content)),
        )
