-- ===== src/Cas/Assembly.antt =====
-- crates/rfs-common/src/cas.rs: a server that follows the protocol puts a file together from its requests.
use remotefs.Base.{
  ℕ, ◌+◌, ◌≡◌, refl, sym, ap, ◌∙◌, Bool, true, not, ◌&&◌, Option, none, some, List, [], ◌∷◌, ◌++◌,
}
use remotefs.Base.{ok, if◌then◌else◌, length, ◌==◌, nat_eq, ==_refl, length-append}
use mathlib.Core.List.{append_assoc}
use remotefs.Base.Text.{Text}
use remotefs.Cas.Chunks.{
  WriteRequest, FileReads, request_of, send_requests, send_bytestream_file_requests,
}
use remotefs.Upload.Hashing.{Delivers}

-- The receiver of a `ByteStream.Write`, by its protocol: each request starts where the last ended, and
-- exactly the last one finishes. The result is the content of the resource.
abbrev pub assemble : List ℕ → List WriteRequest → Option (List ℕ)
assemble committed [] = none
assemble committed (r ∷ []) =
    if r.write_offset == length committed && r.finish_write
    then some (committed ++ r.payload)
    else none
assemble committed (r ∷ next ∷ rest) =
    if r.write_offset == length committed && not r.finish_write
    then assemble (committed ++ r.payload) (next ∷ rest)
    else none

-- The receiver takes every request.
abbrev pub always : ℕ → Bool
always offset = true

some_requests :
    (name : Text) (reads : FileReads) (content : List ℕ) (offset : ℕ)
    → Delivers reads content
    → (first : WriteRequest) × (more : List WriteRequest) × ((send_requests always name reads
          offset).0
        ≡ first ∷ more)
unfolding send_requests
some_requests name [] content offset d = (request_of always name offset [], [], refl)
some_requests name (none ∷ reads) content offset d = absurd d
some_requests name (some [] ∷ reads) content offset d = absurd d
some_requests name (some (b ∷ bytes) ∷ reads) content offset d =
    (request_of always name offset (b ∷ bytes), _, refl)

assemble-requests :
    (name : Text) (reads : FileReads) (content committed : List ℕ)
    → Delivers reads content
    → (assemble committed (send_requests always name reads (length committed)).0
        ≡ some (committed ++ content))
      × ((send_requests always name reads (length committed)).1 ≡ ok tt)
unfolding send_requests
assemble-requests name [] content committed d = rw (==_refl (length committed), d) (refl, refl)
assemble-requests name (none ∷ reads) content committed d = absurd d
assemble-requests name (some [] ∷ reads) content committed d = absurd d
assemble-requests name (some (b ∷ bytes) ∷ reads) content committed (rest, split, d) =
    let next = committed ++ b ∷ bytes in
    let (first, more, e) = some_requests name reads rest (length next) d in
    let (whole, fine) = assemble-requests name reads rest next d in
    let longer : length committed + length (b ∷ bytes) ≡ length next =
      sym (length-append committed (b ∷ bytes)) in
    let content_split =
      append_assoc committed (b ∷ bytes) rest ∙ ap (λ (l : List ℕ). committed ++ l) (sym split) in
    rw (longer, e, ==_refl (length committed))
      (ap (assemble next) (sym e) ∙ (whole ∙ ap some content_split), fine)

-- The requests that `send_bytestream_file_requests` sends for a file are a well-formed write of it: a
-- receiver that wants each request to start where the last ended, and exactly the last one to finish,
-- puts together the content of the file, in whatever chunks the reads deliver it. The receiver takes
-- every request.
pub send_bytestream_file_requests-assemble :
    (name : Text) (reads : FileReads) (content : List ℕ)
    → Delivers reads content
    → (assemble [] (send_bytestream_file_requests always name (some reads)).0 ≡ some content)
      × ((send_bytestream_file_requests always name (some reads)).1 ≡ ok tt)
unfolding send_bytestream_file_requests
send_bytestream_file_requests-assemble name reads content d =
    assemble-requests name reads content [] d
