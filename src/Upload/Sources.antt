-- ===== src/Upload/Sources.antt =====
-- crates/rfs-common/src/upload.rs: the sources of an encoded tree, each under its own digest.
use remotefs.Base.{ℕ, ◌≡◌, refl, sym, ap, ap₂, ◌∙◌, true, List, [], ◌∷◌, map, arith}
use remotefs.Base.{All, All-append, ok, >>=-eq-ok, ok_injective, try_map, contains, is_some}
use remotefs.Base.{nat_eq, list_eq, Bool-cases, inl, inr, Eq}
use remotefs.Base.Int.{int_eq}
use mathlib.Core.List.{map-append}
use remotefs.Base.Text.{Text}
use remotefs.Digest.{Digest, digest_beq, for_bytes}
use remotefs.Digest.Verify.{digest_beq_iff}
use remotefs.Tree.Types.{EncodedDirectory}
use remotefs.Cas.Blobs.{Blob, file_path}
use remotefs.Cas.Order.{digest_of}
use remotefs.Upload.Types.{EncodedDirectoryTree}
use remotefs.Upload.Send.{
  Sources, source_digest, get_source, or_insert, add_files, from_bytes, add_directories, sources_of,
  find_source,
}
use remotefs.Upload.Members.{Within, contains-append_left, contains-append_last, All-map}

instance abbrev pub digest_eq : Eq Digest
digest_eq = record { equals = digest_beq; equals_iff = digest_beq_iff }

abbrev pub digests_of : Sources → List Digest
digests_of sources = map source_digest sources

abbrev pub file_digest : Digest × Text → Digest
file_digest f = f.0

abbrev pub directory_digest : EncodedDirectory → Digest
directory_digest d = d.digest

-- Each source has the digest under which it is found.
abbrev pub IsHonest : Digest × Blob → Type 0
IsHonest (digest, blob) = blob.digest ≡ digest

get_source-has :
    (d : Digest) (sources : Sources)
    → is_some (get_source d sources) ≡ true
    → contains (digests_of sources) d ≡ true
unfolding get_source
get_source-has d [] h = cc
get_source-has d ((known, b) ∷ rest) h =
    ground (arith, digest_beq_iff known d, digest_beq_iff d known, get_source-has d rest)

or_insert-Within :
    (d : Digest) (b : Blob) (sources : Sources)
    → Within (digests_of sources) (digests_of (or_insert d b sources))
unfolding or_insert
or_insert-Within d b sources a h = elim (Bool-cases (is_some (get_source d sources))) [
  | inl has ↦ rw has h
  | inr new ↦ rw (new, map-append) (contains-append_left (digests_of sources) (d ∷ []) a h)
]

or_insert-has :
    (d : Digest) (b : Blob) (sources : Sources)
    → contains (digests_of (or_insert d b sources)) d ≡ true
unfolding or_insert
or_insert-has d b sources = elim (Bool-cases (is_some (get_source d sources))) [
  | inl has ↦ rw has (get_source-has d sources has)
  | inr new ↦ rw (new, map-append) (contains-append_last (digests_of sources) d)
]

or_insert-IsHonest :
    (d : Digest) (b : Blob) (sources : Sources)
    → b.digest ≡ d
    → All IsHonest sources
    → All IsHonest (or_insert d b sources)
unfolding or_insert
or_insert-IsHonest d b sources e h = elim (Bool-cases (is_some (get_source d sources))) [
  | inl has ↦ rw has h
  | inr new ↦ rw new (All-append IsHonest sources ((d, b) ∷ []) h (e, tt))
]

add_files-Within :
    (files : List (Digest × Text)) (sources : Sources)
    → Within (digests_of sources) (digests_of (add_files files sources))
unfolding add_files
add_files-Within [] sources a h = h
add_files-Within ((d, path) ∷ files) sources a h =
    let b : Blob = record { digest = d; contents = file_path path } in
    add_files-Within files (or_insert d b sources) a (or_insert-Within d b sources a h)

add_files-has :
    (files : List (Digest × Text)) (sources : Sources)
    → All (λ (f : Digest × Text). contains (digests_of (add_files files sources)) f.0 ≡ true) files
unfolding add_files
add_files-has [] sources = tt
add_files-has ((d, path) ∷ files) sources =
    let b : Blob = record { digest = d; contents = file_path path } in
    let inserted = or_insert d b sources in
    (add_files-Within files inserted d (or_insert-has d b sources), add_files-has files inserted)

add_files-IsHonest :
    (files : List (Digest × Text)) (sources : Sources)
    → All IsHonest sources
    → All IsHonest (add_files files sources)
unfolding add_files
add_files-IsHonest [] sources h = h
add_files-IsHonest ((d, path) ∷ files) sources h =
    let b : Blob = record { digest = d; contents = file_path path } in
    add_files-IsHonest files (or_insert d b sources) (or_insert-IsHonest d b sources refl h)

module _ (sha256_hex : List ℕ → Text) where
  -- The digest of an encoded directory is the one of its bytes.
  abbrev pub IsSealed : EncodedDirectory → Type 0
  IsSealed d = for_bytes sha256_hex d.bytes ≡ d.digest

  add_directories-Within :
      (ds : List EncodedDirectory) (sources : Sources)
      → Within (digests_of sources) (digests_of (add_directories sha256_hex ds sources))
  unfolding add_directories
  add_directories-Within [] sources a h = h
  add_directories-Within (d ∷ ds) sources a h =
      let b = from_bytes sha256_hex d.bytes in
      add_directories-Within ds (or_insert d.digest b sources) a
        (or_insert-Within d.digest b sources a h)

  add_directories-has :
      (ds : List EncodedDirectory) (sources : Sources)
      → All
          (λ (d : EncodedDirectory).
            contains (digests_of (add_directories sha256_hex ds sources)) d.digest ≡ true)
          ds
  unfolding add_directories
  add_directories-has [] sources = tt
  add_directories-has (d ∷ ds) sources =
      let b = from_bytes sha256_hex d.bytes in
      let inserted = or_insert d.digest b sources in
      (
        add_directories-Within ds inserted d.digest (or_insert-has d.digest b sources),
        add_directories-has ds inserted,
      )

  add_directories-IsHonest :
      (ds : List EncodedDirectory) (sources : Sources)
      → All IsSealed ds
      → All IsHonest sources
      → All IsHonest (add_directories sha256_hex ds sources)
  unfolding add_directories from_bytes
  add_directories-IsHonest [] sources s h = h
  add_directories-IsHonest (d ∷ ds) sources s h =
      let b = from_bytes sha256_hex d.bytes in
      add_directories-IsHonest ds (or_insert d.digest b sources) s.1
        (or_insert-IsHonest d.digest b sources s.0 h)

  -- Every file and every directory of an encoded tree has a source.
  pub sources_of_complete :
      (t : EncodedDirectoryTree)
      → All
          (λ (f : Digest × Text). contains (digests_of (sources_of sha256_hex t)) f.0 ≡ true)
          t.file_blobs
        × All
            (λ (d : EncodedDirectory).
              contains (digests_of (sources_of sha256_hex t)) d.digest ≡ true)
            t.directories
  unfolding sources_of
  sources_of_complete t =
      let files = add_files t.file_blobs [] in
      (
        All-map (λ (f : Digest × Text). contains (digests_of files) f.0 ≡ true)
            (λ (f : Digest × Text).
              contains (digests_of (add_directories sha256_hex t.directories files)) f.0 ≡ true)
            t.file_blobs
            (λ (f : Digest × Text) (h : contains (digests_of files) f.0 ≡ true).
              add_directories-Within t.directories files f.0 h)
            (add_files-has t.file_blobs []),
        add_directories-has t.directories files,
      )

  pub sources_of-IsHonest :
      (t : EncodedDirectoryTree)
      → All IsSealed t.directories
      → All IsHonest (sources_of sha256_hex t)
  unfolding sources_of
  sources_of-IsHonest t h =
      add_directories-IsHonest t.directories (add_files t.file_blobs []) h
        (add_files-IsHonest t.file_blobs [] tt)

find_source-digest :
    (sources : Sources) (d : Digest) (b : Blob)
    → All IsHonest sources
    → find_source sources d ≡ ok b
    → b.digest ≡ d
unfolding get_source
find_source-digest [] d b h e = cc
find_source-digest ((known, blob) ∷ rest) d b (honest, h) e =
    ground (arith, digest_beq_iff known d, find_source-digest rest d b h)

-- The blobs that are found for the missing digests are those, in their order.
pub find_sources-digests :
    (sources : Sources) (missing : List Digest) (blobs : List Blob)
    → All IsHonest sources
    → try_map (find_source sources) missing ≡ ok blobs
    → map digest_of blobs ≡ missing
find_sources-digests sources [] blobs h e = ap (map digest_of) (sym (ok_injective e))
find_sources-digests sources (d ∷ missing) blobs h e =
    let (b, first, e') = >>=-eq-ok (find_source sources d) _ e in
    let (bs, rest, made) = >>=-eq-ok (try_map (find_source sources) missing) _ e' in
    ap (map digest_of) (sym (ok_injective made))
    ∙ ap₂ ◌∷◌ (find_source-digest sources d b h first)
        (find_sources-digests sources missing bs h rest)
