-- ===== src/Upload/Hashing.antt =====
-- crates/rfs-common/src/upload.rs: a file is hashed whole, in whatever chunks its reads come.
use remotefs.Base.{
  ℕ, ◌+◌, ◌%◌, ◌≡◌, refl, sym, ap, ap₂, ◌∙◌, ◌≤◌, ◌<◌, Option, some, none, List, [],
}
use remotefs.Base.{◌∷◌, ◌++◌, ok, err, length, length-append, arith, inl, inr}
use remotefs.Base.{◌==◌, nat_eq, if◌then◌else◌, lt→ltb, Bool-cases}
use mathlib.Core.List.{append-nil, append_assoc}
use native.Mathlib.Nat.{mod-eq_of_lt}
use remotefs.Base.Int.{i64_max, pos}
use remotefs.Base.Text.{Text, codes}
use remotefs.Digest.{for_bytes}
use remotefs.Digest.Validity.{IsValid, new-eq-ok}
use remotefs.Upload.Types.{invalid_option, LocalFile}
use remotefs.Upload.Hash.{Reads, u64_modulus, as_i64, hash_reads, hash_file}

-- The reads deliver the content, in chunks that are not empty.
abbrev pub Delivers : Reads → List ℕ → Type 0
Delivers [] content = content ≡ []
Delivers (none ∷ reads) content = ⊥
Delivers (some [] ∷ reads) content = ⊥
Delivers (some (b ∷ bytes) ∷ reads) content =
    (rest : List ℕ) × (content ≡ b ∷ bytes ++ rest) × Delivers reads rest

as_i64_small : (n : ℕ) → n ≤ i64_max → as_i64 n ≡ pos n
unfolding as_i64
as_i64_small n h = rw (lt→ltb n 9223372036854775808 (omega arith)) refl

module _ (sha256_hex : List ℕ → Text) (open_file : Text → ℕ → Option Reads) where
  hash_reads-all :
      (path : Text) (reads : Reads) (content hashed : List ℕ) (size : ℕ)
      → Delivers reads content
      → size < u64_modulus
      → hash_reads sha256_hex open_file path reads hashed size
        ≡ ok (hashed ++ content, (size + length content) % u64_modulus)
  unfolding hash_reads
  hash_reads-all path [] content hashed size d bound =
      rw (d, append-nil) (ap (λ (n : ℕ). ok (hashed, n)) (sym (omega (arith, mod-eq_of_lt bound))))
  hash_reads-all path (none ∷ reads) content hashed size d bound = absurd d
  hash_reads-all path (some [] ∷ reads) content hashed size d bound = absurd d
  hash_reads-all path (some (b ∷ bytes) ∷ reads) content hashed size (rest, split, d) bound =
      hash_reads-all path reads rest (hashed ++ b ∷ bytes)
        ((size + length (b ∷ bytes)) % u64_modulus) d (omega arith)
      ∙ ap₂ (λ (l : List ℕ) (n : ℕ). ok (l, n))
          (append_assoc hashed (b ∷ bytes) rest ∙ ap (λ (l : List ℕ). hashed ++ l) (sym split))
          (omega (arith, ap length split, length-append bytes rest))

  -- A file that opens, and whose reads deliver its content in chunks that are not empty, is hashed
  -- whole, whatever the chunks are: its digest is the one of the content. Where the length of the
  -- content is not the one that the scan recorded, the file is refused. The content fits an `i64`,
  -- and SHA-256 gives 64 lowercase hexadecimal digits.
  pub hash_file-whole :
      (chunk_bytes : ℕ) (f : LocalFile) (reads : Reads) (content : List ℕ)
      → open_file f.absolute_path chunk_bytes ≡ some reads
      → Delivers reads content
      → length content ≤ i64_max
      → IsValid (for_bytes sha256_hex content)
      → hash_file sha256_hex open_file chunk_bytes f ≡ (
          if length content == f.metadata.len
          then ok (record {
            relative_path = f.relative_path;
            absolute_path = f.absolute_path;
            digest = for_bytes sha256_hex content;
            size_bytes = length content;
          })
          else err (invalid_option (codes "file_size")))
  unfolding hash_file for_bytes
  hash_file-whole chunk_bytes f reads content opened d bound valid =
      let small : length content < u64_modulus = omega arith in
      let hashed = hash_reads-all f.absolute_path reads content [] 0 d (omega arith) in
      let size : (0 + length content) % u64_modulus ≡ length content = omega arith in
      let signed : as_i64 (length content) ≡ pos (length content) =
        as_i64_small (length content) (omega arith) in
      let digest =
        (new-eq-ok (for_bytes sha256_hex content) (for_bytes sha256_hex content)).1 (refl, valid) in
      elim (Bool-cases (length content == f.metadata.len)) [
        | inl same ↦ rw (opened, hashed, size, same, signed, digest) refl
        | inr changed ↦ rw (opened, hashed, size, changed) refl
      ]
