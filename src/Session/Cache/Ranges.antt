-- ===== src/Session/Cache/Ranges.antt =====
-- crates/rfs-common/src/session/cache.rs: `read_range` beside `read_blob`.
use remotefs.Base.{
  ℕ, zero, suc, ◌-◌, min, ◌≡◌, refl, ap, sym, ◌∙◌, Bool, List, [], ◌∷◌, ◌++◌, ◌↔◌, Result, ok, err,
  arith, length, length-take, length-drop, take, drop, map_ok, subst,
}
use remotefs.Base.Text.{Text}
use remotefs.Digest.{Digest}
use remotefs.Session.Types.{SessionError}
use remotefs.Session.Cache.{
  Files, RemoteStream, read_blob, read_cached_blob, read_range, file_range, read_file_range,
}

take-drop : (n : ℕ) (xs : List ℕ) → take n xs ++ drop n xs ≡ xs
take-drop zero xs = refl
take-drop (suc n) [] = refl
take-drop (suc n) (x ∷ xs) = ap (λ (l : List ℕ). x ∷ l) (take-drop n xs)

-- The bytes stand in the content at the offset, and are as many as were asked for and are there.
abbrev pub IsRange : List ℕ → ℕ → ℕ → List ℕ → Type 0
IsRange content offset size bytes =
    (before : List ℕ) × (after : List ℕ) × (content ≡ before ++ (bytes ++ after))
    × (length before ≡ min offset (length content))
    × (length bytes ≡ min size (length content - offset))

append-take-drop :
    (content : List ℕ) (offset k : ℕ)
    → content
      ≡ take offset content ++ (take k (drop offset content) ++ drop k (drop offset content))
append-take-drop content offset k = sym (
    ap (λ (l : List ℕ). take offset content ++ l) (take-drop k (drop offset content))
    ∙ take-drop offset content)

file_range-IsRange :
    (content : List ℕ) (offset size : ℕ)
    → IsRange content offset size (file_range content offset size)
unfolding file_range
file_range-IsRange content offset size =
    let k = min (length content - offset) size in
    let rest = drop offset content in
    (
      take offset content,
      drop k rest,
      append-take-drop content offset k,
      length-take offset content,
      omega (arith, length-take k rest, length-drop offset content),
    )

-- What becomes of a whole blob when the range of it is taken.
ranged : ℕ → ℕ → List ℕ × Bool → List ℕ × Bool
ranged offset size whole = (file_range whole.0 offset size, whole.1)

ranged-err :
    (offset size : ℕ) (r : Result SessionError (List ℕ × Bool)) (e : SessionError)
    → (map_ok (ranged offset size) r ≡ err e) ↔ (r ≡ err e)
ranged-err offset size (ok whole) e = (λ h. cc, λ h. cc)
ranged-err offset size (err d) e = (λ h. ground arith, λ h. ground arith)

ranged-ok :
    (offset size : ℕ) (r : Result SessionError (List ℕ × Bool)) (bytes : List ℕ) (downloaded : Bool)
    → map_ok (ranged offset size) r ≡ ok (bytes, downloaded)
    → (content : List ℕ) × (r ≡ ok (content, downloaded)) × IsRange content offset size bytes
unfolding ranged
ranged-ok offset size (ok (content, flag)) bytes downloaded h =
    let same : file_range content offset size ≡ bytes = ground arith in
    let flags : flag ≡ downloaded = ground arith in
    (
      content,
      ap (λ (b : Bool). ok (content, b)) flags,
      subst (IsRange content offset size) same (file_range-IsRange content offset size),
    )
ranged-ok offset size (err d) bytes downloaded h = cc

module _ (sha256_hex : List ℕ → Text) (stream_blob : Digest → RemoteStream) where
  read_range-ranged :
      (d : Digest) (offset size : ℕ) (files : Files)
      → read_range sha256_hex stream_blob d offset size files ≡ (
        map_ok (ranged offset size) (read_blob sha256_hex stream_blob d files).0,
        (read_blob sha256_hex stream_blob d files).1,
      )
  unfolding read_range read_blob read_cached_blob read_file_range ranged
  read_range-ranged d offset size files = ground arith

  -- `read_range` has the effect of `read_blob` on the cache and fails exactly as it does. The bytes
  -- that it returns stand in those that `read_blob` returns, at the offset, and are as many as the size
  -- or, where that is less, as follow the offset.
  pub read_range-IsRange :
      (d : Digest) (offset size : ℕ) (files : Files)
      → let range = read_range sha256_hex stream_blob d offset size files in
        let whole = read_blob sha256_hex stream_blob d files in
        (range.1 ≡ whole.1)
        × ((e : SessionError) → (range.0 ≡ err e) ↔ (whole.0 ≡ err e))
        × ((bytes : List ℕ) (downloaded : Bool)
            → range.0 ≡ ok (bytes, downloaded)
            → (content : List ℕ) × (whole.0 ≡ ok (content, downloaded))
              × IsRange content offset size bytes)
  read_range-IsRange d offset size files =
      let whole = (read_blob sha256_hex stream_blob d files).0 in
      rw (read_range-ranged d offset size files) (
        refl,
        λ e. ranged-err offset size whole e,
        λ bytes downloaded h. ranged-ok offset size whole bytes downloaded h,
      )
