-- ===== src/Upload/Bounds.antt =====
-- crates/rfs-common/src/upload.rs: the bounds of the hashing stage.
use remotefs.Base.{ℕ, ◌*◌, ◌/◌, ◌≤◌, ◌≡◌, ok, false, min, arith, ltb, nat_eq}
use native.Mathlib.Nat.{le_trans, mul-div-le, le-div_iff_mul-le, mul-le-mul_left}
use remotefs.Upload.Types.{UploadOptions, validate_options, hash_chunk_bytes, hash_chunk_limit}

-- Options that pass have a worker, and a byte for each.
validate_options-enough :
    (options : UploadOptions)
    → validate_options options ≡ ok tt
    → (1 ≤ options.hash_workers) × (options.hash_workers ≤ options.in_flight_bytes)
unfolding validate_options
validate_options-enough options h = ground arith

min-le : (a b : ℕ) → (min a b ≤ a) × (min a b ≤ b) × (1 ≤ a → 1 ≤ b → 1 ≤ min a b)
min-le a b = ground arith

-- For options that pass `validate_options`, the buffers of all workers together fit the budget of
-- bytes in flight; each buffer holds at least one byte and at most `HASH_CHUNK_BYTES`.
hash_chunk_bytes_bounds :
    (options : UploadOptions)
    → validate_options options ≡ ok tt
    → (options.hash_workers * hash_chunk_bytes options ≤ options.in_flight_bytes)
      × (1 ≤ hash_chunk_bytes options)
      × (hash_chunk_bytes options ≤ hash_chunk_limit)
unfolding hash_chunk_bytes
hash_chunk_bytes_bounds options h =
    let (one, enough) = validate_options-enough options h in
    let share = options.in_flight_bytes / options.hash_workers in
    let positive : 1 ≤ options.in_flight_bytes / options.hash_workers =
      (le-div_iff_mul-le {k = options.hash_workers} {x = 1} (omega arith)).1 (omega arith) in
    let (least, fits, pos) = min-le hash_chunk_limit share in
    let rest : ltb share 1 ≡ false = ground arith in
    rw rest (
      le_trans (mul-le-mul_left options.hash_workers fits)
          (mul-div-le options.in_flight_bytes options.hash_workers),
      pos (omega arith) positive,
      least,
    )
