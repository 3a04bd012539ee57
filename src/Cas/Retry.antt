-- ===== src/Cas/Retry.antt =====
-- crates/rfs-common/src/cas.rs: `retry_rpc`, its backoff, and which failures it retries.
use remotefs.Base.{is_some}
use remotefs.Base.{ℕ, zero, suc, ◌+◌, ◌≤◌, ◌<◌, ◌≡◌, refl, ◌⊎◌, inl, inr, Option, none, some}
use remotefs.Base.{Bool, true, false, ◌&&◌, ◌||◌, [], ◌∷◌, map, Result, ok, err, arith}
use remotefs.Base.{
  if◌then◌else◌, ltb, leb, lt→ltb, ltb→lt, ◌==◌, nat_eq, Bool-cases, reject_if, ◌>>◌,
}
use remotefs.Base.Text.{Text, codes, strip_prefix}
use remotefs.Digest.{is_ascii_uppercase}

pub data Code : Type 0 where
  unavailable deadline_exceeded resource_exhausted aborted internal other : Code

pub record Status : Type 0 where
  pub code : Code
  pub message : Text

abbrev to_ascii_lowercase : Text → Text
to_ascii_lowercase text = map (λ c. if is_ascii_uppercase c then c + 32 else c) text

-- `str::contains`
unfoldable pub has_part : Text → Text → Bool
has_part part [] = is_some (strip_prefix part [])
has_part part (c ∷ text) = is_some (strip_prefix part (c ∷ text)) || has_part part text

abbrev is_transient : Code → Bool
is_transient unavailable = true
is_transient deadline_exceeded = true
is_transient resource_exhausted = true
is_transient aborted = true
is_transient _ = false

abbrev is_internal : Code → Bool
is_internal internal = true
is_internal _ = false

unfoldable pub is_retryable_status : Status → Bool
is_retryable_status status =
    is_transient status.code
    || (is_internal status.code && has_part (codes "reset") (to_ascii_lowercase status.message))

-- How one attempt ends.
pub data Outcome (T : Type 0) : Type 0 where
  response : T → Outcome T
  failed : Status → Outcome T
  timed_out : Outcome T

-- `CasError::Rpc`
pub record RpcError : Type 0 where
  pub attempts : ℕ
  pub status : Status

abbrev pub attempt_timed_out : Status
attempt_timed_out = record {
  code = deadline_exceeded;
  message = codes "operation attempt timed out";
}

abbrev pub max_retry_attempts : ℕ
max_retry_attempts = 5

-- `validate_retry_attempts`
unfoldable pub validate_retry_attempts : ℕ → Result ℕ (Unit {0})
validate_retry_attempts max_attempts = do
  reject_if (max_attempts == 0) max_attempts
  reject_if (ltb max_retry_attempts max_attempts) max_attempts

-- In milliseconds.
unfoldable pub retry_backoff : ℕ → ℕ
retry_backoff attempt =
    if leb attempt 1 then 100 else if attempt == 2 then 250 else if attempt == 3 then 500 else 1000

module _ {T : Type 0} (max_attempts : ℕ) (op : ℕ → Outcome T) where
  -- The loop, from an attempt on; each turn takes one unit of fuel.
  unfoldable pub retry_from : ℕ → ℕ → Option (Result RpcError T)
  retry_from zero attempt = none
  retry_from (suc fuel) attempt =
      let again = retry_from fuel (attempt + 1) in
      elim (op attempt) [
        | response t ↦ some (ok t)
        | failed status ↦
            if ltb attempt max_attempts && is_retryable_status status
            then again
            else some (err (record { attempts = attempt; status = status }))
        | timed_out ↦
            if ltb attempt max_attempts
            then again
            else some (err (record { attempts = attempt; status = attempt_timed_out }))
      ]

  unfoldable pub retry_rpc : Option (Result RpcError T)
  retry_rpc = retry_from max_attempts 1

module _ {T : Type 0} where
  abbrev pub is_retried : Outcome T → Bool
  is_retried (response t) = false
  is_retried (failed status) = is_retryable_status status
  is_retried timed_out = true

  abbrev pub settled : ℕ → Outcome T → Result RpcError T
  settled attempt (response t) = ok t
  settled attempt (failed status) = err (record { attempts = attempt; status = status })
  settled attempt timed_out = err (record { attempts = attempt; status = attempt_timed_out })

module _ {T : Type 0} (max_attempts : ℕ) (op : ℕ → Outcome T) where
  retry_step :
      (fuel attempt : ℕ)
      → retry_from max_attempts op (suc fuel) attempt ≡ (
          if ltb attempt max_attempts && is_retried (op attempt)
          then retry_from max_attempts op fuel (attempt + 1)
          else some (settled attempt (op attempt)))
  unfolding retry_from
  retry_step fuel attempt = ground arith

  retry_from-settled :
      (fuel attempt k : ℕ)
      → attempt ≤ k
      → k ≤ max_attempts
      → k < fuel + attempt
      → ((i : ℕ) → attempt ≤ i → i < k → is_retried (op i) ≡ true)
      → (k ≡ max_attempts) ⊎ (is_retried (op k) ≡ false)
      → retry_from max_attempts op fuel attempt ≡ some (settled k (op k))
  retry_from-settled zero attempt k from most enough retried last = absurd (omega arith)
  retry_from-settled (suc fuel) attempt k from most enough retried last =
      elim (Bool-cases (ltb attempt k)) [
        | inl earlier ↦
            let lower = ltb→lt attempt k earlier in
            rw
              (
                retry_step fuel attempt,
                retried attempt (omega arith) lower,
                lt→ltb attempt max_attempts (omega arith),
              )
              (retry_from-settled fuel (attempt + 1) k (omega arith) most (omega arith)
                (λ i from_next. retried i (omega arith)) last)
        | inr here ↦
            let same : attempt ≡ k = ground arith in
            rw (retry_step fuel attempt, same)
              (elim last [ inl limit ↦ ground arith | inr final ↦ ground arith ])
      ]

  retry_from-returns :
      (fuel attempt : ℕ)
      → attempt ≤ max_attempts
      → max_attempts < fuel + attempt
      → (r : Result RpcError T) × (retry_from max_attempts op fuel attempt ≡ some r)
  retry_from-returns zero attempt from enough = absurd (omega arith)
  retry_from-returns (suc fuel) attempt from enough =
      elim (Bool-cases (ltb attempt max_attempts && is_retried (op attempt))) [
        | inl again ↦
            let (r, returned) =
              retry_from-returns fuel (attempt + 1) (ground (arith, ltb→lt attempt max_attempts))
                (omega arith) in
            (r, rw (retry_step fuel attempt, again) returned)
        | inr stop ↦ (settled attempt (op attempt), rw (retry_step fuel attempt, stop) refl)
      ]

  -- `retry_rpc` returns, for every number of attempts that `validate_retry_attempts` lets through and
  -- whatever the attempts come to.
  pub retry_rpc-returns :
      validate_retry_attempts max_attempts ≡ ok tt
      → (r : Result RpcError T) × (retry_rpc max_attempts op ≡ some r)
  unfolding retry_rpc validate_retry_attempts
  retry_rpc-returns valid = retry_from-returns max_attempts 1 (ground arith) (omega arith)

  -- `retry_rpc` settles at the first attempt that is not to be retried, or at the last one that is
  -- allowed, with that attempt's response or its failure and its number.
  pub retry_rpc-settled :
      (k : ℕ)
      → 1 ≤ k
      → k ≤ max_attempts
      → ((i : ℕ) → 1 ≤ i → i < k → is_retried (op i) ≡ true)
      → (k ≡ max_attempts) ⊎ (is_retried (op k) ≡ false)
      → retry_rpc max_attempts op ≡ some (settled k (op k))
  unfolding retry_rpc
  retry_rpc-settled k from most retried last =
      retry_from-settled max_attempts 1 k from most (omega arith) retried last
