-- ===== src/Api/Retry.antt =====
-- The retry loop of resources/js/api/cachedGet.ts.
use native.Mathlib.Nat.{add-zero}
use fleximo_oss.Base.{
  ap, ◌∙◌, ℕ, zero, suc, ◌+◌, ◌≤◌, ◌<◌, true, false, ◌≡◌, ◌⊎◌, refl, arith, inl, inr, Bool-cases,
  length,
}
use fleximo_oss.Api.{ApiResponse}
use fleximo_oss.Api.CachedGet.{is_final, Fetched, retry_from, fetch_with_retry}

module _ (answers : ℕ → ApiResponse) (jitter : ℕ → ℕ) (base : ℕ) where
  -- The loop stopped with the answer to its last request: that answer is final or no retry was
  -- left, every answer before it was neither, and it waited once between two requests.
  pub record IsFetch (attempt left : ℕ) (r : Fetched) : Type 0 where
    pub last : (k : ℕ) × (r.requests ≡ suc k) × (r.response ≡ answers (attempt + k))
    pub bound : r.requests ≤ suc left
    pub stopped : (is_final r.response ≡ true) ⊎ (r.requests ≡ suc left)
    pub earlier : (k : ℕ) → suc k < r.requests → is_final (answers (attempt + k)) ≡ false
    pub pauses : length r.waits + 1 ≡ r.requests

  earlier_answers :
      (attempt left : ℕ)
      → is_final (answers attempt) ≡ false
      → let n = (retry_from answers jitter base (suc attempt) left).requests in
        ((k : ℕ) → suc k < n → is_final (answers (suc attempt + k)) ≡ false)
        → (k : ℕ) → suc k < suc n
        → is_final (answers (attempt + k)) ≡ false
  earlier_answers attempt left again ih zero h = rw (add-zero attempt) again
  earlier_answers attempt left again ih (suc k) h =
      let place : attempt + suc k ≡ suc attempt + k = omega arith in rw place (ih k (omega arith))

  retry_from-IsFetch :
      (attempt left : ℕ) → IsFetch attempt left (retry_from answers jitter base attempt left)
  unfolding retry_from
  retry_from-IsFetch attempt zero = record {
    last = (0, refl, rw (add-zero attempt));
    bound = omega arith;
    stopped = inr refl;
    earlier = λ k h. absurd (omega arith);
    pauses = omega arith;
  }
  retry_from-IsFetch attempt (suc left) = elim (Bool-cases (is_final (answers attempt))) [
    | inl final ↦ rw final (record {
      last = (0, refl, rw (add-zero attempt));
      bound = omega arith;
      stopped = inl final;
      earlier = λ k h. absurd (omega arith);
      pauses = omega arith;
    })
    | inr again ↦
        let ih = retry_from-IsFetch (suc attempt) left in
        let (k, count, same) = ih.last in
        rw again (record {
          last = (suc k, ap suc count, same ∙ ap answers (omega arith));
          bound = omega (arith, ih.bound);
          stopped = elim ih.stopped [ inl f ↦ inl f | inr n ↦ inr (ap suc n) ];
          earlier = earlier_answers attempt left again ih.earlier;
          pauses = omega (arith, ih.pauses);
        })
  ]

  -- `fetchWithRetry` makes at least one request and at most one more than its retries, and returns
  -- the answer to the last one. That answer is final (a success, or an error that no retry would
  -- mend) unless the retries are used up; all answers before it were retryable errors; and there is
  -- one wait between each two requests.
  pub fetch_with_retry-IsFetch :
      (max_retries : ℕ) → IsFetch 0 max_retries (fetch_with_retry answers jitter max_retries base)
  unfolding fetch_with_retry
  fetch_with_retry-IsFetch max_retries = retry_from-IsFetch 0 max_retries
