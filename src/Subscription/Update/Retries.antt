-- ===== src/Subscription/Update/Retries.antt =====
-- The retries of `fetch_with_retry` in update.rs.
use v2ray_rs.Subscription.Fetch.{FetchError}
use v2ray_rs.Subscription.Update.{retry_from, fetch_with_retry}
use v2ray_rs.Base.{
  ℕ, zero, suc, ◌+◌, ◌-◌, ◌%◌, ◌^◌, ◌≤◌, ◌<◌, String, ◌≡◌, refl, ap, ◌∙◌, ◌⊎◌, inl, inr, Option,
  none, some, List, [], ◌∷◌, arith, ltb, ◌==◌, Bool-cases, all, Result, ok, err,
}

abbrev pub IsErr : Result FetchError String → Type 0
IsErr (ok c) = ⊥
IsErr (err e) = Unit

-- the delays after `n` failed attempts, the first of them being the given one
abbrev pub delays : ℕ → ℕ → List ℕ
delays attempt zero = []
delays attempt (suc n) = 2 ^ (attempt % 64) ∷ delays (attempt + 1) n

-- The attempts from the given one on: the first that succeeds gives the result, or all of them fail
-- and the error of the last is the result; between two attempts there is a delay.
pub data RetryOutcome (max_retries : ℕ) (fetch : ℕ → Result FetchError String) (attempt : ℕ)
    : Option (Result FetchError String) × List ℕ → Type 0 where
  succeeded :
      (k : ℕ)
      → attempt ≤ k
      → k ≤ max_retries
      → ((j : ℕ) → attempt ≤ j → j < k → IsErr (fetch j))
      → (content : String) → (fetch k ≡ ok content)
      → RetryOutcome max_retries fetch attempt (some (ok content), delays attempt (k - attempt))
  gave_up :
      ((j : ℕ) → attempt ≤ j → j ≤ max_retries → IsErr (fetch j))
      → (e : FetchError) → (fetch max_retries ≡ err e)
      → RetryOutcome max_retries fetch attempt
          (some (err e), delays attempt (max_retries - attempt))

module _ (max_retries : ℕ) (fetch : ℕ → Result FetchError String) where
  Result-cases :
      (r : Result FetchError String)
      → ((c : String) × (r ≡ ok c)) ⊎ ((e : FetchError) × (r ≡ err e))
  Result-cases (ok c) = inl (c, refl)
  Result-cases (err e) = inr (e, refl)

  also_first :
      (attempt j : ℕ)
      → IsErr (fetch attempt)
      → (attempt + 1 ≤ j → IsErr (fetch j))
      → attempt ≤ j
      → IsErr (fetch j)
  also_first attempt j b h le = elim (Bool-cases (attempt == j)) [
    | inl e ↦ let same : attempt ≡ j = ground arith in rw (← same) b
    | inr e ↦ h (ground arith)
  ]

  one_more :
      (attempt k : ℕ)
      → attempt + 1 ≤ k
      → delays attempt (k - attempt) ≡ 2 ^ (attempt % 64) ∷ delays (attempt + 1) (k - (attempt + 1))
  one_more attempt k h = let e : k - attempt ≡ suc (k - (attempt + 1)) = omega arith in rw e refl

  failed_first :
      (attempt : ℕ) (r : Option (Result FetchError String) × List ℕ)
      → IsErr (fetch attempt)
      → attempt < max_retries
      → RetryOutcome max_retries fetch (attempt + 1) r
      → RetryOutcome max_retries fetch attempt (r.0, 2 ^ (attempt % 64) ∷ r.1)
  failed_first attempt _ b h (succeeded k low high before content e) =
      rw (← one_more attempt k low) (
        succeeded k (omega arith) high (λ j a c. also_first attempt j b (λ d. before j d c) a)
          content e)
  failed_first attempt _ b h (gave_up all e q) =
      rw (← one_more attempt max_retries (omega arith))
        (gave_up (λ j a c. also_first attempt j b (λ d. all j d c) a) e q)

  outcome :
      (rounds attempt : ℕ) (last_error : Option FetchError)
      → rounds + attempt ≡ max_retries + 1
      → 0 < rounds
      → RetryOutcome max_retries fetch attempt
          (retry_from rounds attempt max_retries fetch last_error)
  unfolding retry_from
  outcome zero attempt last_error s h = absurd (omega arith)
  outcome (suc rounds) attempt last_error s h = elim (Result-cases (fetch attempt)) [
    | inl (c, e) ↦
        let none_yet : attempt - attempt ≡ 0 = omega arith in
        let r : RetryOutcome max_retries fetch attempt
            (some (ok c), delays attempt (attempt - attempt)) =
          succeeded attempt (omega arith) (omega arith) (λ j a b. absurd (omega arith)) c e in
        rw e (rw none_yet at r)
    | inr (x, e) ↦ elim (Bool-cases (ltb attempt max_retries)) [
      | inl more ↦
          let b : IsErr (fetch attempt) = rw e tt in
          let r =
            failed_first attempt (retry_from rounds (attempt + 1) max_retries fetch (some x)) b
              (ground arith) (outcome rounds (attempt + 1) (some x) (omega arith) (ground arith)) in
          rw (e, more) r
      | inr last ↦
          let done : rounds ≡ 0 = ground arith in
          let here : max_retries ≡ attempt = ground arith in
          let none_left : max_retries - attempt ≡ 0 = omega arith in
          let b : IsErr (fetch attempt) = rw e tt in
          let r : RetryOutcome max_retries fetch attempt
              (some (err x), delays attempt (max_retries - attempt)) =
            gave_up (λ j a c. also_first attempt j b (λ d. absurd (omega arith)) a) x
              (ap fetch here ∙ e) in
          rw (e, last, done) (rw none_left at r)
    ]
  ]

-- For any answers of the requests, `fetch_with_retry` never panics: its result is the first success
-- among at most `max_retries + 1` attempts, or the error of the last of them if all fail, with a
-- delay after each failed attempt but that one, doubled each time.
pub fetch_with_retry_lem :
    (fetch : ℕ → Result FetchError String) (max_retries : ℕ)
    → RetryOutcome max_retries fetch 0 (fetch_with_retry fetch max_retries)
unfolding fetch_with_retry
fetch_with_retry_lem fetch max_retries =
    outcome max_retries fetch (max_retries + 1) 0 none (omega arith) (omega arith)
