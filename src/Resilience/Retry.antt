-- ===== src/Resilience/Retry.antt =====
-- How `retryWithBackoff` ends.
use servidor_drive.Prelude.{
  ℕ, zero, suc, ◌+◌, ◌≤◌, ◌<◌, ◌≡◌, ◌⊎◌, Bool, true, false, not, ◌||◌, List, ◌∷◌, length, leb,
  Result, ok, err, Result-cases, Bool-cases, inl, inr, All, arith,
}
use native.Mathlib.Decide.{ℕ_discrete}
use servidor_drive.Resilience.{
  retry_delay, RetryOptions, attempts_of, base_of, longest_of, bounded_integer, Given, no_integer,
  negative, natural, RetryError, failed, operation_cancelled, did_not_complete, after_error,
  retry_from, retry_with_backoff,
}

module _ {E A : Type 0} (operation : ℕ → Result E A) (aborted aborted_waiting : ℕ → Bool)
    (should_retry : E → ℕ → Bool) where
  -- This attempt was made, since the signal was not aborted before it, and failed with an error that is
  -- tried again.
  abbrev pub Failed : ℕ → Type 0
  Failed k = (aborted k ≡ false) × ((e : E) × (operation k ≡ err e) × (should_retry e k ≡ true))

  -- So did each attempt before this one, and the signal was not aborted in the wait after it.
  abbrev pub Tried : ℕ → Type 0
  Tried n = (k : ℕ) → 1 ≤ k → k < n → Failed k × (aborted_waiting k ≡ false)

  -- The attempt with which it ended, and why, after one wait for each attempt from `first` on before it. What
  -- is cancelled is so before an attempt, or in the wait after an attempt that failed, which counts too.
  abbrev pub Ended : ℕ → ℕ → Result (RetryError E) A → List ℕ → Type 0
  Ended first last (ok a) waits =
      (n : ℕ) × (n ≡ first + length waits)
      × (n ≤ last)
      × Tried n
      × (aborted n ≡ false)
      × (operation n ≡ ok a)
  Ended first last (err (failed e)) waits =
      (n : ℕ) × (n ≡ first + length waits)
      × (n ≤ last)
      × Tried n
      × (aborted n ≡ false)
      × (operation n ≡ err e)
      × ((n ≡ last) ⊎ (should_retry e n ≡ false))
  Ended first last (err operation_cancelled) waits =
      (n : ℕ) × (n ≤ last)
      × Tried n
      × (((aborted n ≡ true) × (n ≡ first + length waits))
          ⊎ (Failed n × (aborted_waiting n ≡ true) × (n < last) × (n + 1 ≡ first + length waits)))
  Ended first last (err did_not_complete) waits = ⊥

  earlier :
      (first last delay : ℕ) (answer : Result (RetryError E) A) (waits : List ℕ)
      → Ended (first + 1) last answer waits
      → Ended first last answer (delay ∷ waits)
  earlier first last delay (ok a) waits (n, e, l, t, g, o) = (n, omega arith, l, t, g, o)
  earlier first last delay (err (failed x)) waits (n, e, l, t, g, o, w) =
      (n, omega arith, l, t, g, o, w)
  earlier first last delay (err operation_cancelled) waits (n, l, t, inl (a, e)) =
      (n, l, t, inl (a, omega arith))
  earlier first last delay (err operation_cancelled) waits (n, l, t, inr (f, a, b, e)) =
      (n, l, t, inr (f, a, b, omega arith))
  earlier first last delay (err did_not_complete) waits h = absurd h

  Tried-next : (n : ℕ) → Tried n → Failed n → aborted_waiting n ≡ false → Tried (n + 1)
  Tried-next n t f w k lo hi = elim (ℕ_discrete k n) [
    | yes p ↦ rw p (f, w)
    | no q ↦ t k lo (omega arith)
  ]

  module _ (last base_delay_ms max_delay_ms : ℕ) where
    abbrev run : ℕ → ℕ → Result (RetryError E) A × List ℕ
    run = retry_from operation aborted aborted_waiting should_retry last base_delay_ms max_delay_ms

    abbrev next : ℕ → E → Result (RetryError E) A × List ℕ → Result (RetryError E) A × List ℕ
    next =
        after_error operation aborted aborted_waiting should_retry last base_delay_ms max_delay_ms

    abbrev Good : ℕ → Result (RetryError E) A × List ℕ → Type 0
    Good first (answer, waits) = Ended first last answer waits × All (λ w. w ≤ max_delay_ms) waits

    delay_bounded : (n : ℕ) → retry_delay n base_delay_ms max_delay_ms ≤ max_delay_ms
    unfolding retry_delay
    delay_bounded n = omega arith

    last_or_final :
        (n : ℕ) (e : E)
        → (leb last n || not (should_retry e n)) ≡ true
        → n ≤ last
        → (n ≡ last) ⊎ (should_retry e n ≡ false)
    last_or_final n e h l = elim (Bool-cases (should_retry e n)) [
      | inl r ↦ inl (ground arith)
      | inr f ↦ inr f
    ]

    after_error-Good :
        (n : ℕ) (e : E) (rest : Result (RetryError E) A × List ℕ)
        → n ≤ last
        → Tried n
        → aborted n ≡ false
        → operation n ≡ err e
        → (n < last → Tried (n + 1) → Good (n + 1) rest)
        → Good n (next n e rest)
    unfolding after_error
    after_error-Good n e rest l t g o k = elim (Bool-cases (leb last n || not (should_retry e n))) [
      | inl stop ↦ rw stop ((n, omega arith, l, t, g, o, last_or_final n e stop l), tt)
      | inr more ↦
          let failed_now : Failed n = (g, (e, o, ground arith)) in
          elim (Bool-cases (aborted_waiting n)) [
            | inl a ↦ rw more (
                rw a (
                  (n, l, t, inr (failed_now, a, ground arith, omega arith)),
                  (delay_bounded n, tt),
                ))
            | inr go ↦
                let (ended, bounded) = k (ground arith) (Tried-next n t failed_now go) in
                rw more (
                  rw go (
                    earlier n last (retry_delay n base_delay_ms max_delay_ms) rest.0 rest.1 ended,
                    (delay_bounded n, bounded),
                  ))
          ]
    ]

    run-Good : (rounds n : ℕ) → n + rounds ≡ last + 1 → n ≤ last → Tried n → Good n (run rounds n)
    unfolding retry_from
    run-Good zero n e l t = absurd (omega arith)
    run-Good (suc rounds) n e l t = elim (Bool-cases (aborted n)) [
      | inl a ↦ rw a ((n, l, t, inl (a, omega arith)), tt)
      | inr go ↦ elim (Result-cases (operation n)) [
        | inr (x, o) ↦ rw go (rw o ((n, omega arith, l, t, go, o), tt))
        | inl (x, o) ↦ rw go (
            rw o (
              after_error-Good n x (run rounds (n + 1)) l t go o
                (λ below tried. run-Good rounds (n + 1) (omega arith) (omega arith) tried)))
      ]
    ]

attempts_bounded :
    (given : Given) → (1 ≤ bounded_integer given 3 1 10) × (bounded_integer given 3 1 10 ≤ 10)
unfolding bounded_integer
attempts_bounded no_integer = (omega arith, omega arith)
attempts_bounded negative = (omega arith, omega arith)
attempts_bounded (natural n) = (omega arith, omega arith)

module _ {E A : Type 0} (operation : ℕ → Result E A) (aborted aborted_waiting : ℕ → Bool)
    (should_retry : E → ℕ → Bool) where
  -- For any options it makes at most ten attempts and always ends: with the first success, with the error
  -- of the last attempt or one that is not tried again, or cancelled, before an attempt or in the wait after
  -- one that failed. No attempt is made when the signal is aborted before it or in the wait before it; all
  -- attempts but the last failed with an error that is tried again, there was one wait after each, a wait
  -- that is cut short included, and no wait is longer than the bound.
  pub retry_with_backoff-Ended :
      (o : RetryOptions)
      → let (answer, waits) = retry_with_backoff operation aborted aborted_waiting should_retry o in
        Ended operation aborted aborted_waiting should_retry 1 (attempts_of o) answer waits
        × All (λ w. w ≤ longest_of o) waits
        × (attempts_of o ≤ 10)
  unfolding retry_with_backoff
  retry_with_backoff-Ended o =
      let (some_attempt, few) = attempts_bounded o.max_attempts in
      let (ended, bounded) =
        run-Good operation aborted aborted_waiting should_retry (attempts_of o) (base_of o)
          (longest_of o) (attempts_of o) 1 (omega arith) some_attempt
          (λ k lo hi. absurd (omega arith)) in
      (ended, bounded, few)
