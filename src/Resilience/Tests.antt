-- ===== src/Resilience/Tests.antt =====
-- Runs of the retries and the provider codes, and the theorems at concrete inputs.
use servidor_drive.Prelude.{
  ℕ, ◌≡◌, ◌≤◌, refl, Bool, true, false, [], ◌∷◌, codes, Text, ltb, if◌then◌else◌, Result, ok, err,
  All, none, text_eq,
}
use servidor_drive.Prelude.TextMaps.{TextMap, lookup}
use servidor_drive.Resilience.{
  ProviderError, safe_provider_code, is_retryable, RetryOptions, no_integer, natural, failed,
  operation_cancelled, retry_with_backoff, attempts_of, longest_of, Run,
}
use servidor_drive.Resilience.Retry.{Ended, retry_with_backoff-Ended}

abbrev timeout : ProviderError
timeout = record { code = codes "X"; name = codes "ConnectTimeoutError" }

abbrev third_time : ℕ → Result ProviderError Text
third_time n = if ltb n 3 then err timeout else ok (codes "yes")

abbrev never : ℕ → Bool
never n = false

abbrev retryable : ProviderError → ℕ → Bool
retryable e n = is_retryable e

abbrev options : RetryOptions
options = record {
  max_attempts = no_integer;
  base_delay_ms = natural 100;
  max_delay_ms = natural 150;
}

retry_tests :
    (retry_with_backoff third_time never never retryable options
      ≡ (ok (codes "yes"), 100 ∷ 150 ∷ []))
    × (retry_with_backoff third_time never never retryable
          (record options { max_attempts = natural 2 })
        ≡ (err (failed timeout), 100 ∷ []))
    × (retry_with_backoff third_time never (λ n. true) retryable options
        ≡ (err operation_cancelled, 100 ∷ []))
    × (safe_provider_code timeout ≡ codes "provider_timeout")
    × (safe_provider_code (record { code = codes "EACCES"; name = [] }) ≡ codes "provider_error")
unfolding retry_with_backoff safe_provider_code is_retryable text_eq
retry_tests = (refl, refl, refl, refl, refl)

retry_with_backoff-Ended_example :
    Ended third_time never never retryable 1
      (attempts_of options)
      (retry_with_backoff third_time never never retryable options).0
      (retry_with_backoff third_time never never retryable options).1
    × All
        (λ w. w ≤ longest_of options)
        (retry_with_backoff third_time never never retryable options).1
    × (attempts_of options ≤ 10)
retry_with_backoff-Ended_example = retry_with_backoff-Ended third_time never never retryable options

abbrev empty_store : TextMap (Run ℕ)
empty_store = []

nothing_there : lookup (codes "k") empty_store ≡ none
unfolding lookup
nothing_there = refl
