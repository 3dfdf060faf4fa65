-- ===== src/Resilience.antt =====
-- src/services/deploymentResilience.js: the codes of provider errors, and operations that are tried again
-- or run once.
pub mod Retry
pub mod Codes
pub mod Once
pub mod Tests
use servidor_drive.Prelude.{
  ℕ, zero, suc, ◌+◌, ◌-◌, ◌*◌, ◌^◌, min, max, Bool, true, false, not, ◌&&◌, ◌||◌, Option, none,
  some, List, [], ◌∷◌, leb, ltb, if◌then◌else◌, codes, Text, text_eq, text_in, is_nonempty, Result,
  ok, err,
}
use servidor_drive.Prelude.TextMaps.{TextMap, lookup, insert, discard}
use servidor_drive.Paths.{ascii_lower}

abbrev pub safe_provider_codes : List Text
safe_provider_codes =
    codes "configuration"
    ∷ codes "unsupported_provider"
    ∷ codes "invalid_path"
    ∷ codes "invalid_prefix"
    ∷ codes "foreign_prefix"
    ∷ codes "invalid_inventory_key"
    ∷ codes "invalid_inventory_metadata"
    ∷ codes "invalid_inventory_identity"
    ∷ codes "outside_configured_parent"
    ∷ codes "duplicate_inventory_identity"
    ∷ codes "partial_delete"
    ∷ codes "provider_timeout"
    ∷ codes "provider_cancelled"
    ∷ codes "provider_error"
    ∷ codes "not_found"
    ∷ codes "missing_object"
    ∷ []

-- What the code reads of an error; a property that is missing is the empty text.
pub record ProviderError : Type 0 where
  pub code : Text
  pub name : Text

abbrev pub starts_with : Text → Text → Bool
starts_with [] s = true
starts_with (c ∷ cs) [] = false
starts_with (c ∷ cs) (d ∷ ds) = text_eq (c ∷ []) (d ∷ []) && starts_with cs ds

abbrev pub contains : Text → Text → Bool
contains word [] = starts_with word []
contains word (c ∷ cs) = starts_with word (c ∷ cs) || contains word cs

abbrev pub cancelled_codes : List Text
cancelled_codes = codes "AbortError" ∷ codes "ABORT_ERR" ∷ codes "ECONNABORTED" ∷ []

abbrev pub timeout_codes : List Text
timeout_codes = codes "TimeoutError" ∷ codes "ETIMEDOUT" ∷ codes "ESOCKETTIMEDOUT" ∷ []

unfoldable pub safe_provider_code : ProviderError → Text
unfolding ascii_lower
safe_provider_code e =
    if text_in e.code cancelled_codes || text_eq e.name (codes "AbortError")
    then codes "provider_cancelled"
    else if text_in e.code timeout_codes || contains (codes "timeout") (ascii_lower e.name)
    then codes "provider_timeout"
    else if text_in e.code safe_provider_codes
    then e.code
    else codes "provider_error"

abbrev pub retryable_codes : List Text
retryable_codes = codes "provider_timeout" ∷ codes "provider_error" ∷ codes "partial_delete" ∷ []

-- `normalizeProviderError(error).retryable`
unfoldable pub is_retryable : ProviderError → Bool
unfolding safe_provider_code
is_retryable e = text_in (safe_provider_code e) retryable_codes

-- An option as it is given: no safe integer, a negative one, or a natural number.
pub data Given : Type 0 where
  no_integer negative : Given
  natural : ℕ → Given

unfoldable pub bounded_integer : Given → ℕ → ℕ → ℕ → ℕ
bounded_integer no_integer fallback minimum maximum = fallback
bounded_integer negative fallback minimum maximum = minimum
bounded_integer (natural n) fallback minimum maximum = max minimum (min maximum n)

unfoldable pub retry_delay : ℕ → ℕ → ℕ → ℕ
retry_delay attempt base_delay_ms max_delay_ms =
    min max_delay_ms (base_delay_ms * 2 ^ (attempt - 1))

pub record RetryOptions : Type 0 where
  pub max_attempts : Given
  pub base_delay_ms : Given
  pub max_delay_ms : Given

abbrev pub attempts_of : RetryOptions → ℕ
attempts_of o = bounded_integer o.max_attempts 3 1 10

abbrev pub base_of : RetryOptions → ℕ
base_of o = bounded_integer o.base_delay_ms 100 0 60000

abbrev pub longest_of : RetryOptions → ℕ
longest_of o = bounded_integer o.max_delay_ms 60000 (base_of o) 60000

-- How it ends: with the operation's last error, cancelled, or past the end of the loop.
pub data RetryError (E : Type 0) : Type 0 where
  failed : E → RetryError E
  operation_cancelled did_not_complete : RetryError E

-- The operation's answer at each attempt, whether the signal is aborted before it and during the wait
-- after it, and which errors are tried again. The answer comes with the waits, in milliseconds.
module _ {E A : Type 0} (operation : ℕ → Result E A) (aborted aborted_waiting : ℕ → Bool)
    (should_retry : E → ℕ → Bool) (max_attempts base_delay_ms max_delay_ms : ℕ) where
  abbrev pub waited : ℕ → Result (RetryError E) A × List ℕ → Result (RetryError E) A × List ℕ
  waited delay (answer, waits) = (answer, delay ∷ waits)

  -- What follows an error of this attempt; `rest` is the next round of the loop.
  unfoldable pub after_error :
      ℕ → E → Result (RetryError E) A × List ℕ → Result (RetryError E) A × List ℕ
  unfolding retry_delay
  after_error attempt e rest =
      if leb max_attempts attempt || not (should_retry e attempt)
      then (err (failed e), [])
      else if aborted_waiting attempt
      then (err operation_cancelled, retry_delay attempt base_delay_ms max_delay_ms ∷ [])
      else waited (retry_delay attempt base_delay_ms max_delay_ms) rest

  unfoldable pub retry_from : ℕ → ℕ → Result (RetryError E) A × List ℕ
  unfolding after_error
  retry_from zero attempt = (err did_not_complete, [])
  retry_from (suc rounds) attempt =
      let rest = retry_from rounds (attempt + 1) in
      if aborted attempt
      then (err operation_cancelled, [])
      else elim (operation attempt) [ ok a ↦ (ok a, []) | err e ↦ after_error attempt e rest ]

module _ {E A : Type 0} (operation : ℕ → Result E A) (aborted aborted_waiting : ℕ → Bool)
    (should_retry : E → ℕ → Bool) where
  unfoldable pub retry_with_backoff : RetryOptions → Result (RetryError E) A × List ℕ
  unfolding retry_from bounded_integer
  retry_with_backoff o =
      retry_from operation aborted aborted_waiting should_retry (attempts_of o) (base_of o)
        (longest_of o) (attempts_of o) 1

-- What the store of `runIdempotent` keeps for a key: the promise of a run that goes on, or of one that
-- succeeded. A run that fails is taken out.
pub data Run (A : Type 0) : Type 0 where
  going : Run A
  done : A → Run A

pub data Started (A : Type 0) : Type 0 where
  key_required : Started A
  shared : Run A → Started A
  started : Started A

module _ {A : Type 0} where
  -- The call: it shares what is there, or starts a run.
  unfoldable pub start_run : Text → TextMap (Run A) → Started A × TextMap (Run A)
  unfolding lookup insert
  start_run key store =
      if is_nonempty key
      then elim (lookup key store) [
        | some run ↦ (shared run, store)
        | none ↦ (started, insert key going store)
      ]
      else (key_required, store)

  -- The end of a run that was started.
  unfoldable pub end_run : {E : Type 0} → Text → Result E A → TextMap (Run A) → TextMap (Run A)
  unfolding insert discard
  end_run key (ok a) store = insert key (done a) store
  end_run key (err e) store = discard key store
