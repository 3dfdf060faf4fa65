-- ===== src/Resilience/Codes.antt =====
-- The codes that leave the server.
use servidor_drive.Prelude.{
  ◌≡◌, refl, Bool, true, false, ◌||◌, List, if◌then◌else◌, codes, Text, text_eq, text_in,
  Bool-cases, inl, inr,
}
use servidor_drive.Resilience.{
  ProviderError, safe_provider_code, safe_provider_codes, cancelled_codes, timeout_codes, contains,
}
use servidor_drive.Paths.{ascii_lower}

module _ (known : List Text) where
  chosen_known :
      (a b : Bool) (x y c z : Text)
      → text_in x known ≡ true
      → text_in y known ≡ true
      → text_in z known ≡ true
      → text_in (if a then x else if b then y else if text_in c known then c else z) known ≡ true
  chosen_known true b x y c z hx hy hz = hx
  chosen_known false true x y c z hx hy hz = hy
  chosen_known false false x y c z hx hy hz = elim (Bool-cases (text_in c known)) [
    | inl t ↦ rw t t
    | inr f ↦ rw f hz
  ]

-- Whatever the error is, the code that is passed on is one of the known ones.
pub safe_provider_code-known :
    (e : ProviderError) → text_in (safe_provider_code e) safe_provider_codes ≡ true
unfolding safe_provider_code text_eq
safe_provider_code-known e =
    chosen_known safe_provider_codes
      (text_in e.code cancelled_codes || text_eq e.name (codes "AbortError"))
      (text_in e.code timeout_codes || contains (codes "timeout") (ascii_lower e.name))
      (codes "provider_cancelled") (codes "provider_timeout") e.code (codes "provider_error") refl
      refl refl
