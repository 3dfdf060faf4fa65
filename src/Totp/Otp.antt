-- ===== src/Totp/Otp.antt =====
-- `normalizeOtp`, `hotp` and `verifyTotp` of src/services/totp.js.
pub mod Digits
pub mod Window
use servidor_drive.Prelude.{
  ℕ, zero, suc, ◌+◌, ◌-◌, ◌*◌, ◌/◌, ◌%◌, ◌^◌, ◌≡◌, ◌<◌, Bool, true, false, ◌&&◌, Option, none, some,
  List, [], ◌∷◌, leb, ltb, ◌==◌, if◌then◌else◌, every, length, Result, ok, err, ◌>>=◌, Text,
  strip_spaces, is_digit, decimal, pad_start, text_eq, All,
}
use servidor_drive.Totp.Base32.{TotpError, base32_decode}

abbrev pub digits : ℕ
digits = 6

abbrev pub period_seconds : ℕ
period_seconds = 30

abbrev pub default_window : ℕ
default_window = 1

unfoldable pub normalize_otp : Text → Option Text
unfolding is_digit strip_spaces
normalize_otp value =
    let otp = strip_spaces value in if length otp == 6 && every is_digit otp then some otp else none

-- The eight bytes of `writeBigUInt64BE`.
abbrev pub byte_of : ℕ → ℕ → ℕ
byte_of counter k = counter / 2 ^ k % 256

abbrev pub moving_factor : ℕ → List ℕ
moving_factor counter =
    byte_of counter 56
    ∷ byte_of counter 48
    ∷ byte_of counter 40
    ∷ byte_of counter 32
    ∷ byte_of counter 24
    ∷ byte_of counter 16
    ∷ byte_of counter 8
    ∷ byte_of counter 0
    ∷ []

-- HMAC-SHA-1 of node:crypto: twenty bytes for any key and message.
pub record Hmac : Type 0 where
  pub hmac_sha1 : List ℕ → List ℕ → List ℕ
  pub digest_length : (key message : List ℕ) → length (hmac_sha1 key message) ≡ 20
  pub digest_bytes : (key message : List ℕ) → All (λ b. b < 256) (hmac_sha1 key message)

abbrev pub byte_at : List ℕ → ℕ → ℕ
byte_at [] i = 0
byte_at (b ∷ bs) zero = b
byte_at (b ∷ bs) (suc i) = byte_at bs i

-- The four bytes at the offset in the last one; their bits are disjoint, so `|` adds.
unfoldable pub truncated : List ℕ → ℕ
truncated digest =
    let offset = byte_at digest (length digest - 1) % 16 in
    byte_at digest offset % 128 * 2 ^ 24
    + byte_at digest (offset + 1) * 2 ^ 16
    + byte_at digest (offset + 2) * 2 ^ 8
    + byte_at digest (offset + 3)

unfoldable pub to_otp : ℕ → Text
unfolding decimal pad_start
to_otp binary = pad_start digits b'0' (decimal (binary % 10 ^ digits))

module _ (h : Hmac) where
  unfoldable pub hotp : Text → ℕ → Result TotpError Text
  unfolding truncated
  hotp secret counter = do
    key ← base32_decode secret
    ok (to_otp (truncated (h.hmac_sha1 key (moving_factor counter))))

  -- The loop over the steps from `current - window` on; a negative step is passed over.
  unfoldable pub verify_from : Text → Text → ℕ → ℕ → ℕ → ℕ → Result TotpError (Option ℕ)
  verify_from secret otp current window zero i = ok none
  verify_from secret otp current window (suc rounds) i =
      let rest = verify_from secret otp current window rounds (i + 1) in
      let here =
        (hotp secret (current + i - window) >>= λ expected.
        if text_eq expected otp then ok (some (current + i - window)) else rest) in
      if ltb (current + i) window then rest else here

  abbrev pub window_of : Option ℕ → ℕ
  window_of none = default_window
  window_of (some w) = if leb w 2 then w else default_window

  abbrev pub step_at : ℕ → ℕ
  step_at now = now / 1000 / period_seconds

  -- `now` in milliseconds, as the caller or `Date.now` gives it.
  unfoldable pub verify_totp : Text → Text → ℕ → Option ℕ → Result TotpError (Option ℕ)
  unfolding verify_from
  verify_totp secret value now window = elim (normalize_otp value) [
    | none ↦ ok none
    | some otp ↦
        verify_from secret otp (step_at now) (window_of window) (2 * window_of window + 1) 0
  ]
