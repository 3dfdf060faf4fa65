-- ===== src/Totp/Otp/Digits.antt =====
-- The text of a one-time password: six digits that spell the truncated number.
use servidor_drive.Prelude.{
  ℕ, zero, suc, ◌+◌, ◌-◌, ◌%◌, ◌<◌, ◌≡◌, refl, ◌∙◌, true, some, [], ◌∷◌, ◌++◌, length, every, Text,
  is_digit, decimal_from, repeat, arith, strip_spaces,
}
use servidor_drive.Prelude.Decimal.{
  spelled, Fits, is_digit-add, decimal_from-digits, spelled-decimal_from, length-decimal_from,
}
use servidor_drive.Totp.Otp.{to_otp, normalize_otp}

every-repeat :
    (n : ℕ) (s : Text) → every is_digit s ≡ true → every is_digit (repeat n b'0' ++ s) ≡ true
every-repeat zero s h = h
every-repeat (suc n) s h = rw (is_digit-add 0 (omega arith)) (every-repeat n s h)

length-repeat : (n : ℕ) (s : Text) → length (repeat n b'0' ++ s) ≡ n + length s
length-repeat zero s = omega arith
length-repeat (suc n) s = omega (arith, length-repeat n s)

spelled-repeat : (n : ℕ) (s : Text) → spelled 0 (repeat n b'0' ++ s) ≡ spelled 0 s
spelled-repeat zero s = refl
spelled-repeat (suc n) s = spelled-repeat n s

Fits-six : (n : ℕ) → n < 1000000 → Fits 5 n
Fits-six n h = omega arith

-- A one-time password is six decimal digits, which spell the truncated number modulo 10 ^ 6.
pub to_otp-digits :
    (binary : ℕ)
    → (length (to_otp binary) ≡ 6)
      × (every is_digit (to_otp binary) ≡ true)
      × (spelled 0 (to_otp binary) ≡ binary % 1000000)
unfolding to_otp
to_otp-digits binary =
    let n : ℕ = binary % 1000000 in
    let text : Text = decimal_from 20 n [] in
    (
      length-repeat (6 - length text) text
          ∙ omega (arith, length-decimal_from 5 20 n [] (Fits-six n (omega arith)) (omega arith)),
      every-repeat (6 - length text) text (decimal_from-digits 20 n [] refl),
      spelled-repeat (6 - length text) text
          ∙ spelled-decimal_from 5 20 n [] (Fits-six n (omega arith)) (omega arith),
    )

strip_spaces-digits : (s : Text) → every is_digit s ≡ true → strip_spaces s ≡ s
unfolding strip_spaces is_digit
strip_spaces-digits [] h = refl
strip_spaces-digits (c ∷ cs) h = ground (arith, strip_spaces-digits cs)

-- What the server computes as a password is accepted as the text of one.
pub normalize_otp-to_otp : (binary : ℕ) → normalize_otp (to_otp binary) ≡ some (to_otp binary)
unfolding normalize_otp
normalize_otp-to_otp binary =
    let (six, all_digits, _) = to_otp-digits binary in
    rw (strip_spaces-digits (to_otp binary) all_digits) (rw six (rw all_digits))
