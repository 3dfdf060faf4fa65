-- ===== src/Totp/Tests.antt =====
-- Runs of the one-time passwords and of their policy, and the theorems at concrete inputs.
use servidor_drive.Prelude.{
  ℕ, ◌+◌, ◌≡◌, ◌≤◌, refl, true, none, some, List, [], ◌∷◌, codes, every, Text, ok, err, ltb, arith,
  split, strip_spaces, text_eq, to_lower_case, trim,
}
use servidor_drive.Totp.Base32.{
  invalid_secret, base32_encode, base32_decode, decode_from, is_base32, strip_padding,
  to_upper_case, upper,
}
use servidor_drive.Totp.Base32.RoundTrip.{AreBytes, base32_decode-base32_encode}
use servidor_drive.Totp.Otp.{Hmac, truncated, to_otp, hotp, normalize_otp, verify_totp}
use servidor_drive.Totp.Otp.Window.{verify_totp_sound, verify_totp_complete}
use servidor_drive.Totp.Policy.{
  Env, TotpPolicy, get_totp_policy, requested_mode, role_values, totp_policy_invalid,
}

-- The bytes of "12345678901234567890", the secret of RFC 4226.
abbrev rfc_secret : List ℕ
rfc_secret = codes "12345678901234567890"

AreBytes-of_every : (bytes : List ℕ) → every (λ b. ltb b 256) bytes ≡ true → AreBytes bytes
AreBytes-of_every [] h = tt
AreBytes-of_every (b ∷ bytes) h = (ground arith, AreBytes-of_every bytes (ground arith))

abbrev secret : Text
secret = codes "GEZDGNBVGY3TQOJQGEZDGNBVGY3TQOJQ"

-- The digest that RFC 4226 works its example with.
abbrev digest : List ℕ
digest =
    0x1f ∷ 0x86 ∷ 0x98 ∷ 0x69 ∷ 0x0e ∷ 0x02 ∷ 0xca ∷ 0x16 ∷ 0x61 ∷ 0x85 ∷ 0x50 ∷ 0xef ∷ 0x7f ∷ 0x19
    ∷ 0xda ∷ 0x8e ∷ 0x94 ∷ 0x5b ∷ 0x55 ∷ 0x5a ∷ []

abbrev hmac : Hmac
hmac = record {
  hmac_sha1 = λ key message. digest;
  digest_length = λ key message. refl;
  digest_bytes = λ key message. AreBytes-of_every digest refl;
}

rfc_tests :
    (base32_encode rfc_secret ≡ secret)
    × (base32_decode (codes "gezd gnbv gy3t qojq gezd gnbv gy3t qojq==") ≡ ok rfc_secret)
    × (base32_decode (codes "GEZDGNBV") ≡ err invalid_secret)
    × (base32_decode (codes "GEZDGNBVGY3TQOJQGEZDGNBVGY3TQOJ1") ≡ err invalid_secret)
    × (truncated digest ≡ 0x50ef7f19)
    × (hotp hmac secret 0 ≡ ok (codes "872921"))
unfolding base32_encode base32_decode truncated hotp to_otp to_upper_case strip_padding strip_spaces
    upper is_base32 decode_from
rfc_tests = (refl, refl, refl, refl, refl, refl)

verify_tests :
    (verify_totp hmac secret (codes "872 921") 59000 none ≡ ok (some 0))
    × (verify_totp hmac secret (codes "872921") 3000000 (some 2) ≡ ok (some 98))
    × (verify_totp hmac secret (codes "872922") 3000000 (some 2) ≡ ok none)
    × (verify_totp hmac secret (codes "87292") 3000000 (some 2) ≡ ok none)
    × (verify_totp hmac (codes "A") (codes "872921") 3000000 (some 2) ≡ err invalid_secret)
unfolding verify_totp normalize_otp hotp base32_decode to_upper_case strip_padding upper is_base32
    decode_from text_eq to_otp
verify_tests = (refl, refl, refl, refl, refl)

base32_decode-base32_encode_example : base32_decode (base32_encode rfc_secret) ≡ ok rfc_secret
base32_decode-base32_encode_example =
    base32_decode-base32_encode rfc_secret refl (AreBytes-of_every rfc_secret refl)

verify_totp_sound_example :
    (otp : Text) × (normalize_otp (codes "872 921") ≡ some otp)
    × (hotp hmac secret 0 ≡ ok otp)
    × (1 ≤ 0 + 1)
    × (0 ≤ 1 + 1)
verify_totp_sound_example =
    verify_totp_sound hmac secret (codes "872 921") 59000 none 0 verify_tests.0

normalized : normalize_otp (codes "872922") ≡ some (codes "872922")
unfolding normalize_otp
normalized = refl

verify_totp_complete_example : ¬ (hotp hmac secret 99 ≡ ok (codes "872922"))
verify_totp_complete_example =
    verify_totp_complete hmac secret (codes "872922") (codes "872922") 3000000 (some 2) 99
      normalized verify_tests.2 (omega arith) (omega arith)

abbrev env : Env
env = record {
  totp_policy = some (codes " Role-Required ");
  totp_required_roles = some (codes "admin, auditor");
}

abbrev policy : TotpPolicy
policy = record { mode = codes "role-required"; roles = codes "admin" ∷ codes "auditor" ∷ [] }

policy_tests :
    (get_totp_policy env ≡ ok policy)
    × (get_totp_policy (record { totp_policy = none; totp_required_roles = none })
        ≡ ok (record { mode = codes "optional"; roles = codes "admin" ∷ [] }))
    × (get_totp_policy (record { totp_policy = some (codes "on"); totp_required_roles = none })
        ≡ err totp_policy_invalid)
    × (get_totp_policy (record { totp_policy = none; totp_required_roles = some (codes "admin,") })
        ≡ err totp_policy_invalid)
unfolding get_totp_policy requested_mode role_values text_eq to_lower_case trim split
policy_tests = (refl, refl, refl, refl)
