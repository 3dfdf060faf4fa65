-- ===== src/Auth/Tokens/Checked.antt =====
-- What verifyClaims has established of a token.
use servidor_drive.Prelude.{
  ℕ, ◌≤◌, ◌+◌, ◌≡◌, ap, true, false, not, ◌||◌, Option, none, some, ok, ok_injective, Text,
  utf16_length, trim, ltb, is_nonempty, arith, Bool-cases, Option-cases, inl, inr,
}
use servidor_drive.Auth.Tokens.{
  Claims, Verified, verify_claims, verified, check_claims, is_future, max_token_length,
}

-- What verifyClaims asks.
pub record IsVerified (verify : Text → Option Claims) (now : ℕ) (token : Text) (v : Verified)
    : Type 0 where
  pub claims : Claims
  pub token_full : is_nonempty token ≡ true
  pub token_short : utf16_length token ≤ 4096
  pub signed : verify token ≡ some claims
  pub username_claimed : claims.username ≡ some v.username
  pub username_full : is_nonempty (trim v.username) ≡ true
  pub not_future : (iat : ℕ) → claims.iat ≡ some iat → iat ≤ now + 300
  pub version : claims.session_version ≡ some v.session_version
  pub enrollment : claims.totp_enrollment ≡ v.totp_enrollment

not_future_of :
    (now : ℕ) (o : Option ℕ) → is_future o now ≡ false → (iat : ℕ) → o ≡ some iat → iat ≤ now + 300
not_future_of now none h iat e = absurd (cc)
not_future_of now (some i) h iat e = ground arith

check_claims-parts :
    (now : ℕ) (claims : Claims) (name : Option Text) (version : Option ℕ) (v : Verified)
    → check_claims claims name version now ≡ ok v
    → (name ≡ some v.username)
      × (is_nonempty (trim v.username) ≡ true)
      × (is_future claims.iat now ≡ false)
      × (version ≡ some v.session_version)
      × (claims.totp_enrollment ≡ v.totp_enrollment)
unfolding check_claims
check_claims-parts now claims none version v h = absurd (cc)
check_claims-parts now claims (some name) none v h = absurd (cc)
check_claims-parts now claims (some name) (some version) v h =
    elim (Bool-cases (is_nonempty (trim name))) [
      | inr empty ↦ absurd (cc (rw empty at h))
      | inl full ↦ elim (Bool-cases (is_future claims.iat now)) [
        | inl future ↦ absurd (cc (rw (full, future) at h))
        | inr past ↦
            let made : Path Verified
                (record {
                  username = name;
                  session_version = version;
                  exp = claims.exp;
                  totp_enrollment = claims.totp_enrollment;
                })
                v =
              ok_injective (rw (full, past) at h) in
            let same : name ≡ v.username = ap (λ (u : Verified). u.username) made in
            (
              ap some same,
              rw (← same) full,
              past,
              ap (λ (u : Verified). some u.session_version) made,
              ap (λ (u : Verified). u.totp_enrollment) made,
            )
      ]
    ]

pub verify_claims-IsVerified :
    (verify : Text → Option Claims) (now : ℕ) (token : Text) (v : Verified)
    → verify_claims verify token now ≡ ok v
    → IsVerified verify now token v
unfolding verify_claims verified
verify_claims-IsVerified verify now token v h =
    elim (Bool-cases (not (is_nonempty token) || ltb max_token_length (utf16_length token))) [
      | inl bad ↦ absurd (cc (rw bad at h))
      | inr good ↦ elim (Option-cases (verify token)) [
        | inl unsigned ↦ absurd (cc (rw (good, unsigned) at h))
        | inr (claims, signed) ↦
            let (name, full, past, version, enrollment) =
              check_claims-parts now claims claims.username claims.session_version v
                (rw (good, signed) at h) in
            record {
              claims = claims;
              token_full = ground arith;
              token_short = ground arith;
              signed = signed;
              username_claimed = name;
              username_full = full;
              not_future = not_future_of now claims.iat past;
              version = version;
              enrollment = enrollment;
            }
      ]
    ]
