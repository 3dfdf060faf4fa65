-- ===== src/Auth/Tokens.antt =====
-- `verifyClaims` of src/middlewares/auth.js: the token's shape, its signature and its claims.
pub mod Checked
use servidor_drive.Prelude.{
  ℕ, ◌+◌, Bool, false, not, ◌||◌, Option, none, some, if◌then◌else◌, Result, ok, err, ltb, Text,
  trim, is_nonempty, utf16_length,
}

abbrev pub max_token_length : ℕ
max_token_length = 4096

abbrev pub max_future_iat_seconds : ℕ
max_future_iat_seconds = 300

-- The claims of a token whose signature is right: a username that is no text, a version that is no
-- whole number from 0 on, and a time that is not finite are `none`.
pub record Claims : Type 0 where
  pub username : Option Text
  pub session_version : Option ℕ
  pub iat : Option ℕ
  pub exp : Option ℕ
  pub totp_enrollment : Bool

pub record Verified : Type 0 where
  pub username : Text
  pub session_version : ℕ
  pub exp : Option ℕ
  pub totp_enrollment : Bool

pub data ClaimsError : Type 0 where
  invalid_token invalid_claims future_token : ClaimsError

abbrev pub is_future : Option ℕ → ℕ → Bool
is_future none now = false
is_future (some iat) now = ltb (now + max_future_iat_seconds) iat

unfoldable pub check_claims : Claims → Option Text → Option ℕ → ℕ → Result ClaimsError Verified
check_claims claims none version now = err invalid_claims
check_claims claims (some username) none now = err invalid_claims
check_claims claims (some username) (some version) now =
    if not (is_nonempty (trim username))
    then err invalid_claims
    else if is_future claims.iat now
    then err future_token
    else ok (record {
      username = username;
      session_version = version;
      exp = claims.exp;
      totp_enrollment = claims.totp_enrollment;
    })

unfoldable pub verified : Option Claims → ℕ → Result ClaimsError Verified
unfolding check_claims
verified none now = err invalid_token
verified (some claims) now = check_claims claims claims.username claims.session_version now

-- `verify` is jsonwebtoken's, with the secret and HS256: `none` where it throws. `now` is in seconds.
unfoldable pub verify_claims : (Text → Option Claims) → Text → ℕ → Result ClaimsError Verified
unfolding verified
verify_claims verify token now =
    if not (is_nonempty token) || ltb max_token_length (utf16_length token)
    then err invalid_token
    else verified (verify token) now
