-- ===== src/Auth.antt =====
-- src/middlewares/auth.js and src/middlewares/permissions.js, with the permissions of a user from
-- server.js: who a request is from, and whether it goes on.
pub mod Cookies
pub mod Permissions
pub mod Tokens
pub mod Sound
pub mod Realtime
pub mod Tests
use servidor_drive.Prelude.{
  ℕ, ◌*◌, String, Bool, true, false, not, ◌&&◌, ◌||◌, Option, none, some, List, [], ◌∷◌, ◌++◌,
  if◌then◌else◌, ◌==◌, Result, ok, err, codes, Text, text_eq, text_in, is_nonempty, drop, take,
}
use servidor_drive.Prelude.Objects.{Object}
use servidor_drive.Totp.Policy.{
  Env, TotpPolicy, PolicyError, get_totp_policy, is_totp_required, is_totp_enrollment_path,
}
use servidor_drive.Auth.Cookies.{parse_cookies, value_of}
use servidor_drive.Auth.Permissions.{User, normalize_user_permissions}
use servidor_drive.Auth.Tokens.{Claims, Verified, verify_claims}

-- What the middleware is made with and reads outside the request: jsonwebtoken's check of a token,
-- the stored users, the environment and the clock in seconds.
pub record Context : Type 0 where
  pub verify : Text → Option Claims
  pub load_user : Text → Option User
  pub env : Env
  pub now : ℕ
  pub cookie_name : Text

pub record Request : Type 0 where
  pub authorization : Option Text
  pub cookie : Option Text
  pub path : Text
  pub method : Text
  pub protocol : Text
  pub host : Text
  pub origin : Option Text
  pub csrf_token : Option Text

pub data AuthType : Type 0 where
  bearer cookie : AuthType

-- `req.user` and what is set beside it.
pub record Session : Type 0 where
  pub username : Text
  pub role : Text
  pub permissions : Object Bool
  pub session_version : ℕ
  pub totp_enabled : Bool
  pub enrollment_only : Bool

-- `next()` with what the request now carries, or the answer that ends it: 401, 403, 403, 503, 401.
pub data Answer : Type 0 where
  next : Session → AuthType → Answer
  token_missing enrollment_required csrf_invalid policy_invalid token_invalid : Answer

abbrev pub or_empty : Option Text → Text
or_empty none = []
or_empty (some s) = s

abbrev pub or_zero : Option ℕ → ℕ
or_zero none = 0
or_zero (some n) = n

abbrev pub bearer_prefix : Text
bearer_prefix = codes "Bearer "

-- `auth?.startsWith("Bearer ") ? auth.slice(7) : null`, where the empty text is as good as null.
unfoldable pub bearer_token : Option Text → Text
bearer_token none = []
bearer_token (some auth) = if text_eq (take 7 auth) bearer_prefix then drop 7 auth else []

abbrev pub safe_methods : List Text
safe_methods = codes "GET" ∷ codes "HEAD" ∷ codes "OPTIONS" ∷ []

abbrev csrf_cookie : Text
csrf_cookie = codes "rootark_csrf"

unfoldable pub expected_origin : Request → Text
expected_origin req = req.protocol ++ codes "://" ++ req.host

-- The two tests on a request that changes something and came with a cookie.
unfoldable pub csrf_fails : Request → Bool
unfolding expected_origin
csrf_fails req =
    let sent = or_empty (value_of csrf_cookie (parse_cookies (or_empty req.cookie))) in
    (is_nonempty (or_empty req.origin) && not (text_eq (or_empty req.origin) (expected_origin req)))
    || (not (is_nonempty sent) || not (text_eq (or_empty req.csrf_token) sent))

abbrev pub session_of : User → Verified → Session
session_of user claims = record {
  username = user.username;
  role = user.role;
  permissions = normalize_user_permissions user;
  session_version = or_zero user.session_version;
  totp_enabled = user.totp_enabled;
  enrollment_only = claims.totp_enrollment;
}

-- `!user || user.disabled || claims.sessionVersion !== (user.sessionVersion || 0)`
unfoldable pub revoked : User → Verified → Bool
revoked user claims = user.disabled || not (claims.session_version == or_zero user.session_version)

unfoldable pub needs_totp : User → TotpPolicy → Bool
needs_totp user policy = is_totp_required (some user.role) policy && not user.totp_enabled

-- What `authenticateRealtimeToken` returns, with the end of the token in milliseconds.
pub record RealtimeUser : Type 0 where
  pub username : Text
  pub role : Text
  pub permissions : Object Bool
  pub session_version : ℕ
  pub totp_enabled : Bool
  pub expires_at : Option ℕ

module _ (ctx : Context) where
  -- After the user is loaded and the policy read.
  pub admit : Request → AuthType → Verified → User → TotpPolicy → Answer
  admit req auth_type claims user policy =
      if (claims.totp_enrollment || needs_totp user policy)
        && not (is_totp_enrollment_path req.path)
      then enrollment_required
      else elim auth_type [
        | bearer ↦ next (session_of user claims) bearer
        | cookie ↦
            if not (text_in req.method safe_methods) && csrf_fails req
            then csrf_invalid
            else next (session_of user claims) cookie
      ]

  pub with_user : Request → AuthType → Verified → Option User → Answer
  unfolding admit
  with_user req auth_type claims none = token_invalid
  with_user req auth_type claims (some user) =
      if revoked user claims then token_invalid else elim (get_totp_policy ctx.env) [
        | err e ↦ policy_invalid
        | ok policy ↦ admit req auth_type claims user policy
      ]

  pub with_token : Request → AuthType → Text → Answer
  unfolding with_user
  with_token req auth_type token = elim (verify_claims ctx.verify token ctx.now) [
    | err e ↦ token_invalid
    | ok claims ↦ with_user req auth_type claims (ctx.load_user claims.username)
  ]

  unfoldable pub authenticate : Request → Answer
  unfolding with_token
  authenticate req =
      let token = bearer_token req.authorization in
      let cookie_token =
        or_empty (value_of ctx.cookie_name (parse_cookies (or_empty req.cookie))) in
      if is_nonempty token
      then with_token req bearer token
      else if is_nonempty cookie_token
      then with_token req cookie cookie_token
      else token_missing

  abbrev pub millis : Option ℕ → Option ℕ
  millis none = none
  millis (some exp) = some (exp * 1000)

  pub realtime_user : Verified → Option User → Option RealtimeUser
  realtime_user claims none = none
  realtime_user claims (some user) =
      if revoked user claims then none else elim (get_totp_policy ctx.env) [
        | err e ↦ none
        | ok policy ↦
            if needs_totp user policy
            then none
            else some (record {
              username = user.username;
              role = user.role;
              permissions = normalize_user_permissions user;
              session_version = or_zero user.session_version;
              totp_enabled = user.totp_enabled;
              expires_at = millis claims.exp;
            })
      ]

  unfoldable pub authenticate_realtime : Text → Option RealtimeUser
  unfolding realtime_user
  authenticate_realtime token =
      if is_nonempty token
      then elim (verify_claims ctx.verify token ctx.now) [
        | err e ↦ none
        | ok claims ↦
            if claims.totp_enrollment
            then none
            else realtime_user claims (ctx.load_user claims.username)
      ]
      else none
