-- ===== src/Auth/Tests.antt =====
-- Runs of the cookies, the permissions and the middleware, and the theorems at concrete inputs.
use servidor_drive.Prelude.{
  ◌≡◌, refl, true, false, Option, none, some, [], ◌∷◌, codes, Text, map, split, trim, text_eq,
  if◌then◌else◌, to_lower_case,
}
use servidor_drive.Prelude.Objects.{get, set}
use servidor_drive.Totp.Policy.{get_totp_policy, is_totp_enrollment_path, is_totp_required}
use servidor_drive.Auth.Cookies.{
  parse_cookies, parse_cookies-only, value_of, values_for, only, split_pair,
}
use servidor_drive.Auth.Permissions.{
  User, normalize_user_permissions, require_permission,
  require_permission-normalize_user_permissions, last_given, default_of, known, granted, is_admin,
}
use servidor_drive.Auth.Tokens.{Claims, verify_claims}
use servidor_drive.Auth.{
  Context, Request, Session, cookie, next, token_missing, token_invalid, csrf_invalid,
  enrollment_required, authenticate, RealtimeUser, authenticate_realtime, bearer_token, csrf_fails,
  needs_totp, revoked,
}
use servidor_drive.Auth.Sound.{IsAdmitted, authenticate_sound}
use servidor_drive.Auth.Realtime.{Agrees, authenticate_of_realtime}

cookie_tests :
    (value_of (codes "a") (parse_cookies (codes "a=1; b=2=3; a2")) ≡ some (codes "1"))
    × (value_of (codes "b") (parse_cookies (codes "a=1; b=2=3; a2")) ≡ some (codes "2=3"))
    × (value_of (codes "a2") (parse_cookies (codes "a=1; b=2=3; a2")) ≡ none)
    × (value_of (codes "a") (parse_cookies (codes "a=1; b=2; a=3")) ≡ none)
unfolding parse_cookies value_of text_eq
cookie_tests = (refl, refl, refl, refl)

parse_cookies-only_example :
    value_of (codes "a") (parse_cookies (codes "a=1; b=2; a=3"))
    ≡ only (
        values_for
          (codes "a")
          (map (λ part. split_pair (trim part)) (split b';' (codes "a=1; b=2; a=3"))))
parse_cookies-only_example = parse_cookies-only (codes "a=1; b=2; a=3") (codes "a") refl

abbrev ana : User
ana = record {
  username = codes "ana";
  role = codes "user";
  disabled = false;
  session_version = some 3;
  totp_enabled = false;
  permissions = ("upload", true) ∷ ("listFiles", false) ∷ [];
}

abbrev root : User
root = record ana { role = codes "admin"; permissions = [] }

permission_tests :
    (require_permission "upload" (some (normalize_user_permissions ana)) ≡ true)
    × (require_permission "listFiles" (some (normalize_user_permissions ana)) ≡ false)
    × (require_permission "delete" (some (normalize_user_permissions root)) ≡ true)
    × (require_permission "fly" (some (normalize_user_permissions root)) ≡ false)
unfolding require_permission normalize_user_permissions get set text_eq
permission_tests = (refl, refl, refl, refl)

require_permission-normalize_user_permissions_example :
    require_permission "upload" (some (normalize_user_permissions ana)) ≡ (
      let given = last_given "upload" ana.permissions (default_of "upload") in
      if is_admin ana.role then known given else granted given)
require_permission-normalize_user_permissions_example =
    require_permission-normalize_user_permissions "upload" ana

abbrev load_user : Text → Option User
load_user name = if text_eq name (codes "ana") then some ana else none

-- One token is signed; all others make the check throw.
abbrev verify : Text → Option Claims
verify token =
    if text_eq token (codes "t.o.k")
    then some (record {
      username = some (codes "ana");
      session_version = some 3;
      iat = some 900;
      exp = some 2000;
      totp_enrollment = false;
    })
    else none

abbrev context : Context
context = record {
  verify = verify;
  load_user = load_user;
  env = record { totp_policy = none; totp_required_roles = none };
  now = 1000;
  cookie_name = codes "rootark_session";
}

abbrev plain : Request
plain = record {
  authorization = none;
  cookie = some (codes "rootark_session=t.o.k; rootark_csrf=xyz");
  path = codes "/files";
  method = codes "POST";
  protocol = codes "https";
  host = codes "drive.example";
  origin = some (codes "https://drive.example");
  csrf_token = some (codes "xyz");
}

abbrev session : Session
session = record {
  username = codes "ana";
  role = codes "user";
  permissions = normalize_user_permissions ana;
  session_version = 3;
  totp_enabled = false;
  enrollment_only = false;
}

by_cookie : authenticate context plain ≡ next session cookie
unfolding authenticate verify_claims get_totp_policy bearer_token value_of parse_cookies text_eq
    revoked needs_totp is_totp_required csrf_fails
by_cookie = refl

middleware_tests :
    (authenticate context (record plain { csrf_token = some (codes "abc") }) ≡ csrf_invalid)
    × (authenticate context (record plain { origin = some (codes "https://evil.example") })
        ≡ csrf_invalid)
    × (authenticate context (record plain { method = codes "GET"; csrf_token = none })
        ≡ next session cookie)
    × (authenticate context (record plain { cookie = none }) ≡ token_missing)
    × (authenticate context (record plain { authorization = some (codes "Bearer nope") })
        ≡ token_invalid)
    × (authenticate
          (record context { load_user = λ name. some (record ana { disabled = true }) })
          plain
        ≡ token_invalid)
    × (authenticate
          (record context {
            env = record {
              totp_policy = some (codes "global-required");
              totp_required_roles = none;
            };
          })
          plain
        ≡ enrollment_required)
unfolding authenticate verify_claims get_totp_policy bearer_token value_of parse_cookies text_eq
    revoked needs_totp is_totp_required csrf_fails to_lower_case is_totp_enrollment_path
middleware_tests = (refl, refl, refl, refl, refl, refl, refl)

authenticate_sound_example : IsAdmitted context plain (codes "t.o.k") session cookie
unfolding value_of parse_cookies text_eq
authenticate_sound_example = authenticate_sound context plain session cookie by_cookie

abbrev realtime : RealtimeUser
realtime = record {
  username = codes "ana";
  role = codes "user";
  permissions = normalize_user_permissions ana;
  session_version = 3;
  totp_enabled = false;
  expires_at = some 2000000;
}

by_channel : authenticate_realtime context (codes "t.o.k") ≡ some realtime
unfolding authenticate_realtime verify_claims get_totp_policy text_eq trim revoked needs_totp
    is_totp_required
by_channel = refl

authenticate_of_realtime_example : Agrees context plain (codes "t.o.k") realtime
authenticate_of_realtime_example =
    authenticate_of_realtime context plain (codes "t.o.k") realtime by_channel
