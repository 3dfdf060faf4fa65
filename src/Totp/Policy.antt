-- ===== src/Totp/Policy.antt =====
-- src/services/totpPolicy.js: which users must have a second factor.
pub mod Laws
use servidor_drive.Prelude.{
  Bool, true, false, not, ◌&&◌, ◌||◌, Option, none, some, List, [], ◌∷◌, map, any, Result, ok, err,
  codes, Text, trim, to_lower_case, split, text_eq, text_in, is_nonempty, if◌then◌else◌,
}

-- The variables of the environment that the policy reads; one that is not set is `none`.
pub record Env : Type 0 where
  pub totp_policy : Option Text
  pub totp_required_roles : Option Text

pub record TotpPolicy : Type 0 where
  pub mode : Text
  pub roles : List Text

pub data PolicyError : Type 0 where
  totp_policy_invalid : PolicyError

abbrev pub valid_modes : List Text
valid_modes = codes "optional" ∷ codes "role-required" ∷ codes "global-required" ∷ []

abbrev pub default_required_roles : List Text
default_required_roles = codes "admin" ∷ []

abbrev pub enrollment_paths : List Text
enrollment_paths =
    codes "/auth/2fa/enroll"
    ∷ codes "/auth/2fa/confirm"
    ∷ codes "/auth/2fa/status"
    ∷ codes "/auth/2fa/policy"
    ∷ codes "/auth/logout"
    ∷ []

unfoldable pub requested_mode : Option Text → Text
requested_mode none = codes "optional"
requested_mode (some value) = to_lower_case (trim value)

unfoldable pub role_values : Option Text → List Text
role_values none = default_required_roles
role_values (some value) = map trim (split b',' (trim value))

unfoldable pub get_totp_policy : Env → Result PolicyError TotpPolicy
unfolding requested_mode role_values
get_totp_policy env =
    let mode = requested_mode env.totp_policy in
    let roles = role_values env.totp_required_roles in
    if not (text_in mode valid_modes)
    then err totp_policy_invalid
    else if not (is_nonempty roles) || any (λ role. not (is_nonempty role)) roles
    then err totp_policy_invalid
    else ok (record { mode = mode; roles = roles })

-- `user?.role`: a user that is not there, or has no role, is `none`.
abbrev pub has_role : Option Text → List Text → Bool
has_role none roles = false
has_role (some role) roles = text_in role roles

unfoldable pub is_totp_required : Option Text → TotpPolicy → Bool
is_totp_required role policy =
    text_eq policy.mode (codes "global-required")
    || (text_eq policy.mode (codes "role-required") && has_role role policy.roles)

unfoldable pub is_totp_enrollment_path : Text → Bool
is_totp_enrollment_path path = text_in path enrollment_paths
