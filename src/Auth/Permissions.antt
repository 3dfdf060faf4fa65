-- ===== src/Auth/Permissions.antt =====
-- `getBasePermissions` and `normalizeUserPermissions` of server.js, and `requirePermission` of
-- src/middlewares/permissions.js.
use servidor_drive.Prelude.{
  ℕ, ◌≡◌, refl, ◌∙◌, Bool, true, false, Option, none, some, [], ◌∷◌, if◌then◌else◌, ◌===◌, String,
  List, includes, eq_iff, arith, Text, codes, text_eq, Bool-cases, inl, inr,
}
use servidor_drive.Prelude.Objects.{Object, get, set, get-set}

-- A user as it is stored; `session_version` may be missing.
pub record User : Type 0 where
  pub username : Text
  pub role : Text
  pub disabled : Bool
  pub session_version : Option ℕ
  pub totp_enabled : Bool
  pub permissions : Object Bool

abbrev pub base_permissions : Object Bool
base_permissions =
    ("upload", false)
    ∷ ("approve", false)
    ∷ ("delete", false)
    ∷ ("listFiles", true)
    ∷ ("listPending", false)
    ∷ ("manageUsers", false)
    ∷ ("createFolders", false)
    ∷ ("viewAnalytics", false)
    ∷ ("viewAuditLogs", false)
    ∷ ("manageBackups", false)
    ∷ ("manageTrash", false)
    ∷ []

-- `{ ...base, ...given }`
unfoldable pub spread : Object Bool → Object Bool → Object Bool
spread base [] = base
spread base ((k, v) ∷ given) = spread (set k v base) given

unfoldable pub all_true : Object Bool → Object Bool
all_true [] = []
all_true ((k, v) ∷ o) = (k, true) ∷ all_true o

abbrev pub is_admin : Text → Bool
is_admin role = text_eq role (codes "admin")

unfoldable pub normalize_user_permissions : User → Object Bool
unfolding spread all_true
normalize_user_permissions user =
    let permissions = spread base_permissions user.permissions in
    if is_admin user.role then all_true permissions else permissions

abbrev pub granted : Option Bool → Bool
granted none = false
granted (some b) = b

-- The answer of `requirePermission(permission)`: 403, or on to the handler.
unfoldable pub require_permission : String → Option (Object Bool) → Bool
require_permission permission none = false
require_permission permission (some permissions) = granted (get permission permissions)

-- What the object that is spread says of a name last.
abbrev pub last_given : String → Object Bool → Option Bool → Option Bool
last_given k [] before = before
last_given k ((j, v) ∷ given) before = last_given k given (if j === k then some v else before)

get-spread :
    (k : String) (given base : Object Bool)
    → get k (spread base given) ≡ last_given k given (get k base)
unfolding spread
get-spread k [] base = refl
get-spread k ((j, v) ∷ given) base = get-spread k given (set j v base) ∙ rw (get-set j k v base)

abbrev pub known : Option Bool → Bool
known none = false
known (some _) = true

get-all_true : (k : String) (o : Object Bool) → granted (get k (all_true o)) ≡ known (get k o)
unfolding get all_true
get-all_true k [] = refl
get-all_true k ((j, v) ∷ o) = elim (Bool-cases (j === k)) [
  | inl t ↦ rw t
  | inr f ↦ rw f (get-all_true k o)
]

-- Apart from the table of the code: what the server refuses by default, beside the one that it gives.
abbrev pub refused_by_default : List String
refused_by_default =
    "upload" ∷ "approve" ∷ "delete" ∷ "listPending" ∷ "manageUsers" ∷ "createFolders"
    ∷ "viewAnalytics" ∷ "viewAuditLogs" ∷ "manageBackups" ∷ "manageTrash" ∷ []

abbrev pub default_of : String → Option Bool
default_of permission =
    if "listFiles" === permission
    then some true
    else if includes permission refused_by_default
    then some false
    else none

same_text : (a b c : String) → (a === c) ≡ true → (b === c) ≡ (b === a)
same_text a b c h = rw (← (eq_iff a c).0 h) refl

base-default_of : (permission : String) → get permission base_permissions ≡ default_of permission
unfolding get
base-default_of permission = ground (
  arith,
  same_text "upload" "listFiles" permission,
  same_text "approve" "listFiles" permission,
  same_text "delete" "listFiles" permission,
)

-- An administrator passes each check for one of the eleven permissions of the server or one that the user
-- was given; any other user passes if what was given last says so, and by default only to list files.
pub require_permission-normalize_user_permissions :
    (permission : String) (user : User)
    → require_permission permission (some (normalize_user_permissions user)) ≡ (
        let given = last_given permission user.permissions (default_of permission) in
        if is_admin user.role then known given else granted given)
unfolding require_permission normalize_user_permissions
require_permission-normalize_user_permissions permission user =
    elim (Bool-cases (is_admin user.role)) [
      | inl t ↦
          rw (t, normalize_user_permissions)
            (get-all_true permission (spread base_permissions user.permissions)
              ∙ rw (
                get-spread permission user.permissions base_permissions,
                base-default_of permission,
              ))
      | inr f ↦
          rw (f, normalize_user_permissions)
            (rw
              (get-spread permission user.permissions base_permissions, base-default_of permission))
    ]
