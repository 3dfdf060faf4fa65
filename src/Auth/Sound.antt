-- ===== src/Auth/Sound.antt =====
-- What holds of a request that the middleware lets through.
use servidor_drive.Prelude.{
  ℕ, ◌≤◌, ◌+◌, refl, ◌∙◌, Bool, List, [], ◌∷◌, Option, none, codes, ◌++◌, false, ap, text_eq,
  eq_of_text_eq, utf16_length, trim, Result-cases, ◌≡◌, ◌⊎◌, sym, true, false, some, ok, Text,
  text_in, is_nonempty, arith, Bool-cases, Option-cases, inl, inr,
}
use mathlib.Core.Path.{subst}
use servidor_drive.Totp.Policy.{
  TotpPolicy, is_totp_required, get_totp_policy, is_totp_enrollment_path,
}
use servidor_drive.Auth.Cookies.{parse_cookies, value_of}
use servidor_drive.Auth.Permissions.{User, normalize_user_permissions}
use servidor_drive.Auth.Tokens.{Claims, Verified, verify_claims}
use servidor_drive.Auth.Tokens.Checked.{verify_claims-IsVerified}
use servidor_drive.Auth.{
  Context, Request, AuthType, bearer, cookie, Session, next, session_of, revoked, needs_totp,
  csrf_fails, safe_methods, admit, with_user, with_token, authenticate, or_zero, or_empty,
  bearer_token, expected_origin,
}

-- The methods that change nothing.
abbrev pub read_methods : List Text
read_methods = codes "GET" ∷ codes "HEAD" ∷ codes "OPTIONS" ∷ []

-- The second factor is not asked of the user, or is there.
needs_totp-cases :
    (user : User) (policy : TotpPolicy)
    → needs_totp user policy ≡ false
    → (is_totp_required (some user.role) policy ≡ false) ⊎ (user.totp_enabled ≡ true)
unfolding needs_totp
needs_totp-cases user policy h = elim (Bool-cases user.totp_enabled) [
  | inl y ↦ inr y
  | inr n ↦ inl (ground arith)
]

module _ (ctx : Context) (req : Request) where
  -- A request that could be forged: its origin, where it has one, is that of the server, and it repeats the
  -- token of its CSRF cookie, which is not empty.
  pub record IsOwn : Type 0 where
    pub origin :
        (is_nonempty (or_empty req.origin) ≡ false)
        ⊎ (or_empty req.origin ≡ req.protocol ++ codes "://" ++ req.host)
    pub sent : Text
    pub sent_once :
        value_of (codes "rootark_csrf") (parse_cookies (or_empty req.cookie)) ≡ some sent
    pub sent_full : is_nonempty sent ≡ true
    pub repeated : or_empty req.csrf_token ≡ sent

  -- The token is signed and not too long, its claims are whole and not from the future, its user is stored,
  -- is not disabled and has the token's session version, the second factor is there unless the path is one
  -- for setting it up, and a request that changes something with a cookie is the user's own.
  pub record IsAdmitted (token : Text) (s : Session) (t : AuthType) : Type 0 where
    pub token_full : is_nonempty token ≡ true
    pub token_short : utf16_length token ≤ 4096
    pub claims : Claims
    pub signed : ctx.verify token ≡ some claims
    pub username : Text
    pub username_claimed : claims.username ≡ some username
    pub username_full : is_nonempty (trim username) ≡ true
    pub not_future : (iat : ℕ) → claims.iat ≡ some iat → iat ≤ ctx.now + 300
    pub user : User
    pub policy : TotpPolicy
    pub user_stored : ctx.load_user username ≡ some user
    pub enabled : user.disabled ≡ false
    pub version_current : claims.session_version ≡ some (or_zero user.session_version)
    pub policy_read : get_totp_policy ctx.env ≡ ok policy
    pub enrolled :
        ((claims.totp_enrollment ≡ false)
          × ((is_totp_required (some user.role) policy ≡ false) ⊎ (user.totp_enabled ≡ true)))
        ⊎ (is_totp_enrollment_path req.path ≡ true)
    pub not_forged : (t ≡ bearer) ⊎ (text_in req.method read_methods ≡ true) ⊎ IsOwn
    pub session_user : s.username ≡ user.username
    pub session_role : s.role ≡ user.role
    pub session_permissions : s.permissions ≡ normalize_user_permissions user
    pub session_version : s.session_version ≡ or_zero user.session_version
    pub session_totp : s.totp_enabled ≡ user.totp_enabled
    pub session_enrollment : s.enrollment_only ≡ claims.totp_enrollment

  own_text : (o : Option Text) → is_nonempty (or_empty o) ≡ true → o ≡ some (or_empty o)
  own_text none h = cc
  own_text (some t) h = refl

  csrf_fails-IsOwn : csrf_fails req ≡ false → IsOwn
  unfolding csrf_fails expected_origin
  csrf_fails-IsOwn h =
      let sent = or_empty (value_of (codes "rootark_csrf") (parse_cookies (or_empty req.cookie))) in
      let full : is_nonempty sent ≡ true = ground arith in
      let same : text_eq (or_empty req.csrf_token) sent ≡ true = ground arith in
      record {
        origin = elim (Bool-cases (is_nonempty (or_empty req.origin))) [
          | inr none_sent ↦ inl none_sent
          | inl given ↦
              let right : text_eq (or_empty req.origin) (expected_origin req) ≡ true =
                ground arith in
              inr (unfold expected_origin in eq_of_text_eq _ _ right)
        ];
        sent = sent;
        sent_once = own_text _ full;
        sent_full = full;
        repeated = eq_of_text_eq _ _ same;
      }

  abbrev IsEnrolled : Bool → User → TotpPolicy → Type 0
  IsEnrolled only user policy =
      ((only ≡ false)
        × ((is_totp_required (some user.role) policy ≡ false) ⊎ (user.totp_enabled ≡ true)))
      ⊎ (is_totp_enrollment_path req.path ≡ true)

  needs_totp-IsEnrolled :
      (only claimed : Bool) (user : User) (policy : TotpPolicy)
      → only ≡ claimed
      → ((claimed ≡ false) × (needs_totp user policy ≡ false))
        ⊎ (is_totp_enrollment_path req.path ≡ true)
      → IsEnrolled only user policy
  needs_totp-IsEnrolled only claimed user policy e (inl (free, fit)) =
      inl (e ∙ free, needs_totp-cases user policy fit)
  needs_totp-IsEnrolled only claimed user policy e (inr path) = inr path

  not_forged_of :
      (t : AuthType)
      → (t ≡ bearer) ⊎ (text_in req.method safe_methods ≡ true) ⊎ (csrf_fails req ≡ false)
      → (t ≡ bearer) ⊎ (text_in req.method read_methods ≡ true) ⊎ IsOwn
  not_forged_of t (inl e) = inl e
  not_forged_of t (inr (inl e)) = inr (inl e)
  not_forged_of t (inr (inr e)) = inr (inr (csrf_fails-IsOwn e))

  module _ (token : Text) (s : Session) (t auth_type : AuthType) where
    abbrev Conditions : Verified → User → TotpPolicy → Type 0
    Conditions claims user policy =
        (((claims.totp_enrollment ≡ false) × (needs_totp user policy ≡ false))
          ⊎ (is_totp_enrollment_path req.path ≡ true))
        × ((t ≡ bearer) ⊎ (text_in req.method safe_methods ≡ true) ⊎ (csrf_fails req ≡ false))
        × (s ≡ session_of user claims)
        × (t ≡ auth_type)

    admit_sound :
        (claims : Verified) (user : User) (policy : TotpPolicy)
        → admit ctx req auth_type claims user policy ≡ next s t
        → Conditions claims user policy
    unfolding admit
    admit_sound claims user policy h = ground arith

    with_user_sound :
        (claims : Verified) (user : User)
        → verify_claims ctx.verify token ctx.now ≡ ok claims
        → ctx.load_user claims.username ≡ some user
        → with_user ctx req auth_type claims (some user) ≡ next s t
        → IsAdmitted token s t × (t ≡ auth_type)
    unfolding with_user
    with_user_sound claims user good stored h = elim (Bool-cases (revoked user claims)) [
      | inl gone ↦ absurd (cc (rw (gone, with_user) at h))
      | inr current ↦ elim (Result-cases (get_totp_policy ctx.env)) [
        | inl (e, bad) ↦ absurd (cc (rw (current, bad, with_user) at h))
        | inr (policy, policy_read) ↦
            let v = verify_claims-IsVerified ctx.verify ctx.now token claims good in
            let (enrolled, not_forged, session, kind) =
              admit_sound claims user policy (rw (current, policy_read, with_user) at h) in
            (
              record {
                token_full = v.token_full;
                token_short = v.token_short;
                claims = v.claims;
                signed = v.signed;
                username = claims.username;
                username_claimed = v.username_claimed;
                username_full = v.username_full;
                not_future = v.not_future;
                user = user;
                policy = policy;
                user_stored = stored;
                enabled = unfold revoked in ground arith;
                version_current = v.version ∙ ap some (unfold revoked in ground arith);
                policy_read = policy_read;
                enrolled =
                    needs_totp-IsEnrolled v.claims.totp_enrollment claims.totp_enrollment user
                      policy v.enrollment enrolled;
                not_forged = not_forged_of t not_forged;
                session_user = ap (λ (x : Session). x.username) session;
                session_role = ap (λ (x : Session). x.role) session;
                session_permissions = ap (λ (x : Session). x.permissions) session;
                session_version = ap (λ (x : Session). x.session_version) session;
                session_totp = ap (λ (x : Session). x.totp_enabled) session;
                session_enrollment =
                    ap (λ (x : Session). x.enrollment_only) session ∙ sym v.enrollment;
              },
              kind,
            )
      ]
    ]

    with_token_sound :
        with_token ctx req auth_type token ≡ next s t → IsAdmitted token s t × (t ≡ auth_type)
    unfolding with_token
    with_token_sound h = elim (Result-cases (verify_claims ctx.verify token ctx.now)) [
      | inl (e, bad) ↦ absurd (cc (rw (bad, with_token) at h))
      | inr (claims, good) ↦ elim (Option-cases (ctx.load_user claims.username)) [
        | inl gone ↦ absurd (unfold with_user in cc (rw (good, gone, with_token) at h))
        | inr (user, stored) ↦
            with_user_sound claims user good stored (rw (good, stored, with_token) at h)
      ]
    ]

  abbrev pub token_of : AuthType → Text
  token_of bearer = bearer_token req.authorization
  token_of cookie = or_empty (value_of ctx.cookie_name (parse_cookies (or_empty req.cookie)))

  -- A request that goes on has a token of at most 4096 characters, signed, with a username, not from more
  -- than 300 seconds ahead; its user is stored, not disabled, and in the token's version of the session; the
  -- second factor is not asked or is there, unless the path is for setting it up; and with a cookie, what
  -- is no reading request comes from the server's origin, if it names one, and repeats the token of its CSRF
  -- cookie, which is not empty. It goes on as that user with the user's rights.
  pub authenticate_sound :
      (s : Session) (t : AuthType) → authenticate ctx req ≡ next s t → IsAdmitted (token_of t) s t
  unfolding authenticate
  authenticate_sound s t h = elim (Bool-cases (is_nonempty (token_of bearer))) [
    | inl b ↦
        let (admitted, kind) =
          with_token_sound (token_of bearer) s t bearer (rw (b, authenticate) at h) in
        subst (λ x. IsAdmitted (token_of x) s t) (sym kind) admitted
    | inr b ↦ elim (Bool-cases (is_nonempty (token_of cookie))) [
      | inl c ↦
          let (admitted, kind) =
            with_token_sound (token_of cookie) s t cookie (rw (b, c, authenticate) at h) in
          subst (λ x. IsAdmitted (token_of x) s t) (sym kind) admitted
      | inr c ↦ absurd (cc (rw (b, c, authenticate) at h))
    ]
  ]
