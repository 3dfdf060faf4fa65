-- ===== src/Auth/Realtime.antt =====
-- A token that the realtime channel accepts is one that every route accepts.
use servidor_drive.Prelude.{
  Result-cases, ◌≡◌, refl, true, false, ◌++◌, some, ok, Text, is_nonempty, arith, Bool-cases,
  Option-cases, inl, inr, text_eq,
}
use servidor_drive.Totp.Policy.{get_totp_policy}
use servidor_drive.Auth.Tokens.{Verified, verify_claims}
use servidor_drive.Auth.{
  Context, Request, bearer, Session, next, session_of, admit, with_user, with_token, authenticate,
  bearer_token, bearer_prefix, RealtimeUser, realtime_user, authenticate_realtime,
}

module _ (ctx : Context) (req : Request) (token : Text) (r : RealtimeUser) where
  abbrev pub Agrees : Type 0
  Agrees =
      (s : Session) × (authenticate ctx
          (record req { authorization = some (bearer_prefix ++ token) })
        ≡ next s bearer)
      × (s.username ≡ r.username)
      × (s.role ≡ r.role)
      × (s.permissions ≡ r.permissions)
      × (s.enrollment_only ≡ false)

  bearer_token-append : bearer_token (some (bearer_prefix ++ token)) ≡ token
  unfolding bearer_token text_eq
  bearer_token-append = refl

  user_agrees :
      (claims : Verified)
      → is_nonempty token ≡ true
      → verify_claims ctx.verify token ctx.now ≡ ok claims
      → claims.totp_enrollment ≡ false
      → realtime_user ctx claims (ctx.load_user claims.username) ≡ some r
      → Agrees
  unfolding authenticate with_token with_user admit realtime_user
  user_agrees claims n good main h = elim (Option-cases (ctx.load_user claims.username)) [
    | inl gone ↦ absurd (cc (rw gone at h))
    | inr (user, stored) ↦ elim (Result-cases (get_totp_policy ctx.env)) [
      | inl (e, bad) ↦ absurd (ground arith)
      | inr (policy, policy_read) ↦ (
        session_of user claims,
        ground (arith, bearer_token-append),
        ground arith,
        ground arith,
        ground arith,
        main,
      )
    ]
  ]

  -- A user of the realtime channel gets through with the same token in the header of any request,
  -- as the same user with the same rights and not only to enroll.
  pub authenticate_of_realtime : authenticate_realtime ctx token ≡ some r → Agrees
  unfolding authenticate_realtime
  authenticate_of_realtime h = elim (Bool-cases (is_nonempty token)) [
    | inl n ↦ elim (Result-cases (verify_claims ctx.verify token ctx.now)) [
      | inl (e, bad) ↦ absurd (cc (rw (n, bad, authenticate_realtime) at h))
      | inr (claims, good) ↦ elim (Bool-cases claims.totp_enrollment) [
        | inl only ↦ absurd (ground arith)
        | inr main ↦ user_agrees claims n good main (ground arith)
      ]
    ]
    | inr n ↦ absurd (cc (rw (n, authenticate_realtime) at h))
  ]
