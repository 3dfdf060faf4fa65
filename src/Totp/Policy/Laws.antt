-- ===== src/Totp/Policy/Laws.antt =====
-- What a policy that is accepted says, and whom each mode concerns.
use servidor_drive.Prelude.{
  ◌≡◌, ◌⊎◌, refl, sym, inl, inr, true, false, not, ◌||◌, Option, List, [], ◌∷◌, any, Result, ok,
  err, codes, Text, text_eq, text_in, eq_of_text_eq, is_nonempty, if◌then◌else◌, arith, Bool-cases,
  All,
}
use servidor_drive.Totp.Policy.{
  Env, TotpPolicy, PolicyError, totp_policy_invalid, get_totp_policy, requested_mode, role_values,
  is_totp_required, valid_modes, has_role,
}

All-any_empty :
    (roles : List Text)
    → any (λ role. not (is_nonempty role)) roles ≡ false
    → All (λ role. is_nonempty role ≡ true) roles
All-any_empty [] h = tt
All-any_empty (role ∷ roles) h = (ground arith, All-any_empty roles (ground arith))

module _ (mode : Text) (roles : List Text) where
  abbrev checked : Result PolicyError TotpPolicy
  checked =
      if not (text_in mode valid_modes)
      then err totp_policy_invalid
      else if not (is_nonempty roles) || any (λ role. not (is_nonempty role)) roles
      then err totp_policy_invalid
      else ok (record { mode = mode; roles = roles })

  checked_sound :
      (policy : TotpPolicy)
      → checked ≡ ok policy
      → (mode ≡ policy.mode)
        × (roles ≡ policy.roles)
        × (text_in mode valid_modes ≡ true)
        × (is_nonempty roles ≡ true)
        × (any (λ role. not (is_nonempty role)) roles ≡ false)
  checked_sound policy h = elim (Bool-cases (text_in mode valid_modes)) [
    | inl known ↦
        elim (Bool-cases (not (is_nonempty roles) || any (λ role. not (is_nonempty role)) roles)) [
          | inl bad ↦ absurd (cc (rw (known, bad) at h))
          | inr good ↦
              let e : Path (Result PolicyError TotpPolicy)
                  (ok (record { mode = mode; roles = roles })) (ok policy) =
                rw (known, good) at h in
              (cc, cc, known, ground arith, ground arith)
        ]
    | inr unknown ↦ absurd (cc (rw unknown at h))
  ]

-- An accepted policy is the environment's, with a known mode, at least one role and no empty role:
-- a list of roles with a stray comma is refused instead of naming nobody.
pub get_totp_policy_sound :
    (env : Env) (policy : TotpPolicy)
    → get_totp_policy env ≡ ok policy
    → (requested_mode env.totp_policy ≡ policy.mode)
      × (role_values env.totp_required_roles ≡ policy.roles)
      × (text_in policy.mode valid_modes ≡ true)
      × (is_nonempty policy.roles ≡ true)
      × All (λ role. is_nonempty role ≡ true) policy.roles
unfolding get_totp_policy
get_totp_policy_sound env policy h =
    let (same_mode, same_roles, known, some_role, no_empty) =
      checked_sound (requested_mode env.totp_policy) (role_values env.totp_required_roles) policy
        h in
    (
      same_mode,
      same_roles,
      rw (← same_mode) known,
      rw (← same_roles) some_role,
      rw (← same_roles) (All-any_empty _ no_empty),
    )

mode_cases :
    (role : Option Text) (mode : Text) (roles : List Text)
    → text_in mode valid_modes ≡ true
    → let policy : TotpPolicy = record { mode = mode; roles = roles } in
      ((mode ≡ codes "optional") × (is_totp_required role policy ≡ false))
      ⊎ ((mode ≡ codes "global-required") × (is_totp_required role policy ≡ true))
      ⊎ ((mode ≡ codes "role-required") × (is_totp_required role policy ≡ has_role role roles))
mode_cases role mode roles k = elim (Bool-cases (text_eq (codes "optional") mode)) [
  | inl a ↦
      let e = eq_of_text_eq _ mode a in
      inl (sym e, unfold is_totp_required text_eq in rw (← e) refl)
  | inr a ↦ elim (Bool-cases (text_eq (codes "role-required") mode)) [
    | inl b ↦
        let e = eq_of_text_eq _ mode b in
        inr (inr (sym e, unfold is_totp_required text_eq in rw (← e) refl))
    | inr b ↦
        let e = eq_of_text_eq (codes "global-required") mode (ground arith) in
        inr (inl (sym e, unfold is_totp_required text_eq in rw (← e) refl))
  ]
]

-- Under an accepted policy a second factor is required of nobody, of everybody, or of the users
-- with a listed role, as its mode is.
pub is_totp_required_cases :
    (env : Env) (policy : TotpPolicy) (role : Option Text)
    → get_totp_policy env ≡ ok policy
    → ((policy.mode ≡ codes "optional") × (is_totp_required role policy ≡ false))
      ⊎ ((policy.mode ≡ codes "global-required") × (is_totp_required role policy ≡ true))
      ⊎ ((policy.mode ≡ codes "role-required")
          × (is_totp_required role policy ≡ has_role role policy.roles))
is_totp_required_cases env policy role h =
    mode_cases role policy.mode policy.roles (get_totp_policy_sound env policy h).2
