-- ===== src/Totp/Otp/Window.antt =====
-- Which step a one-time password is accepted for.
use servidor_drive.Prelude.{
  ℕ, zero, suc, ◌+◌, ◌-◌, ◌*◌, ◌≡◌, ◌⊎◌, refl, ◌≤◌, ◌<◌, Option, none, some, ltb, inl, inr,
  Bool-cases, Option-cases, if◌then◌else◌, Result, ok, ◌>>=◌, Text, text_eq, eq_of_text_eq,
  text_eq_refl, arith, >>=-eq-ok,
}
use native.Mathlib.Decide.{ℕ_discrete}
use servidor_drive.Totp.Base32.{TotpError}
use servidor_drive.Totp.Otp.{
  Hmac, hotp, verify_from, verify_totp, normalize_otp, window_of, step_at,
}

module _ (h : Hmac) (secret otp : Text) (current window : ℕ) where
  accepted :
      (expected : Text) (s : ℕ) {t : ℕ} (rest : Result TotpError (Option ℕ))
      → (if text_eq expected otp then ok (some s) else rest) ≡ ok (some t)
      → ((expected ≡ otp) × (s ≡ t)) ⊎ (rest ≡ ok (some t))
  accepted expected s rest e = ground (arith, eq_of_text_eq expected otp)

  refused :
      (expected : Text) (s : ℕ) (rest : Result TotpError (Option ℕ))
      → (if text_eq expected otp then ok (some s) else rest) ≡ ok none
      → ¬ (expected ≡ otp) × (rest ≡ ok none)
  refused expected s rest e = elim (Bool-cases (text_eq expected otp)) [
    | inl t ↦ absurd (cc (rw t at e))
    | inr f ↦ (λ p. cc (rw p at f, text_eq_refl otp), rw f at e)
  ]

  abbrev tail : ℕ → ℕ → Result TotpError (Option ℕ)
  tail rounds i = verify_from h secret otp current window rounds (i + 1)

  abbrev choice : ℕ → ℕ → Text → Result TotpError (Option ℕ)
  choice rounds i expected =
      if text_eq expected otp then ok (some (current + i - window)) else tail rounds i

  abbrev here : ℕ → ℕ → Result TotpError (Option ℕ)
  here rounds i = hotp h secret (current + i - window) >>= choice rounds i

  verify_from-suc :
      (rounds i : ℕ)
      → verify_from h secret otp current window (suc rounds) i
        ≡ (if ltb (current + i) window then tail rounds i else here rounds i)
  unfolding verify_from
  verify_from-suc rounds i = refl

  abbrev Found : ℕ → ℕ → ℕ → Type 0
  Found rounds i s =
      (hotp h secret s ≡ ok otp) × (current + i ≤ s + window) × (s + window < current + i + rounds)

  widen : (rounds i s : ℕ) → Found rounds (i + 1) s → Found (suc rounds) i s
  widen rounds i s (m, lo, hi) = (m, omega arith, omega arith)

  verify_from_sound :
      (rounds i s : ℕ)
      → verify_from h secret otp current window rounds i ≡ ok (some s)
      → Found rounds i s
  verify_from_sound zero i s e = unfold verify_from in cc
  verify_from_sound (suc rounds) i s e = elim (Bool-cases (ltb (current + i) window)) [
    | inl skip ↦
        widen rounds i s
          (verify_from_sound rounds (i + 1) s (rw (verify_from-suc rounds i, skip) at e))
    | inr go ↦
        let (expected, made, e') =
          >>=-eq-ok (hotp h secret (current + i - window)) (choice rounds i)
            (rw (verify_from-suc rounds i, go) at e) in
        elim (accepted expected (current + i - window) (tail rounds i) e') [
          | inl (p, q) ↦ (rw (← q) (rw made (rw p)), ground arith, ground arith)
          | inr later ↦ widen rounds i s (verify_from_sound rounds (i + 1) s later)
        ]
  ]

  verify_from_complete :
      (rounds i s : ℕ)
      → verify_from h secret otp current window rounds i ≡ ok none
      → current + i ≤ s + window
      → s + window < current + i + rounds
      → ¬ (hotp h secret s ≡ ok otp)
  verify_from_complete zero i s e lo hi m = omega arith
  verify_from_complete (suc rounds) i s e lo hi m = elim (Bool-cases (ltb (current + i) window)) [
    | inl skip ↦
        verify_from_complete rounds (i + 1) s (rw (verify_from-suc rounds i, skip) at e)
          (ground arith) (omega arith) m
    | inr go ↦
        let (expected, made, e') =
          >>=-eq-ok (hotp h secret (current + i - window)) (choice rounds i)
            (rw (verify_from-suc rounds i, go) at e) in
        let (differs, later) = refused expected (current + i - window) (tail rounds i) e' in
        elim (ℕ_discrete (current + i) (s + window)) [
          | yes p ↦ let at : current + i - window ≡ s = omega arith in differs (cc (rw at at made))
          | no q ↦ verify_from_complete rounds (i + 1) s later (omega arith) (omega arith) m
        ]
  ]

-- An accepted password is the one of the step that is returned, and that step is at most the
-- window away from the current one.
pub verify_totp_sound :
    (h : Hmac) (secret value : Text) (now : ℕ) (window : Option ℕ) (s : ℕ)
    → verify_totp h secret value now window ≡ ok (some s)
    → (otp : Text) × (normalize_otp value ≡ some otp)
      × (hotp h secret s ≡ ok otp)
      × (step_at h now ≤ s + window_of h window)
      × (s ≤ step_at h now + window_of h window)
unfolding verify_totp
verify_totp_sound h secret value now window s e = elim (Option-cases (normalize_otp value)) [
  | inl n ↦ absurd (cc (rw (n, verify_totp) at e))
  | inr (otp, n) ↦
      let (m, lo, hi) =
        verify_from_sound h secret otp (step_at h now) (window_of h window)
          (2 * window_of h window + 1) 0 s (rw (n, verify_totp) at e) in
      (otp, n, m, omega arith, omega arith)
]

-- A password that is refused, with a secret that decodes, is that of no step of the window.
pub verify_totp_complete :
    (h : Hmac) (secret value otp : Text) (now : ℕ) (window : Option ℕ) (s : ℕ)
    → normalize_otp value ≡ some otp
    → verify_totp h secret value now window ≡ ok none
    → step_at h now ≤ s + window_of h window
    → s ≤ step_at h now + window_of h window
    → ¬ (hotp h secret s ≡ ok otp)
unfolding verify_totp
verify_totp_complete h secret value otp now window s n e lo hi =
    verify_from_complete h secret otp (step_at h now) (window_of h window)
      (2 * window_of h window + 1) 0 s (rw (n, verify_totp) at e) (omega arith) (omega arith)
