-- ===== src/Scheduler/Times.antt =====
-- Which texts are times.
use servidor_drive.Prelude.{
  ℕ, ◌+◌, ◌/◌, ◌%◌, ◌≤◌, ◌≡◌, ◌↔◌, refl, Bool, true, ◌&&◌, Option, some, [], ◌∷◌, leb, ◌==◌,
  is_digit, Text, arith, Bool-cases, inl, inr,
}
use servidor_drive.Prelude.Decimal.{is_digit-add}
use servidor_drive.Scheduler.{Time, parse_backup_time, two_digits}

-- The text of a time, with two digits for each number.
abbrev pub time_text : ℕ → ℕ → Text
time_text h m = (48 + h / 10) ∷ (48 + h % 10) ∷ b':' ∷ (48 + m / 10) ∷ (48 + m % 10) ∷ []

two_digits_lem : (n : ℕ) → n ≤ 59 → two_digits (48 + n / 10) (48 + n % 10) ≡ n
unfolding two_digits
two_digits_lem n h = omega arith

-- The tests on the five characters.
abbrev is_time : ℕ → ℕ → ℕ → ℕ → ℕ → Bool
is_time a b c d e =
    is_digit a
    && is_digit b
    && c == b':'
    && is_digit d
    && is_digit e
    && leb (two_digits a b) 23
    && leb (two_digits d e) 59

time_text-is_time :
    (h m : ℕ)
    → h ≤ 23
    → m ≤ 59
    → is_time (48 + h / 10) (48 + h % 10) b':' (48 + m / 10) (48 + m % 10) ≡ true
time_text-is_time h m a b = rw (is_digit-add (h / 10) (omega arith)) (
    rw (is_digit-add (h % 10) (omega arith)) (
      rw (is_digit-add (m / 10) (omega arith)) (
        rw (is_digit-add (m % 10) (omega arith))
          (rw (two_digits_lem h (omega arith)) (rw (two_digits_lem m b) (ground arith))))))

parse_time_text :
    (h m : ℕ)
    → h ≤ 23
    → m ≤ 59
    → parse_backup_time (time_text h m) ≡ some (record { hour = h; minute = m })
unfolding parse_backup_time
parse_time_text h m a b =
    rw (time_text-is_time h m a b)
      (rw (two_digits_lem h (omega arith)) (rw (two_digits_lem m b) refl))

digit_pair :
    (a b : ℕ)
    → is_digit a ≡ true
    → is_digit b ≡ true
    → (a ≡ 48 + two_digits a b / 10) × (b ≡ 48 + two_digits a b % 10)
unfolding two_digits is_digit
digit_pair a b h k =
    let lo : 48 ≤ a = ground arith in
    let hi : a ≤ 57 = ground arith in
    let low : 48 ≤ b = ground arith in
    let high : b ≤ 57 = ground arith in (omega arith, omega arith)

is_time-text :
    (a b c d e : ℕ)
    → is_time a b c d e ≡ true
    → (two_digits a b ≤ 23)
      × (two_digits d e ≤ 59)
      × (a ∷ b ∷ c ∷ d ∷ e ∷ [] ≡ time_text (two_digits a b) (two_digits d e))
is_time-text a b c d e h =
    let (p, q) = digit_pair a b (ground arith) (ground arith) in
    let (r, s) = digit_pair d e (ground arith) (ground arith) in
    let colon : c ≡ b':' = ground arith in (ground arith, ground arith, cc)

parsed :
    (t : Text) (time : Time)
    → parse_backup_time t ≡ some time
    → (time.hour ≤ 23) × (time.minute ≤ 59) × (t ≡ time_text time.hour time.minute)
unfolding parse_backup_time
parsed [] time h = absurd cc
parsed (a ∷ []) time h = absurd cc
parsed (a ∷ b ∷ []) time h = absurd cc
parsed (a ∷ b ∷ c ∷ []) time h = absurd cc
parsed (a ∷ b ∷ c ∷ d ∷ []) time h = absurd cc
parsed (a ∷ b ∷ c ∷ d ∷ e ∷ f ∷ rest) time h = absurd cc
parsed (a ∷ b ∷ c ∷ d ∷ e ∷ []) time h = elim (Bool-cases (is_time a b c d e)) [
  | inr f ↦ absurd (cc (rw f at h))
  | inl t ↦
      let same : Path (Option Time)
          (some (record { hour = two_digits a b; minute = two_digits d e })) (some time) =
        rw t at h in
      let p : two_digits a b ≡ time.hour = cc in
      let q : two_digits d e ≡ time.minute = cc in rw (← p) (rw (← q) (is_time-text a b c d e t))
]

-- The texts that are read as times are those of the minutes of the day, each with its hour and minute.
pub parse_backup_time_iff :
    (t : Text) (time : Time)
    → (parse_backup_time t ≡ some time)
      ↔ ((time.hour ≤ 23) × (time.minute ≤ 59) × (t ≡ time_text time.hour time.minute))
parse_backup_time_iff t time =
    (parsed t time, λ (a, b, e). rw e (parse_time_text time.hour time.minute a b))
