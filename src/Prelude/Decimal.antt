-- ===== src/Prelude/Decimal.antt =====
-- The decimal text of a number: its digits, its length, and the number that it spells.
use Prim.Native.Nat.{ℕ, zero, suc, ◌+◌, ◌-◌, ◌*◌, ◌/◌, ◌%◌, ◌^◌, ◌≤◌, ◌<◌}
use mathlib.Core.Path.{◌≡◌, refl, sym, ◌∙◌, ap}
use mathlib.Core.Logic.{inl, inr}
use mathlib.Core.Bool.{true}
use mathlib.Core.List.{[], ◌∷◌}
use native.Mathlib.Omega.{arith}
use servidor_drive.Prelude.Tests.{ltb, lt→ltb, Bool-cases}
use servidor_drive.Prelude.Lists.{length, every}
use servidor_drive.Prelude.Chars.{Text, is_digit, decimal_from, decimal}

-- The number that a text of digits spells, after `v`.
abbrev pub spelled : ℕ → Text → ℕ
spelled v [] = v
spelled v (c ∷ cs) = spelled (v * 10 + (c - 48)) cs

abbrev pub Fits : ℕ → ℕ → Type 0
Fits zero n = n < 10
Fits (suc d) n = Fits d (n / 10)

pub is_digit-add : (d : ℕ) → d < 10 → is_digit (48 + d) ≡ true
unfolding is_digit
is_digit-add d l = ground arith

pub decimal_from-digits :
    (rounds n : ℕ) (acc : Text)
    → every is_digit acc ≡ true
    → every is_digit (decimal_from rounds n acc) ≡ true
unfolding decimal_from
decimal_from-digits zero n acc h = h
decimal_from-digits (suc rounds) n acc h = ground (
  arith,
  decimal_from-digits rounds (n / 10) ((48 + n % 10) ∷ acc),
  is_digit-add (n % 10),
  is_digit-add n,
)

spelled_digit :
    (v d n : ℕ) (acc : Text) → v * 10 + d ≡ n → spelled v ((48 + d) ∷ acc) ≡ spelled n acc
spelled_digit v d n acc h = let e : v * 10 + (48 + d - 48) ≡ n = omega arith in rw e

pub spelled-decimal_from :
    (d rounds n : ℕ) (acc : Text)
    → Fits d n
    → d < rounds
    → spelled 0 (decimal_from rounds n acc) ≡ spelled n acc
unfolding decimal_from
spelled-decimal_from d zero n acc f l = absurd (omega arith)
spelled-decimal_from zero (suc rounds) n acc f l =
    rw (lt→ltb n 10 f) (spelled_digit 0 n n acc (omega arith))
spelled-decimal_from (suc d) (suc rounds) n acc f l = elim (Bool-cases (ltb n 10)) [
  | inl low ↦ rw low (spelled_digit 0 n n acc (omega arith))
  | inr high ↦ rw high (
      spelled-decimal_from d rounds (n / 10) ((48 + n % 10) ∷ acc) f (omega arith)
      ∙ spelled_digit (n / 10) (n % 10) n acc (omega arith))
]

pub length-decimal_from :
    (d rounds n : ℕ) (acc : Text)
    → Fits d n
    → d < rounds
    → length (decimal_from rounds n acc) ≤ suc d + length acc
unfolding decimal_from
length-decimal_from d zero n acc f l = absurd (omega arith)
length-decimal_from zero (suc rounds) n acc f l = ground arith
length-decimal_from (suc d) (suc rounds) n acc f l =
    ground (arith, length-decimal_from d rounds (n / 10) ((48 + n % 10) ∷ acc))

Fits-fifteen : (n : ℕ) → n < 10 ^ 16 → Fits 15 n
Fits-fifteen n h = omega arith

-- Numbers up to the largest safe integer are told apart by their texts.
pub decimal_injective : (m n : ℕ) → m < 10 ^ 16 → n < 10 ^ 16 → decimal m ≡ decimal n → m ≡ n
unfolding decimal
decimal_injective m n hm hn e =
    sym (spelled-decimal_from 15 20 m [] (Fits-fifteen m hm) (omega arith))
    ∙ ap (spelled 0) e
    ∙ spelled-decimal_from 15 20 n [] (Fits-fifteen n hn) (omega arith)

pub decimal-digits : (n : ℕ) → every is_digit (decimal n) ≡ true
unfolding decimal
decimal-digits n = decimal_from-digits 20 n [] refl
