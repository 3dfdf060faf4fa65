-- ===== src/Totp/Base32/Blocks.antt =====
-- Encoding and decoding by blocks: five bytes are eight characters.
use servidor_drive.Prelude.{
  ℕ, zero, suc, ◌+◌, ◌*◌, ◌/◌, ◌%◌, ◌<◌, ◌≡◌, refl, Bool, true, ◌&&◌, List, [], ◌∷◌, ◌++◌, ◌==◌,
  arith, All,
}
use servidor_drive.Totp.Base32.{
  to_character, to_digit, shift_in, bits_at, encode_from, decode_from, is_base32,
}

-- A test that succeeds at each of the numbers below a bound.
holds_below : (ℕ → Bool) → ℕ → Bool
holds_below test zero = true
holds_below test (suc bound) = holds_below test bound && test bound

holds_below_lem :
    (test : ℕ → Bool) (bound d : ℕ) → d < bound → holds_below test bound ≡ true → test d ≡ true
unfolding holds_below
holds_below_lem test (suc bound) d l e = ground (arith, holds_below_lem test bound d)
holds_below_lem test zero d l e = absurd (omega arith)

digits_table : holds_below (λ d. to_digit (to_character d) == d) 32 ≡ true
unfolding holds_below to_digit to_character
digits_table = refl

-- The alphabet lists no character twice.
pub to_digit-to_character : (d : ℕ) → d < 32 → to_digit (to_character d) ≡ d
to_digit-to_character d h =
    let e : (to_digit (to_character d) == d) ≡ true =
      holds_below_lem (λ d. to_digit (to_character d) == d) 32 d h digits_table in
    ground arith

characters_table : holds_below (λ d. is_base32 (to_character d)) 32 ≡ true
unfolding holds_below to_character is_base32
characters_table = refl

is_base32-to_character : (d : ℕ) → d < 32 → is_base32 (to_character d) ≡ true
is_base32-to_character d h =
    holds_below_lem (λ d. is_base32 (to_character d)) 32 d h characters_table

-- The characters of a block.
pub block : ℕ → ℕ → ℕ → ℕ → ℕ → List ℕ
block a b c d e =
    to_character (a / 8)
    ∷ to_character (a % 8 * 4 + b / 64)
    ∷ to_character (b / 2 % 32)
    ∷ to_character (b % 2 * 16 + c / 16)
    ∷ to_character (c % 16 * 2 + d / 128)
    ∷ to_character (d / 4 % 32)
    ∷ to_character (d % 4 * 8 + e / 32)
    ∷ to_character (e % 32)
    ∷ []

-- The value of the encoder after the bytes of a block.
abbrev pub after : ℕ → ℕ → ℕ → ℕ → ℕ → ℕ → ℕ
after v a b c d e = shift_in 8 (shift_in 8 (shift_in 8 (shift_in 8 (shift_in 8 v a) b) c) d) e

-- What one byte brings: the digits that it completes, over the value `x` before it.
module _ (x byte : ℕ) (h : byte < 256) where
  low8 : shift_in 8 x byte % 8 ≡ byte % 8
  low8 = omega arith

  low16 : shift_in 8 x byte % 16 ≡ byte % 16
  low16 = omega arith

  low4 : shift_in 8 x byte % 4 ≡ byte % 4
  low4 = omega arith

  low2 : shift_in 8 x byte % 2 ≡ byte % 2
  low2 = omega arith

  digit3 : bits_at 5 3 (shift_in 8 x byte) ≡ byte / 8
  digit3 = omega arith

  digit6 : bits_at 5 6 (shift_in 8 x byte) ≡ x % 8 * 4 + byte / 64
  digit6 = omega arith

  digit1 : bits_at 5 1 (shift_in 8 x byte) ≡ byte / 2 % 32
  digit1 = omega arith

  digit4 : bits_at 5 4 (shift_in 8 x byte) ≡ x % 2 * 16 + byte / 16
  digit4 = omega arith

  digit7 : bits_at 5 7 (shift_in 8 x byte) ≡ x % 16 * 2 + byte / 128
  digit7 = omega arith

  digit2 : bits_at 5 2 (shift_in 8 x byte) ≡ byte / 4 % 32
  digit2 = omega arith

  digit5 : bits_at 5 5 (shift_in 8 x byte) ≡ x % 4 * 8 + byte / 32
  digit5 = omega arith

  digit0 : bits_at 5 0 (shift_in 8 x byte) ≡ byte % 32
  digit0 = omega arith

pub encode_block :
    (v a b c d e : ℕ) (rest : List ℕ)
    → a < 256
    → b < 256
    → c < 256
    → d < 256
    → e < 256
    → encode_from v 0 (a ∷ b ∷ c ∷ d ∷ e ∷ rest)
      ≡ block a b c d e ++ encode_from (after v a b c d e) 0 rest
unfolding encode_from block
encode_block v a b c d e rest ha hb hc hd he =
    let v1 : ℕ = shift_in 8 v a in
    let v2 : ℕ = shift_in 8 v1 b in
    let v3 : ℕ = shift_in 8 v2 c in
    let v4 : ℕ = shift_in 8 v3 d in
    rw (
      digit3 v a ha,
      digit6 v1 b hb,
      low8 v a ha,
      digit1 v1 b hb,
      digit4 v2 c hc,
      low2 v1 b hb,
      digit7 v3 d hd,
      low16 v2 c hc,
      digit2 v3 d hd,
      digit5 v4 e he,
      low4 v3 d hd,
      digit0 v4 e he,
    )

-- The bytes that the digits of a block give back, over any value before them.
module _ (x a b c d e : ℕ) (ha : a < 256) (hb : b < 256) (hc : c < 256) (hd : d < 256)
    (he : e < 256) where
  abbrev pub x1 : ℕ
  x1 = shift_in 5 x (a / 8)

  abbrev pub x2 : ℕ
  x2 = shift_in 5 x1 (a % 8 * 4 + b / 64)

  abbrev pub x3 : ℕ
  x3 = shift_in 5 x2 (b / 2 % 32)

  abbrev pub x4 : ℕ
  x4 = shift_in 5 x3 (b % 2 * 16 + c / 16)

  abbrev pub x5 : ℕ
  x5 = shift_in 5 x4 (c % 16 * 2 + d / 128)

  abbrev pub x6 : ℕ
  x6 = shift_in 5 x5 (d / 4 % 32)

  abbrev pub x7 : ℕ
  x7 = shift_in 5 x6 (d % 4 * 8 + e / 32)

  abbrev pub x8 : ℕ
  x8 = shift_in 5 x7 (e % 32)

  low_x2 : x2 % 4 ≡ b / 64
  low_x2 = omega arith

  low_x4 : x4 % 16 ≡ c / 16
  low_x4 = omega arith

  low_x5 : x5 % 2 ≡ d / 128
  low_x5 = omega arith

  low_x7 : x7 % 8 ≡ e / 32
  low_x7 = omega arith

  byte_a : bits_at 8 2 x2 ≡ a
  byte_a = omega arith

  byte_b : bits_at 8 4 x4 ≡ b
  byte_b = omega (arith, low_x2)

  byte_c : bits_at 8 1 x5 ≡ c
  byte_c = omega (arith, low_x4)

  byte_d : bits_at 8 3 x7 ≡ d
  byte_d = omega (arith, low_x5)

  byte_e : bits_at 8 0 x8 ≡ e
  byte_e = omega (arith, low_x7)

  pub decode_block :
      (rest : List ℕ)
      → decode_from x 0 (block a b c d e ++ rest) ≡ a ∷ b ∷ c ∷ d ∷ e ∷ decode_from x8 0 rest
  unfolding decode_from block
  decode_block rest = rw (
    to_digit-to_character (a / 8) (omega arith),
    to_digit-to_character (a % 8 * 4 + b / 64) (omega arith),
    byte_a,
    to_digit-to_character (b / 2 % 32) (omega arith),
    to_digit-to_character (b % 2 * 16 + c / 16) (omega arith),
    byte_b,
    to_digit-to_character (c % 16 * 2 + d / 128) (omega arith),
    byte_c,
    to_digit-to_character (d / 4 % 32) (omega arith),
    to_digit-to_character (d % 4 * 8 + e / 32) (omega arith),
    byte_d,
    to_digit-to_character (e % 32) (omega arith),
    byte_e,
  )

abbrev pub IsBase32 : List ℕ → Type 0
IsBase32 cs = All (λ x. is_base32 x ≡ true) cs

pub block-IsBase32 :
    (a b c d e : ℕ)
    → a < 256
    → b < 256
    → c < 256
    → d < 256
    → e < 256
    → (rest : List ℕ) → IsBase32 rest
    → IsBase32 (block a b c d e ++ rest)
unfolding block
block-IsBase32 a b c d e ha hb hc hd he rest r = (
  is_base32-to_character _ (omega arith),
  (
    is_base32-to_character _ (omega arith),
    (
      is_base32-to_character _ (omega arith),
      (
        is_base32-to_character _ (omega arith),
        (
          is_base32-to_character _ (omega arith),
          (
            is_base32-to_character _ (omega arith),
            (is_base32-to_character _ (omega arith), (is_base32-to_character _ (omega arith), r)),
          ),
        ),
      ),
    ),
  ),
)
