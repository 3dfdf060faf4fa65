-- ===== src/Prelude/Base64.antt =====
-- `Buffer.toString("base64url")`: the URL alphabet, without padding.
use Prim.Native.Nat.{ℕ, ◌+◌, ◌-◌, ◌*◌, ◌/◌, ◌%◌, ◌<◌}
use mathlib.Core.Path.{◌≡◌, refl}
use mathlib.Core.Bool.{Bool, true, false, ◌&&◌, ◌||◌}
use mathlib.Core.List.{List, [], ◌∷◌}
use native.Mathlib.Omega.{arith}
use servidor_drive.Prelude.Tests.{ltb, leb, ◌==◌, if◌then◌else◌}
use servidor_drive.Prelude.Lists.{length, every, All}
use servidor_drive.Prelude.Chars.{Text}

unfoldable pub base64_character : ℕ → ℕ
base64_character d =
    if ltb d 26
    then b'A' + d
    else if ltb d 52
    then b'a' + (d - 26)
    else if ltb d 62
    then b'0' + (d - 52)
    else if d == 62
    then b'-'
    else b'_'

unfoldable pub base64url : List ℕ → Text
unfolding base64_character
base64url [] = []
base64url (a ∷ []) = base64_character (a / 4) ∷ base64_character (a % 4 * 16) ∷ []
base64url (a ∷ b ∷ []) =
    base64_character (a / 4)
    ∷ base64_character (a % 4 * 16 + b / 16)
    ∷ base64_character (b % 16 * 4)
    ∷ []
base64url (a ∷ b ∷ c ∷ rest) =
    base64_character (a / 4)
    ∷ base64_character (a % 4 * 16 + b / 16)
    ∷ base64_character (b % 16 * 4 + c / 64)
    ∷ base64_character (c % 64)
    ∷ base64url rest

-- The value of a character of the alphabet.
unfoldable pub base64_value : ℕ → ℕ
base64_value c =
    if c == b'-'
    then 62
    else if c == b'_'
    then 63
    else if leb b'a' c
    then c - b'a' + 26
    else if leb b'A' c
    then c - b'A'
    else c - b'0' + 52

-- `/^[A-Za-z0-9_-]+$/`, for one character
unfoldable pub is_base64_character : ℕ → Bool
is_base64_character c =
    (leb b'A' c && leb c b'Z')
    || (leb b'a' c && leb c b'z')
    || (leb b'0' c && leb c b'9')
    || c == b'_'
    || c == b'-'

-- `Buffer.from(s, "base64url")`, for characters of the alphabet.
unfoldable pub from_base64url : Text → List ℕ
unfolding base64_value
from_base64url [] = []
from_base64url (p ∷ []) = []
from_base64url (p ∷ q ∷ []) = (base64_value p * 4 + base64_value q / 16) ∷ []
from_base64url (p ∷ q ∷ r ∷ []) =
    (base64_value p * 4 + base64_value q / 16)
    ∷ (base64_value q % 16 * 16 + base64_value r / 4)
    ∷ []
from_base64url (p ∷ q ∷ r ∷ s ∷ rest) =
    (base64_value p * 4 + base64_value q / 16)
    ∷ (base64_value q % 16 * 16 + base64_value r / 4)
    ∷ (base64_value r % 4 * 64 + base64_value s)
    ∷ from_base64url rest

base64_value-base64_character : (d : ℕ) → d < 64 → base64_value (base64_character d) ≡ d
unfolding base64_value base64_character
base64_value-base64_character d h = ground arith

is_base64_character-base64_character : (d : ℕ) → is_base64_character (base64_character d) ≡ true
unfolding is_base64_character base64_character
is_base64_character-base64_character d = ground arith

abbrev sextet : (d : ℕ) → d < 64 → base64_value (base64_character d) ≡ d
sextet = base64_value-base64_character

first_byte : (a b : ℕ) → b < 256 → a / 4 * 4 + (a % 4 * 16 + b / 16) / 16 ≡ a
first_byte a b h = omega arith

second_byte :
    (a b c : ℕ)
    → c < 256
    → (a % 4 * 16 + b / 16) % 16 * 16 + (b % 16 * 4 + c / 64) / 4 ≡ b / 16 % 16 * 16 + b % 16
second_byte a b c h = omega arith

third_byte : (b c : ℕ) → (b % 16 * 4 + c / 64) % 4 * 64 + c % 64 ≡ c / 64 % 4 * 64 + c % 64
third_byte b c = omega arith

-- Bytes come back from their text.
pub from_base64url-base64url :
    (bs : List ℕ) → All (λ b. b < 256) bs → from_base64url (base64url bs) ≡ bs
unfolding from_base64url base64url
from_base64url-base64url [] h = refl
from_base64url-base64url (a ∷ []) (ha, h) = rw (sextet (a / 4) (omega arith)) (
    rw (sextet (a % 4 * 16) (omega arith))
      (let e : a / 4 * 4 + a % 4 * 16 / 16 ≡ a = omega arith in rw e refl))
from_base64url-base64url (a ∷ b ∷ []) (ha, (hb, h)) = rw (sextet (a / 4) (omega arith)) (
    rw (sextet (a % 4 * 16 + b / 16) (omega arith)) (
      rw (sextet (b % 16 * 4) (omega arith)) (
        let e : (a % 4 * 16 + b / 16) % 16 * 16 + b % 16 * 4 / 4 ≡ b = omega arith in
        rw (first_byte a b hb) (rw e refl))))
from_base64url-base64url (a ∷ b ∷ c ∷ rest) (ha, (hb, (hc, h))) =
    rw (sextet (a / 4) (omega arith)) (
      rw (sextet (a % 4 * 16 + b / 16) (omega arith)) (
        rw (sextet (b % 16 * 4 + c / 64) (omega arith)) (
          rw (sextet (c % 64) (omega arith)) (
            let e : b / 16 % 16 * 16 + b % 16 ≡ b = omega arith in
            let f : c / 64 % 4 * 64 + c % 64 ≡ c = omega arith in
            rw (first_byte a b hb) (
              rw (second_byte a b c hc, e)
                (rw (third_byte b c, f) (rw (from_base64url-base64url rest h) refl)))))))

pub base64url-characters : (bs : List ℕ) → every is_base64_character (base64url bs) ≡ true
unfolding base64url
base64url-characters [] = refl
base64url-characters (a ∷ []) = simp is_base64_character-base64_character refl
base64url-characters (a ∷ b ∷ []) = simp is_base64_character-base64_character refl
base64url-characters (a ∷ b ∷ c ∷ rest) =
    simp (is_base64_character-base64_character, base64url-characters rest) refl

pub length-base64url : (bs : List ℕ) → (length (base64url bs) % 4 == 1) ≡ false
unfolding base64url
length-base64url [] = refl
length-base64url (a ∷ []) = refl
length-base64url (a ∷ b ∷ []) = refl
length-base64url (a ∷ b ∷ c ∷ rest) = ground (arith, length-base64url rest)
