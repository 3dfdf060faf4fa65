-- ===== src/Totp/Base32.antt =====
-- `base32Encode` and `base32Decode` of src/services/totp.js. Texts are lists of code points.
pub mod Blocks
pub mod RoundTrip
use servidor_drive.Prelude.{
  ℕ, zero, suc, ◌+◌, ◌-◌, ◌*◌, ◌/◌, ◌%◌, ◌^◌, Bool, true, false, not, ◌&&◌, ◌||◌, List, [], ◌∷◌,
  ◌++◌, map, leb, ltb, ◌==◌, if◌then◌else◌, codes, every, length, is_nonempty, strip_spaces, Result,
  ok, err,
}

abbrev pub secret_bytes : ℕ
secret_bytes = 20

abbrev pub base32_alphabet : List ℕ
base32_alphabet = codes "ABCDEFGHIJKLMNOPQRSTUVWXYZ234567"

abbrev get_or : List ℕ → ℕ → ℕ → ℕ
get_or [] i d = d
get_or (x ∷ xs) zero d = x
get_or (x ∷ xs) (suc i) d = get_or xs i d

-- `indexOf`, for a character that is there.
abbrev index_of : ℕ → List ℕ → ℕ
index_of c [] = 0
index_of c (x ∷ xs) = let rest = index_of c xs in if x == c then 0 else suc rest

-- `BASE32_ALPHABET[digit]` and `BASE32_ALPHABET.indexOf(character)`
unfoldable pub to_character : ℕ → ℕ
to_character digit = get_or base32_alphabet digit 0

unfoldable pub to_digit : ℕ → ℕ
to_digit c = index_of c base32_alphabet

-- `(value << k) | low` on 32 bits, for `low` below 2 ^ k: the bits that are joined are disjoint.
abbrev pub shift_in : ℕ → ℕ → ℕ → ℕ
shift_in k value low = value * 2 ^ k % 2 ^ 32 + low

-- `(value >>> k) & (2 ^ width - 1)`
abbrev pub bits_at : ℕ → ℕ → ℕ → ℕ
bits_at width k value = value / 2 ^ k % 2 ^ width

-- The inner loop of the encoder, on fuel: `bits` falls by five in each round.
unfoldable pub emit : ℕ → ℕ → ℕ → List ℕ × ℕ
unfolding to_character
emit zero value bits = ([], bits)
emit (suc fuel) value bits =
    let more = emit fuel value (bits - 5) in
    if leb 5 bits then (to_character (bits_at 5 (bits - 5) value) ∷ more.0, more.1) else ([], bits)

-- The last character takes the bits that are left, filled up with zeros.
abbrev pub encode_rest : ℕ → ℕ → List ℕ
encode_rest value bits =
    if bits == 0 then [] else to_character (value * 2 ^ (5 - bits) % 2 ^ 32 % 32) ∷ []

unfoldable pub encode_from : ℕ → ℕ → List ℕ → List ℕ
unfolding emit
encode_from value bits [] = encode_rest value bits
encode_from value bits (byte ∷ bytes) =
    let value' = shift_in 8 value byte in
    let (out, bits') = emit (bits + 8) value' (bits + 8) in out ++ encode_from value' bits' bytes

unfoldable pub base32_encode : List ℕ → List ℕ
unfolding encode_from
base32_encode bytes = encode_from 0 0 bytes

-- `replace(/=+$/g, "")`
unfoldable pub strip_padding : List ℕ → List ℕ
strip_padding [] = []
strip_padding (c ∷ cs) = elim (strip_padding cs) [
  | [] ↦ if c == b'=' then [] else c ∷ []
  | d ∷ ds ↦ c ∷ d ∷ ds
]

-- `toUpperCase`, as far as the test after it sees: every code point whose upper case is made of
-- ASCII letters is here, and any other that is not ASCII keeps a character outside the alphabet.
unfoldable pub upper : ℕ → List ℕ
upper c =
    if leb b'a' c && leb c b'z'
    then (c - 32) ∷ []
    else if c == 0xdf
    then codes "SS"
    else if c == 0x131
    then codes "I"
    else if c == 0x17f
    then codes "S"
    else if c == 0xfb00
    then codes "FF"
    else if c == 0xfb01
    then codes "FI"
    else if c == 0xfb02
    then codes "FL"
    else if c == 0xfb03
    then codes "FFI"
    else if c == 0xfb04
    then codes "FFL"
    else if c == 0xfb05
    then codes "ST"
    else if c == 0xfb06
    then codes "ST"
    else c ∷ []

unfoldable pub to_upper_case : List ℕ → List ℕ
to_upper_case [] = []
to_upper_case (c ∷ cs) = upper c ++ to_upper_case cs

-- `[A-Z2-7]`
unfoldable pub is_base32 : ℕ → Bool
is_base32 c = (leb b'A' c && leb c b'Z') || (leb b'2' c && leb c b'7')

-- The loop of the decoder.
unfoldable pub decode_from : ℕ → ℕ → List ℕ → List ℕ
unfolding to_digit
decode_from current bits [] = []
decode_from current bits (c ∷ cs) =
    let current' = shift_in 5 current (to_digit c) in
    let short = decode_from current' (bits + 5) cs in
    let full = bits_at 8 (bits + 5 - 8) current' ∷ decode_from current' (bits + 5 - 8) cs in
    if leb 8 (bits + 5) then full else short

pub data TotpError : Type 0 where
  invalid_secret key_unavailable invalid_record invalid_code invalid_count : TotpError

unfoldable pub base32_decode : List ℕ → Result TotpError (List ℕ)
base32_decode value =
    let normalized = to_upper_case (strip_padding (strip_spaces value)) in
    if is_nonempty normalized && every is_base32 normalized
    then (let result = decode_from 0 0 normalized in
        if length result == secret_bytes then ok result else err invalid_secret)
    else err invalid_secret
