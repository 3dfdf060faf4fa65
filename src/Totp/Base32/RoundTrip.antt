-- ===== src/Totp/Base32/RoundTrip.antt =====
-- A secret that is encoded and decoded is the same secret.
use servidor_drive.Prelude.{
  ℕ, zero, suc, ◌*◌, ◌<◌, ◌≡◌, refl, ap, true, List, [], ◌∷◌, every, length, is_nonempty,
  strip_spaces, ok, arith, All,
}
use servidor_drive.Totp.Base32.{
  encode_from, base32_encode, decode_from, base32_decode, is_base32, strip_padding, to_upper_case,
  upper,
}
use servidor_drive.Totp.Base32.Blocks.{
  encode_block, decode_block, after, x8, IsBase32, block-IsBase32,
}

abbrev pub AreBytes : List ℕ → Type 0
AreBytes bytes = All (λ b. b < 256) bytes

decode-encode_blocks :
    (k : ℕ) (bytes : List ℕ) (v x : ℕ)
    → length bytes ≡ 5 * k
    → AreBytes bytes
    → decode_from x 0 (encode_from v 0 bytes) ≡ bytes
decode-encode_blocks zero [] v x l h = unfold encode_from decode_from in refl
decode-encode_blocks (suc k) [] v x l h = absurd (omega arith)
decode-encode_blocks k (a ∷ []) v x l h = absurd (omega arith)
decode-encode_blocks k (a ∷ b ∷ []) v x l h = absurd (omega arith)
decode-encode_blocks k (a ∷ b ∷ c ∷ []) v x l h = absurd (omega arith)
decode-encode_blocks k (a ∷ b ∷ c ∷ d ∷ []) v x l h = absurd (omega arith)
decode-encode_blocks zero (a ∷ b ∷ c ∷ d ∷ e ∷ rest) v x l h = absurd (omega arith)
decode-encode_blocks (suc k) (a ∷ b ∷ c ∷ d ∷ e ∷ rest) v x l (ha, (hb, (hc, (hd, (he, hr))))) =
    rw (encode_block v a b c d e rest ha hb hc hd he) (
      rw (decode_block x a b c d e ha hb hc hd he (encode_from (after v a b c d e) 0 rest)) (
        rw (
          decode-encode_blocks k rest (after v a b c d e) (x8 x a b c d e ha hb hc hd he)
            (omega arith) hr)))

encode_from-IsBase32 :
    (k : ℕ) (bytes : List ℕ) (v : ℕ)
    → length bytes ≡ 5 * k
    → AreBytes bytes
    → IsBase32 (encode_from v 0 bytes)
encode_from-IsBase32 zero [] v l h = unfold encode_from in tt
encode_from-IsBase32 (suc k) [] v l h = absurd (omega arith)
encode_from-IsBase32 k (a ∷ []) v l h = absurd (omega arith)
encode_from-IsBase32 k (a ∷ b ∷ []) v l h = absurd (omega arith)
encode_from-IsBase32 k (a ∷ b ∷ c ∷ []) v l h = absurd (omega arith)
encode_from-IsBase32 k (a ∷ b ∷ c ∷ d ∷ []) v l h = absurd (omega arith)
encode_from-IsBase32 zero (a ∷ b ∷ c ∷ d ∷ e ∷ rest) v l h = absurd (omega arith)
encode_from-IsBase32 (suc k) (a ∷ b ∷ c ∷ d ∷ e ∷ rest) v l (ha, (hb, (hc, (hd, (he, hr))))) =
    rw (encode_block v a b c d e rest ha hb hc hd he) (
      block-IsBase32 a b c d e ha hb hc hd he _
        (encode_from-IsBase32 k rest (after v a b c d e) (omega arith) hr))

-- Encoded text goes through the normalisation unchanged.
strip_spaces_id : (cs : List ℕ) → IsBase32 cs → strip_spaces cs ≡ cs
unfolding strip_spaces is_base32
strip_spaces_id [] h = refl
strip_spaces_id (c ∷ cs) (h, hs) = ground (arith, strip_spaces_id cs hs)

strip_padding_id : (cs : List ℕ) → IsBase32 cs → strip_padding cs ≡ cs
unfolding strip_padding is_base32
strip_padding_id [] h = refl
strip_padding_id (c ∷ []) (h, hs) = ground arith
strip_padding_id (c ∷ d ∷ cs) (h, hs) = rw (strip_padding_id (d ∷ cs) hs)

upper_id : (c : ℕ) → is_base32 c ≡ true → upper c ≡ c ∷ []
unfolding upper is_base32
upper_id c h = ground arith

to_upper_case_id : (cs : List ℕ) → IsBase32 cs → to_upper_case cs ≡ cs
unfolding to_upper_case
to_upper_case_id [] h = refl
to_upper_case_id (c ∷ cs) (h, hs) = rw (upper_id c h) (rw (to_upper_case_id cs hs))

every-IsBase32 : (cs : List ℕ) → IsBase32 cs → every is_base32 cs ≡ true
every-IsBase32 [] h = refl
every-IsBase32 (c ∷ cs) (h, hs) = rw h (every-IsBase32 cs hs)

is_nonempty_of_decode :
    (cs bytes : List ℕ) → decode_from 0 0 cs ≡ bytes → length bytes ≡ 20 → is_nonempty cs ≡ true
unfolding decode_from
is_nonempty_of_decode [] bytes e l = absurd (omega (arith, ap (length {A = ℕ}) e))
is_nonempty_of_decode (c ∷ cs) bytes e l = refl

-- Decoding the text of a secret gives back its twenty bytes.
pub base32_decode-base32_encode :
    (bytes : List ℕ)
    → length bytes ≡ 20
    → AreBytes bytes
    → base32_decode (base32_encode bytes) ≡ ok bytes
unfolding base32_decode base32_encode
base32_decode-base32_encode bytes l h =
    let cs : List ℕ = encode_from 0 0 bytes in
    let plain : IsBase32 cs = encode_from-IsBase32 4 bytes 0 l h in
    let back : decode_from 0 0 cs ≡ bytes = decode-encode_blocks 4 bytes 0 0 l h in
    rw (strip_spaces_id cs plain) (
      rw (strip_padding_id cs plain) (
        rw (to_upper_case_id cs plain) (
          rw (is_nonempty_of_decode cs bytes back l)
            (rw (every-IsBase32 cs plain) (rw back (rw l))))))
