-- ===== src/Sync/Sealing/Decrypting.antt =====
-- What createOperation seals, decryptPayload opens.
use mathlib.Core.Path.{subst}
use servidor_drive.Prelude.{
  codes, ℕ, ◌<◌, ◌≡◌, refl, sym, Bool, true, false, ◌||◌, Option, none, some, List, [], ◌∷◌, ◌++◌,
  length, suc, ltb, ◌==◌, All, Text, text_eq_refl, is_nonempty, ok, >>=-eq-ok, ok_injective, arith,
  Bool-cases, inl, inr,
}
use servidor_drive.Prelude.Base64.{
  base64url, from_base64url-base64url, base64url-characters, length-base64url,
}
use servidor_drive.Sync.Json.{
  Json, object, Fields, end, field, get, canonical_json, utf8, utf8_character, stringify,
  canonicalize, canonical_fields,
}
use servidor_drive.Sync.Header.{Header, Drawn, operation_aad, aad_fields, create_header}
use servidor_drive.Sync.Envelope.{
  Envelope, SyncOperation, decode_base64_url, open_envelope, authorization_of,
}
use servidor_drive.Sync.Sealing.{
  is_complete, Aead, file_key, encrypt_payload, create_operation, decrypt_payload,
}

abbrev sized : Option ℕ → List ℕ → Bool
sized none bs = true
sized (some n) bs = length bs == n

-- Bytes that are encoded are decoded.
decode-encoded :
    (may_be_empty : Bool) (size : Option ℕ) (bs : List ℕ)
    → All (λ b. b < 256) bs
    → (is_nonempty (base64url bs) || may_be_empty) ≡ true
    → sized size bs ≡ true
    → decode_base64_url may_be_empty size (base64url bs) ≡ ok bs
unfolding decode_base64_url
decode-encoded may_be_empty none bs h ne s =
    rw
      (
        ne,
        base64url-characters bs,
        length-base64url bs,
        from_base64url-base64url bs h,
        text_eq_refl (base64url bs),
      )
      refl
decode-encoded may_be_empty (some n) bs h ne s =
    rw
      (
        ne,
        base64url-characters bs,
        length-base64url bs,
        from_base64url-base64url bs h,
        text_eq_refl (base64url bs),
      )
      (rw s)

abbrev IsByte : ℕ → Type 0
IsByte b = b < 256

All-append : (s t : List ℕ) → All IsByte s → All IsByte t → All IsByte (s ++ t)
All-append [] t hs ht = ht
All-append (c ∷ s) t (h, hs) ht = (h, All-append s t hs ht)

utf8_character-bytes : (c : ℕ) → c < 0x110000 → All IsByte (utf8_character c)
unfolding utf8_character
utf8_character-bytes c h = elim (Bool-cases (ltb c 0x80)) [
  | inl y ↦ rw y (ground arith, tt)
  | inr n ↦ rw n (elim (Bool-cases (ltb c 0x800)) [
    | inl y ↦ rw y (ground arith, (ground arith, tt))
    | inr m ↦ rw m (elim (Bool-cases (ltb c 0x10000)) [
      | inl y ↦ rw y (ground arith, (ground arith, (omega arith, tt)))
      | inr k ↦ rw k (omega arith, (omega arith, (omega arith, (omega arith, tt))))
    ])
  ])
]

utf8-bytes : (t : Text) → All (λ c. c < 0x110000) t → All IsByte (utf8 t)
unfolding utf8
utf8-bytes [] h = tt
utf8-bytes (c ∷ cs) (h, hs) =
    All-append (utf8_character c) (utf8 cs) (utf8_character-bytes c h) (utf8-bytes cs hs)

base64url-nonempty : (bs : List ℕ) → is_nonempty bs ≡ true → is_nonempty (base64url bs) ≡ true
unfolding base64url
base64url-nonempty [] h = h
base64url-nonempty (a ∷ []) h = refl
base64url-nonempty (a ∷ b ∷ []) h = refl
base64url-nonempty (a ∷ b ∷ c ∷ bs) h = refl

stringify-nonempty : (fs : Fields) → is_nonempty (stringify (object fs)) ≡ true
unfolding stringify
stringify-nonempty end = refl
stringify-nonempty (field k v fs) = refl

nonempty-append : (s t : List ℕ) → is_nonempty s ≡ true → is_nonempty (s ++ t) ≡ true
nonempty-append [] t h = absurd (cc)
nonempty-append (c ∷ s) t h = refl

utf8_character-nonempty : (c : ℕ) → is_nonempty (utf8_character c) ≡ true
unfolding utf8_character
utf8_character-nonempty c = ground arith

utf8-nonempty : (t : Text) → is_nonempty t ≡ true → is_nonempty (utf8 t) ≡ true
unfolding utf8
utf8-nonempty [] h = h
utf8-nonempty (c ∷ cs) h = nonempty-append (utf8_character c) (utf8 cs) (utf8_character-nonempty c)

operation_aad-nonempty : (h : Header) → is_nonempty (utf8 (operation_aad h)) ≡ true
unfolding operation_aad canonical_json canonicalize
operation_aad-nonempty h = utf8-nonempty _ (stringify-nonempty (canonical_fields (aad_fields h)))

-- The bytes that are sealed: the nonce is twelve of them, and the texts are made of code points.
pub record IsSealable (nonce : List ℕ) (h : Header) : Type 0 where
  pub nonce_size : length nonce ≡ 12
  pub nonce_bytes : All IsByte nonce
  pub code_points : All (λ c. c < 0x110000) (operation_aad h)

nonempty_of_length : (n : ℕ) (bs : List ℕ) → length bs ≡ suc n → is_nonempty bs ≡ true
nonempty_of_length n [] e = absurd (omega (arith, e))
nonempty_of_length n (b ∷ bs) e = refl

or_true : (b : Bool) → (b || true) ≡ true
or_true true = refl
or_true false = refl

module _ (aead : Aead) where
  abbrev pub sealed_envelope : (nonce : List ℕ) → Header → (plaintext key : List ℕ) → Envelope
  sealed_envelope nonce h plaintext key =
      let aad = utf8 (operation_aad h) in
      record {
        ciphertext = base64url (aead.seal key nonce aad plaintext).0;
        nonce = base64url nonce;
        tag = base64url (aead.seal key nonce aad plaintext).1;
        aad = base64url aad;
      }

  pub open_envelope-sealed :
      (nonce : List ℕ) (h : Header) (plaintext key : List ℕ)
      → IsSealable nonce h
      → open_envelope h (sealed_envelope nonce h plaintext key)
        ≡ ok (record {
          ciphertext = (aead.seal key nonce (utf8 (operation_aad h)) plaintext).0;
          nonce = nonce;
          tag = (aead.seal key nonce (utf8 (operation_aad h)) plaintext).1;
        })
  unfolding open_envelope
  open_envelope-sealed nonce h plaintext key s =
      let aad = utf8 (operation_aad h) in
      let sealed = aead.seal key nonce aad plaintext in
      let ciphertext =
        decode-encoded true none sealed.0 (aead.ciphertext_bytes key nonce aad plaintext)
          (or_true (is_nonempty (base64url sealed.0))) refl in
      let nonce_decoded =
        decode-encoded false (some 12) nonce s.nonce_bytes
          (rw (base64url-nonempty nonce (nonempty_of_length 11 nonce s.nonce_size)) refl)
          (rw s.nonce_size refl) in
      let tag_size = aead.tag_size key nonce aad plaintext in
      let tag =
        decode-encoded false (some 16) sealed.1 (aead.tag_bytes key nonce aad plaintext)
          (rw (base64url-nonempty sealed.1 (nonempty_of_length 15 sealed.1 tag_size)) refl)
          (rw tag_size refl) in
      let aad_decoded =
        decode-encoded false none aad (utf8-bytes (operation_aad h) s.code_points)
          (rw (base64url-nonempty aad (operation_aad-nonempty h)) refl) refl in
      rw ciphertext (rw nonce_decoded (rw tag (rw aad_decoded (rw (text_eq_refl aad)))))

  pub is_complete-sealed :
      (nonce : List ℕ) (h : Header) (plaintext key : List ℕ)
      → IsSealable nonce h
      → is_complete (sealed_envelope nonce h plaintext key) ≡ true
  is_complete-sealed nonce h plaintext key s =
      let aad = utf8 (operation_aad h) in
      let sealed = aead.seal key nonce aad plaintext in
      rw
        (
          base64url-nonempty nonce (nonempty_of_length 11 nonce s.nonce_size),
          base64url-nonempty sealed.1
              (nonempty_of_length 15 sealed.1 (aead.tag_size key nonce aad plaintext)),
          base64url-nonempty aad (operation_aad-nonempty h),
        )
        refl

  pub decrypt_payload-sealed :
      (nonce : List ℕ) (h : Header) (authorization : Option Json) (plaintext key : List ℕ)
      → IsSealable nonce h
      → length key ≡ 32
      → decrypt_payload aead
          (record {
            header = h;
            envelope = sealed_envelope nonce h plaintext key;
            authorization = authorization;
          })
          key
        ≡ ok plaintext
  unfolding decrypt_payload file_key
  decrypt_payload-sealed nonce h authorization plaintext key s size =
      rw (is_complete-sealed nonce h plaintext key s) (
        rw size (
          rw (open_envelope-sealed nonce h plaintext key s)
            (rw (aead.open_seal key nonce (utf8 (operation_aad h)) plaintext))))

  encrypt_payload-parts :
      (nonce : List ℕ) (h : Header) (plaintext key : List ℕ) (env : Envelope)
      → encrypt_payload aead nonce h plaintext key ≡ ok env
      → (length key ≡ 32) × (env ≡ sealed_envelope nonce h plaintext key)
  unfolding encrypt_payload file_key
  encrypt_payload-parts nonce h plaintext key env e = elim (Bool-cases (length key == 32)) [
    | inl y ↦ (ground arith, sym (ok_injective (rw y at e)))
    | inr n ↦ absurd (cc (rw n at e))
  ]

  pub create_operation-parts :
      (now : ℕ) (drawn : Drawn) (nonce : List ℕ) (input : Fields) (plaintext key : List ℕ)
      (op : SyncOperation)
      → create_operation aead now drawn nonce input plaintext key ≡ ok op
      → (length key ≡ 32) × (op.envelope ≡ sealed_envelope nonce op.header plaintext key)
  unfolding create_operation encrypt_payload file_key
  create_operation-parts now drawn nonce input plaintext key op e =
      let (h, made, e1) = >>=-eq-ok (create_header drawn input) _ e in
      let (env, sealed, e2) = >>=-eq-ok (encrypt_payload aead nonce h plaintext key) _ e1 in
      let (auth, authorized, e3) =
        >>=-eq-ok (authorization_of now (get (codes "authorization") input)) _ e2 in
      let whole : Path SyncOperation (record { header = h; envelope = env; authorization = auth })
          op =
        ok_injective e3 in
      let (size, same) = encrypt_payload-parts nonce h plaintext key env sealed in
      (
        size,
        subst (λ (o : SyncOperation). o.envelope ≡ sealed_envelope nonce o.header plaintext key)
            whole same,
      )

  -- With a sound cipher, a nonce of twelve bytes and texts that are made of code points: whatever
  -- createOperation makes, decryptPayload opens with the same key, to the same plaintext.
  pub decrypt_payload-create_operation :
      (now : ℕ) (drawn : Drawn) (nonce : List ℕ) (input : Fields) (plaintext key : List ℕ)
      (op : SyncOperation)
      → create_operation aead now drawn nonce input plaintext key ≡ ok op
      → IsSealable nonce op.header
      → decrypt_payload aead op key ≡ ok plaintext
  decrypt_payload-create_operation now drawn nonce input plaintext key op e s =
      let (size, sealed) = create_operation-parts now drawn nonce input plaintext key op e in
      subst
        (λ (env : Envelope). decrypt_payload aead (record op { envelope = env }) key ≡ ok plaintext)
        (sym sealed) (decrypt_payload-sealed nonce op.header op.authorization plaintext key s size)
