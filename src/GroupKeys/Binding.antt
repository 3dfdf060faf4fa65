-- ===== src/GroupKeys/Binding.antt =====
-- The additional data of a wrap names one scope.
use servidor_drive.Prelude.{
  ℕ, ◌^◌, ◌<◌, ◌≡◌, refl, sym, ◌∙◌, Bool, true, false, List, [], ◌∷◌, ◌++◌, every, leb, codes,
  decimal, is_digit, Text, ok, arith, >>=-eq-ok,
}
use servidor_drive.Prelude.Base64.{base64_character, base64url}
use servidor_drive.Prelude.Decimal.{decimal-digits, decimal_injective}
use servidor_drive.GroupKeys.Names.{text, epoch, is_name, is_name_character}
use servidor_drive.GroupKeys.Wrap.{WrapInput, check_scope, aad_text, aad_for}

-- Two texts that agree, up to the first character outside a class, in what is before it and after it.
module _ (inside : ℕ → Bool) (stop : ℕ) (outside : inside stop ≡ false) where
  cut :
      (s t x y : Text)
      → every inside s ≡ true
      → every inside t ≡ true
      → s ++ stop ∷ x ≡ t ++ stop ∷ y
      → (s ≡ t) × (x ≡ y)
  cut [] [] x y hs ht e = (refl, cc)
  cut [] (d ∷ t) x y hs ht e = absurd (ground arith)
  cut (c ∷ s) [] x y hs ht e = absurd (ground arith)
  cut (c ∷ s) (d ∷ t) x y hs ht e =
      let (p, q) = cut s t x y (ground arith) (ground arith) (cc) in (ground arith, q)

prepended : (p x y : Text) → p ++ x ≡ p ++ y → x ≡ y
prepended [] x y e = e
prepended (c ∷ p) x y e = prepended p x y cc

abbrev pub Named : Text → Type 0
Named s = every is_name_character s ≡ true

named : (s t : Text) → text s ≡ ok t → Named s
unfolding text is_name
named s t h = ground arith

safe : (n m : ℕ) → epoch n ≡ ok m → n < 10 ^ 16
unfolding epoch
safe n m h = ground arith

-- What a scope that passes the checks is made of.
record IsScope (i : WrapInput) : Type 0 where
  compartment_named : Named i.compartment_id
  epoch_safe : i.epoch < 10 ^ 16
  object_named : Named i.object_id
  version_named : Named i.version_id
  key_named : Named i.key_ref
  recipient_named : Named i.recipient_id
  device_named : Named i.device_id

check_scope-IsScope : (i : WrapInput) → check_scope i ≡ ok tt → IsScope i
unfolding check_scope
check_scope-IsScope i h =
    let (a, ea, h1) = >>=-eq-ok (text i.compartment_id) _ h in
    let (b, eb, h2) = >>=-eq-ok (epoch i.epoch) _ h1 in
    let (c, ec, h3) = >>=-eq-ok (text i.object_id) _ h2 in
    let (d, ed, h4) = >>=-eq-ok (text i.version_id) _ h3 in
    let (e, ee, h5) = >>=-eq-ok (text i.key_ref) _ h4 in
    let (f, ef, h6) = >>=-eq-ok (text i.recipient_id) _ h5 in
    let (g, eg, h7) = >>=-eq-ok (text i.device_id) _ h6 in
    record {
      compartment_named = named _ a ea;
      epoch_safe = safe _ b eb;
      object_named = named _ c ec;
      version_named = named _ d ed;
      key_named = named _ e ee;
      recipient_named = named _ f ef;
      device_named = named _ g eg;
    }

aad_for-text : (i : WrapInput) (a : Text) → aad_for i ≡ ok a → IsScope i × (aad_text i ≡ a)
unfolding aad_for
aad_for-text i a h =
    let (u, checked, made) = >>=-eq-ok (check_scope i) _ h in (check_scope-IsScope i checked, cc)

above_quote : (d : ℕ) → leb 45 (base64_character d) ≡ true
unfolding base64_character
above_quote d = ground arith

base64url-above : (bs : List ℕ) → every (leb 45) (base64url bs) ≡ true
unfolding base64url
base64url-above [] = refl
base64url-above (a ∷ []) = simp above_quote refl
base64url-above (a ∷ b ∷ []) = simp above_quote refl
base64url-above (a ∷ b ∷ c ∷ rest) = simp (above_quote, base64url-above rest) refl

-- The scope that a wrap is bound to.
abbrev pub Same : WrapInput → WrapInput → Type 0
Same i j =
    (i.compartment_id ≡ j.compartment_id)
    × (i.epoch ≡ j.epoch)
    × (i.object_id ≡ j.object_id)
    × (i.version_id ≡ j.version_id)
    × (i.key_ref ≡ j.key_ref)
    × (i.recipient_id ≡ j.recipient_id)
    × (i.device_id ≡ j.device_id)
    × (base64url i.wrap_id ≡ base64url j.wrap_id)

-- What follows each part of the text, from the quote or the comma on.
after_device : WrapInput → Text
after_device i =
    codes "\",\"wrapId\":\"" ++ (base64url i.wrap_id ++ codes "\",\"purpose\":\"key-wrap\"}")

after_recipient : WrapInput → Text
unfolding after_device
after_recipient i = codes "\",\"deviceId\":\"" ++ (i.device_id ++ after_device i)

after_key : WrapInput → Text
unfolding after_recipient
after_key i = codes "\",\"recipientId\":\"" ++ (i.recipient_id ++ after_recipient i)

after_version : WrapInput → Text
unfolding after_key
after_version i = codes "\",\"keyRef\":\"" ++ (i.key_ref ++ after_key i)

after_object : WrapInput → Text
unfolding after_version
after_object i = codes "\",\"versionId\":\"" ++ (i.version_id ++ after_version i)

after_epoch : WrapInput → Text
unfolding after_object
after_epoch i = codes ",\"objectId\":\"" ++ (i.object_id ++ after_object i)

after_compartment : WrapInput → Text
unfolding after_epoch
after_compartment i = codes "\",\"epoch\":" ++ (decimal i.epoch ++ after_epoch i)

-- A name, and what follows the quote that ends it.
name_cut : (s t x y : Text) → Named s → Named t → s ++ b'"' ∷ x ≡ t ++ b'"' ∷ y → (s ≡ t) × (x ≡ y)
unfolding is_name_character
name_cut = cut is_name_character b'"' refl

aad_text-Same : (i j : WrapInput) → IsScope i → IsScope j → aad_text i ≡ aad_text j → Same i j
unfolding aad_text after_compartment is_digit
aad_text-Same i j v w e =
    let e1' : i.compartment_id ++ after_compartment i ≡ j.compartment_id ++ after_compartment j =
      prepended
        (codes
          "{\"schemaVersion\":1,\"suite\":\"rootark-zk-1\",\"suiteVersion\":1,\"compartmentId\":\"")
        _ _ e in
    let (c, e1) =
      name_cut i.compartment_id j.compartment_id _ _ v.compartment_named w.compartment_named e1' in
    let e2' : decimal i.epoch ++ after_epoch i ≡ decimal j.epoch ++ after_epoch j =
      prepended (codes ",\"epoch\":") _ _ e1 in
    let (n, e2) =
      cut is_digit b',' refl (decimal i.epoch) (decimal j.epoch) _ _ (decimal-digits i.epoch)
        (decimal-digits j.epoch) e2' in
    let e3' : i.object_id ++ after_object i ≡ j.object_id ++ after_object j =
      prepended (codes "\"objectId\":\"") _ _ e2 in
    let (o, e3) = name_cut i.object_id j.object_id _ _ v.object_named w.object_named e3' in
    let e4' : i.version_id ++ after_version i ≡ j.version_id ++ after_version j =
      prepended (codes ",\"versionId\":\"") _ _ e3 in
    let (x, e4) = name_cut i.version_id j.version_id _ _ v.version_named w.version_named e4' in
    let e5' : i.key_ref ++ after_key i ≡ j.key_ref ++ after_key j =
      prepended (codes ",\"keyRef\":\"") _ _ e4 in
    let (k, e5) = name_cut i.key_ref j.key_ref _ _ v.key_named w.key_named e5' in
    let e6' : i.recipient_id ++ after_recipient i ≡ j.recipient_id ++ after_recipient j =
      prepended (codes ",\"recipientId\":\"") _ _ e5 in
    let (r, e6) =
      name_cut i.recipient_id j.recipient_id _ _ v.recipient_named w.recipient_named e6' in
    let e7' : i.device_id ++ after_device i ≡ j.device_id ++ after_device j =
      prepended (codes ",\"deviceId\":\"") _ _ e6 in
    let (d, e7) = name_cut i.device_id j.device_id _ _ v.device_named w.device_named e7' in
    let end : Text = codes "\",\"purpose\":\"key-wrap\"}" in
    let e8' : base64url i.wrap_id ++ end ≡ base64url j.wrap_id ++ end =
      prepended (codes ",\"wrapId\":\"") _ _ e7 in
    let (b, e8) =
      cut (leb 45) b'"' refl (base64url i.wrap_id) (base64url j.wrap_id) _ _
        (base64url-above i.wrap_id) (base64url-above j.wrap_id) e8' in
    (c, decimal_injective i.epoch j.epoch v.epoch_safe w.epoch_safe n, o, x, k, r, d, b)

-- Two scopes with the same additional data are the same scope: no wrap can be read as that of another
-- object, epoch, recipient or device.
pub aad_for_injective :
    (i j : WrapInput) (a : Text) → aad_for i ≡ ok a → aad_for j ≡ ok a → Same i j
aad_for_injective i j a hi hj =
    let (v, p) = aad_for-text i a hi in
    let (w, q) = aad_for-text j a hj in aad_text-Same i j v w (p ∙ sym q)
