-- ===== src/GroupKeys/Validate.antt =====
-- `validateOpaqueWrap`, `unwrapOpaqueWrap` and `validateManifest` of src/services/groupKeySharing.js,
-- on records of the expected fields and suite: `exact` and the test of the suite refuse others.
use servidor_drive.Prelude.{
  ℕ, ◌%◌, Bool, true, not, ◌&&◌, ◌||◌, Option, none, some, List, [], ◌∷◌, length, every, ltb, ◌==◌,
  if◌then◌else◌, is_nonempty, Text, text_eq, Result, ok, err, ◌>>=◌,
}
use servidor_drive.Prelude.Base64.{base64url, from_base64url, is_base64_character}
use servidor_drive.GroupKeys.Names.{
  GroupError, invalid_group_wrap, scope_mismatch, stale_epoch, device_key_required,
  max_safe_integer, text, epoch,
}
use servidor_drive.GroupKeys.Wrap.{WrapInput, Wrap, Hpke, aad_for, answered}

abbrev fits_length : Option ℕ → List ℕ → Bool
fits_length none bs = true
fits_length (some n) bs = length bs == n

-- `bytes`: the canonical text of some bytes, of the length that is asked for.
unfoldable pub bytes : Text → Option ℕ → Result GroupError (List ℕ)
bytes value wanted =
    if is_nonempty value && every is_base64_character value && not (length value % 4 == 1)
    then (let result = from_base64url value in
        if text_eq (base64url result) value && fits_length wanted result
        then ok result
        else err invalid_group_wrap)
    else err invalid_group_wrap

-- The scope that a record says it has.
abbrev pub scope_of : Wrap → List ℕ → WrapInput
scope_of w wrap_id = record {
  compartment_id = w.compartment_id;
  epoch = w.epoch;
  object_id = w.object_id;
  version_id = w.version_id;
  key_ref = w.key_ref;
  recipient_id = w.recipient_id;
  device_id = w.device_id;
  wrap_id = wrap_id;
  recipient_public_key = none;
}

unfoldable pub check_hpke : Wrap → Option Hpke → Result GroupError Wrap
unfolding bytes
check_hpke w none = ok w
check_hpke w (some h) = do
  _ ← bytes h.hpke_enc (some 32)
  _ ← bytes h.hpke_ciphertext (some 48)
  _ ← bytes h.hpke_info none
  _ ← bytes h.hpke_aad none
  (if text_eq h.hpke_aad w.aad then ok w else err invalid_group_wrap)

unfoldable pub check_names : Wrap → Result GroupError Text
check_names w = do
  _ ← text w.compartment_id
  _ ← epoch w.epoch
  _ ← text w.object_id
  _ ← text w.version_id
  _ ← text w.key_ref
  _ ← text w.recipient_id
  text w.device_id

unfoldable pub validate_opaque_wrap : Wrap → Result GroupError Wrap
unfolding bytes check_hpke check_names
validate_opaque_wrap w = do
  _ ← check_names w
  wrap_id ← bytes w.wrap_id (some 16)
  _ ← bytes w.wrapped (some 60)
  aad ← bytes w.aad none
  expected ← aad_for (scope_of w wrap_id)
  (if text_eq aad expected then check_hpke w w.hpke else err invalid_group_wrap)

-- `unwrapOpaqueWrap` up to the cryptography: the record's scope has to be the one that is asked for.
unfoldable pub same_scope : Wrap → WrapInput → Bool
same_scope w i =
    text_eq w.compartment_id i.compartment_id
    && text_eq w.object_id i.object_id
    && text_eq w.version_id i.version_id
    && text_eq w.key_ref i.key_ref
    && text_eq w.recipient_id i.recipient_id
    && text_eq w.device_id i.device_id

-- What opens a wrap: the sealed context key with a device's key, and the wrapped key for its scope.
pub record Opener : Type 0 where
  pub hpke_open : Text → List ℕ → List ℕ → List ℕ → List ℕ → Option (List ℕ)
  pub unwrap_key : List ℕ → List ℕ → List ℕ → WrapInput → Option (List ℕ)

module _ (opener : Opener) where
  unfoldable pub context_key : Option Hpke → List ℕ → Option Text → Result GroupError (List ℕ)
  unfolding bytes
  context_key none cer recipient_key = ok cer
  context_key (some h) cer none = err device_key_required
  context_key (some h) cer (some key) = do
    enc ← bytes h.hpke_enc (some 32)
    ciphertext ← bytes h.hpke_ciphertext (some 48)
    info ← bytes h.hpke_info none
    aad ← bytes h.hpke_aad none
    answered (opener.hpke_open key enc ciphertext info aad)

  unfoldable pub unwrap_opaque_wrap :
      Wrap → WrapInput → List ℕ → Option Text → Result GroupError (List ℕ)
  unfolding validate_opaque_wrap same_scope context_key
  unwrap_opaque_wrap w i cer recipient_key = do
    normalized ← validate_opaque_wrap w
    _ ← (if same_scope normalized i then ok normalized else err scope_mismatch)
    _ ← (if normalized.epoch == i.epoch then ok normalized else err stale_epoch)
    key ← context_key normalized.hpke cer recipient_key
    wrapped ← bytes normalized.wrapped (some 60)
    aad ← bytes normalized.aad none
    wrap_id ← bytes normalized.wrap_id (some 16)
    answered (opener.unwrap_key wrapped key aad (record i { wrap_id = wrap_id }))

-- A manifest without its signature. One of version 1 has the version of the membership and the revoked
-- devices; an older one has neither.
pub record Manifest : Type 0 where
  pub group_id : Text
  pub epoch : ℕ
  pub wraps : List Wrap
  pub membership : Option (ℕ × List Text)

abbrev pub max_manifest_wraps : ℕ
max_manifest_wraps = 500

unfoldable pub validate_wraps : List Wrap → Result GroupError (List Wrap)
validate_wraps [] = ok []
validate_wraps (w ∷ ws) = do
  first ← validate_opaque_wrap w
  rest ← validate_wraps ws
  ok (first ∷ rest)

unfoldable pub validate_devices : List Text → Result GroupError (List Text)
validate_devices [] = ok []
validate_devices (d ∷ ds) = do first ← text d; rest ← validate_devices ds; ok (first ∷ rest)

unfoldable pub validate_membership :
    Option (ℕ × List Text) → Result GroupError (Option (ℕ × List Text))
unfolding validate_devices
validate_membership none = ok none
validate_membership (some (version, revoked)) =
    if ltb max_safe_integer version || ltb version 1
    then err invalid_group_wrap
    else (do devices ← validate_devices revoked; ok (some (version, devices)))

unfoldable pub validate_manifest : Manifest → Result GroupError Manifest
unfolding validate_wraps validate_membership
validate_manifest m =
    if ltb max_manifest_wraps (length m.wraps) then err invalid_group_wrap else (do
      id ← text m.group_id
      now ← epoch m.epoch
      wraps ← validate_wraps m.wraps
      membership ← validate_membership m.membership
      ok (record { group_id = id; epoch = now; wraps = wraps; membership = membership }))
