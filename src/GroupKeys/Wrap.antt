-- ===== src/GroupKeys/Wrap.antt =====
-- `aadFor` and `createOpaqueWrap` of src/services/groupKeySharing.js.
use servidor_drive.Prelude.{
  ℕ, Option, none, some, List, [], ◌∷◌, ◌++◌, length, ◌==◌, if◌then◌else◌, codes, decimal, Text,
  Result, ok, err, ◌>>=◌, ◌>>◌,
}
use servidor_drive.Prelude.Base64.{base64url}
use servidor_drive.GroupKeys.Names.{GroupError, invalid_group_wrap, crypto_failed, text, epoch}

-- The scope of a wrap. `wrap_id` is the sixteen bytes that are given or drawn.
pub record WrapInput : Type 0 where
  pub compartment_id : Text
  pub epoch : ℕ
  pub object_id : Text
  pub version_id : Text
  pub key_ref : Text
  pub recipient_id : Text
  pub device_id : Text
  pub wrap_id : List ℕ
  pub recipient_public_key : Option Text

pub record Hpke : Type 0 where
  pub hpke_enc : Text
  pub hpke_ciphertext : Text
  pub hpke_info : Text
  pub hpke_aad : Text

-- A wrap record; `schemaVersion`, `suite` and `suiteVersion` are constants.
pub record Wrap : Type 0 where
  pub compartment_id : Text
  pub epoch : ℕ
  pub object_id : Text
  pub version_id : Text
  pub key_ref : Text
  pub recipient_id : Text
  pub device_id : Text
  pub wrap_id : Text
  pub wrapped : Text
  pub aad : Text
  pub hpke : Option Hpke

-- What the cryptography answers: the wrapped key for a scope and its AAD, and the sealed context key
-- with its info for a public key. `none` is a rejection.
pub record Zk : Type 0 where
  pub wrap_key : WrapInput → Text → Option (List ℕ)
  pub hpke_seal : Text → WrapInput → Text → Option (List ℕ × List ℕ × List ℕ)

abbrev pub join : List Text → Text
join [] = []
join (s ∷ []) = s
join (s ∷ t ∷ rest) = s ++ join (t ∷ rest)

-- `aadFor`: the JSON text of the scope. A name has no character that JSON escapes.
unfoldable pub aad_text : WrapInput → Text
aad_text i = join (
    codes "{\"schemaVersion\":1,\"suite\":\"rootark-zk-1\",\"suiteVersion\":1,\"compartmentId\":\""
    ∷ i.compartment_id
    ∷ codes "\",\"epoch\":"
    ∷ decimal i.epoch
    ∷ codes ",\"objectId\":\""
    ∷ i.object_id
    ∷ codes "\",\"versionId\":\""
    ∷ i.version_id
    ∷ codes "\",\"keyRef\":\""
    ∷ i.key_ref
    ∷ codes "\",\"recipientId\":\""
    ∷ i.recipient_id
    ∷ codes "\",\"deviceId\":\""
    ∷ i.device_id
    ∷ codes "\",\"wrapId\":\""
    ∷ base64url i.wrap_id
    ∷ codes "\",\"purpose\":\"key-wrap\"}"
    ∷ [])

-- The names and the epoch are checked as the text is put together.
unfoldable pub check_scope : WrapInput → Result GroupError (Unit {0})
check_scope i = do
  _ ← text i.compartment_id
  _ ← epoch i.epoch
  _ ← text i.object_id
  _ ← text i.version_id
  _ ← text i.key_ref
  _ ← text i.recipient_id
  _ ← text i.device_id
  ok tt

unfoldable pub aad_for : WrapInput → Result GroupError Text
unfolding check_scope aad_text
aad_for i = do check_scope i; ok (aad_text i)

abbrev pub answered : {A : Type 0} → Option A → Result GroupError A
answered none = err crypto_failed
answered (some a) = ok a

unfoldable pub wrap_record : WrapInput → Text → List ℕ → Option Hpke → Wrap
wrap_record i aad wrapped hpke = record {
  compartment_id = i.compartment_id;
  epoch = i.epoch;
  object_id = i.object_id;
  version_id = i.version_id;
  key_ref = i.key_ref;
  recipient_id = i.recipient_id;
  device_id = i.device_id;
  wrap_id = base64url i.wrap_id;
  wrapped = base64url wrapped;
  aad = base64url aad;
  hpke = hpke;
}

module _ (zk : Zk) where
  unfoldable pub seal_for : WrapInput → Text → Option Text → Result GroupError (Option Hpke)
  seal_for i aad none = ok none
  seal_for i aad (some public_key) = do
    (enc, ciphertext, info) ← answered (zk.hpke_seal public_key i aad)
    ok (
        some (record {
          hpke_enc = base64url enc;
          hpke_ciphertext = base64url ciphertext;
          hpke_info = base64url info;
          hpke_aad = base64url aad;
        }))

  unfoldable pub create_opaque_wrap : WrapInput → Result GroupError Wrap
  unfolding seal_for aad_for
  create_opaque_wrap i =
      if length i.wrap_id == 16
      then (do
        aad ← aad_for i
        wrapped ← answered (zk.wrap_key i aad)
        hpke ← seal_for i aad i.recipient_public_key
        ok (wrap_record i aad wrapped hpke))
      else err invalid_group_wrap
