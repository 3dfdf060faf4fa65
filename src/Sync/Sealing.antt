-- ===== src/Sync/Sealing.antt =====
-- encryptPayload, decryptPayload and createOperation of sync-client/rootark-sync-protocol.js.
pub mod Decrypting
pub mod Accepted
use servidor_drive.Prelude.{
  ℕ, ◌%◌, ◌<◌, ◌≡◌, Bool, true, false, not, ◌&&◌, ◌||◌, Option, none, some, List, [], ◌∷◌, length,
  if◌then◌else◌, ltb, leb, ◌==◌, any, every, All, Text, text_eq, text_in, is_nonempty, codes,
  Result, ok, err, ◌>>=◌, ◌>>◌,
}
use servidor_drive.Prelude.Base64.{base64url, from_base64url, is_base64_character}
use servidor_drive.Sync.Operation.{OperationKind, create, update, move, delete}
use servidor_drive.Sync.Json.{
  Json, null, boolean, number, text, array, object, Fields, end, field, truthy, text_or_empty, get,
  has_own, put, has_exact_keys, canonicalize, canonical_json, utf8,
}
use servidor_drive.Sync.Protocol.{
  ProtocolError, invalid_operation, invalid_protocol_version, invalid_envelope, aad_mismatch,
  authorization_expired, protocol_version, operation_fields, required_fields, keys_of, get_or_null,
  id, id_or, SyncRevision, revision, base_revision_of, normalize_metadata, spread, max_safe_integer,
}
use servidor_drive.Sync.Header.{
  Header, Drawn, operation_kind, kind_text, is_delete, create_header, revision_json, base_json,
  operation_aad,
}
use servidor_drive.Sync.Envelope.{
  Envelope, SyncOperation, guard, authorization_of, decode_base64_url, envelope_of, Opened,
  open_envelope, validate_operation,
}

-- AES-256-GCM, with what the code relies on: the tag has sixteen bytes, what is sealed is made of bytes,
-- and opening gives back what was sealed with the same key, nonce and AAD.
pub record Aead : Type 0 where
  pub seal : (key nonce aad plaintext : List ℕ) → List ℕ × List ℕ
  pub open_sealed : (key nonce aad ciphertext tag : List ℕ) → Option (List ℕ)
  pub tag_size : (key nonce aad plaintext : List ℕ) → length (seal key nonce aad plaintext).1 ≡ 16
  pub ciphertext_bytes :
      (key nonce aad plaintext : List ℕ) → All (λ b. b < 256) (seal key nonce aad plaintext).0
  pub tag_bytes :
      (key nonce aad plaintext : List ℕ) → All (λ b. b < 256) (seal key nonce aad plaintext).1
  pub open_seal :
      (key nonce aad plaintext : List ℕ)
      → open_sealed key nonce aad (seal key nonce aad plaintext).0 (seal key nonce aad plaintext).1
        ≡ some plaintext

pub data DecryptError : Type 0 where
  rejected : ProtocolError → DecryptError
  not_authentic : DecryptError

abbrev pub or_rejected : {A : Type 0} → Result ProtocolError A → Result DecryptError A
or_rejected (ok a) = ok a
or_rejected (err e) = err (rejected e)

abbrev pub is_complete : Envelope → Bool
is_complete e = is_nonempty e.nonce && is_nonempty e.tag && is_nonempty e.aad

module _ (aead : Aead) where
  -- assertFileKey
  unfoldable pub file_key : List ℕ → Result ProtocolError (List ℕ)
  file_key key = if length key == 32 then ok key else err invalid_operation

  unfoldable pub encrypt_payload :
      (nonce : List ℕ) → Header → (plaintext key : List ℕ) → Result ProtocolError Envelope
  encrypt_payload nonce h plaintext key = do
    k ← file_key key
    let aad = utf8 (operation_aad h)
    let sealed = aead.seal k nonce aad plaintext
    ok (record {
      ciphertext = base64url sealed.0;
      nonce = base64url nonce;
      tag = base64url sealed.1;
      aad = base64url aad;
    })

  unfoldable pub create_operation :
      (now : ℕ)
      → Drawn
      → (nonce : List ℕ) → Fields
      → (plaintext key : List ℕ) → Result ProtocolError SyncOperation
  create_operation now drawn nonce input plaintext key = do
    header ← create_header drawn input
    envelope ← encrypt_payload nonce header plaintext key
    authorization ← authorization_of now (get (codes "authorization") input)
    ok (record { header = header; envelope = envelope; authorization = authorization })

  abbrev unsealed : Option (List ℕ) → Result DecryptError (List ℕ)
  unsealed none = err not_authentic
  unsealed (some plaintext) = ok plaintext

  unfoldable pub decrypt_payload : SyncOperation → (key : List ℕ) → Result DecryptError (List ℕ)
  decrypt_payload op key = do
    or_rejected (guard (is_complete op.envelope) invalid_operation)
    k ← or_rejected (file_key key)
    opened ← or_rejected (open_envelope op.header op.envelope)
    unsealed (
        aead.open_sealed k opened.nonce (utf8 (operation_aad op.header)) opened.ciphertext
          opened.tag)
