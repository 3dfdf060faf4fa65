-- ===== src/Sync/Envelope.antt =====
-- validateOperation with normalizeAuthorization and decodeBase64Url, of
-- sync-client/rootark-sync-protocol.js.
pub mod Authorization
pub mod Accepting
pub mod Sound
use servidor_drive.Prelude.{
  ℕ, ◌%◌, ◌<◌, ◌≡◌, Bool, true, false, not, ◌&&◌, ◌||◌, Option, none, some, List, [], ◌∷◌, length,
  if◌then◌else◌, ltb, leb, ◌==◌, any, every, All, Text, text_eq, text_in, is_nonempty, codes,
  Result, ok, err, ◌>>=◌, ◌>>◌,
}
use servidor_drive.Prelude.Base64.{base64url, from_base64url, is_base64_character}
use servidor_drive.Sync.Operation.{OperationKind, create, update, move, delete}
use servidor_drive.Sync.Json.{
  Json, null, boolean, number, text, array, object, Fields, end, field, truthy, text_or_empty, get,
  has_own, put, has_exact_keys, canonicalize, canonical_json, utf8,
}
use servidor_drive.Sync.Protocol.{
  ProtocolError, invalid_operation, invalid_protocol_version, invalid_envelope, aad_mismatch,
  authorization_expired, protocol_version, operation_fields, required_fields, keys_of, get_or_null,
  id, id_or, SyncRevision, revision, base_revision_of, normalize_metadata, spread, max_safe_integer,
}
use servidor_drive.Sync.Header.{
  Header, Drawn, operation_kind, kind_text, is_delete, create_header, revision_json, base_json,
  operation_aad,
}

pub record Envelope : Type 0 where
  pub ciphertext : Text
  pub nonce : Text
  pub tag : Text
  pub aad : Text

pub record SyncOperation : Type 0 where
  pub header : Header
  pub envelope : Envelope
  pub authorization : Option Json

abbrev pub authorization_end : Option Json → Fields
authorization_end none = end
authorization_end (some a) = field (codes "authorization") a end

-- The object that createOperation and validateOperation give.
unfoldable pub operation_record : SyncOperation → Fields
operation_record op =
    let h = op.header in
    field (codes "protocolVersion") (number protocol_version) (
      field (codes "operationId") (text h.operation_id) (
        field (codes "objectId") (text h.object_id) (
          field (codes "fileId") (text h.file_id) (
            field (codes "versionId") (text h.version_id) (
              field (codes "operation") (text (kind_text h.operation)) (
                field (codes "revision") (revision_json h.revision) (
                  field (codes "baseRevision") (base_json h.base_revision) (
                    field (codes "keyEpoch") (text h.key_epoch) (
                      field (codes "compartmentId") (text h.compartment_id) (
                        field (codes "deviceId") (text h.device_id) (
                          field (codes "metadata") h.metadata (
                            field (codes "tombstone") (boolean h.tombstone) (
                              field (codes "ciphertext") (text op.envelope.ciphertext) (
                                field (codes "nonce") (text op.envelope.nonce) (
                                  field (codes "tag") (text op.envelope.tag) (
                                    field (codes "aad") (text op.envelope.aad)
                                      (authorization_end op.authorization)))))))))))))))))

abbrev pub authorization_fields : List Text
authorization_fields =
    codes "schemaVersion"
    ∷ codes "type"
    ∷ codes "suite"
    ∷ codes "protocolVersion"
    ∷ codes "username"
    ∷ codes "deviceId"
    ∷ codes "operationId"
    ∷ codes "objectId"
    ∷ codes "fileId"
    ∷ codes "versionId"
    ∷ codes "operation"
    ∷ codes "revision"
    ∷ codes "baseRevision"
    ∷ codes "keyEpoch"
    ∷ codes "compartmentId"
    ∷ codes "metadata"
    ∷ codes "aadDigest"
    ∷ codes "ciphertextDigest"
    ∷ codes "nonceDigest"
    ∷ codes "tagDigest"
    ∷ codes "expiresAt"
    ∷ codes "replayId"
    ∷ codes "idempotencyKey"
    ∷ codes "publicKey"
    ∷ codes "signature"
    ∷ []

abbrev pub digest_fields : List Text
digest_fields =
    codes "aadDigest"
    ∷ codes "ciphertextDigest"
    ∷ codes "nonceDigest"
    ∷ codes "tagDigest"
    ∷ codes "replayId"
    ∷ codes "idempotencyKey"
    ∷ codes "publicKey"
    ∷ codes "signature"
    ∷ []

abbrev pub is_number : ℕ → Option Json → Bool
is_number n (some (number m)) = m == n
is_number n _ = false

abbrev pub is_text : Text → Option Json → Bool
is_text t (some (text u)) = text_eq u t
is_text t _ = false

-- `/^[A-Za-z0-9_-]+$/` and a length that base64 can have
unfoldable pub is_base64_text : Option Json → Bool
is_base64_text (some (text t)) =
    is_nonempty t && every is_base64_character t && not (length t % 4 == 1)
is_base64_text _ = false

abbrev pub after_now : ℕ → Option Json → Bool
after_now now (some (number n)) = leb n max_safe_integer && ltb now n
after_now now _ = false

abbrev pub guard : Bool → ProtocolError → Result ProtocolError (Unit {0})
guard true e = ok tt
guard false e = err e

unfoldable pub normalize_authorization : (now : ℕ) → Json → Result ProtocolError Json
normalize_authorization now (object fs) = do
  guard (has_exact_keys authorization_fields fs) invalid_operation
  guard (every (λ k. has_own k fs) authorization_fields) invalid_operation
  guard (is_number 1 (get (codes "schemaVersion") fs)) invalid_operation
  guard (is_text (codes "rootark-sync-device-authorization-v1") (get (codes "type") fs))
      invalid_operation
  guard (is_text (codes "rootark-zk-1") (get (codes "suite") fs)) invalid_operation
  guard (is_number protocol_version (get (codes "protocolVersion") fs)) invalid_operation
  guard (after_now now (get (codes "expiresAt") fs)) authorization_expired
  guard (every (λ k. is_base64_text (get k fs)) digest_fields) invalid_operation
  ok (canonicalize (object fs))
normalize_authorization now _ = err invalid_operation

unfoldable pub authorization_of : (now : ℕ) → Option Json → Result ProtocolError (Option Json)
authorization_of now none = ok none
authorization_of now (some v) = do a ← normalize_authorization now v; ok (some a)

-- decodeBase64Url of a field: whether it may be empty, and the number of bytes that it has to have.
unfoldable pub decode_base64_url : Bool → Option ℕ → Text → Result ProtocolError (List ℕ)
decode_base64_url may_be_empty size t =
    let decoded = from_base64url t in
    let sized : Bool = elim size [ none ↦ true | some n ↦ length decoded == n ] in
    if (is_nonempty t || may_be_empty)
      && every is_base64_character t
      && not (length t % 4 == 1)
      && text_eq (base64url decoded) t
      && sized
    then ok decoded
    else err invalid_envelope

-- A field that is a text, and not an empty one unless it may be.
unfoldable pub sealed_text : Bool → Option Json → Result ProtocolError Text
sealed_text may_be_empty (some (text t)) =
    if is_nonempty t || may_be_empty then ok t else err invalid_operation
sealed_text may_be_empty _ = err invalid_operation

unfoldable pub envelope_of : Fields → Result ProtocolError Envelope
envelope_of fs = do
  ciphertext ← sealed_text true (get (codes "ciphertext") fs)
  nonce ← sealed_text false (get (codes "nonce") fs)
  tag ← sealed_text false (get (codes "tag") fs)
  aad ← sealed_text false (get (codes "aad") fs)
  ok (record { ciphertext = ciphertext; nonce = nonce; tag = tag; aad = aad })

pub record Opened : Type 0 where
  pub ciphertext : List ℕ
  pub nonce : List ℕ
  pub tag : List ℕ

-- The fields are decoded, and the AAD has to be that of the operation.
unfoldable pub open_envelope : Header → Envelope → Result ProtocolError Opened
open_envelope h e = do
  ciphertext ← decode_base64_url true none e.ciphertext
  nonce ← decode_base64_url false (some 12) e.nonce
  tag ← decode_base64_url false (some 16) e.tag
  aad ← decode_base64_url false none e.aad
  guard (text_eq aad (utf8 (operation_aad h))) aad_mismatch
  ok (record { ciphertext = ciphertext; nonce = nonce; tag = tag })

abbrev pub metadata_has : Text → Json → Bool
metadata_has k (object fs) = has_own k fs
metadata_has k _ = false

abbrev pub needs_source : OperationKind → Bool
needs_source move = true
needs_source _ = false

abbrev pub is_tombstone : Bool → Option Json → Bool
is_tombstone b (some (boolean c)) = if b then c else not c
is_tombstone b _ = false

unfoldable pub validate_fields : (now : ℕ) → Drawn → Fields → Result ProtocolError SyncOperation
validate_fields now drawn fs = do
  guard (is_number protocol_version (get (codes "protocolVersion") fs)) invalid_protocol_version
  guard (has_exact_keys operation_fields fs) invalid_operation
  guard (every (λ k. has_own k fs) required_fields) invalid_operation
  header ← create_header drawn fs
  authorization ← authorization_of now (get (codes "authorization") fs)
  guard (is_tombstone header.tombstone (get (codes "tombstone") fs)) invalid_operation
  guard (metadata_has (codes "path") header.metadata) invalid_operation
  guard (not (needs_source header.operation) || metadata_has (codes "sourcePath") header.metadata)
      invalid_operation
  envelope ← envelope_of fs
  opened ← open_envelope header envelope
  ok (record { header = header; envelope = envelope; authorization = authorization })

unfoldable pub validate_operation : (now : ℕ) → Drawn → Json → Result ProtocolError SyncOperation
validate_operation now drawn (object fs) = validate_fields now drawn fs
validate_operation now drawn _ = err invalid_operation
