-- ===== src/Sync/Protocol.antt =====
-- sync-client/rootark-sync-protocol.js: the operations that clients create and that the server and the
-- clients validate. The cipher is a parameter; the clock and drawn identifiers are inputs.
pub mod Again
pub mod Settled
use servidor_drive.Prelude.{
  ℕ, ◌-◌, ◌*◌, ◌^◌, Bool, true, false, not, ◌&&◌, ◌||◌, Option, none, some, List, [], ◌∷◌, ◌++◌,
  length, if◌then◌else◌, ltb, leb, ◌==◌, any, every, keep, Text, text_eq, text_in, is_nonempty,
  is_digit, codes, utf16_length, Result, ok, err, ◌>>=◌, ◌>>◌,
}
use servidor_drive.Prelude.Base64.{base64url, from_base64url, is_base64_character}
use servidor_drive.Paths.{validate_portable_relative_path}
use servidor_drive.Sync.Operation.{OperationKind, create, update, move, delete}
use servidor_drive.Sync.Json.{
  Json, null, boolean, number, text, array, object, Items, nil, item, Fields, end, field, truthy,
  string_of, text_or_empty, get, has_own, put, has_exact_keys, canonicalize, canonical_json, utf8,
}

pub data ProtocolError : Type 0 where
  invalid_operation invalid_protocol_version invalid_envelope : ProtocolError
  aad_mismatch payload_too_large authorization_expired : ProtocolError

abbrev pub protocol_version : ℕ
protocol_version = 2

abbrev pub max_id_length : ℕ
max_id_length = 160

abbrev pub max_metadata_bytes : ℕ
max_metadata_bytes = 16 * 1024

abbrev pub max_safe_integer : ℕ
max_safe_integer = 2 ^ 53 - 1

abbrev pub metadata_keys : List Text
metadata_keys =
    codes "fileId"
    ∷ codes "versionId"
    ∷ codes "path"
    ∷ codes "parentId"
    ∷ codes "name"
    ∷ codes "contentType"
    ∷ codes "size"
    ∷ codes "keyEpoch"
    ∷ codes "compartmentId"
    ∷ codes "deviceId"
    ∷ codes "sourcePath"
    ∷ []

abbrev pub scope_keys : List Text
scope_keys = codes "keyEpoch" ∷ codes "compartmentId" ∷ codes "deviceId" ∷ []

-- METADATA_KEYS_BY_OPERATION
unfoldable pub keys_of : OperationKind → List Text
keys_of create = keep (λ k. not (text_eq k (codes "sourcePath"))) metadata_keys
keys_of update = keep (λ k. not (text_eq k (codes "sourcePath"))) metadata_keys
keys_of move = codes "fileId" ∷ codes "versionId" ∷ codes "path" ∷ codes "sourcePath" ∷ scope_keys
keys_of delete = codes "fileId" ∷ codes "versionId" ∷ codes "path" ∷ scope_keys

abbrev pub operation_fields : List Text
operation_fields =
    codes "protocolVersion"
    ∷ codes "operationId"
    ∷ codes "objectId"
    ∷ codes "fileId"
    ∷ codes "versionId"
    ∷ codes "operation"
    ∷ codes "revision"
    ∷ codes "baseRevision"
    ∷ codes "keyEpoch"
    ∷ codes "compartmentId"
    ∷ codes "deviceId"
    ∷ codes "metadata"
    ∷ codes "tombstone"
    ∷ codes "ciphertext"
    ∷ codes "nonce"
    ∷ codes "tag"
    ∷ codes "aad"
    ∷ codes "authorization"
    ∷ []

abbrev pub required_fields : List Text
required_fields = keep (λ k. not (text_eq k (codes "authorization"))) operation_fields

-- `object[key]`, undefined as null where the difference is not seen.
abbrev pub get_or_null : Text → Fields → Json
get_or_null k fs = elim (get k fs) [ none ↦ null | some v ↦ v ]

-- `/[A-Za-z0-9._:-]/`
unfoldable pub is_id_character : ℕ → Bool
unfolding is_digit
is_id_character c =
    (leb b'A' c && leb c b'Z')
    || (leb b'a' c && leb c b'z')
    || is_digit c
    || c == b'.'
    || c == b'_'
    || c == b':'
    || c == b'-'

unfoldable pub is_id : Text → Bool
unfolding is_id_character
is_id t = is_nonempty t && not (ltb max_id_length (utf16_length t)) && every is_id_character t

unfoldable pub id : Json → Result ProtocolError Text
id value = let t = text_or_empty value in if is_id t then ok t else err invalid_operation

-- `id(value || fallback)`
unfoldable pub id_or : Json → Text → Result ProtocolError Text
id_or value fallback = if truthy value then id value else id (text fallback)

pub record SyncRevision : Type 0 where
  pub counter : ℕ
  pub device_id : Text

abbrev pub safe_integer : Option Json → Option ℕ
safe_integer (some (number n)) = if leb n max_safe_integer then some n else none
safe_integer _ = none

unfoldable pub revision_of : Option ℕ → Json → Result ProtocolError SyncRevision
revision_of none device = err invalid_operation
revision_of (some counter) device = do
  device_id ← id device
  ok (record { counter = counter; device_id = device_id })

unfoldable pub revision : Json → Result ProtocolError SyncRevision
revision (object fs) =
    revision_of (safe_integer (get (codes "counter") fs)) (get_or_null (codes "deviceId") fs)
revision _ = err invalid_operation

unfoldable pub base_revision_of : Json → Result ProtocolError (Option SyncRevision)
base_revision_of null = ok none
base_revision_of v = do r ← revision v; ok (some r)

abbrev is_control : ℕ → Bool
is_control c = leb c 31 || c == 127

abbrev pub path_keys : List Text
path_keys = codes "path" ∷ codes "sourcePath" ∷ []

abbrev pub label_keys : List Text
label_keys = codes "name" ∷ codes "contentType" ∷ []

abbrev pub or_invalid : {A : Type 0} → Option A → Result ProtocolError A
or_invalid none = err invalid_operation
or_invalid (some a) = ok a

unfoldable pub is_label : Text → Bool
is_label t = is_nonempty t && not (ltb 512 (utf16_length t)) && not (any is_control t)

-- The value of one metadata key.
unfoldable pub metadata_value : Text → Json → Result ProtocolError Json
metadata_value key value =
    if text_eq key (codes "size")
    then (do n ← or_invalid (safe_integer (some value)); ok (number n))
    else if text_in key path_keys
    then (do p ← or_invalid (validate_portable_relative_path (text_or_empty value)); ok (text p))
    else if text_in key label_keys
    then if is_label (string_of value) then ok (text (string_of value)) else err invalid_operation
    else do t ← id value; ok (text t)

abbrev pub add_field :
    Text → Result ProtocolError Json → Result ProtocolError Fields → Result ProtocolError Fields
add_field k value rest = do v ← value; fs ← rest; ok (field k v fs)

-- A key that is missing or null is left out.
unfoldable pub normalize_key :
    Text → Option Json → Result ProtocolError Fields → Result ProtocolError Fields
normalize_key k none rest = rest
normalize_key k (some null) rest = rest
normalize_key k (some v) rest = add_field k (metadata_value k v) rest

-- The loop of normalizeMetadata.
unfoldable pub normalize_keys : List Text → Fields → Result ProtocolError Fields
normalize_keys [] input = ok end
normalize_keys (k ∷ ks) input = normalize_key k (get k input) (normalize_keys ks input)

abbrev pub canonical_object : Fields → Json
canonical_object fs = canonicalize (object fs)

unfoldable pub sized_metadata : Fields → Result ProtocolError Json
sized_metadata fs =
    if ltb max_metadata_bytes (length (utf8 (canonical_json (object fs))))
    then err payload_too_large
    else ok (canonical_object fs)

unfoldable pub normalize_metadata : Fields → List Text → Result ProtocolError Json
normalize_metadata input allowed =
    if has_exact_keys allowed input
    then normalize_keys allowed input >>= sized_metadata
    else err invalid_operation

-- `{ ...input.metadata, ... }` of a value. A text or a list gives its places: the first stands for them,
-- since no name of metadata is a place.
unfoldable pub spread : Json → Fields
spread (object fs) = fs
spread (text (c ∷ cs)) = field (codes "0") (text (c ∷ [])) end
spread (array (item x xs)) = field (codes "0") x end
spread _ = end
