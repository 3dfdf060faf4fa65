-- ===== src/Sync/Header.antt =====
-- createOperation up to its payload, and aadFor, of sync-client/rootark-sync-protocol.js.
pub mod Metadata
pub mod Made
use servidor_drive.Prelude.{
  ℕ, ◌%◌, ◌<◌, ◌≡◌, Bool, true, false, not, ◌&&◌, ◌||◌, Option, none, some, List, [], ◌∷◌, length,
  if◌then◌else◌, ltb, leb, ◌==◌, any, every, All, Text, text_eq, text_in, is_nonempty, codes,
  Result, ok, err, ◌>>=◌, ◌>>◌,
}
use servidor_drive.Prelude.Base64.{base64url, from_base64url, is_base64_character}
use servidor_drive.Sync.Operation.{OperationKind, create, update, move, delete}
use servidor_drive.Sync.Json.{
  Json, null, boolean, number, text, array, object, Fields, end, field, truthy, text_or_empty, get,
  has_own, put, has_exact_keys, canonicalize, canonical_json, utf8,
}
use servidor_drive.Sync.Protocol.{
  ProtocolError, invalid_operation, invalid_protocol_version, invalid_envelope, aad_mismatch,
  authorization_expired, protocol_version, operation_fields, required_fields, keys_of, get_or_null,
  id, id_or, SyncRevision, revision, base_revision_of, normalize_metadata, spread, max_safe_integer,
}

-- An operation before its payload is sealed.
pub record Header : Type 0 where
  pub operation_id : Text
  pub object_id : Text
  pub file_id : Text
  pub version_id : Text
  pub operation : OperationKind
  pub revision : SyncRevision
  pub base_revision : Option SyncRevision
  pub key_epoch : Text
  pub compartment_id : Text
  pub device_id : Text
  pub metadata : Json
  pub tombstone : Bool

-- What `crypto.randomUUID` gives for the names that are left out.
pub record Drawn : Type 0 where
  pub object_id : Text
  pub version_id : Text
  pub operation_id : Text

unfoldable pub operation_kind : Text → Option OperationKind
operation_kind t =
    if text_eq t (codes "create")
    then some create
    else if text_eq t (codes "update")
    then some update
    else if text_eq t (codes "move")
    then some move
    else if text_eq t (codes "delete")
    then some delete
    else none

abbrev pub kind_text : OperationKind → Text
kind_text create = codes "create"
kind_text update = codes "update"
kind_text move = codes "move"
kind_text delete = codes "delete"

abbrev pub is_delete : OperationKind → Bool
is_delete delete = true
is_delete _ = false

abbrev pub known_kind : Option OperationKind → Result ProtocolError OperationKind
known_kind none = err invalid_operation
known_kind (some k) = ok k

-- The names that createOperation writes over those of the metadata.
abbrev pub with_scope : Text → Text → Text → Text → Text → Fields → Fields
with_scope file_id version_id key_epoch compartment_id device_id fs =
    put (codes "deviceId") (text device_id) (
      put (codes "compartmentId") (text compartment_id) (
        put (codes "keyEpoch") (text key_epoch)
          (put (codes "versionId") (text version_id) (put (codes "fileId") (text file_id) fs))))

-- createOperation up to the payload.
unfoldable pub create_header : Drawn → Fields → Result ProtocolError Header
create_header drawn input = do
  kind ← known_kind (operation_kind (text_or_empty (get_or_null (codes "operation") input)))
  object_id ← id_or (get_or_null (codes "objectId") input) drawn.object_id
  file_id ← id_or (get_or_null (codes "fileId") input) object_id
  version_id ← id_or (get_or_null (codes "versionId") input) drawn.version_id
  device_id ← id (get_or_null (codes "deviceId") input)
  key_epoch ← id (get_or_null (codes "keyEpoch") input)
  compartment_id ← id (get_or_null (codes "compartmentId") input)
  base ← base_revision_of (get_or_null (codes "baseRevision") input)
  operation_id ← id_or (get_or_null (codes "operationId") input) drawn.operation_id
  current ← revision (get_or_null (codes "revision") input)
  metadata ←
      normalize_metadata
        (with_scope file_id version_id key_epoch compartment_id device_id
          (spread (get_or_null (codes "metadata") input)))
        (keys_of kind)
  ok (record {
    operation_id = operation_id;
    object_id = object_id;
    file_id = file_id;
    version_id = version_id;
    operation = kind;
    revision = current;
    base_revision = base;
    key_epoch = key_epoch;
    compartment_id = compartment_id;
    device_id = device_id;
    metadata = metadata;
    tombstone = is_delete kind;
  })

abbrev pub revision_json : SyncRevision → Json
revision_json r =
    object
      (field (codes "counter") (number r.counter) (field (codes "deviceId") (text r.device_id) end))

abbrev pub base_json : Option SyncRevision → Json
base_json none = null
base_json (some r) = revision_json r

unfoldable pub aad_fields : Header → Fields
aad_fields h = field (codes "protocolVersion") (number protocol_version) (
    field (codes "objectId") (text h.object_id) (
      field (codes "fileId") (text h.file_id) (
        field (codes "versionId") (text h.version_id) (
          field (codes "operation") (text (kind_text h.operation)) (
            field (codes "revision") (revision_json h.revision) (
              field (codes "baseRevision") (base_json h.base_revision) (
                field (codes "keyEpoch") (text h.key_epoch) (
                  field (codes "compartmentId") (text h.compartment_id) (
                    field (codes "deviceId") (text h.device_id) (
                      field (codes "metadata") h.metadata
                        (field (codes "tombstone") (boolean h.tombstone) end)))))))))))

-- aadFor
unfoldable pub operation_aad : Header → Text
unfolding aad_fields
operation_aad h = canonical_json (object (aad_fields h))
