-- ===== src/Sync/Operation.antt =====
-- A validated sync operation, as `validateOperation` of sync-client/rootark-sync-protocol.js
-- returns it and as `publicRecord` of src/routes/sync.js stores and sends it.
use servidor_drive.Prelude.{ℕ, String, Bool, Option}
use servidor_drive.Prelude.Objects.{Object}
use servidor_drive.Sync.Revision.{Revision}

pub data OperationKind : Type 0 where
  create update move delete : OperationKind

-- The metadata of an operation: `size` is a number, every other key a text.
pub data MetadataValue : Type 0 where
  text : String → MetadataValue
  size : ℕ → MetadataValue

pub record Operation : Type 0 where
  pub protocol_version : ℕ
  pub operation_id : String
  pub object_id : String
  pub file_id : String
  pub version_id : String
  pub operation : OperationKind
  pub revision : Revision
  pub base_revision : Option Revision
  pub key_epoch : String
  pub compartment_id : String
  pub device_id : String
  pub metadata : Object MetadataValue
  pub tombstone : Bool
  pub ciphertext : Option String
  pub nonce : Option String
  pub tag : Option String
  pub aad : Option String
  pub authorization : Option String
