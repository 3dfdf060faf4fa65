-- ===== src/Sync/Engine.antt =====
-- SyncEngine of sync-client/rootark-sync-engine.js: its folder and snapshot, and the files that its steps move.
-- A directory is known by the files below it.
pub mod Apply
pub mod Scan
pub mod Held
pub mod Kept
pub mod Moves
use servidor_drive.Prelude.{
  ℕ, Bool, true, false, not, ◌&&◌, ◌||◌, Option, none, some, List, [], ◌∷◌, ◌++◌, if◌then◌else◌,
  ◌==◌, any, keep, map, to_lower_case, split, split_first, Text, text_eq, text_in, codes, Result,
  ok, err, is_nonempty, ◌>>=◌, ◌>>◌,
}
use servidor_drive.Prelude.TextMaps.{TextMap, lookup, read_text, insert, discard}
use servidor_drive.Prelude.Objects.{Slot, absent, foreign, own}
use servidor_drive.Paths.{validate_portable_relative_path}
use servidor_drive.Sync.Operation.{OperationKind, create, update, move, delete}
use servidor_drive.Sync.Json.{Json, object, text, Fields, get}
use servidor_drive.Sync.Protocol.{SyncRevision, ProtocolError}
use servidor_drive.Sync.Header.{Header, is_delete}
use servidor_drive.Sync.Envelope.{SyncOperation}
use servidor_drive.Sync.Sealing.{Aead, DecryptError, decrypt_payload}

-- The files of the root folder by their relative paths, and those of `.rootark-trash` by the paths where they
-- stood, of which the names there keep the last part.
pub record Folder : Type 0 where
  pub files : TextMap (List ℕ)
  pub trash : TextMap (List ℕ)

-- An entry of the snapshot.
pub record Indexed : Type 0 where
  pub object_id : Text
  pub file_id : Text
  pub version_id : Text
  pub revision : SyncRevision
  pub hash : Option Text
  pub deleted : Bool

-- `stored`: the snapshot in its file.
pub record Engine : Type 0 where
  pub folder : Folder
  pub index : TextMap Indexed
  pub stored : TextMap Indexed

pub data EngineError : Type 0 where
  remote_authorization_rejected authorization_rejected stale_key_epoch key_unavailable unsafe_path
        invalid_path :
      EngineError
  not_written : EngineError
  not_decrypted : DecryptError → EngineError

-- The options that apply reads; `is_verified` is true where there is no verifyIncoming.
pub record EngineOptions : Type 0 where
  pub is_verified : SyncOperation → Bool
  pub is_authorized : SyncOperation → Bool
  pub key_epoch : Text
  pub file_key : SyncOperation → Option (List ℕ)

-- What the file system answers: whether a path is reached without a symbolic link, whether the directories
-- of a path can be made, whether the rename into the trash succeeds, the write of a temporary file, the
-- rename or the directory that puts the file in its place, and the write of the snapshot.
pub record DiskAnswers : Type 0 where
  pub is_contained : Text → Bool
  pub is_made : Text → Bool
  pub is_staged : Bool
  pub is_temporary_written : Bool
  pub is_placed : Bool
  pub is_snapshot_written : Bool

-- What is left of a path below another one: nothing, or a slash and more.
unfoldable pub rest_below : Text → Text → Option Text
rest_below [] [] = some []
rest_below [] (c ∷ cs) = if c == b'/' then some (c ∷ cs) else none
rest_below (d ∷ ds) [] = none
rest_below (d ∷ ds) (c ∷ cs) = if d == c then rest_below ds cs else none

unfoldable pub is_below : Text → Text → Bool
unfolding rest_below
is_below target path = elim (rest_below target path) [ none ↦ false | some r ↦ true ]

-- `exists`
unfoldable pub exists : Text → TextMap (List ℕ) → Bool
exists target files = any (λ f. is_below target f.0) files

-- stageExisting: what stands there goes to the trash.
unfoldable pub stage_existing : Text → Folder → Folder
stage_existing target folder = record {
  files = keep (λ f. not (is_below target f.0)) folder.files;
  trash = folder.trash ++ keep (λ f. is_below target f.0) folder.files;
}

abbrev pub renamed : Text → Text → Text × List ℕ → Text × List ℕ
renamed source target (path, content) =
    (elim (rest_below source path) [ none ↦ path | some r ↦ target ++ r ], content)

-- What a rename onto a path replaces is gone, and the rest stays.
unfoldable pub replaced : Text → TextMap (List ℕ) → TextMap (List ℕ)
replaced target files = keep (λ f. not (is_below target f.0)) files

-- `fsp.rename(source, target)` of a file or a directory: what stands at the target is replaced, unless it is
-- the source. A directory with files at the target makes the rename fail, which is an answer of the disk.
unfoldable pub rename : Text → Text → TextMap (List ℕ) → TextMap (List ℕ)
unfolding is_below
rename source target files =
    map (renamed source target) (keep (λ f. is_below source f.0 || not (is_below target f.0)) files)

abbrev pub text_field : Text → Json → Option Text
text_field k (object fs) = elim (get k fs) [ some (text t) ↦ some t | _ ↦ none ]
text_field k _ = none

unfoldable pub path_of : SyncOperation → Option Text
path_of op = text_field (codes "path") op.header.metadata

unfoldable pub source_of : SyncOperation → Option Text
source_of op = text_field (codes "sourcePath") op.header.metadata

abbrev pub indexed_as : SyncOperation → Option Text → Bool → Indexed
indexed_as op hash deleted = record {
  object_id = op.header.object_id;
  file_id = op.header.file_id;
  version_id = op.header.version_id;
  revision = op.header.revision;
  hash = hash;
  deleted = deleted;
}

abbrev pub known_hash : Option Indexed → Option Text
known_hash none = none
known_hash (some prior) = prior.hash

abbrev pub first_hash : Option Text → Option Text → Option Text
first_hash (some h) old = some h
first_hash none old = old

-- rememberOperation
unfoldable pub remember_operation : SyncOperation → Option Text → TextMap Indexed → TextMap Indexed
remember_operation op hash index = elim (path_of op) [
  | none ↦ index
  | some path ↦
      insert path
        (indexed_as op (first_hash hash (known_hash (lookup path index))) op.header.tombstone) index
]

abbrev pub required : {A : Type 0} → EngineError → Option A → Result EngineError A
required e none = err e
required e (some a) = ok a

abbrev pub require : EngineError → Bool → Result EngineError (Unit {0})
require e true = ok tt
require e false = err e

abbrev pub decrypted : Result DecryptError (List ℕ) → Result EngineError (List ℕ)
decrypted (ok plaintext) = ok plaintext
decrypted (err e) = err (not_decrypted e)

-- contained
unfoldable pub contained : DiskAnswers → Text → Result EngineError Text
contained disk relative_path = do
  safe ← required invalid_path (validate_portable_relative_path relative_path)
  require unsafe_path (disk.is_contained safe)
  ok safe
