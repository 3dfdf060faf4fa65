-- ===== src/Sync/Engine/Scan.antt =====
-- SyncEngine.scanFiles, and the changes that reconcileLocal finds.
pub mod Missing
use servidor_drive.Prelude.{
  ℕ, Bool, true, false, not, ◌&&◌, ◌||◌, Option, none, some, List, [], ◌∷◌, ◌++◌, if◌then◌else◌,
  ◌==◌, any, keep, map, to_lower_case, split, split_first, Text, text_eq, text_in, codes, Result,
  ok, err, is_nonempty, ◌>>=◌, ◌>>◌,
}
use servidor_drive.Prelude.TextMaps.{TextMap, lookup, read_text, insert, discard}
use servidor_drive.Prelude.Objects.{Slot, absent, foreign, own}
use servidor_drive.Paths.{validate_portable_relative_path}
use servidor_drive.Sync.Operation.{OperationKind, create, update, move, delete}
use servidor_drive.Sync.Json.{Json, object, text, Fields, get}
use servidor_drive.Sync.Protocol.{SyncRevision, ProtocolError}
use servidor_drive.Sync.Header.{Header, is_delete}
use servidor_drive.Sync.Envelope.{SyncOperation}
use servidor_drive.Sync.Sealing.{Aead, DecryptError, decrypt_payload}
use servidor_drive.Sync.Engine.{
  Folder, Indexed, Engine, EngineError, EngineOptions, DiskAnswers, rest_below, is_below, exists,
  stage_existing, renamed, rename, text_field, path_of, source_of, indexed_as, known_hash,
  first_hash, remember_operation, required, require, decrypted, contained,
  remote_authorization_rejected, authorization_rejected, stale_key_epoch, key_unavailable,
  unsafe_path, invalid_path, not_written, not_decrypted,
}

abbrev internal_names : List Text
internal_names =
    codes ".rootark-trash"
    ∷ codes ".rootark-conflicts"
    ∷ codes ".rootark-sync-journal.json"
    ∷ codes ".rootark-sync-index.json"
    ∷ []

unfoldable pub starts_with : Text → Text → Bool
starts_with [] t = true
starts_with (c ∷ cs) [] = false
starts_with (c ∷ cs) (d ∷ ds) = c == d && starts_with cs ds

unfoldable pub is_scanned : Text → Bool
unfolding to_lower_case split split_first
is_scanned path =
    let name = (split_first b'/' path).0 in
    not (text_in (to_lower_case name) internal_names)
    && not (
        any (λ s. starts_with (codes ".rootark-put-") s || starts_with (codes ".rootark-move-") s)
          (split b'/' path))
    && elim (validate_portable_relative_path path) [ none ↦ false | some p ↦ true ]

-- scanFiles: the hash of each file that is not the program's own and whose path is accepted.
unfoldable pub scan_files : (List ℕ → Text) → TextMap (List ℕ) → TextMap Text
unfolding is_scanned
scan_files digest [] = []
scan_files digest ((path, content) ∷ files) =
    let rest = scan_files digest files in
    if is_scanned path then (path, digest content) ∷ rest else rest

-- `current[relative]` is true of an inherited name too.
abbrev pub is_there : Slot Text → Bool
is_there absent = false
is_there foreign = true
is_there (own hash) = true

-- The paths that reconcileLocal takes as deleted: they are in the index, not protected by an operation that
-- waits, and not on the disk.
unfoldable pub missing_paths : List Text → TextMap Text → TextMap Indexed → List Text
missing_paths protected current [] = []
missing_paths protected current ((path, prior) ∷ index) =
    let rest = missing_paths protected current index in
    if text_in path protected || prior.deleted || is_there (read_text path current)
    then rest
    else path ∷ rest

-- What it makes of a file that is there: an update of an entry, or of an inherited value.
pub data Change : Type 0 where
  unchanged created : Change
  updated : Option Indexed → Change

unfoldable pub change_of : (hash : Text) → Slot Indexed → Change
change_of hash absent = created
change_of hash foreign = updated none
change_of hash (own prior) = if prior.deleted then created else elim prior.hash [
  | none ↦ updated (some prior)
  | some h ↦ if text_eq h hash then unchanged else updated (some prior)
]

unfoldable pub changed_files : List Text → TextMap Text → TextMap Indexed → List (Text × Change)
changed_files protected [] index = []
changed_files protected ((path, hash) ∷ current) index =
    let rest = changed_files protected current index in
    if text_in path protected then rest else (path, change_of hash (read_text path index)) ∷ rest
