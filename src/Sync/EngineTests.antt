-- ===== src/Sync/EngineTests.antt =====
-- A move of a file that the device never had, and what the engine makes of it.
use servidor_drive.Prelude.TextMaps.{discard, lookup}
use servidor_drive.Paths.{validate_portable_relative_path}
use servidor_drive.Prelude.{
  ℕ, ◌≡◌, refl, ap, ◌∙◌, true, false, some, none, [], ◌∷◌, List, Text, text_in, codes, ok, text_eq,
  decimal,
}
use servidor_drive.Prelude.TextMaps.{lookup, insert, discard, is_inherited}
use servidor_drive.Paths.{validate_portable_relative_path}
use servidor_drive.Sync.Json.{
  text, object, end, field, get, canonical_json, canonicalize, canonical_fields, insert_sorted,
  text_lt, key_lt, is_index, stringify, escaped_all, escaped, hex_digit,
}
use servidor_drive.Sync.Operation.{move}
use servidor_drive.Sync.Header.{Header, aad_fields, operation_aad}
use servidor_drive.Sync.Header.Made.{then_ok}
use servidor_drive.Sync.Envelope.{SyncOperation}
use servidor_drive.Sync.Sealing.{decrypt_payload}
use servidor_drive.Sync.Sealing.Decrypting.{IsSealable, sealed_envelope, decrypt_payload-sealed}
use servidor_drive.Sync.ProtocolTests.{
  spelling, nonce_zeros, key_zeros, plaintext_two, below, request_header,
}
use servidor_drive.Sync.Engine.{
  Engine, EngineOptions, DiskAnswers, decrypted, path_of, source_of, exists, contained, is_below,
  stage_existing,
}
use servidor_drive.Sync.Engine.Scan.{missing_paths, scan_files}
use servidor_drive.Sync.Engine.Apply.{
  opened_for_apply, apply_opened, apply, apply_kind, apply_move, key_for,
}
use servidor_drive.Sync.Engine.Held.{IsKept}
use servidor_drive.Sync.Engine.Kept.{apply-IsKept}
use servidor_drive.Sync.Engine.Moves.{IsReady, apply-missing_paths}

abbrev move_header : Header
move_header = record request_header {
  operation = move;
  metadata = object (
      field (codes "path") (text (codes "b.txt"))
        (field (codes "sourcePath") (text (codes "a.txt")) end));
}

abbrev moved : SyncOperation
moved = record {
  header = move_header;
  envelope = sealed_envelope spelling nonce_zeros move_header plaintext_two key_zeros;
  authorization = none;
}

move_header-IsSealable : IsSealable nonce_zeros move_header
unfolding operation_aad aad_fields canonical_json canonicalize canonical_fields insert_sorted key_lt
    is_index text_lt stringify escaped_all escaped hex_digit decimal
move_header-IsSealable = record {
  nonce_size = refl;
  nonce_bytes = below 256 nonce_zeros refl;
  code_points = below 0x110000 (operation_aad move_header) refl;
}

decrypted_move : decrypt_payload spelling moved key_zeros ≡ ok plaintext_two
decrypted_move =
    decrypt_payload-sealed spelling nonce_zeros move_header none plaintext_two key_zeros
      move_header-IsSealable refl

abbrev options : EngineOptions
options = record {
  is_verified = λ op. true;
  is_authorized = λ op. true;
  key_epoch = codes "1";
  file_key = λ op. some key_zeros;
}

abbrev good_disk : DiskAnswers
good_disk = record {
  is_contained = λ path. true;
  is_made = λ path. true;
  is_staged = true;
  is_temporary_written = true;
  is_placed = true;
  is_snapshot_written = true;
}

abbrev same_content : List ℕ → Text
same_content content = content

-- A device with another file at the target of the move, and none at its source.
abbrev device : Engine
device = record {
  folder = record { files = (codes "b.txt", 1 ∷ []) ∷ (codes "c.txt", 2 ∷ []) ∷ []; trash = [] };
  index = [];
  stored = [];
}

abbrev after_move : Engine
after_move =
    let index =
      (
        codes "b.txt",
        record {
          object_id = codes "o1";
          file_id = codes "o1";
          version_id = codes "u2";
          revision = record { counter = 1; device_id = codes "d1" };
          hash = none;
          deleted = false;
        },
      )
      ∷ [] in
    record {
      folder = record {
        files = (codes "c.txt", 2 ∷ []) ∷ [];
        trash = (codes "b.txt", 1 ∷ []) ∷ [];
      };
      index = index;
      stored = index;
    }

opened_move :
    opened_for_apply options spelling same_content good_disk moved
    ≡ ok (plaintext_two, codes "b.txt")
unfolding opened_for_apply key_for contained path_of get text_eq validate_portable_relative_path
opened_move = then_ok _ (ap decrypted decrypted_move) refl

moved_on :
    apply_opened options spelling same_content good_disk moved
      (ok (plaintext_two, codes "b.txt"))
      device
    ≡ (ok tt, after_move)
unfolding apply_opened apply_kind apply_move source_of path_of get text_eq exists contained
    validate_portable_relative_path is_below stage_existing insert discard lookup
moved_on = refl

applied_move : apply options spelling same_content good_disk moved device ≡ (ok tt, after_move)
unfolding apply apply_opened
applied_move =
    ap (λ r. apply_opened options spelling same_content good_disk moved r device) opened_move
    ∙ moved_on

apply-IsKept_example :
    IsKept device.folder (apply options spelling same_content good_disk moved device).1.folder
apply-IsKept_example = apply-IsKept options spelling same_content good_disk moved device

moved-IsReady :
    IsReady options spelling same_content good_disk moved (codes "a.txt") (codes "b.txt")
unfolding source_of path_of get text_eq validate_portable_relative_path
moved-IsReady = record {
  verified = refl;
  authorized = refl;
  current_epoch = refl;
  key = key_zeros;
  keyed = refl;
  plaintext = plaintext_two;
  decrypts = decrypted_move;
  moves = refl;
  alive = refl;
  source_named = refl;
  source_valid = refl;
  source_reached = refl;
  target_named = refl;
  target_valid = refl;
  target_reached = refl;
  made_there = refl;
  stages = refl;
  writes = refl;
}

apply-missing_paths_example :
    (after : Engine) × (apply options spelling same_content good_disk moved device ≡ (ok tt, after))
    × (text_in
          (codes "b.txt")
          (missing_paths [] (scan_files same_content after.folder.files) after.index)
        ≡ true)
unfolding exists is_inherited text_eq is_below
apply-missing_paths_example =
    apply-missing_paths options spelling same_content good_disk moved (codes "a.txt")
      (codes "b.txt") [] device moved-IsReady refl refl refl
