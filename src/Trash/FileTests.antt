-- ===== src/Trash/FileTests.antt =====
-- Tests of files in the trash, and the theorems at concrete inputs.
use servidor_drive.Prelude.{◌≡◌, refl, none, some, [], ◌∷◌, codes, ok, arith, text_eq}
use servidor_drive.Prelude.TextMaps.{lookup}
use servidor_drive.Trash.Names.{safe_name, target_of}
use servidor_drive.Trash.Item.{TrashItem, nothing, file, trashed, Entry, Link}
use servidor_drive.Trash.Deletion.{remote_state}
use servidor_drive.Trash.Files.{Removal, move_file_to_trash, restore_file}
use servidor_drive.Trash.Drive.{Content, a_file, a_directory, Drive}
use servidor_drive.Trash.Files.Kept.{Kept, restore_file-Kept}
use servidor_drive.Trash.Files.RoundTrip.{IsThere, IsBack, restore_file-move_file_to_trash}
use servidor_drive.Trash.Files.WholeFolder.{move_file_to_trash-itself}

abbrev plain_item : TrashItem
plain_item = record {
  id = codes "t1";
  item_type = file;
  original_folder_id = codes "docs";
  original_folder_name = codes "Docs";
  original_file_name = some (codes "a.txt");
  stored_file_name = some (codes "a.txt");
  original_path = some (codes "docs/a.txt");
  trash_path = some (codes "files/t1/a.txt");
  deleted_by = some (codes "ana");
  deleted_at = 1000;
  size_bytes = 3;
  metadata = record {
    folder_name = codes "Docs";
    remote_deletion = none;
    restored_name = none;
    restored_folder_id = none;
  };
  restore_metadata = nothing;
  status = trashed;
  restored_by = none;
  restored_at = none;
  permanently_deleted_by = none;
  permanently_deleted_at = none;
}

abbrev hello : Content
hello = record { size = 3; bytes = codes "abc" }

abbrev new_text : Content
new_text = record { size = 1; bytes = codes "z" }

abbrev grants : Entry
grants = record {
  file_name = some (codes "a.txt");
  folder_id = some (codes "docs");
  stored_as = [];
  body = codes "ana";
}

abbrev shared : Link
shared = record { folder_id = some (codes "docs"); file_name = codes "a.txt"; body = [] }

abbrev small_drive : Drive
small_drive = record {
  uploads = (codes "docs", (codes "a.txt", hello) ∷ []) ∷ [];
  trash = [];
  file_permissions = (codes "docs/a.txt", grants) ∷ [];
  file_expirations = [];
  file_versions = [];
  encrypted_files = [];
  public_links = (codes "tok", shared) ∷ [];
  items = [];
}

abbrev removal : Removal
removal = record {
  folder_id = codes "docs";
  folder_name = codes "Docs";
  deleted_by = codes "ana";
  drawn_id = codes "t1";
  now = 1000;
  directory_bytes = 4096;
}

small-IsThere :
    IsThere removal
      (codes "x/a.txt")
      (codes "a.txt")
      ((codes "a.txt", hello) ∷ [])
      hello
      small_drive
unfolding lookup target_of safe_name text_eq
small-IsThere = record { target = refl; folder = refl; file = refl; fresh = refl }

restore_file-move_file_to_trash_example :
    (after : Drive × TrashItem) × (move_file_to_trash removal (codes "x/a.txt") small_drive
      ≡ ok after)
    × IsBack removal
        (codes "a.txt")
        ((codes "a.txt", hello) ∷ [])
        small_drive
        (restore_file 2000 2001 (codes "docs") (codes "ana") after.1 after.0)
restore_file-move_file_to_trash_example =
    restore_file-move_file_to_trash small-IsThere 2000 2001 (codes "ana")

move_file_to_trash-itself_example :
    (after : Drive) × (item : TrashItem) × (move_file_to_trash removal (codes ".") small_drive
      ≡ ok (after, item))
    × (item.item_type ≡ file)
    × (lookup (codes "docs") after.uploads ≡ none)
    × (lookup (codes "files/t1") after.trash ≡ some (a_directory ((codes "a.txt", hello) ∷ [])))
unfolding target_of safe_name lookup text_eq
move_file_to_trash-itself_example =
    move_file_to_trash-itself removal (codes ".") ((codes "a.txt", hello) ∷ []) small_drive refl
      refl

-- A new file took the name in the meantime.
abbrev full_drive : Drive
full_drive = record small_drive {
  uploads = (codes "docs", (codes "a.txt", new_text) ∷ []) ∷ [];
  trash = (codes "files/t1/a.txt", a_file hello) ∷ [];
}

restore_file-Kept_example :
    Kept
      (codes "docs")
      plain_item
      hello
      ((codes "a.txt", new_text) ∷ [])
      (restore_file 2000 2001 (codes "docs") (codes "ana") plain_item full_drive)
unfolding remote_state lookup text_eq
restore_file-Kept_example =
    restore_file-Kept 2000 2001 (codes "docs") (codes "ana") plain_item hello
      ((codes "a.txt", new_text) ∷ []) full_drive refl refl refl (omega arith)
