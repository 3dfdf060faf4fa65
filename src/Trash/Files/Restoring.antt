-- ===== src/Trash/Files/Restoring.antt =====
-- A restore that finds its file and a free name.
use servidor_drive.Prelude.{ℕ, ◌≡◌, Option, none, some, Text, codes, ok}
use servidor_drive.Prelude.TextMaps.{lookup, insert}
use servidor_drive.Trash.Names.{get_available_restore_name}
use servidor_drive.Trash.Item.{TrashItem}
use servidor_drive.Trash.Deletion.{remote_state}
use servidor_drive.Trash.Remote.Branches.{cancel_not}
use servidor_drive.Trash.Files.{or_empty, put_back, restore_moved, restore_named, restore_file}
use servidor_drive.Trash.Drive.{Content, Stored, a_file, Drive, names_of, directory_of}

abbrev pub put_back_file : Text → Text → Content → Drive → Drive
put_back_file folder_id name content drive = record drive {
  uploads =
      insert folder_id (insert name content (directory_of (lookup folder_id drive.uploads)))
        drive.uploads;
}

put_back-file :
    (folder_id name : Text) (stored : Option Stored) (content : Content) (drive : Drive)
    → stored ≡ some (a_file content)
    → put_back folder_id name stored drive ≡ ok (put_back_file folder_id name content drive)
unfolding put_back
put_back-file folder_id name stored content drive e = rw e

module _ (cancelled_at now : ℕ) (folder_id restored_by : Text) (item : TrashItem)
    (drive : Drive) where
  -- The call as its parts do it.
  pub restore_file-moved :
      (name : Text) (content : Content)
      → remote_state item ≡ none
      → get_available_restore_name
          (names_of (directory_of (lookup folder_id drive.uploads)))
          (or_empty item.original_file_name)
        ≡ some name
      → lookup (or_empty item.trash_path) drive.trash ≡ some (a_file content)
      → restore_file cancelled_at now folder_id restored_by item drive
        ≡ restore_moved now folder_id restored_by item name drive
            (ok (put_back_file folder_id name content drive))
  unfolding restore_file restore_named
  restore_file-moved name content quiet free stored =
      rw (cancel_not cancelled_at (codes "restored") item drive.items quiet) (
        rw free (
          rw (
            put_back-file folder_id name (lookup (or_empty item.trash_path) drive.trash) content
              drive stored)))
