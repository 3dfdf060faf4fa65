-- ===== src/Trash/Files/WholeFolder.antt =====
-- The name "." is taken for a file: the folder's whole directory goes to the trash.
use servidor_drive.Prelude.{◌≡◌, refl, ap, none, some, Text, ok}
use servidor_drive.Prelude.TextMaps.{lookup}
use servidor_drive.Trash.Names.{safe_name, target_of, itself}
use servidor_drive.Trash.Item.{TrashItem, file, normalize_trash_item}
use servidor_drive.Trash.Repository.{save_trash_item}
use servidor_drive.Trash.Files.{
  Removal, take_source, store_taken, store_removed, trashed_item, trash_path_of, put_directory,
  move_file_to_trash,
}
use servidor_drive.Trash.Drive.{Directory, a_directory, Drive, remove_file_metadata}
use servidor_drive.Trash.Files.Places.{lookup-insert_own, lookup-discard_own}

take_source-itself :
    (files : Directory) → take_source itself (some files) ≡ ok (none, a_directory files)
unfolding take_source
take_source-itself files = refl

move_itself :
    (r : Removal) (file_name : Text) (files : Directory) (drive : Drive)
    → target_of (safe_name file_name) ≡ itself
    → lookup r.folder_id drive.uploads ≡ some files
    → move_file_to_trash r file_name drive
      ≡ store_taken r (safe_name file_name) drive (ok (none, a_directory files))
unfolding move_file_to_trash
move_itself r file_name files drive t there =
    let taken : take_source (target_of (safe_name file_name)) (lookup r.folder_id drive.uploads)
        ≡ ok (none, a_directory files) =
      rw t (rw there (take_source-itself files)) in
    ap (store_taken r (safe_name file_name) drive) taken

-- For a name that stands for the directory itself, such as ".", a folder with any files at all loses its
-- whole directory: the call succeeds, the item says that it is a file, and the trash holds the directory.
pub move_file_to_trash-itself :
    (r : Removal) (file_name : Text) (files : Directory) (drive : Drive)
    → target_of (safe_name file_name) ≡ itself
    → lookup r.folder_id drive.uploads ≡ some files
    → (after : Drive) × (item : TrashItem) × (move_file_to_trash r file_name drive
        ≡ ok (after, item))
      × (item.item_type ≡ file)
      × (lookup r.folder_id after.uploads ≡ none)
      × (lookup (trash_path_of r.drawn_id itself) after.trash ≡ some (a_directory files))
unfolding store_taken store_removed save_trash_item trashed_item normalize_trash_item
    remove_file_metadata put_directory
move_file_to_trash-itself r file_name files drive t there =
    let moved = store_removed r (safe_name file_name) (none, a_directory files) drive in
    (
      moved.0,
      moved.1,
      move_itself r file_name files drive t there,
      refl,
      lookup-discard_own r.folder_id drive.uploads,
      rw t (lookup-insert_own _ (a_directory files) drive.trash),
    )
