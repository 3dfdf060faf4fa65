-- ===== src/Trash/Files.antt =====
-- Files in the trash: moveFileToTrash and restoreFile of services/trashService.js, over the maps that the loaders of server.js read and write and
-- the directories of the file system.
pub mod Places
pub mod RoundTrip
pub mod Restoring
pub mod Kept
pub mod WholeFolder
use servidor_drive.Prelude.{
  ℕ, Bool, true, false, not, ◌&&◌, Option, none, some, List, [], ◌∷◌, ◌++◌, if◌then◌else◌, Text,
  text_eq, codes, Result, ok, err,
}
use servidor_drive.Prelude.TextMaps.{TextMap, lookup, insert, discard}
use servidor_drive.Trash.Names.{
  safe_name, Target, itself, parent, entry, target_of, get_available_restore_name,
}
use servidor_drive.Trash.Item.{
  TrashItem, Entry, Link, RestoreMetadata, nothing, of_file, of_folder, Metadata, file, trashed,
  restored, or_root, ItemStatus,
}
use servidor_drive.Trash.Repository.{save_trash_item}
use servidor_drive.Trash.Remote.{cancel_remote_deletion}
use servidor_drive.Trash.Drive.{
  Content, Directory, Stored, Drive, TrashError, names_of, directory_of, file_key, link_folder,
  is_link_of, links_where, build_file_metadata, remove_file_metadata, restore_entry,
  restore_file_metadata, a_file, a_directory, unsafe_path, file_not_found, not_moved,
  nested_directory, no_free_name,
}

-- `fs.renameSync` of a file of a folder, or of the folder's whole directory, into the trash: the target
-- of the name, the directory that is left, and what is stored.
unfoldable pub take_source :
    Target → Option Directory → Result TrashError (Option Directory × Stored)
take_source parent files = err unsafe_path
take_source target none = err file_not_found
take_source itself (some files) = ok (none, a_directory files)
take_source (entry name) (some files) = elim (lookup name files) [
  | none ↦ err file_not_found
  | some content ↦ ok (some (discard name files), a_file content)
]

unfoldable pub put_directory : Text → Option Directory → TextMap Directory → TextMap Directory
put_directory folder_id none uploads = discard folder_id uploads
put_directory folder_id (some files) uploads = insert folder_id files uploads

-- The size of what is moved; that of a directory is the file system's.
abbrev size_of : ℕ → Stored → ℕ
size_of directory_bytes (a_file content) = content.size
size_of directory_bytes (a_directory files) = directory_bytes

-- What a call is given: the folder, and what it draws and reads.
pub record Removal : Type 0 where
  pub folder_id : Text
  pub folder_name : Text
  pub deleted_by : Text
  pub drawn_id : Text
  pub now : ℕ
  pub directory_bytes : ℕ

-- `path.posix.join("files", id, cleanName)`
abbrev pub trash_path_of : Text → Target → Text
trash_path_of id (entry name) = codes "files/" ++ (id ++ b'/' ∷ name)
trash_path_of id _ = codes "files/" ++ id

unfoldable pub trashed_item : Removal → Text → ℕ → RestoreMetadata → TrashItem
trashed_item r name size metadata = record {
  id = r.drawn_id;
  item_type = file;
  original_folder_id = r.folder_id;
  original_folder_name = r.folder_name;
  original_file_name = some name;
  stored_file_name = some name;
  original_path = some (file_key r.folder_id name);
  trash_path = some (trash_path_of r.drawn_id (target_of name));
  deleted_by = some r.deleted_by;
  deleted_at = r.now;
  size_bytes = size;
  metadata = record {
    folder_name = r.folder_name;
    remote_deletion = none;
    restored_name = none;
    restored_folder_id = none;
  };
  restore_metadata = metadata;
  status = trashed;
  restored_by = none;
  restored_at = none;
  permanently_deleted_by = none;
  permanently_deleted_at = none;
}

unfoldable pub store_removed :
    Removal → Text → Option Directory × Stored → Drive → Drive × TrashItem
store_removed r name (files, stored) drive =
    let metadata = build_file_metadata r.folder_id name drive in
    let moved : Drive = record drive {
      uploads = put_directory r.folder_id files drive.uploads;
      trash = insert (trash_path_of r.drawn_id (target_of name)) stored drive.trash;
    } in
    let cleaned = remove_file_metadata r.folder_id name moved in
    let (item, items) =
      save_trash_item (trashed_item r name (size_of r.directory_bytes stored) metadata)
        cleaned.items in
    (record cleaned { items = items }, item)

unfoldable pub store_taken :
    Removal
    → Text
    → Drive
    → Result TrashError (Option Directory × Stored)
    → Result TrashError (Drive × TrashItem)
store_taken r name drive (err e) = err e
store_taken r name drive (ok taken) = ok (store_removed r name taken drive)

unfoldable pub move_file_to_trash : Removal → Text → Drive → Result TrashError (Drive × TrashItem)
move_file_to_trash r file_name drive =
    let name = safe_name file_name in
    store_taken r name drive (take_source (target_of name) (lookup r.folder_id drive.uploads))

abbrev pub or_empty : Option Text → Text
or_empty none = []
or_empty (some t) = t

unfoldable pub restored_item : ℕ → Text → Text → TrashItem → TrashItem
restored_item now restored_by name item = record item {
  status = restored;
  restored_by = some restored_by;
  restored_at = some now;
  metadata = record item.metadata { restored_name = some name };
}

-- The stored file is moved to a name of the folder. A directory that was stored as a file would come back
-- as a directory below the folder's, which holds only files here: that case is left out.
unfoldable pub put_back : Text → Text → Option Stored → Drive → Result TrashError Drive
put_back folder_id name none drive = err not_moved
put_back folder_id name (some (a_directory files)) drive = err nested_directory
put_back folder_id name (some (a_file content)) drive =
    let files = insert name content (directory_of (lookup folder_id drive.uploads)) in
    ok (record drive { uploads = insert folder_id files drive.uploads })

-- The stored object is moved first, then the metadata and the item are written. A call that throws leaves
-- the drive as it was.
unfoldable pub restore_moved :
    (now : ℕ) (folder_id restored_by : Text)
    → TrashItem
    → (name : Text) → Drive
    → Result TrashError Drive
    → Drive × Result TrashError TrashItem
restore_moved now folder_id restored_by item name drive (err e) = (drive, err e)
restore_moved now folder_id restored_by item name drive (ok moved) =
    let taken : Drive = record moved { trash = discard (or_empty item.trash_path) moved.trash } in
    let written = restore_file_metadata folder_id item.restore_metadata name taken in
    let (saved, items) = save_trash_item (restored_item now restored_by name item) written.items in
    (record written { items = items }, ok saved)

unfoldable pub restore_named :
    (now : ℕ) (folder_id restored_by : Text)
    → TrashItem
    → Option Text
    → Drive
    → Drive × Result TrashError TrashItem
restore_named now folder_id restored_by item none drive = (drive, err no_free_name)
restore_named now folder_id restored_by item (some name) drive =
    let stored = lookup (or_empty item.trash_path) drive.trash in
    restore_moved now folder_id restored_by item name drive (put_back folder_id name stored drive)

-- A remote deletion that goes on is cancelled first.
unfoldable pub restore_file :
    (cancelled_at now : ℕ) (folder_id restored_by : Text)
    → TrashItem
    → Drive
    → Drive × Result TrashError TrashItem
restore_file cancelled_at now folder_id restored_by item drive =
    let (cancelled, items) =
      cancel_remote_deletion cancelled_at (codes "restored") item drive.items in
    let names = names_of (directory_of (lookup folder_id drive.uploads)) in
    let free = get_available_restore_name names (or_empty cancelled.original_file_name) in
    restore_named now folder_id restored_by cancelled free (record drive { items = items })
