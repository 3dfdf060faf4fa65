-- ===== src/Trash/Drive.antt =====
-- The drive that the trash works on, and the metadata of a file: buildFileMetadata, removeFileMetadata and
-- restoreFileMetadata of services/trashService.js, over the maps that the loaders of server.js read and
-- write and the directories of the file system.
use servidor_drive.Prelude.{
  ℕ, Bool, not, ◌&&◌, Option, none, some, List, [], ◌∷◌, ◌++◌, if◌then◌else◌, Text, text_eq,
}
use servidor_drive.Prelude.TextMaps.{TextMap, lookup, insert, discard}
use servidor_drive.Trash.Item.{
  TrashItem, Entry, Link, RestoreMetadata, nothing, of_file, of_folder, or_root,
}

pub record Content : Type 0 where
  pub size : ℕ
  pub bytes : Text

abbrev pub Directory : Type 0
Directory = TextMap Content

-- What stands at a path of the trash.
pub data Stored : Type 0 where
  a_file : Content → Stored
  a_directory : Directory → Stored

pub record Drive : Type 0 where
  -- The upload directory of each folder, by the folder's id.
  pub uploads : TextMap Directory
  -- What the trash stores, by its path below the trash's directory.
  pub trash : TextMap Stored
  pub file_permissions : TextMap Entry
  pub file_expirations : TextMap Entry
  pub file_versions : TextMap Entry
  pub encrypted_files : TextMap Entry
  pub public_links : TextMap Link
  pub items : List TrashItem

pub data TrashError : Type 0 where
  unsafe_path file_not_found not_moved nested_directory no_free_name : TrashError

abbrev pub names_of {ℓ} : {V : Type ℓ} → TextMap V → List Text
names_of [] = []
names_of ((k, v) ∷ m) = k ∷ names_of m

abbrev pub directory_of : Option Directory → Directory
directory_of none = []
directory_of (some files) = files

abbrev pub file_key : Text → Text → Text
file_key folder_id name = folder_id ++ b'/' ∷ name

abbrev pub link_folder : Link → Text
link_folder link = elim link.folder_id [ none ↦ or_root [] | some id ↦ or_root id ]

unfoldable pub is_link_of : Text → Text → Link → Bool
is_link_of folder_id name link = text_eq (link_folder link) folder_id && text_eq link.file_name name

-- `Object.fromEntries(Object.entries(links).filter(...))`
unfoldable pub links_where : (Link → Bool) → TextMap Link → TextMap Link
links_where p [] = []
links_where p ((token, link) ∷ links) =
    let rest = links_where p links in if p link then (token, link) ∷ rest else rest

unfoldable pub build_file_metadata : Text → Text → Drive → RestoreMetadata
build_file_metadata folder_id name drive =
    let key = file_key folder_id name in
    of_file (lookup key drive.file_permissions) (lookup key drive.file_expirations)
      (lookup key drive.file_versions) (lookup key drive.encrypted_files)
      (links_where (is_link_of folder_id name) drive.public_links)

-- The versions of the file are left as they are.
unfoldable pub remove_file_metadata : Text → Text → Drive → Drive
remove_file_metadata folder_id name drive =
    let key = file_key folder_id name in
    record drive {
      file_permissions = discard key drive.file_permissions;
      file_expirations = discard key drive.file_expirations;
      encrypted_files = discard key drive.encrypted_files;
      public_links = links_where (λ link. not (is_link_of folder_id name link)) drive.public_links;
    }

-- `entries[key] = { ...entry, fileName, folderId }`, where there is an entry.
unfoldable pub restore_entry : Text → Text → Option Entry → TextMap Entry → TextMap Entry
restore_entry folder_id name none entries = entries
restore_entry folder_id name (some e) entries =
    insert (file_key folder_id name)
      (record e { file_name = some name; folder_id = some folder_id }) entries

unfoldable pub restore_file_metadata : Text → RestoreMetadata → Text → Drive → Drive
restore_file_metadata folder_id nothing name drive = drive
restore_file_metadata folder_id (of_folder f permissions expirations versions encryption) name
      drive =
    drive
restore_file_metadata folder_id (of_file permissions expiration versions encryption links) name
      drive =
    record drive {
      file_permissions = restore_entry folder_id name permissions drive.file_permissions;
      file_expirations = restore_entry folder_id name expiration drive.file_expirations;
      file_versions = restore_entry folder_id name versions drive.file_versions;
      encrypted_files = restore_entry folder_id name encryption drive.encrypted_files;
    }
