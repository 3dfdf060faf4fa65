-- ===== src/Access/Laws.antt =====
-- What the rights to a folder and a file have to do with one another.
use servidor_drive.Prelude.{◌≡◌, refl, Bool, true, ◌||◌, Option, none, some, List, Text, arith}
use servidor_drive.Prelude.TextMaps.{lookup}
use servidor_drive.Access.{
  Caller, Folder, FileEntry, has_folder_access, has_folder_edit_access, has_file_access,
  has_file_edit_access, has_entry_edit_access, normalize_file_permission_entry, reads, edits,
  same_username,
}

module _ (member : Text → List Text → Bool) (lower : Text → Text) (caller : Caller) where
  -- Whoever may edit a folder may read it.
  pub folder_edit_reads :
      (folder : Option Folder)
      → has_folder_edit_access member lower caller folder ≡ true
      → has_folder_access member lower caller folder ≡ true
  unfolding has_folder_edit_access has_folder_access
  folder_edit_reads none h = h
  folder_edit_reads (some folder) h = ground arith

  entry_edit_reads :
      (entry : Option FileEntry)
      → has_entry_edit_access member lower caller entry ≡ true
      → let permissions = normalize_file_permission_entry entry in
        (permissions.public
          || same_username member lower permissions.owner caller.username
          || reads (lookup caller.username permissions.users)
          || edits (lookup caller.username permissions.users))
        ≡ true
  unfolding has_entry_edit_access normalize_file_permission_entry
  entry_edit_reads none h = refl
  entry_edit_reads (some entry) h = ground arith

  -- Whoever may edit a file may read it.
  pub file_edit_reads :
      (folder : Option Folder) (entry : Option FileEntry)
      → has_file_edit_access member lower caller folder entry ≡ true
      → has_file_access member lower caller folder entry ≡ true
  unfolding has_file_edit_access has_file_access
  file_edit_reads folder entry h = ground (arith, entry_edit_reads entry)
