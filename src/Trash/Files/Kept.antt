-- ===== src/Trash/Files/Kept.antt =====
-- A restore overwrites nothing.
use mathlib.Core.Path.{subst, sym}
use servidor_drive.Prelude.{
  ℕ, ◌^◌, ◌≡◌, ◌<◌, refl, ◌∙◌, false, none, some, length, Text, eq_of_text_eq, Result, ok, arith,
}
use servidor_drive.Prelude.TextMaps.{lookup, insert, discard, lookup-insert}
use servidor_drive.Trash.Names.{
  exists, target_of, Target, itself, parent, entry, get_available_restore_name,
}
use servidor_drive.Trash.Names.Free.{get_available_restore_name-Free}
use servidor_drive.Trash.Names.Basename.{target_of-entry}
use servidor_drive.Trash.Item.{
  TrashItem, RestoreMetadata, nothing, of_file, of_folder, restored, normalize_trash_item,
}
use servidor_drive.Trash.Repository.{save_trash_item}
use servidor_drive.Trash.Deletion.{remote_state}
use servidor_drive.Trash.Files.{or_empty, restored_item, restore_moved, restore_file}
use servidor_drive.Trash.Drive.{
  Content, Directory, a_file, Drive, TrashError, names_of, directory_of, restore_file_metadata,
}
use servidor_drive.Trash.Files.Places.{lookup-not_in, lookup-insert_own, lookup-discard_own}
use servidor_drive.Trash.Files.Restoring.{put_back_file, restore_file-moved}

restore_file_metadata-places :
    (folder_id : Text) (m : RestoreMetadata) (name : Text) (d : Drive)
    → ((restore_file_metadata folder_id m name d).uploads ≡ d.uploads)
      × ((restore_file_metadata folder_id m name d).trash ≡ d.trash)
unfolding restore_file_metadata
restore_file_metadata-places folder_id nothing name d = (refl, refl)
restore_file_metadata-places folder_id (of_file p e v c l) name d = (refl, refl)
restore_file_metadata-places folder_id (of_folder f p e v c) name d = (refl, refl)

free-lookup_at :
    (name : Text) (files : Directory) (t : Target)
    → target_of name ≡ t
    → exists name (names_of files) ≡ false
    → lookup name files ≡ none
unfolding exists
free-lookup_at name files itself e h = absurd (cc (rw (e, exists) at h))
free-lookup_at name files parent e h = absurd (cc (rw (e, exists) at h))
free-lookup_at name files (entry n) e h =
    subst (λ (k : Text). lookup k files ≡ none) (target_of-entry name n e)
      (lookup-not_in n files (rw (e, exists) at h))

-- A free name is no entry of the directory.
free-lookup :
    (name : Text) (files : Directory)
    → exists name (names_of files) ≡ false
    → lookup name files ≡ none
free-lookup name files h = free-lookup_at name files (target_of name) refl h

lookup-insert_old :
    (name other : Text) (content old : Content) (files : Directory)
    → lookup name files ≡ none
    → lookup other files ≡ some old
    → lookup other (insert name content files) ≡ some old
lookup-insert_old name other content old files free e =
    lookup-insert name other content files ∙ ground (arith, eq_of_text_eq name other)

-- What a restore leaves: the item is restored under some name, that name holds the file that the trash
-- held, every name that the folder had still holds what it held, and the trash's place is empty.
abbrev pub Kept :
    (folder_id : Text)
    → TrashItem
    → Content
    → Directory
    → Drive × Result TrashError TrashItem
    → Type 0
Kept folder_id item content files (after, answer) =
    (name : Text) × (saved : TrashItem) × (now_there : Directory) × (answer ≡ ok saved)
    × (saved.status ≡ restored)
    × (saved.metadata.restored_name ≡ some name)
    × (lookup folder_id after.uploads ≡ some now_there)
    × (lookup name now_there ≡ some content)
    × ((other : Text) (old : Content)
        → lookup other files ≡ some old
        → lookup other now_there ≡ some old)
    × (lookup (or_empty item.trash_path) after.trash ≡ none)

module _ (now : ℕ) (folder_id restored_by name : Text) (item : TrashItem) (content : Content)
    (files : Directory) (drive : Drive) where
  taken : Drive
  taken =
      let moved = put_back_file folder_id name content drive in
      record moved { trash = discard (or_empty item.trash_path) moved.trash }

  restore_moved-Kept :
      lookup folder_id drive.uploads ≡ some files
      → lookup name files ≡ none
      → Kept folder_id item content files (
          restore_moved now folder_id restored_by item name drive
            (ok (put_back_file folder_id name content drive)))
  unfolding restore_moved save_trash_item restored_item normalize_trash_item taken
  restore_moved-Kept there free =
      let (uploads, trash) =
        restore_file_metadata-places folder_id item.restore_metadata name taken in
      (
        name,
        normalize_trash_item (restored_item now restored_by name item),
        insert name content (directory_of (lookup folder_id drive.uploads)),
        refl,
        refl,
        refl,
        rw uploads (lookup-insert_own folder_id _ drive.uploads),
        lookup-insert_own name content _,
        λ other old e. rw there (lookup-insert_old name other content old files free e),
        rw trash (lookup-discard_own (or_empty item.trash_path) drive.trash),
      )

-- A file of the trash without a remote deletion, in a folder whose directory has fewer than 10 ^ 15
-- names: restoring it succeeds; the item is restored under a name at which the folder then has the
-- trashed file, every name that the folder had still has its own file, and the trash no longer has it.
pub restore_file-Kept :
    (cancelled_at now : ℕ) (folder_id restored_by : Text) (item : TrashItem) (content : Content)
    → (files : Directory) (drive : Drive) → remote_state item ≡ none
    → lookup folder_id drive.uploads ≡ some files
    → lookup (or_empty item.trash_path) drive.trash ≡ some (a_file content)
    → length (names_of files) < 10 ^ 15
    → Kept folder_id item content files
        (restore_file cancelled_at now folder_id restored_by item drive)
restore_file-Kept cancelled_at now folder_id restored_by item content files drive quiet there stored
      few =
    let original = or_empty item.original_file_name in
    let (name, found, free) = get_available_restore_name-Free (names_of files) original few in
    let found' : get_available_restore_name
          (names_of (directory_of (lookup folder_id drive.uploads))) original
        ≡ some name =
      rw there found in
    subst (Kept folder_id item content files)
      (sym (
        restore_file-moved cancelled_at now folder_id restored_by item drive name content quiet
          found' stored))
      (restore_moved-Kept now folder_id restored_by name item content files drive there
        (free-lookup name files free))
