-- ===== src/Trash/Files/RoundTrip.antt =====
-- A file that goes to the trash and comes back.
use mathlib.Core.Path.{subst}
use servidor_drive.Prelude.{
  ℕ, suc, ◌+◌, ◌≡◌, refl, sym, ◌∙◌, false, not, none, some, List, [], ◌∷◌, length, if◌then◌else◌,
  Text, text_eq, Result, ok, arith,
}
use servidor_drive.Prelude.TextMaps.{TextMap, lookup, insert, discard, lookup-insert}
use servidor_drive.Trash.Names.{
  safe_name, entry, target_of, exists, available_from, get_available_restore_name,
}
use servidor_drive.Trash.Names.Basename.{safe_name_twice, target_of-entry}
use servidor_drive.Trash.Item.{TrashItem, Entry, restored, normalize_trash_item, or_null}
use servidor_drive.Trash.Repository.{save_trash_item}
use servidor_drive.Trash.Deletion.{remote_state}
use servidor_drive.Trash.Files.{
  Removal, or_empty, take_source, store_taken, store_removed, trashed_item, trash_path_of,
  put_directory, move_file_to_trash, restored_item, restore_moved, restore_file,
}
use servidor_drive.Trash.Drive.{
  Content, Directory, a_file, Drive, TrashError, names_of, directory_of, file_key, is_link_of,
  links_where, build_file_metadata, remove_file_metadata, restore_file_metadata,
}
use servidor_drive.Trash.Files.Restoring.{put_back_file, restore_file-moved}
use servidor_drive.Trash.Files.Places.{
  lookup-insert_own, lookup-discard_own, renamed, text_in-names_of, lookup-restore_discarded,
  lookup-restore_kept, lookup-insert_discarded, lookup-discard_inserted,
}

or_empty-or_null : (t : Text) → or_empty (or_null (some t)) ≡ t
or_empty-or_null [] = refl
or_empty-or_null (c ∷ cs) = refl

-- A name that is not in a directory is its own free name.
free_own :
    (names : List Text) (name : Text)
    → safe_name name ≡ name
    → exists name names ≡ false
    → get_available_restore_name names name ≡ some name
unfolding get_available_restore_name available_from
free_own names name same free =
    let rounds : length names + 2 ≡ suc (length names + 1) = omega arith in
    rw same (rw rounds (rw free))

take_source-there :
    (name : Text) (files : Directory) (content : Content)
    → lookup name files ≡ some content
    → take_source (entry name) (some files) ≡ ok (some (discard name files), a_file content)
unfolding take_source
take_source-there name files content e = rw (e, take_source)

-- What a file that was trashed and restored leaves of a drive: its folder holds what it held, and so do
-- the other folders and the trash; its entries are back under its key with its names written into them,
-- and the other entries are as before; its public links are gone.
abbrev pub SameEntries : Text → Text → TextMap Entry → TextMap Entry → Type 0
SameEntries folder_id name before after =
    (k : Text)
    → lookup k after ≡ (
        if text_eq (file_key folder_id name) k
        then renamed folder_id name (lookup (file_key folder_id name) before)
        else lookup k before)

abbrev pub IsBack :
    Removal → Text → Directory → Drive → Drive × Result TrashError TrashItem → Type 0
IsBack r name files before (after, answer) =
    (saved : TrashItem) × (now_there : Directory) × (answer ≡ ok saved)
    × (saved.status ≡ restored)
    × (saved.metadata.restored_name ≡ some name)
    × (lookup r.folder_id after.uploads ≡ some now_there)
    × ((k : Text) → lookup k now_there ≡ lookup k files)
    × ((f : Text)
        → text_eq r.folder_id f ≡ false
        → lookup f after.uploads ≡ lookup f before.uploads)
    × ((k : Text) → lookup k after.trash ≡ lookup k before.trash)
    × SameEntries r.folder_id name before.file_permissions after.file_permissions
    × SameEntries r.folder_id name before.file_expirations after.file_expirations
    × SameEntries r.folder_id name before.file_versions after.file_versions
    × SameEntries r.folder_id name before.encrypted_files after.encrypted_files
    × (after.public_links
        ≡ links_where (λ link. not (is_link_of r.folder_id name link)) before.public_links)

-- A file in its folder, its place in the trash free.
pub record IsThere (r : Removal) (file_name name : Text) (files : Directory) (content : Content)
    (drive : Drive) : Type 0 where
  pub target : target_of (safe_name file_name) ≡ entry name
  pub folder : lookup r.folder_id drive.uploads ≡ some files
  pub file : lookup name files ≡ some content
  pub fresh : lookup (trash_path_of r.drawn_id (entry name)) drive.trash ≡ none

module _ {r : Removal} {file_name name : Text} {files : Directory} {content : Content}
    {drive : Drive} (h : IsThere r file_name name files content drive) where
  name-safe : safe_name file_name ≡ name
  name-safe = sym (target_of-entry (safe_name file_name) name h.target)

  moved : Drive × TrashItem
  moved = store_removed r name (some (discard name files), a_file content) drive

  move_file_to_trash_there : move_file_to_trash r file_name drive ≡ ok moved
  unfolding move_file_to_trash store_taken moved
  move_file_to_trash_there =
      rw (h.target)
        (rw (h.folder) (rw (take_source-there name files content h.file) (rw name-safe)))

  target_of-name : target_of name ≡ entry name
  target_of-name = subst (λ (t : Text). target_of t ≡ entry name) name-safe h.target

  safe_name-name : safe_name name ≡ name
  safe_name-name = subst (λ (t : Text). safe_name t ≡ t) name-safe (safe_name_twice file_name)

  original_name : or_empty moved.1.original_file_name ≡ name
  unfolding moved store_removed save_trash_item trashed_item normalize_trash_item
  original_name = or_empty-or_null name

  place : or_empty moved.1.trash_path ≡ trash_path_of r.drawn_id (entry name)
  unfolding moved store_removed save_trash_item trashed_item normalize_trash_item
  place = rw target_of-name

  quiet : remote_state moved.1 ≡ none
  unfolding moved store_removed save_trash_item trashed_item normalize_trash_item remote_state
  quiet = refl

  left_directory : lookup r.folder_id moved.0.uploads ≡ some (discard name files)
  unfolding moved store_removed remove_file_metadata put_directory
  left_directory = lookup-insert_own r.folder_id (discard name files) drive.uploads

  trash_now :
      moved.0.trash ≡ insert (trash_path_of r.drawn_id (entry name)) (a_file content) drive.trash
  unfolding moved store_removed remove_file_metadata
  trash_now = rw target_of-name

  stored_there : lookup (or_empty moved.1.trash_path) moved.0.trash ≡ some (a_file content)
  stored_there = rw (place, trash_now) (lookup-insert_own _ (a_file content) drive.trash)

  not_left : exists name (names_of (discard name files)) ≡ false
  unfolding exists
  not_left =
      rw (target_of-name, exists)
        (text_in-names_of name (discard name files) (lookup-discard_own name files))

  free_name :
      get_available_restore_name
        (names_of (directory_of (lookup r.folder_id moved.0.uploads)))
        (or_empty moved.1.original_file_name)
      ≡ some name
  free_name =
      rw left_directory
        (rw original_name (free_own (names_of (discard name files)) name safe_name-name not_left))

  back : (cancelled_at now : ℕ) (restored_by : Text) → Drive × Result TrashError TrashItem
  back cancelled_at now restored_by =
      restore_moved now r.folder_id restored_by moved.1 name moved.0
        (ok (put_back_file r.folder_id name content moved.0))

  restore_file-back :
      (cancelled_at now : ℕ) (restored_by : Text)
      → restore_file cancelled_at now r.folder_id restored_by moved.1 moved.0
        ≡ back cancelled_at now restored_by
  unfolding back
  restore_file-back cancelled_at now restored_by =
      restore_file-moved cancelled_at now r.folder_id restored_by moved.1 moved.0 name content quiet
        free_name stored_there

  folder_back :
      (k : Text)
      → lookup k (insert name content (directory_of (lookup r.folder_id moved.0.uploads)))
        ≡ lookup k files
  folder_back k = rw left_directory (lookup-insert_discarded name k content files h.file)

  others_back :
      (d : Directory) (f : Text)
      → text_eq r.folder_id f ≡ false
      → lookup f (insert r.folder_id d moved.0.uploads) ≡ lookup f drive.uploads
  unfolding moved store_removed remove_file_metadata put_directory
  others_back d f other =
      lookup-insert r.folder_id f d _
      ∙ rw other (lookup-insert r.folder_id f (discard name files) drive.uploads ∙ rw other)

  trash_back :
      (k : Text)
      → lookup k (discard (or_empty moved.1.trash_path) moved.0.trash) ≡ lookup k drive.trash
  trash_back k =
      rw (place, trash_now) (lookup-discard_inserted _ k (a_file content) drive.trash h.fresh)

  back-IsBack :
      (cancelled_at now : ℕ) (restored_by : Text)
      → IsBack r name files drive (back cancelled_at now restored_by)
  unfolding back restore_moved save_trash_item restored_item normalize_trash_item
      restore_file_metadata moved store_removed trashed_item build_file_metadata
      remove_file_metadata put_directory
  back-IsBack cancelled_at now restored_by = (
    normalize_trash_item (restored_item now restored_by name moved.1),
    insert name content (directory_of (lookup r.folder_id moved.0.uploads)),
    refl,
    refl,
    refl,
    lookup-insert_own r.folder_id _ moved.0.uploads,
    folder_back,
    others_back (insert name content (directory_of (lookup r.folder_id moved.0.uploads))),
    trash_back,
    λ k. lookup-restore_discarded r.folder_id name k drive.file_permissions,
    λ k. lookup-restore_discarded r.folder_id name k drive.file_expirations,
    λ k. lookup-restore_kept r.folder_id name k drive.file_versions,
    λ k. lookup-restore_discarded r.folder_id name k drive.encrypted_files,
    refl,
  )

  -- A file that is moved to the trash and restored at once to its folder: both calls succeed; the folder's
  -- directory, the other directories and the trash hold what they held; the permissions, the expiration,
  -- the versions and the encryption of the file are back under its name, with the names of the file and
  -- the folder written into them, and all other entries are as before; the public links of the file are
  -- gone, and all others kept.
  pub restore_file-move_file_to_trash :
      (cancelled_at now : ℕ) (restored_by : Text)
      → (after : Drive × TrashItem) × (move_file_to_trash r file_name drive ≡ ok after)
        × IsBack r name files drive
            (restore_file cancelled_at now r.folder_id restored_by after.1 after.0)
  restore_file-move_file_to_trash cancelled_at now restored_by = (
    moved,
    move_file_to_trash_there,
    subst (IsBack r name files drive) (sym (restore_file-back cancelled_at now restored_by))
        (back-IsBack cancelled_at now restored_by),
  )
