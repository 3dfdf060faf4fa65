-- ===== src/Access/Tests.antt =====
-- Runs of the rights to folders and files, and the theorems at concrete inputs.
use servidor_drive.Prelude.Objects.{get}
use servidor_drive.Prelude.{
  ◌≡◌, refl, Bool, true, false, ◌&&◌, ◌||◌, none, some, List, [], ◌∷◌, any, codes, Text, text_eq,
  trim, to_lower_case,
}
use servidor_drive.Prelude.TextMaps.{lookup, insert}
use servidor_drive.Access.{
  Caller, Folder, FileEntry, has_folder_access, has_folder_edit_access, has_file_access,
  has_file_edit_access, normalize_access_users, normalize_allowed_users, reads, edits,
}
use servidor_drive.Access.Users.{given, normalize_access_users_lem}

abbrev nobody_is : Text → List Text → Bool
nobody_is username ids = false

abbrev ana : Caller
ana = record { username = codes "ana"; role = codes "user"; permissions = [] }

abbrev bia : Caller
bia = record ana { username = codes "bia" }

abbrev folder : Folder
folder = record {
  id = codes "f1";
  is_root = false;
  created_by = codes "eva";
  group_ids = [];
  users = (codes " ana ", record { read = false; edit = true }) ∷ [];
  allowed_users = codes " bia" ∷ [];
}

abbrev entry : FileEntry
entry = record {
  public = false;
  owner = some (codes " ANA");
  users = [];
  allowed_users = codes "bia" ∷ [];
}

access_tests :
    (has_folder_access nobody_is to_lower_case ana (some folder) ≡ true)
    × (has_folder_edit_access nobody_is to_lower_case ana (some folder) ≡ true)
    × (has_folder_access nobody_is to_lower_case bia (some folder) ≡ true)
    × (has_folder_edit_access nobody_is to_lower_case bia (some folder) ≡ false)
    × (has_folder_access nobody_is to_lower_case
          (record ana { username = codes "leo" })
          (some folder)
        ≡ false)
    × (has_file_edit_access nobody_is to_lower_case ana (some folder) (some entry) ≡ true)
    × (has_file_access nobody_is to_lower_case bia (some folder) (some entry) ≡ true)
    × (has_file_edit_access nobody_is to_lower_case bia (some folder) (some entry) ≡ false)
unfolding has_folder_access has_folder_edit_access has_file_access has_file_edit_access text_eq get
    lookup trim insert to_lower_case
access_tests = (refl, refl, refl, refl, refl, refl, refl, refl)

normalize_access_users_lem_example :
    (reads (
        lookup
          (codes "bia")
          (normalize_access_users folder.users (normalize_allowed_users folder.allowed_users)))
      ≡ ((true && any (λ x. text_eq (trim x) (codes "bia")) folder.allowed_users)
          || reads (given (codes "bia") folder.users none)))
    × (edits (
          lookup
            (codes "bia")
            (normalize_access_users folder.users (normalize_allowed_users folder.allowed_users)))
        ≡ edits (given (codes "bia") folder.users none))
normalize_access_users_lem_example =
    normalize_access_users_lem (codes "bia") folder.users folder.allowed_users
