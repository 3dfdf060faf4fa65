-- ===== src/Access.antt =====
-- Who may read and edit a folder or a file: `hasFolderAccess`, `hasFileAccess` and their like in
-- server.js.
pub mod Users
pub mod Laws
pub mod Tests
use servidor_drive.Prelude.{
  Bool, true, false, not, ◌&&◌, ◌||◌, Option, none, some, List, [], ◌∷◌, map, if◌then◌else◌, String,
  Text, text_eq, trim, is_nonempty, codes, Result, ok, err, ◌>>=◌, keep, text_in, ◌++◌,
}
use servidor_drive.Prelude.Objects.{Object, get}
use servidor_drive.Prelude.TextMaps.{TextMap, lookup, insert}
use servidor_drive.Auth.Permissions.{granted, is_admin}

-- `req.user`, as `authenticate` sets it.
pub record Caller : Type 0 where
  pub username : Text
  pub role : Text
  pub permissions : Object Bool

pub record Access : Type 0 where
  pub read : Bool
  pub edit : Bool

-- A stored folder. `allowed_users` is the older list of readers.
pub record Folder : Type 0 where
  pub id : Text
  pub is_root : Bool
  pub created_by : Text
  pub group_ids : List Text
  pub users : TextMap Access
  pub allowed_users : List Text

-- A stored entry of a file's permissions; its key is the folder's identifier and the file's name.
pub record FileEntry : Type 0 where
  pub public : Bool
  pub owner : Option Text
  pub users : TextMap Access
  pub allowed_users : List Text

pub record FilePermissions : Type 0 where
  pub public : Bool
  pub owner : Text
  pub users : TextMap Access

abbrev pub root_folder_id : Text
root_folder_id = codes "root"

abbrev pub system_owner : Text
system_owner = codes "sistema"

abbrev pub may : String → Caller → Bool
may permission caller = granted (get permission caller.permissions)

unfoldable pub can_manage_access : Caller → Bool
can_manage_access caller = is_admin caller.role || may "manageUsers" caller

unfoldable pub can_view_analytics : Caller → Bool
unfolding can_manage_access
can_view_analytics caller = can_manage_access caller || may "viewAnalytics" caller

unfoldable pub can_view_audit_logs : Caller → Bool
unfolding can_manage_access
can_view_audit_logs caller = can_manage_access caller || may "viewAuditLogs" caller

unfoldable pub can_manage_backups : Caller → Bool
unfolding can_manage_access
can_manage_backups caller = can_manage_access caller || may "manageBackups" caller

unfoldable pub can_manage_trash : Caller → Bool
unfolding can_manage_access
can_manage_trash caller = can_manage_access caller || may "manageTrash" caller

unfoldable pub can_move_to_trash : Caller → Bool
unfolding can_manage_access
can_move_to_trash caller = can_manage_access caller || may "delete" caller

unfoldable pub can_create_folders : Caller → Bool
unfolding can_manage_access
can_create_folders caller = can_manage_access caller || may "createFolders" caller

-- `[...new Set(value.map(trim).filter(Boolean))]`, after the names that were met.
unfoldable pub distinct_names : List Text → List Text → List Text
distinct_names met [] = met
distinct_names met (user ∷ users) =
    let name = trim user in
    let without = distinct_names met users in
    let with = distinct_names (met ++ name ∷ []) users in
    if not (is_nonempty name) || text_in name met then without else with

unfoldable pub normalize_allowed_users : List Text → List Text
unfolding distinct_names
normalize_allowed_users value = distinct_names [] value

-- The first loop of `normalizeAccessUsers`: an editor may read, and a user who may do neither is left out.
unfoldable pub add_users : TextMap Access → TextMap Access → TextMap Access
add_users users [] = users
add_users users ((username, access) ∷ rest) =
    let name = trim username in
    let can_read = access.read || access.edit in
    let without = add_users users rest in
    let with =
      add_users (insert name (record { read = can_read; edit = access.edit }) users) rest in
    if not (is_nonempty name) || not (can_read || access.edit) then without else with

abbrev pub edits : Option Access → Bool
edits none = false
edits (some a) = a.edit

abbrev pub reads : Option Access → Bool
reads none = false
reads (some a) = a.read

-- The second loop: each name of the older list may read.
unfoldable pub add_readers : TextMap Access → List Text → TextMap Access
add_readers users [] = users
add_readers users (name ∷ names) =
    add_readers (insert name (record { read = true; edit = edits (lookup name users) }) users) names

unfoldable pub normalize_access_users : TextMap Access → List Text → TextMap Access
unfolding add_users add_readers
normalize_access_users raw legacy = add_readers (add_users [] raw) legacy

unfoldable pub folder_users : Folder → TextMap Access
unfolding normalize_access_users normalize_allowed_users
folder_users folder =
    normalize_access_users folder.users (normalize_allowed_users folder.allowed_users)

abbrev or_system : Option Text → Text
or_system none = system_owner
or_system (some owner) = if is_nonempty owner then owner else system_owner

-- A file without an entry is public.
unfoldable pub normalize_file_permission_entry : Option FileEntry → FilePermissions
unfolding normalize_access_users normalize_allowed_users
normalize_file_permission_entry none = record { public = true; owner = system_owner; users = [] }
normalize_file_permission_entry (some entry) = record {
  public = entry.public;
  owner = or_system entry.owner;
  users = normalize_access_users entry.users (normalize_allowed_users entry.allowed_users);
}

abbrev pub is_root_folder : Folder → Bool
is_root_folder folder = folder.is_root || text_eq folder.id root_folder_id

-- `member` is the groups store's `isMember`, where it does not throw, and `lower` is `toLowerCase` of any text.
module _ (member : Text → List Text → Bool) (lower : Text → Text) where
  unfoldable pub has_folder_access : Caller → Option Folder → Bool
  unfolding can_manage_access folder_users
  has_folder_access caller none = false
  has_folder_access caller (some folder) =
      is_root_folder folder
      || can_manage_access caller
      || text_eq folder.created_by caller.username
      || member caller.username folder.group_ids
      || reads (lookup caller.username (folder_users folder))
      || edits (lookup caller.username (folder_users folder))

  unfoldable pub has_folder_edit_access : Caller → Option Folder → Bool
  unfolding can_manage_access folder_users
  has_folder_edit_access caller none = false
  has_folder_edit_access caller (some folder) =
      not (is_root_folder folder)
      && (can_manage_access caller
          || text_eq folder.created_by caller.username
          || edits (lookup caller.username (folder_users folder)))

  abbrev pub same_username : Text → Text → Bool
  same_username left right = text_eq (lower (trim left)) (lower (trim right))

  unfoldable pub has_file_access : Caller → Option Folder → Option FileEntry → Bool
  unfolding has_folder_access can_manage_access normalize_file_permission_entry
  has_file_access caller folder entry =
      let permissions = normalize_file_permission_entry entry in
      has_folder_access caller folder
      && (can_manage_access caller
          || permissions.public
          || same_username permissions.owner caller.username
          || reads (lookup caller.username permissions.users)
          || edits (lookup caller.username permissions.users))

  unfoldable pub has_entry_edit_access : Caller → Option FileEntry → Bool
  unfolding normalize_file_permission_entry
  has_entry_edit_access caller none = may "delete" caller
  has_entry_edit_access caller (some entry) =
      let permissions = normalize_file_permission_entry (some entry) in
      if same_username permissions.owner caller.username
      then true
      else if permissions.public && not (is_nonempty permissions.users)
      then may "delete" caller
      else edits (lookup caller.username permissions.users)

  unfoldable pub has_file_edit_access : Caller → Option Folder → Option FileEntry → Bool
  unfolding has_folder_access can_manage_access has_entry_edit_access
  has_file_edit_access caller folder entry =
      has_folder_access caller folder
      && (can_manage_access caller || has_entry_edit_access caller entry)
