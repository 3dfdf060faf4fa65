-- ===== src/Trash/Item.antt =====
-- An item of the trash, as `normalizeTrashItem` of repositories/trashRepository.js returns it, with the
-- state of its remote deletion. Times are in milliseconds where the code keeps ISO texts.
use servidor_drive.Prelude.{ℕ, ◌≡◌, refl, Bool, Option, none, some, List, [], ◌∷◌, Text, codes}
use servidor_drive.Prelude.TextMaps.{TextMap}

pub data RemoteStatus : Type 0 where
  pending retry_wait failed completed cancelled terminal_failure : RemoteStatus

pub data FailureCategory : Type 0 where
  missing_object partial_failure provider_error : FailureCategory
  -- One of the codes that are kept as they are.
  named : Text → FailureCategory

-- What is to be removed: every object under some prefixes, or objects of a folder.
pub data RemoteIdentity : Type 0 where
  prefixes : Text → List Text → RemoteIdentity
  objects : Text → Text → List Text → RemoteIdentity

pub record Transition : Type 0 where
  pub state : RemoteStatus
  pub at : ℕ

pub record RemoteDeletion : Type 0 where
  pub operation_id : Option Text
  pub provider : Text
  pub identity : RemoteIdentity
  pub state : RemoteStatus
  pub attempts : ℕ
  pub max_attempts : ℕ
  pub queued_at : ℕ
  pub last_attempt_at : Option ℕ
  pub next_attempt_at : Option ℕ
  pub completed_at : Option ℕ
  pub failure_category : Option FailureCategory
  pub cancellation_reason : Option Text
  pub lease_token : Option Text
  pub lease_until : Option ℕ
  pub worker_id : Option Text
  pub transitions : List Transition

-- An entry of the permissions, expirations, versions or encryption of files: the names that the trash
-- writes, the stored names of the versions, and the rest, which it only carries.
pub record Entry : Type 0 where
  pub file_name : Option Text
  pub folder_id : Option Text
  pub stored_as : List Text
  pub body : Text

pub record Link : Type 0 where
  pub folder_id : Option Text
  pub file_name : Text
  pub body : Text

pub record Folder : Type 0 where
  pub id : Text
  pub name : Text
  pub is_root : Bool
  pub body : Text

pub data RestoreMetadata : Type 0 where
  nothing : RestoreMetadata
  of_file :
      (permissions expiration versions encryption : Option Entry) → TextMap Link → RestoreMetadata
  of_folder :
      Folder → (permissions expirations versions encryption : TextMap Entry) → RestoreMetadata

pub data ItemType : Type 0 where
  file folder : ItemType

pub data ItemStatus : Type 0 where
  trashed restored remote_delete_pending permanently_deleted : ItemStatus

pub record Metadata : Type 0 where
  pub folder_name : Text
  pub remote_deletion : Option RemoteDeletion
  pub restored_name : Option Text
  pub restored_folder_id : Option Text

pub record TrashItem : Type 0 where
  pub id : Text
  pub item_type : ItemType
  pub original_folder_id : Text
  pub original_folder_name : Text
  pub original_file_name : Option Text
  pub stored_file_name : Option Text
  pub original_path : Option Text
  pub trash_path : Option Text
  pub deleted_by : Option Text
  pub deleted_at : ℕ
  pub size_bytes : ℕ
  pub metadata : Metadata
  pub restore_metadata : RestoreMetadata
  pub status : ItemStatus
  pub restored_by : Option Text
  pub restored_at : Option ℕ
  pub permanently_deleted_by : Option Text
  pub permanently_deleted_at : Option ℕ

abbrev pub root : Text
root = codes "root"

-- `folderId || "root"`
abbrev pub or_root : Text → Text
or_root [] = root
or_root (c ∷ cs) = c ∷ cs

-- `text || null`
abbrev pub or_null : Option Text → Option Text
or_null none = none
or_null (some []) = none
or_null (some (c ∷ cs)) = some (c ∷ cs)

unfoldable pub normalize_trash_item : TrashItem → TrashItem
normalize_trash_item item = record item {
  original_folder_id = or_root item.original_folder_id;
  original_file_name = or_null item.original_file_name;
  stored_file_name = or_null item.stored_file_name;
  original_path = or_null item.original_path;
  trash_path = or_null item.trash_path;
  deleted_by = or_null item.deleted_by;
  restored_by = or_null item.restored_by;
  permanently_deleted_by = or_null item.permanently_deleted_by;
}

or_root_twice : (t : Text) → or_root (or_root t) ≡ or_root t
or_root_twice [] = refl
or_root_twice (c ∷ cs) = refl

or_null_twice : (t : Option Text) → or_null (or_null t) ≡ or_null t
or_null_twice none = refl
or_null_twice (some []) = refl
or_null_twice (some (c ∷ cs)) = refl

pub normalize_trash_item_twice :
    (item : TrashItem)
    → normalize_trash_item (normalize_trash_item item) ≡ normalize_trash_item item
unfolding normalize_trash_item
normalize_trash_item_twice item = simp (or_root_twice, or_null_twice)
