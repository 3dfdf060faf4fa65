-- ===== src/Trash/Remote.antt =====
-- The remote deletion of an item: permanentlyDelete, queueRemoteDeletion,
-- completeRemoteDeletion, failRemoteDeletion and cancelRemoteDeletion of services/trashService.js. The clock and drawn identifiers are inputs.
pub mod Branches
pub mod States
pub mod Lifecycle
use servidor_drive.Trash.Deletion.{
  remote_state, remote_identity, failure_category, ProviderError, backoff_ms, transition,
  with_remote, queued, is_ended, to_settle, holds_claim, completed_state, failed_state,
  cancelled_state, is_completed_or_cancelled, deleted_item,
}
use servidor_drive.Prelude.{
  ℕ, zero, suc, ◌+◌, ◌-◌, ◌*◌, ◌^◌, ◌≤◌, min, max, Bool, true, false, not, ◌&&◌, ◌||◌, Option, none,
  some, List, [], ◌∷◌, ◌++◌, if◌then◌else◌, ltb, leb, ◌==◌, take, Text, text_eq, text_in,
  is_nonempty, codes,
}
use servidor_drive.Prelude.TextMaps.{TextMap, lookup, insert, discard}
use servidor_drive.Trash.Names.{safe_name}
use servidor_drive.Trash.Item.{
  TrashItem, RemoteDeletion, RemoteStatus, pending, retry_wait, failed, completed, cancelled,
  terminal_failure, Transition, RemoteIdentity, prefixes, objects, Entry, RestoreMetadata, of_file,
  FailureCategory, missing_object, partial_failure, provider_error, named, ItemType, folder,
  Metadata, ItemStatus, trashed, remote_delete_pending, permanently_deleted, or_root,
  normalize_trash_item,
}
use servidor_drive.Trash.Repository.{is_status, is_file, get_trash_item, save_trash_item}

unfoldable pub complete_remote_deletion :
    (now : ℕ) → Option Text → TrashItem → List TrashItem → TrashItem × List TrashItem
unfolding to_settle completed_state with_remote
complete_remote_deletion now claim_token item items = elim (to_settle claim_token item) [
  | none ↦ (item, items)
  | some s ↦
      save_trash_item
        (record (with_remote (completed_state now s) item) { status = permanently_deleted }) items
]

-- The clock is read twice: for the time of the failure, and for the time of the next attempt.
unfoldable pub fail_remote_deletion :
    (failed_at now : ℕ)
    → ProviderError
    → Option Text
    → TrashItem
    → List TrashItem
    → TrashItem × List TrashItem
unfolding to_settle failed_state with_remote failure_category
fail_remote_deletion failed_at now error claim_token item items =
    elim (to_settle claim_token item) [
      | none ↦ (item, items)
      | some s ↦
          save_trash_item (with_remote (failed_state failed_at now (failure_category error) s) item)
            items
    ]

unfoldable pub cancel_remote_deletion :
    (now : ℕ) → Text → TrashItem → List TrashItem → TrashItem × List TrashItem
unfolding remote_state cancelled_state with_remote
cancel_remote_deletion now reason item items = elim (remote_state item) [
  | none ↦ (item, items)
  | some s ↦
      if is_completed_or_cancelled s.state
      then (item, items)
      else save_trash_item (with_remote (cancelled_state now reason s) item) items
]

-- What permanentlyDelete writes; the files that it removes before are not read here.
unfoldable pub permanently_delete :
    ℕ → Text → Option RemoteDeletion → TrashItem → List TrashItem → TrashItem × List TrashItem
unfolding deleted_item
permanently_delete now deleted_by remote item items =
    save_trash_item (deleted_item now deleted_by remote item) items

unfoldable pub queue_remote_deletion :
    (now deleted_at : ℕ) (deleted_by operation_id provider : Text) (max_attempts : Option ℕ)
    → TrashItem
    → List TrashItem
    → TrashItem × List TrashItem
unfolding permanently_delete queued remote_state
queue_remote_deletion now deleted_at deleted_by operation_id provider max_attempts item items =
    if is_status item.status trashed
    then elim (remote_state item) [
      | some s ↦ (item, items)
      | none ↦
          let start = queued now operation_id provider max_attempts item in
          permanently_delete deleted_at deleted_by (some start) item items
    ]
    else (item, items)
