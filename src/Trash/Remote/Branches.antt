-- ===== src/Trash/Remote/Branches.antt =====
-- Each branch of the functions of a remote deletion, as an equation.
use servidor_drive.Prelude.{ℕ, ◌≡◌, true, false, Option, none, some, List, Text, arith}
use servidor_drive.Trash.Item.{TrashItem, RemoteDeletion, trashed, permanently_deleted}
use servidor_drive.Trash.Repository.{is_status, save_trash_item}
use servidor_drive.Trash.Remote.{
  permanently_delete, queue_remote_deletion, complete_remote_deletion, fail_remote_deletion,
  cancel_remote_deletion,
}
use servidor_drive.Trash.Deletion.{
  remote_state, with_remote, to_settle, queued, completed_state, failed_state, cancelled_state,
  ProviderError, failure_category, deleted_item, is_completed_or_cancelled,
}

module _ (now : ℕ) (token : Option Text) (item : TrashItem) (items : List TrashItem) where
  pub complete_not :
      to_settle token item ≡ none → complete_remote_deletion now token item items ≡ (item, items)
  unfolding complete_remote_deletion
  complete_not e = rw (e, complete_remote_deletion)

  pub complete_some :
      (s : RemoteDeletion)
      → to_settle token item ≡ some s
      → complete_remote_deletion now token item items
        ≡ save_trash_item
            (record (with_remote (completed_state now s) item) { status = permanently_deleted })
            items
  unfolding complete_remote_deletion save_trash_item
  complete_some s e = rw (e, complete_remote_deletion)

module _ (failed_at now : ℕ) (error : ProviderError) (token : Option Text) where
  pub fail_not :
      (item : TrashItem) (items : List TrashItem)
      → to_settle token item ≡ none
      → fail_remote_deletion failed_at now error token item items ≡ (item, items)
  unfolding fail_remote_deletion
  fail_not item items e = rw (e, fail_remote_deletion)

  pub fail_some :
      (item : TrashItem) (items : List TrashItem) (s : RemoteDeletion)
      → to_settle token item ≡ some s
      → fail_remote_deletion failed_at now error token item items
        ≡ save_trash_item
            (with_remote (failed_state failed_at now (failure_category error) s) item)
            items
  unfolding fail_remote_deletion save_trash_item
  fail_some item items s e = rw (e, fail_remote_deletion)

module _ (now : ℕ) (reason : Text) (item : TrashItem) (items : List TrashItem) where
  pub cancel_not :
      remote_state item ≡ none → cancel_remote_deletion now reason item items ≡ (item, items)
  unfolding cancel_remote_deletion
  cancel_not e = rw (e, cancel_remote_deletion)

  pub cancel_over :
      (s : RemoteDeletion)
      → remote_state item ≡ some s
      → is_completed_or_cancelled s.state ≡ true
      → cancel_remote_deletion now reason item items ≡ (item, items)
  unfolding cancel_remote_deletion
  cancel_over s e f = rw (e, cancel_remote_deletion) (rw f)

  pub cancel_some :
      (s : RemoteDeletion)
      → remote_state item ≡ some s
      → is_completed_or_cancelled s.state ≡ false
      → cancel_remote_deletion now reason item items
        ≡ save_trash_item (with_remote (cancelled_state now reason s) item) items
  unfolding cancel_remote_deletion save_trash_item
  cancel_some s e f = rw (e, cancel_remote_deletion) (rw f)

module _ (now deleted_at : ℕ) (by operation provider : Text) (max_attempts : Option ℕ)
    (item : TrashItem) (items : List TrashItem) where
  pub queue_other :
      is_status item.status trashed ≡ false
      → queue_remote_deletion now deleted_at by operation provider max_attempts item items
        ≡ (item, items)
  unfolding queue_remote_deletion
  queue_other f = rw f

  pub queue_again :
      (s : RemoteDeletion)
      → remote_state item ≡ some s
      → queue_remote_deletion now deleted_at by operation provider max_attempts item items
        ≡ (item, items)
  unfolding queue_remote_deletion
  queue_again s e = rw (e, queue_remote_deletion) (ground arith)

  pub queue_new :
      is_status item.status trashed ≡ true
      → remote_state item ≡ none
      → queue_remote_deletion now deleted_at by operation provider max_attempts item items
        ≡ save_trash_item
            (deleted_item deleted_at by
              (some (queued now operation provider max_attempts item))
              item)
            items
  unfolding permanently_delete queue_remote_deletion save_trash_item
  queue_new t e = rw (e, queue_remote_deletion) (rw t)
