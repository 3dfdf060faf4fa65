-- ===== src/Trash/Claims/Process.antt =====
-- A whole call of processRemoteDeletion, and what it leaves.
use mathlib.Core.Path.{subst, sym}
use servidor_drive.Prelude.{ℕ, ◌≡◌, refl, ap, ◌∙◌, true, false, some, Text, Bool-cases, inl, inr}
use servidor_drive.Trash.Item.{
  TrashItem, RemoteDeletion, permanently_deleted, remote_delete_pending, normalize_trash_item,
}
use servidor_drive.Trash.Repository.{get_trash_item, save_trash_item, get_trash_item-save_other}
use servidor_drive.Trash.Remote.{complete_remote_deletion}
use servidor_drive.Trash.Deletion.{
  ProviderError, failure_category, with_remote, failed_state, completed_state,
}
use servidor_drive.Trash.Remote.Branches.{fail_some, complete_some}
use servidor_drive.Trash.Claims.{
  Attempt, Disk, Outcome, removed, thrown, is_missing, claimed_state, token_of, settle,
  finish_remote_deletion, process_begun, process_remote_deletion, stored_or, release, with_items,
}
use servidor_drive.Trash.Claims.Begin.{
  IsReady, claimed_item, claim_of, path_of, with_claim, begin_remote_deletion_ready, get_claimed,
  to_settle-claimed, found-id, stored_or-some, get_own, get_nonempty, claimed_item-id,
  with_remote-id,
}
use servidor_drive.Trash.Claims.Outcomes.{
  release_remote_claim-own, job_of, SameLocks, SameElsewhere, IsFailed, IsCompleted, Settled,
  status_after, After, completed_state-IsCompleted, failed_state-IsFailed,
}

module _ {a : Attempt} {item found : TrashItem} {s : RemoteDeletion} {disk : Disk}
    (r : IsReady a item found s disk) (failed_at now : ℕ) where
  finish : Outcome → Disk × TrashItem
  finish outcome =
      finish_remote_deletion failed_at now outcome (job_of a s found) (with_claim a s found disk)

  process_claimed :
      (provider : TrashItem → Outcome) (outcome : Outcome)
      → provider (claimed_item a s found) ≡ outcome
      → (process_remote_deletion a failed_at now provider item disk).0 ≡ (finish outcome).0
  unfolding process_remote_deletion process_begun finish
  process_claimed provider outcome e = rw (begin_remote_deletion_ready r) (rw e)

  -- The item with a settled state, written over the one with the claim.
  written : TrashItem → Disk × TrashItem
  written x =
      with_items (with_claim a s found disk) (save_trash_item x (with_claim a s found disk).items)

  failed_item : ProviderError → TrashItem
  failed_item error =
      with_remote (failed_state failed_at now (failure_category error) (claimed_state a s))
        (claimed_item a s found)

  completed_item : TrashItem
  completed_item =
      record (with_remote (completed_state now (claimed_state a s)) (claimed_item a s found)) {
        status = permanently_deleted;
      }

  get_current :
      stored_or
        (claimed_item a s found).id
        (claimed_item a s found)
        (with_claim a s found disk).items
      ≡ claimed_item a s found
  get_current =
      let id = claimed_item-id a s found ∙ found-id r in
      stored_or-some _ _ _ _ (
        subst
          (λ (i : Text).
            get_trash_item i (with_claim a s found disk).items ≡ some (claimed_item a s found))
          (sym id) (get_claimed r))

  settle_completing :
      with_items (with_claim a s found disk) (
        complete_remote_deletion now
          (some (token_of a))
          (claimed_item a s found)
          (with_claim a s found disk).items)
      ≡ written completed_item
  unfolding written completed_item
  settle_completing = ap (with_items (with_claim a s found disk)) (
      complete_some now (some (token_of a)) (claimed_item a s found) _ (claimed_state a s)
        (to_settle-claimed r))

  settle_thrown :
      (error : ProviderError)
      → is_missing (failure_category error) ≡ false
      → settle failed_at now (thrown error) (job_of a s found) (with_claim a s found disk)
        ≡ written (failed_item error)
  unfolding settle written failed_item
  settle_thrown error f = rw f (
      rw get_current (
        ap (with_items (with_claim a s found disk)) (
          fail_some failed_at now error (some (token_of a)) (claimed_item a s found) _
            (claimed_state a s) (to_settle-claimed r))))

  settle_removed :
      settle failed_at now removed (job_of a s found) (with_claim a s found disk)
      ≡ written completed_item
  unfolding settle
  settle_removed = settle_completing

  settle_missing :
      (error : ProviderError)
      → is_missing (failure_category error) ≡ true
      → settle failed_at now (thrown error) (job_of a s found) (with_claim a s found disk)
        ≡ written completed_item
  unfolding settle
  settle_missing error f = rw f (rw get_current settle_completing)

  left : TrashItem → Disk
  unfolding written
  left x = release (claim_of a s found) (written x).0

  finish_settled :
      (provider : TrashItem → Outcome) (outcome : Outcome) (x : TrashItem)
      → provider (claimed_item a s found) ≡ outcome
      → settle failed_at now outcome (job_of a s found) (with_claim a s found disk) ≡ written x
      → (process_remote_deletion a failed_at now provider item disk).0 ≡ left x
  unfolding left finish finish_remote_deletion
  finish_settled provider outcome x p e = process_claimed provider outcome p ∙ rw e

  left_locks : (x : TrashItem) → SameLocks (left x) disk
  unfolding left written
  left_locks x p =
      release_remote_claim-own (path_of a s) (token_of a) a.written_at disk.locks p r.free

  left_own :
      (x : TrashItem)
      → x.id ≡ item.id
      → get_trash_item item.id (left x).items ≡ some (normalize_trash_item x)
  unfolding left written
  left_own x same = get_own x item.id _ (get_nonempty item.id disk.items found r.stored) same

  left_elsewhere : (x : TrashItem) → x.id ≡ item.id → SameElsewhere item.id (left x) disk
  unfolding left written
  left_elsewhere x same other f =
      get_trash_item-save_other x other _ (rw same f)
      ∙ get_trash_item-save_other (with_remote (claimed_state a s) found) other disk.items
          (rw (with_remote-id (claimed_state a s) found, found-id r) f)

  failed_item-id : (error : ProviderError) → (failed_item error).id ≡ item.id
  unfolding failed_item
  failed_item-id error =
      with_remote-id _ (claimed_item a s found) ∙ claimed_item-id a s found ∙ found-id r

  completed_item-id : completed_item.id ≡ item.id
  unfolding completed_item
  completed_item-id =
      with_remote-id _ (claimed_item a s found) ∙ claimed_item-id a s found ∙ found-id r

  left-IsFailed :
      (error : ProviderError)
      → Settled item.id disk
          (left (failed_item error))
          remote_delete_pending
          (λ t. IsFailed s t failed_at now error)
  unfolding failed_item with_remote normalize_trash_item
  left-IsFailed error = (
    normalize_trash_item (failed_item error),
    failed_state failed_at now (failure_category error) (claimed_state a s),
    left_own (failed_item error) (failed_item-id error),
    refl,
    r.pending,
    failed_state-IsFailed a s failed_at now error,
    left_locks (failed_item error),
    left_elsewhere (failed_item error) (failed_item-id error),
  )

  left-IsCompleted :
      Settled item.id disk (left completed_item) permanently_deleted (λ t. IsCompleted s t now)
  unfolding completed_item with_remote normalize_trash_item
  left-IsCompleted = (
    normalize_trash_item completed_item,
    completed_state now (claimed_state a s),
    left_own completed_item completed_item-id,
    refl,
    refl,
    completed_state-IsCompleted a s now,
    left_locks completed_item,
    left_elsewhere completed_item completed_item-id,
  )

  -- A call of processRemoteDeletion for an item that is due, whose lock is free and that can be written,
  -- where nothing else happens during the wait. If the provider removes the object, or throws that it is
  -- missing, the item is permanently deleted and the deletion completed with its attempts as before. If it
  -- throws anything else, the item stays pending and one more attempt counts, which at the limit ends the
  -- deletion and otherwise plans the next one after the backoff. Either way no lock is left behind and no
  -- other item is touched.
  pub process_remote_deletion_lem :
      (provider : TrashItem → Outcome) (outcome : Outcome)
      → provider (claimed_item a s found) ≡ outcome
      → Settled item.id disk
          (process_remote_deletion a failed_at now provider item disk).0
          (status_after outcome)
          (After s failed_at now outcome)
  process_remote_deletion_lem provider removed p =
      subst (λ (d : Disk). Settled item.id disk d permanently_deleted (λ t. IsCompleted s t now))
        (sym (finish_settled provider removed completed_item p settle_removed)) left-IsCompleted
  process_remote_deletion_lem provider (thrown error) p =
      elim (Bool-cases (is_missing (failure_category error))) [
        | inl g ↦ rw g (
            subst
              (λ (d : Disk). Settled item.id disk d permanently_deleted (λ t. IsCompleted s t now))
              (sym
                (finish_settled provider (thrown error) completed_item p (settle_missing error g)))
              left-IsCompleted)
        | inr f ↦ rw f (
            subst
              (λ (d : Disk).
                Settled item.id disk d remote_delete_pending
                  (λ t. IsFailed s t failed_at now error))
              (sym (
                finish_settled provider (thrown error) (failed_item error) p
                  (settle_thrown error f)))
              (left-IsFailed error))
      ]
