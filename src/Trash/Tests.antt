-- ===== src/Trash/Tests.antt =====
-- Tests of the trash, and the theorems at concrete inputs.
use servidor_drive.Prelude.{◌≡◌, refl, true, false, none, some, [], ◌∷◌, codes, arith, text_eq}
use servidor_drive.Prelude.TextMaps.{lookup, insert}
use servidor_drive.Trash.Names.{safe_name, exists, restored_candidate, get_available_restore_name}
use servidor_drive.Trash.Item.{
  TrashItem, RemoteDeletion, pending, completed, nothing, file, trashed, remote_delete_pending,
  permanently_deleted, objects, normalize_trash_item,
}
use servidor_drive.Trash.Repository.{get_trash_item, save_trash_item}
use servidor_drive.Trash.Remote.{queue_remote_deletion}
use servidor_drive.Trash.Deletion.{
  remote_state, ProviderError, backoff_ms, with_remote, transition, holds_claim,
}
use servidor_drive.Trash.Remote.Lifecycle.{queues, begins, and_then, Reaches-IsSound}
use servidor_drive.Trash.Remote.States.{IsSound}
use servidor_drive.Trash.Claims.{
  Attempt, Disk, Lock, refused, removed, thrown, claim_remote_deletion, due, claimed_state,
  finish_remote_deletion, process_remote_deletion, Job,
}
use servidor_drive.Trash.Claims.Begin.{IsReady, with_claim, claimed_item}
use servidor_drive.Trash.Claims.Process.{process_remote_deletion_lem}
use servidor_drive.Trash.Claims.Outcomes.{Settled, status_after, After, job_of}
use servidor_drive.Trash.Claims.Fenced.{
  claim_remote_deletion_excluded, finish_removed_unfenced, finish_thrown_stale,
}

safe_name_path : safe_name (codes "a/b.txt/") ≡ codes "b.txt"
unfolding safe_name
safe_name_path = refl

candidate_first : restored_candidate (codes "notes.tar.gz") 1 ≡ codes "notes.tar (restored).gz"
unfolding restored_candidate text_eq
candidate_first = refl

candidate_hidden : restored_candidate (codes ".env") 3 ≡ codes ".env (restored 3)"
unfolding restored_candidate text_eq
candidate_hidden = refl

available_second :
    get_available_restore_name (codes "a.txt" ∷ codes "a (restored).txt" ∷ []) (codes "a.txt")
    ≡ some (codes "a (restored 2).txt")
unfolding get_available_restore_name exists text_eq restored_candidate
available_second = refl

backoff_values :
    (backoff_ms 0 ∷ backoff_ms 1 ∷ backoff_ms 4 ∷ backoff_ms 20 ∷ [])
    ≡ 1000 ∷ 1000 ∷ 8000 ∷ 3600000 ∷ []
unfolding backoff_ms
backoff_values = refl

abbrev plain_item : TrashItem
plain_item = record {
  id = codes "t1";
  item_type = file;
  original_folder_id = codes "docs";
  original_folder_name = codes "Docs";
  original_file_name = some (codes "a.txt");
  stored_file_name = some (codes "a.txt");
  original_path = some (codes "docs/a.txt");
  trash_path = some (codes "files/t1/a.txt");
  deleted_by = some (codes "ana");
  deleted_at = 1000;
  size_bytes = 3;
  metadata = record {
    folder_name = codes "Docs";
    remote_deletion = none;
    restored_name = none;
    restored_folder_id = none;
  };
  restore_metadata = nothing;
  status = trashed;
  restored_by = none;
  restored_at = none;
  permanently_deleted_by = none;
  permanently_deleted_at = none;
}

abbrev offline : ProviderError
offline = record { code = codes "ETIMEDOUT"; missing = false }

Reaches-IsSound_example :
    IsSound
      (queue_remote_deletion 2000 2000 (codes "ana") (codes "op") (codes "s3") none plain_item []).0
Reaches-IsSound_example =
    Reaches-IsSound refl
      (and_then begins (queues 2000 2000 (codes "ana") (codes "op") (codes "s3") none []))

abbrev remote : RemoteDeletion
remote = record {
  operation_id = some (codes "op");
  provider = codes "s3";
  identity = objects (codes "s3") (codes "docs") (codes "a.txt" ∷ []);
  state = pending;
  attempts = 0;
  max_attempts = 25;
  queued_at = 2000;
  last_attempt_at = none;
  next_attempt_at = some 2000;
  completed_at = none;
  failure_category = none;
  cancellation_reason = none;
  lease_token = none;
  lease_until = none;
  worker_id = none;
  transitions = record { state = pending; at = 2000 } ∷ [];
}

abbrev queued_item : TrashItem
queued_item = record plain_item {
  metadata = record plain_item.metadata { remote_deletion = some remote };
  status = remote_delete_pending;
}

abbrev queued_disk : Disk
queued_disk = record { items = queued_item ∷ []; locks = [] }

abbrev first_worker : Attempt
first_worker = record {
  now = 3000;
  written_at = 3000;
  lease_ms = 60000;
  worker_id = codes "w1";
  drawn_operation_id = codes "op2";
  drawn_token = codes "x";
  is_saved = true;
}

abbrev second_worker : Attempt
second_worker = record first_worker { now = 4000; written_at = 4000; worker_id = codes "w2" }

queued-IsReady : IsReady first_worker queued_item queued_item remote queued_disk
unfolding get_trash_item due remote_state lookup text_eq normalize_trash_item
queued-IsReady = record { stored = refl; ready = refl; pending = refl; free = refl; saved = refl }

process_remote_deletion_lem_example :
    Settled
      (codes "t1")
      queued_disk
      (process_remote_deletion first_worker 5000 5001
        (λ _. thrown offline)
        queued_item
        queued_disk).0
      (status_after (thrown offline))
      (After remote 5000 5001 (thrown offline))
process_remote_deletion_lem_example =
    process_remote_deletion_lem queued-IsReady 5000 5001 (λ _. thrown offline) (thrown offline) refl

claim_remote_deletion_excluded_example :
    claim_remote_deletion second_worker queued_item
      (with_claim first_worker remote queued_item queued_disk)
    ≡ (with_claim first_worker remote queued_item queued_disk, refused)
claim_remote_deletion_excluded_example =
    claim_remote_deletion_excluded queued-IsReady second_worker refl (omega arith)

-- The other worker's claim is stored when the first one reports success.
finish_removed_unfenced_example :
    (kept : TrashItem) × (t : RemoteDeletion) × (get_trash_item
        (codes "t1")
        (finish_remote_deletion 9000 9001 removed
          (job_of first_worker remote queued_item)
          (with_claim second_worker remote queued_item queued_disk)).0.items
      ≡ some kept)
    × (kept.status ≡ permanently_deleted)
    × (kept.metadata.remote_deletion ≡ some t)
    × (t.state ≡ completed)
finish_removed_unfenced_example =
    finish_removed_unfenced queued-IsReady 9000 9001
      (with_claim second_worker remote queued_item queued_disk)

abbrev stale_job : Job
stale_job = job_of first_worker remote queued_item

abbrev taken_over : Disk
taken_over = with_claim second_worker remote queued_item queued_disk

abbrev other_lock : Lock
other_lock = record { token = codes "w2:x"; mtime_ms = 4000 }

finish_thrown_stale_example :
    finish_remote_deletion 9000 9001 (thrown offline) stale_job taken_over
    ≡ (taken_over, claimed_item second_worker remote queued_item)
unfolding get_trash_item normalize_trash_item with_remote save_trash_item text_eq remote_state
    claimed_state transition holds_claim lookup insert safe_name
finish_thrown_stale_example =
    finish_thrown_stale 9000 9001 offline stale_job taken_over
      (claimed_item second_worker remote queued_item) (claimed_state second_worker remote)
      other_lock refl refl refl refl refl
