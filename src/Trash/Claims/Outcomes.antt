-- ===== src/Trash/Claims/Outcomes.antt =====
-- What a call of processRemoteDeletion leaves: the state after each outcome, and what stays as it was.
use servidor_drive.Prelude.{
  ℕ, ◌+◌, ◌≡◌, refl, ◌∙◌, min, false, none, some, Text, text_eq, text_eq_refl, if◌then◌else◌, leb,
  eq_of_text_eq, arith,
}
use servidor_drive.Prelude.TextMaps.{
  TextMap, lookup, insert, discard, lookup-insert, lookup-discard,
}
use servidor_drive.Trash.Item.{
  TrashItem, RemoteDeletion, ItemStatus, retry_wait, completed, terminal_failure,
  permanently_deleted, remote_delete_pending,
}
use servidor_drive.Trash.Repository.{get_trash_item}
use servidor_drive.Trash.Deletion.{
  ProviderError, failure_category, limit_of, backoff_ms, failed_state, completed_state, transition,
}
use servidor_drive.Trash.Claims.{
  Attempt, Disk, Lock, Job, Outcome, removed, thrown, is_missing, claimed_state,
  release_remote_claim,
}
use servidor_drive.Trash.Claims.Begin.{claimed_item, claim_of}

-- A claim that is released leaves the locks as they were before it.
pub release_remote_claim-own :
    (path token : Text) (written_at : ℕ) (locks : TextMap Lock) (p : Text)
    → lookup path locks ≡ none
    → lookup p (
        release_remote_claim path token
          (insert path (record { token = token; mtime_ms = written_at }) locks))
      ≡ lookup p locks
unfolding release_remote_claim
release_remote_claim-own path token written_at locks p free =
    let lock : Lock = record { token = token; mtime_ms = written_at } in
    let same : lookup p (discard path (insert path lock locks)) ≡ lookup p locks = ground (
      arith,
      lookup-discard path p (insert path lock locks),
      lookup-insert path p lock locks,
      eq_of_text_eq path p,
    ) in
    let there : lookup path (insert path lock locks) ≡ some lock =
      lookup-insert path path lock locks ∙ rw (text_eq_refl path) in
    rw (there, release_remote_claim) (rw (text_eq_refl token) same)

abbrev pub job_of : Attempt → RemoteDeletion → TrashItem → Job
job_of a s found = record { current = claimed_item a s found; claim = claim_of a s found }

-- The locks after a call are those before it.
abbrev pub SameLocks : Disk → Disk → Type 0
SameLocks x y = (p : Text) → lookup p x.locks ≡ lookup p y.locks

-- No other item is touched.
abbrev pub SameElsewhere : Text → Disk → Disk → Type 0
SameElsewhere id x y =
    (other : Text)
    → text_eq id other ≡ false
    → get_trash_item other x.items ≡ get_trash_item other y.items

-- One more attempt has failed, and the next one is planned unless it was the last one.
pub record IsFailed (s t : RemoteDeletion) (failed_at now : ℕ) (error : ProviderError)
    : Type 0 where
  pub attempts : t.attempts ≡ min (limit_of s) (s.attempts + 1)
  pub limit : t.max_attempts ≡ s.max_attempts
  pub state : t.state ≡ (if leb (limit_of s) t.attempts then terminal_failure else retry_wait)
  pub next :
      t.next_attempt_at
      ≡ (if leb (limit_of s) t.attempts then none else some (now + backoff_ms t.attempts))
  pub category : t.failure_category ≡ some (failure_category error)
  pub last : t.last_attempt_at ≡ some failed_at
  pub token : t.lease_token ≡ none

-- The deletion is over, with the attempts that were counted before.
pub record IsCompleted (s t : RemoteDeletion) (now : ℕ) : Type 0 where
  pub attempts : t.attempts ≡ s.attempts
  pub state : t.state ≡ completed
  pub at : t.completed_at ≡ some now
  pub next : t.next_attempt_at ≡ none
  pub token : t.lease_token ≡ none

-- What is stored of the item after a call, and that nothing else has changed.
abbrev pub Settled : Text → Disk → Disk → ItemStatus → (RemoteDeletion → Type 0) → Type 0
Settled id before after status P =
    (kept : TrashItem) × (t : RemoteDeletion) × (get_trash_item id after.items ≡ some kept)
    × (kept.metadata.remote_deletion ≡ some t)
    × (kept.status ≡ status)
    × P t
    × SameLocks after before
    × SameElsewhere id after before

abbrev pub status_after : Outcome → ItemStatus
status_after removed = permanently_deleted
status_after (thrown error) =
    if is_missing (failure_category error) then permanently_deleted else remote_delete_pending

abbrev pub After : RemoteDeletion → (failed_at now : ℕ) → Outcome → RemoteDeletion → Type 0
After s failed_at now removed t = IsCompleted s t now
After s failed_at now (thrown error) t =
    if is_missing (failure_category error)
    then IsCompleted s t now
    else IsFailed s t failed_at now error

pub completed_state-IsCompleted :
    (a : Attempt) (s : RemoteDeletion) (now : ℕ)
    → IsCompleted s (completed_state now (claimed_state a s)) now
unfolding completed_state transition claimed_state
completed_state-IsCompleted a s now = record {
  attempts = refl;
  state = refl;
  at = refl;
  next = refl;
  token = refl;
}

pub failed_state-IsFailed :
    (a : Attempt) (s : RemoteDeletion) (failed_at now : ℕ) (error : ProviderError)
    → IsFailed s
        (failed_state failed_at now (failure_category error) (claimed_state a s))
        failed_at
        now
        error
unfolding failed_state transition claimed_state
failed_state-IsFailed a s failed_at now error = record {
  attempts = refl;
  limit = refl;
  state = refl;
  next = refl;
  category = refl;
  last = refl;
  token = refl;
}
