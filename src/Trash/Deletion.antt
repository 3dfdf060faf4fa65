-- ===== src/Trash/Deletion.antt =====
-- The state of a remote deletion and its changes: remoteState, remoteIdentity, failureCategory, backoffMs
-- and transition of services/trashService.js, and the states that its operations write.
use servidor_drive.Prelude.{
  ℕ, zero, suc, ◌+◌, ◌-◌, ◌*◌, ◌^◌, min, max, Bool, true, false, not, ◌&&◌, ◌||◌, Option, none,
  some, List, [], ◌∷◌, ◌++◌, if◌then◌else◌, leb, take, Text, text_eq, text_in, is_nonempty, codes,
}
use servidor_drive.Trash.Item.{
  TrashItem, RemoteDeletion, RemoteStatus, pending, retry_wait, failed, completed, cancelled,
  terminal_failure, RemoteIdentity, prefixes, objects, RestoreMetadata, of_file, FailureCategory,
  missing_object, partial_failure, provider_error, named, remote_delete_pending,
  permanently_deleted, or_root,
}
use servidor_drive.Trash.Repository.{is_status, is_file}

abbrev pub default_max_remote_attempts : ℕ
default_max_remote_attempts = 25

abbrev pub max_remote_backoff_ms : ℕ
max_remote_backoff_ms = 60 * 60 * 1000

-- An old state that failed waits for a retry.
unfoldable pub remote_state : TrashItem → Option RemoteDeletion
remote_state item = elim item.metadata.remote_deletion [
  | none ↦ none
  | some s ↦ elim s.state [ failed ↦ some (record s { state = retry_wait }) | other ↦ some s ]
]

push_new : List Text → Text → List Text
push_new found name =
    if is_nonempty name && not (text_in name found) then found ++ name ∷ [] else found

push_all : List Text → List Text → List Text
unfolding push_new
push_all found [] = found
push_all found (name ∷ names) = push_all (push_new found name) names

abbrev original_objects : TrashItem → List Text
original_objects item = elim item.original_file_name [ none ↦ [] | some name ↦ name ∷ [] ]

abbrev pub stored_versions : RestoreMetadata → List Text
stored_versions (of_file permissions expiration (some versions) encryption links) =
    versions.stored_as
stored_versions _ = []

unfoldable pub remote_identity : TrashItem → Text → RemoteIdentity
unfolding push_all
remote_identity item provider =
    let folder_id = or_root item.original_folder_id in
    if is_file item.item_type
    then objects provider folder_id
        (push_all (original_objects item) (stored_versions item.restore_metadata))
    else prefixes provider ((codes "uploads/" ++ folder_id) ∷ (codes "temp/" ++ folder_id) ∷ [])

-- What a provider throws: its code, and whether it says that the object is missing.
pub record ProviderError : Type 0 where
  pub code : Text
  pub missing : Bool

abbrev missing_codes : List Text
missing_codes = codes "not_found" ∷ codes "NoSuchKey" ∷ codes "notFound" ∷ []

abbrev partial_codes : List Text
partial_codes = codes "partial_delete" ∷ codes "partial_failure" ∷ []

abbrev named_codes : List Text
named_codes =
    codes "configuration"
    ∷ codes "invalid_path"
    ∷ codes "invalid_prefix"
    ∷ codes "unsupported_provider"
    ∷ []

unfoldable pub failure_category : ProviderError → FailureCategory
failure_category error =
    if text_in error.code missing_codes || error.missing
    then missing_object
    else if text_in error.code partial_codes
    then partial_failure
    else if text_in error.code named_codes
    then named error.code
    else provider_error

unfoldable pub backoff_ms : ℕ → ℕ
backoff_ms attempts = min max_remote_backoff_ms (1000 * 2 ^ (attempts - 1))

-- `transition(state, next, at, details)`, the details written before.
unfoldable pub transition : RemoteDeletion → RemoteStatus → ℕ → RemoteDeletion
transition s next at = record s {
  state = next;
  transitions = s.transitions ++ record { state = next; at = at } ∷ [];
}

unfoldable pub with_remote : RemoteDeletion → TrashItem → TrashItem
with_remote s item = record item { metadata = record item.metadata { remote_deletion = some s } }

-- `Number(n) || fallback`
abbrev pub or_else_nat : ℕ → ℕ → ℕ
or_else_nat zero fallback = fallback
or_else_nat (suc n) fallback = suc n

abbrev pub limit_of : RemoteDeletion → ℕ
limit_of s = or_else_nat s.max_attempts default_max_remote_attempts

unfoldable pub clamp_attempts : Option ℕ → ℕ
clamp_attempts none = default_max_remote_attempts
clamp_attempts (some n) = max 1 (min 100 (or_else_nat n default_max_remote_attempts))

-- The state that queueRemoteDeletion starts with.
unfoldable pub queued :
    (now : ℕ) (operation_id provider : Text) (max_attempts : Option ℕ) → TrashItem → RemoteDeletion
unfolding remote_identity clamp_attempts
queued now operation_id provider max_attempts item = record {
  operation_id = some operation_id;
  provider = provider;
  identity = remote_identity item provider;
  state = pending;
  attempts = 0;
  max_attempts = clamp_attempts max_attempts;
  queued_at = now;
  last_attempt_at = none;
  next_attempt_at = some now;
  completed_at = none;
  failure_category = none;
  cancellation_reason = none;
  lease_token = none;
  lease_until = none;
  worker_id = none;
  transitions = record { state = pending; at = now } ∷ [];
}

abbrev pub is_ended : RemoteStatus → Bool
is_ended completed = true
is_ended cancelled = true
is_ended terminal_failure = true
is_ended _ = false

-- `claimToken && previous.leaseToken !== claimToken` does not hold.
unfoldable pub holds_claim : Option Text → RemoteDeletion → Bool
holds_claim none s = true
holds_claim (some []) s = true
holds_claim (some (c ∷ cs)) s = elim s.lease_token [ none ↦ false | some t ↦ text_eq t (c ∷ cs) ]

-- The state that an outcome may still settle.
unfoldable pub to_settle : Option Text → TrashItem → Option RemoteDeletion
unfolding remote_state holds_claim
to_settle claim_token item = elim (remote_state item) [
  | none ↦ none
  | some s ↦
      if is_status item.status remote_delete_pending
        && not (is_ended s.state)
        && holds_claim claim_token s
      then some s
      else none
]

unfoldable pub completed_state : ℕ → RemoteDeletion → RemoteDeletion
unfolding transition
completed_state now s =
    transition
      (record s {
        completed_at = some now;
        last_attempt_at = elim s.last_attempt_at [ none ↦ some now | some at ↦ some at ];
        next_attempt_at = none;
        failure_category = none;
        lease_token = none;
        lease_until = none;
      })
      completed now

unfoldable pub failed_state :
    (failed_at now : ℕ) → FailureCategory → RemoteDeletion → RemoteDeletion
unfolding transition backoff_ms
failed_state failed_at now category s =
    let attempts = min (limit_of s) (s.attempts + 1) in
    let terminal = leb (limit_of s) attempts in
    transition
      (record s {
        attempts = attempts;
        last_attempt_at = some failed_at;
        next_attempt_at = if terminal then none else some (now + backoff_ms attempts);
        failure_category = some category;
        lease_token = none;
        lease_until = none;
      })
      (if terminal then terminal_failure else retry_wait) failed_at

unfoldable pub cancelled_state : ℕ → Text → RemoteDeletion → RemoteDeletion
unfolding transition
cancelled_state now reason s =
    transition
      (record s {
        cancellation_reason = some (take 120 reason);
        next_attempt_at = none;
        lease_token = none;
        lease_until = none;
      })
      cancelled now

abbrev pub is_completed_or_cancelled : RemoteStatus → Bool
is_completed_or_cancelled completed = true
is_completed_or_cancelled cancelled = true
is_completed_or_cancelled _ = false

unfoldable pub deleted_item : ℕ → Text → Option RemoteDeletion → TrashItem → TrashItem
unfolding with_remote
deleted_item now deleted_by none item = record item {
  status = permanently_deleted;
  permanently_deleted_by = some deleted_by;
  permanently_deleted_at = some now;
}
deleted_item now deleted_by (some s) item = record (with_remote s item) {
  status = remote_delete_pending;
  permanently_deleted_by = some deleted_by;
  permanently_deleted_at = some now;
}
