-- ===== src/Trash/Claims.antt =====
-- Claims of a remote deletion: claimRemoteDeletion, releaseRemoteClaim and processRemoteDeletion of
-- services/trashService.js. A claim is a lock file that is created only if it is not there, with the time
-- of its last change; processRemoteDeletion is two steps, on either side of its wait for the provider.
pub mod Begin
pub mod Outcomes
pub mod Process
pub mod Fenced
use servidor_drive.Prelude.{
  ℕ, ◌+◌, Bool, true, false, not, ◌&&◌, Option, none, some, List, [], ◌∷◌, ◌++◌, if◌then◌else◌, ltb,
  leb, Text, text_eq, is_nonempty,
}
use servidor_drive.Prelude.TextMaps.{TextMap, lookup, insert, discard}
use servidor_drive.Trash.Names.{safe_name}
use servidor_drive.Trash.Item.{
  TrashItem, RemoteDeletion, RemoteStatus, pending, retry_wait, cancelled, FailureCategory,
  missing_object, remote_delete_pending,
}
use servidor_drive.Trash.Repository.{is_status, get_trash_item, save_trash_item}
use servidor_drive.Trash.Remote.{complete_remote_deletion, fail_remote_deletion}
use servidor_drive.Trash.Deletion.{
  remote_state, ProviderError, failure_category, transition, with_remote,
}

pub record Lock : Type 0 where
  pub token : Text
  pub mtime_ms : ℕ

pub record Disk : Type 0 where
  pub items : List TrashItem
  pub locks : TextMap Lock

pub record Claim : Type 0 where
  pub item : TrashItem
  pub token : Text
  pub path : Text

-- What a call of claimRemoteDeletion draws and is given: the clock, the time that the file system
-- notes, the lease, the worker, and whether the item can be written.
pub record Attempt : Type 0 where
  pub now : ℕ
  pub written_at : ℕ
  pub lease_ms : ℕ
  pub worker_id : Text
  pub drawn_operation_id : Text
  pub drawn_token : Text
  pub is_saved : Bool

pub data Claimed : Type 0 where
  refused throws : Claimed
  claimed : Claim → Claimed

abbrev pub waits : RemoteStatus → Bool
waits pending = true
waits retry_wait = true
waits _ = false

unfoldable pub release_remote_claim : Text → Text → TextMap Lock → TextMap Lock
release_remote_claim path token locks = elim (lookup path locks) [
  | none ↦ locks
  | some lock ↦ if text_eq lock.token token then discard path locks else locks
]

-- A lock that is there is taken over once its lease has passed.
unfoldable pub take_lock : Attempt → Text → Text → TextMap Lock → Option (TextMap Lock)
take_lock a path token locks =
    let lock : Lock = record { token = token; mtime_ms = a.written_at } in
    elim (lookup path locks) [
      | none ↦ some (insert path lock locks)
      | some held ↦
          if leb (held.mtime_ms + a.lease_ms) a.now
          then some (insert path lock (discard path locks))
          else none
    ]

-- `getTrashItem(id) || item`
unfoldable pub stored_or : Text → TrashItem → List TrashItem → TrashItem
stored_or id item items = elim (get_trash_item id items) [ none ↦ item | some found ↦ found ]

abbrev pub current_item : TrashItem → List TrashItem → TrashItem
current_item item items = stored_or item.id item items

-- A state that waits for an attempt whose time has come.
unfoldable pub due : ℕ → TrashItem → Option RemoteDeletion
due now item = elim (remote_state item) [
  | none ↦ none
  | some s ↦
      let early : Bool = elim s.next_attempt_at [ none ↦ false | some at ↦ ltb now at ] in
      if waits s.state && not early then some s else none
]

abbrev pub operation_of : Attempt → RemoteDeletion → Text
operation_of a s = elim s.operation_id [
  | none ↦ a.drawn_operation_id
  | some id ↦ if is_nonempty id then id else a.drawn_operation_id
]

abbrev pub token_of : Attempt → Text
token_of a = a.worker_id ++ b':' ∷ a.drawn_token

unfoldable pub claimed_state : Attempt → RemoteDeletion → RemoteDeletion
claimed_state a s =
    transition
      (record s {
        operation_id = some (operation_of a s);
        lease_token = some (token_of a);
        lease_until = some (a.now + a.lease_ms);
        worker_id = some a.worker_id;
      })
      s.state a.now

unfoldable pub still_waits : TrashItem → Bool
still_waits item = elim (remote_state item) [ none ↦ false | some s ↦ waits s.state ]

-- With the lock: the item that is read once more is written with the claim.
unfoldable pub write_claim :
    Attempt → (fresh : TrashItem) → RemoteDeletion → (path : Text) → Disk → Disk × Claimed
write_claim a fresh s path disk =
    let released : Disk = record disk {
      locks = release_remote_claim path (token_of a) disk.locks;
    } in
    let (saved, items) = save_trash_item (with_remote (claimed_state a s) fresh) disk.items in
    if still_waits fresh
    then if a.is_saved
      then (
        record disk { items = items },
        claimed (record { item = saved; token = token_of a; path = path }),
      )
      else (released, throws)
    else (released, refused)

unfoldable pub claim_with_lock :
    Attempt
    → (current : TrashItem) → RemoteDeletion
    → (path : Text) → Option (TextMap Lock)
    → Disk
    → Disk × Claimed
claim_with_lock a current s path none disk = (disk, refused)
claim_with_lock a current s path (some locks) disk =
    write_claim a (current_item current disk.items) s path (record disk { locks = locks })

unfoldable pub claim_current :
    Attempt → (current : TrashItem) → Option RemoteDeletion → Disk → Disk × Claimed
claim_current a current none disk = (disk, refused)
claim_current a current (some s) disk =
    let path = safe_name (operation_of a s) in
    claim_with_lock a current s path (take_lock a path (token_of a) disk.locks) disk

unfoldable pub claim_remote_deletion : Attempt → TrashItem → Disk → Disk × Claimed
claim_remote_deletion a item disk =
    let current = current_item item disk.items in claim_current a current (due a.now current) disk

-- A call that waits for the provider: the item that it read before, and its claim.
pub record Job : Type 0 where
  pub current : TrashItem
  pub claim : Claim

pub data Begun : Type 0 where
  finished : TrashItem → Begun
  stopped : Begun
  waiting : Job → Begun

abbrev pub release : Claim → Disk → Disk
release claim disk = record disk { locks = release_remote_claim claim.path claim.token disk.locks }

unfoldable pub may_remove : TrashItem → Bool
may_remove item = elim (remote_state item) [
  | none ↦ false
  | some s ↦
      is_status item.status remote_delete_pending && elim s.state [ cancelled ↦ false | _ ↦ true ]
]

-- Up to the call of the provider.
unfoldable pub begin_claimed : TrashItem → Claimed → Disk → Disk × Begun
begin_claimed item refused disk = (disk, finished (current_item item disk.items))
begin_claimed item throws disk = (disk, stopped)
begin_claimed item (claimed claim) disk =
    let current = stored_or item.id claim.item disk.items in
    if may_remove current
    then (disk, waiting (record { current = current; claim = claim }))
    else (release claim disk, finished current)

unfoldable pub begin_remote_deletion : Attempt → TrashItem → Disk → Disk × Begun
begin_remote_deletion a item disk =
    let (disk', result) = claim_remote_deletion a item disk in begin_claimed item result disk'

pub data Outcome : Type 0 where
  removed : Outcome
  thrown : ProviderError → Outcome

abbrev pub is_missing : FailureCategory → Bool
is_missing missing_object = true
is_missing _ = false

abbrev pub with_items : Disk → TrashItem × List TrashItem → Disk × TrashItem
with_items disk (item, items) = (record disk { items = items }, item)

-- The outcome is settled: on the item that was read before the call where the provider succeeds, on the
-- item that is stored now where it throws.
unfoldable pub settle : (failed_at now : ℕ) → Outcome → Job → Disk → Disk × TrashItem
settle failed_at now removed job disk =
    with_items disk (complete_remote_deletion now (some job.claim.token) job.current disk.items)
settle failed_at now (thrown error) job disk =
    let current = stored_or job.claim.item.id job.claim.item disk.items in
    with_items disk (
      if is_missing (failure_category error)
      then complete_remote_deletion now (some job.claim.token) current disk.items
      else fail_remote_deletion failed_at now error (some job.claim.token) current disk.items)

unfoldable pub finish_remote_deletion :
    (failed_at now : ℕ) → Outcome → Job → Disk → Disk × TrashItem
finish_remote_deletion failed_at now outcome job disk =
    let (disk', item) = settle failed_at now outcome job disk in (release job.claim disk', item)

unfoldable pub process_begun :
    (failed_at now : ℕ) → (TrashItem → Outcome) → Begun → Disk → Disk × Begun
process_begun failed_at now provider (finished found) disk = (disk, finished found)
process_begun failed_at now provider stopped disk = (disk, stopped)
process_begun failed_at now provider (waiting job) disk =
    let (disk', settled) = finish_remote_deletion failed_at now (provider job.current) job disk in
    (disk', finished settled)

-- The whole call, where nothing else happens during the wait.
unfoldable pub process_remote_deletion :
    Attempt → (failed_at now : ℕ) → (TrashItem → Outcome) → TrashItem → Disk → Disk × Begun
process_remote_deletion a failed_at now provider item disk =
    let (disk', begun) = begin_remote_deletion a item disk in
    process_begun failed_at now provider begun disk'
