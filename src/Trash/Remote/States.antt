-- ===== src/Trash/Remote/States.antt =====
-- What a sound state of a remote deletion is, and that each change of it keeps it sound.
use servidor_drive.Prelude.{
  ℕ, zero, suc, ◌+◌, ◌≡◌, ◌≢◌, ◌≤◌, ◌<◌, refl, Option, none, some, List, [], ◌∷◌, ◌++◌, Text, leb,
  min, arith, Bool-cases, Option-cases, inl, inr,
}
use mathlib.Core.Path.{subst}
use servidor_drive.Trash.Item.{
  TrashItem, RemoteDeletion, RemoteStatus, pending, retry_wait, failed, completed, cancelled,
  terminal_failure, Transition, ItemStatus, remote_delete_pending, permanently_deleted,
  normalize_trash_item,
}
use servidor_drive.Trash.Repository.{save_trash_item}
use servidor_drive.Trash.Claims.{Attempt, due, claimed_state}
use servidor_drive.Trash.Deletion.{
  remote_state, with_remote, to_settle, transition, queued, clamp_attempts, limit_of,
  completed_state, failed_state, cancelled_state, ProviderError, failure_category, deleted_item,
}

-- What each state says of the attempts, of the next one and of the item.
abbrev pub Agrees : ItemStatus → RemoteDeletion → RemoteStatus → Type 0
Agrees status s pending =
    (s.attempts < s.max_attempts) × (s.next_attempt_at ≢ none) × (status ≡ remote_delete_pending)
Agrees status s retry_wait =
    (s.attempts < s.max_attempts) × (s.next_attempt_at ≢ none) × (status ≡ remote_delete_pending)
Agrees status s failed = ⊥
Agrees status s completed =
    (s.next_attempt_at ≡ none) × (s.completed_at ≢ none) × (status ≡ permanently_deleted)
Agrees status s cancelled = s.next_attempt_at ≡ none
Agrees status s terminal_failure =
    (s.attempts ≡ s.max_attempts) × (s.next_attempt_at ≡ none) × (status ≡ remote_delete_pending)

abbrev last_state : List Transition → Option RemoteStatus
last_state [] = none
last_state (t ∷ []) = some t.state
last_state (t ∷ u ∷ ts) = last_state (u ∷ ts)

abbrev pub IsSoundState : ItemStatus → RemoteDeletion → Type 0
IsSoundState status s =
    (1 ≤ s.max_attempts)
    × (s.max_attempts ≤ 100)
    × (s.attempts ≤ s.max_attempts)
    × (last_state s.transitions ≡ some s.state)
    × Agrees status s s.state

abbrev pub IsSound : TrashItem → Type 0
IsSound item =
    (s : RemoteDeletion) → item.metadata.remote_deletion ≡ some s → IsSoundState item.status s

pub last_state-append :
    (ts : List Transition) (t : Transition) → last_state (ts ++ t ∷ []) ≡ some t.state
last_state-append [] t = refl
last_state-append (u ∷ []) t = refl
last_state-append (u ∷ v ∷ ts) t = last_state-append (v ∷ ts) t

pub clamp_attempts_bounds : (o : Option ℕ) → (1 ≤ clamp_attempts o) × (clamp_attempts o ≤ 100)
unfolding clamp_attempts
clamp_attempts_bounds none = omega arith
clamp_attempts_bounds (some zero) = omega arith
clamp_attempts_bounds (some (suc n)) = omega arith

pub queued-IsSoundState :
    (now : ℕ) (operation provider : Text) (o : Option ℕ) (item : TrashItem)
    → IsSoundState remote_delete_pending (queued now operation provider o item)
unfolding queued
queued-IsSoundState now operation provider o item =
    let (low, high) = clamp_attempts_bounds o in
    (low, high, omega arith, refl, (omega (arith, low), cc, refl))

pub Agrees-failed :
    (status : ItemStatus) (s : RemoteDeletion) → Agrees status s s.state → s.state ≢ failed
Agrees-failed status s h e = rw e at h

pub remote_state_sound :
    (item : TrashItem) (s : RemoteDeletion)
    → IsSound item
    → remote_state item ≡ some s
    → item.metadata.remote_deletion ≡ some s
unfolding remote_state
remote_state_sound item s sound h = elim (Option-cases item.metadata.remote_deletion) [
  | inl e ↦ ground arith
  | inr (t, e) ↦ ground (arith, Agrees-failed item.status t (sound t e).4)
]

pub to_settle-some :
    (token : Option Text) (item : TrashItem) (s : RemoteDeletion)
    → to_settle token item ≡ some s
    → (remote_state item ≡ some s) × (item.status ≡ remote_delete_pending)
unfolding to_settle
to_settle-some token item s h = ground arith

pub due-some :
    (now : ℕ) (item : TrashItem) (s : RemoteDeletion)
    → due now item ≡ some s
    → remote_state item ≡ some s
unfolding due
due-some now item s h = ground arith

pub limit_of_sound : (s : RemoteDeletion) → 1 ≤ s.max_attempts → limit_of s ≡ s.max_attempts
limit_of_sound s h = ground arith

pub claimed-Agrees :
    (status : ItemStatus) (a : Attempt) (s : RemoteDeletion) (k : RemoteStatus)
    → Agrees status s k
    → Agrees status (claimed_state a s) k
unfolding claimed_state transition
claimed-Agrees status a s pending h = h
claimed-Agrees status a s retry_wait h = h
claimed-Agrees status a s failed h = h
claimed-Agrees status a s completed h = h
claimed-Agrees status a s cancelled h = h
claimed-Agrees status a s terminal_failure h = h

pub claimed-IsSoundState :
    (status : ItemStatus) (a : Attempt) (s : RemoteDeletion)
    → IsSoundState status s
    → IsSoundState status (claimed_state a s)
unfolding claimed_state transition
claimed-IsSoundState status a s (low, high, few, last, agrees) =
    (low, high, few, last_state-append s.transitions _, claimed-Agrees status a s s.state agrees)

pub completed-IsSoundState :
    (status : ItemStatus) (now : ℕ) (s : RemoteDeletion)
    → IsSoundState status s
    → IsSoundState permanently_deleted (completed_state now s)
unfolding completed_state
completed-IsSoundState status now s (low, high, few, last, agrees) =
    (low, high, few, last_state-append s.transitions _, (refl, cc, refl))

pub cancelled-IsSoundState :
    (status : ItemStatus) (now : ℕ) (reason : Text) (s : RemoteDeletion)
    → IsSoundState status s
    → IsSoundState status (cancelled_state now reason s)
unfolding cancelled_state
cancelled-IsSoundState status now reason s (low, high, few, last, agrees) =
    (low, high, few, last_state-append s.transitions _, refl)

pub failed-IsSoundState :
    (failed_at now : ℕ) (error : ProviderError) (s : RemoteDeletion)
    → IsSoundState remote_delete_pending s
    → IsSoundState remote_delete_pending (failed_state failed_at now (failure_category error) s)
unfolding failed_state
failed-IsSoundState failed_at now error s (low, high, few, last, agrees) =
    let limit = limit_of_sound s low in
    elim (Bool-cases (leb (limit_of s) (min (limit_of s) (s.attempts + 1)))) [
      | inl t ↦ rw t (
        low,
        high,
        omega (arith, limit),
        last_state-append s.transitions _,
        (ground (arith, limit), refl, refl),
      )
      | inr f ↦ rw f (
        low,
        high,
        omega (arith, limit),
        last_state-append s.transitions _,
        (ground (arith, limit), cc, refl),
      )
    ]

pub saved-IsSound :
    (s : RemoteDeletion) (item : TrashItem) (items : List TrashItem)
    → IsSoundState item.status s
    → IsSound (save_trash_item (with_remote s item) items).0
unfolding save_trash_item with_remote normalize_trash_item
saved-IsSound s item items h t e = let same : s ≡ t = cc in subst (IsSoundState item.status) same h

pub deleted-IsSound :
    (deleted_at : ℕ) (by : Text) (s : RemoteDeletion) (item : TrashItem) (items : List TrashItem)
    → IsSoundState remote_delete_pending s
    → IsSound (save_trash_item (deleted_item deleted_at by (some s) item) items).0
unfolding save_trash_item deleted_item normalize_trash_item
deleted-IsSound deleted_at by s item items h t e =
    let same : s ≡ t = cc in subst (IsSoundState remote_delete_pending) same h

pub ended-IsSound :
    (s : RemoteDeletion) (item : TrashItem) (items : List TrashItem)
    → IsSoundState permanently_deleted s
    → IsSound
        (save_trash_item (record (with_remote s item) { status = permanently_deleted }) items).0
unfolding save_trash_item with_remote normalize_trash_item
ended-IsSound s item items h t e =
    let same : s ≡ t = cc in subst (IsSoundState permanently_deleted) same h
