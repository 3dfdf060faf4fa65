-- ===== src/Trash/Remote/Lifecycle.antt =====
-- The states that the remote deletion of an item goes through.
use servidor_drive.Prelude.{
  ℕ, ◌≡◌, Option, none, some, List, Text, Bool-cases, Option-cases, inl, inr,
}
use mathlib.Core.Path.{subst, sym}
use servidor_drive.Trash.Remote.Branches.{
  complete_not, complete_some, fail_not, fail_some, cancel_not, cancel_over, cancel_some,
  queue_other, queue_again, queue_new,
}
use servidor_drive.Trash.Item.{TrashItem, RemoteDeletion, trashed, remote_delete_pending}
use servidor_drive.Trash.Repository.{is_status, save_trash_item}
use servidor_drive.Trash.Claims.{Attempt, due, claimed_state}
use servidor_drive.Trash.Remote.{
  queue_remote_deletion, complete_remote_deletion, fail_remote_deletion, cancel_remote_deletion,
}
use servidor_drive.Trash.Deletion.{
  remote_state, with_remote, to_settle, completed_state, failed_state, cancelled_state,
  ProviderError, failure_category, is_completed_or_cancelled,
}
use servidor_drive.Trash.Remote.States.{
  IsSoundState, IsSound, queued-IsSoundState, remote_state_sound, to_settle-some, due-some,
  claimed-IsSoundState, completed-IsSoundState, cancelled-IsSoundState, failed-IsSoundState,
  saved-IsSound, deleted-IsSound, ended-IsSound,
}

-- What is done to an item: it is queued, claimed, completed, failed or cancelled.
pub data Step (item : TrashItem) : TrashItem → Type 0 where
  queues :
      (now deleted_at : ℕ) (by operation provider : Text) (max_attempts : Option ℕ)
      → (items : List TrashItem)
      → Step item
          (queue_remote_deletion now deleted_at by operation provider max_attempts item items).0
  claims :
      (a : Attempt) (s : RemoteDeletion)
      → due a.now item ≡ some s
      → (items : List TrashItem)
      → Step item (save_trash_item (with_remote (claimed_state a s) item) items).0
  completes :
      (now : ℕ) (token : Option Text) (items : List TrashItem)
      → Step item (complete_remote_deletion now token item items).0
  fails :
      (failed_at now : ℕ) (error : ProviderError) (token : Option Text) (items : List TrashItem)
      → Step item (fail_remote_deletion failed_at now error token item items).0
  cancels :
      (now : ℕ) (reason : Text) (items : List TrashItem)
      → Step item (cancel_remote_deletion now reason item items).0

pub data Reaches (start : TrashItem) : TrashItem → Type 0 where
  begins : Reaches start start
  and_then : {x y : TrashItem} → Reaches start x → Step x y → Reaches start y

-- The sound item of an answer, where an equation gives the answer.
IsSound-answer : (x y : TrashItem × List TrashItem) → x ≡ y → IsSound y.0 → IsSound x.0
IsSound-answer x y e h = subst (λ (p : TrashItem × List TrashItem). IsSound p.0) (sym e) h

settled-IsSoundState :
    (token : Option Text) (item : TrashItem) (s : RemoteDeletion)
    → IsSound item
    → to_settle token item ≡ some s
    → IsSoundState remote_delete_pending s × IsSoundState item.status s
settled-IsSoundState token item s sound e =
    let (seen, status) = to_settle-some token item s e in
    let h = sound s (remote_state_sound item s sound seen) in
    (subst (λ k. IsSoundState k s) status h, h)

pub Step-IsSound : {x y : TrashItem} → Step x y → IsSound x → IsSound y
Step-IsSound {x} (queues now deleted_at by operation provider max_attempts items) sound =
    elim (Bool-cases (is_status x.status trashed)) [
      | inr f ↦
          IsSound-answer _ _
            (queue_other now deleted_at by operation provider max_attempts x items f) sound
      | inl t ↦ elim (Option-cases (remote_state x)) [
        | inr (s, e) ↦
            IsSound-answer _ _
              (queue_again now deleted_at by operation provider max_attempts x items s e) sound
        | inl e ↦
            IsSound-answer _ _
              (queue_new now deleted_at by operation provider max_attempts x items t e)
              (deleted-IsSound deleted_at by _ x items
                (queued-IsSoundState now operation provider max_attempts x))
      ]
    ]
Step-IsSound {x} (claims a s e items) sound = saved-IsSound (claimed_state a s) x items (
    claimed-IsSoundState x.status a s
      (sound s (remote_state_sound x s sound (due-some a.now x s e))))
Step-IsSound {x} (completes now token items) sound = elim (Option-cases (to_settle token x)) [
  | inl e ↦ IsSound-answer _ _ (complete_not now token x items e) sound
  | inr (s, e) ↦ IsSound-answer _ _ (complete_some now token x items s e) (
      ended-IsSound (completed_state now s) x items
        (completed-IsSoundState x.status now s (settled-IsSoundState token x s sound e).1))
]
Step-IsSound {x} (fails failed_at now error token items) sound =
    elim (Option-cases (to_settle token x)) [
      | inl e ↦ IsSound-answer _ _ (fail_not failed_at now error token x items e) sound
      | inr (s, e) ↦
          let settled = failed_state failed_at now (failure_category error) s in
          IsSound-answer _ _ (fail_some failed_at now error token x items s e) (
            saved-IsSound settled x items (
              subst (λ k. IsSoundState k settled) (sym (to_settle-some token x s e).1)
                (failed-IsSoundState failed_at now error s
                  (settled-IsSoundState token x s sound e).0)))
    ]
Step-IsSound {x} (cancels now reason items) sound = elim (Option-cases (remote_state x)) [
  | inl e ↦ IsSound-answer _ _ (cancel_not now reason x items e) sound
  | inr (s, e) ↦ elim (Bool-cases (is_completed_or_cancelled s.state)) [
    | inl t ↦ IsSound-answer _ _ (cancel_over now reason x items s e t) sound
    | inr f ↦ IsSound-answer _ _ (cancel_some now reason x items s e f) (
        saved-IsSound (cancelled_state now reason s) x items
          (cancelled-IsSoundState x.status now reason s (sound s (remote_state_sound x s sound e))))
  ]
]

-- However an item that has no remote deletion yet is queued, claimed, completed, failed and cancelled, in
-- any order: the attempts stay within the limit, which is from 1 to 100; a deletion that waits has
-- attempts left, a time for the next one, and its item is pending; a completed one has its item
-- permanently deleted; a terminal failure has used every attempt; no deletion that ended has a next
-- attempt; and the last transition that is noted is the state.
pub Reaches-IsSound :
    {start item : TrashItem}
    → start.metadata.remote_deletion ≡ none
    → Reaches start item
    → IsSound item
Reaches-IsSound fresh begins = λ s e. absurd (cc)
Reaches-IsSound fresh (and_then r s) = Step-IsSound s (Reaches-IsSound fresh r)
