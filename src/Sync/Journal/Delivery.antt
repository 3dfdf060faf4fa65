-- ===== src/Sync/Journal/Delivery.antt =====
-- What becomes of an operation between `enqueue` and `markSeen`.
use servidor_drive.Prelude.{
  ℕ, zero, suc, ◌≤◌, ◌-◌, String, ◌≡◌, ◌≢◌, refl, Bool, true, false, not, ◌||◌, List, [], ◌∷◌, ◌++◌,
  any, keep, includes, length, drop, slice_last, length-append, arith, eq_iff, eq_refl, Bool-cases,
  inl, inr, ◌===◌, ok,
}
use servidor_drive.Sync.Journal.{
  Item, State, SyncJournal, has_id, bounded, enqueued, marked, max_entries, commit, enqueue,
  mark_seen, has_seen, pending,
}
use servidor_drive.Sync.Journal.Invariant.{IsWell, marked-IsWell}

slice_last_id {ℓ} : {A : Type ℓ} (n : ℕ) (xs : List A) → length xs ≤ n → slice_last n xs ≡ xs
slice_last_id n xs h = let e : length xs - n ≡ 0 = omega arith in rw e

any-drop_last {ℓ} :
    {A : Type ℓ} (p : A → Bool) (n : ℕ) (xs : List A) (x : A)
    → n ≤ length xs
    → p x ≡ true
    → any p (drop n (xs ++ x ∷ [])) ≡ true
any-drop_last p zero [] x h e = ground arith
any-drop_last p zero (y ∷ xs) x h e = ground (arith, any-drop_last p zero xs x)
any-drop_last p (suc n) [] x h e = absurd (omega arith)
any-drop_last p (suc n) (y ∷ xs) x h e = any-drop_last p n xs x (omega arith) e

-- The last entry is among the last n.
any-slice_last {ℓ} :
    {A : Type ℓ} (p : A → Bool) (n : ℕ) (xs : List A) (x : A)
    → p x ≡ true
    → any p (slice_last (suc n) (xs ++ x ∷ [])) ≡ true
any-slice_last p n xs x e =
    any-drop_last p (length (xs ++ x ∷ []) - suc n) xs x (omega (arith, length-append xs (x ∷ [])))
      e

bounded_id : (s : State) → IsWell s → bounded s ≡ s
unfolding bounded
bounded_id s w =
    let p : slice_last max_entries s.pending ≡ s.pending =
      slice_last_id max_entries s.pending w.pending_bounded in
    let q : slice_last max_entries s.seen ≡ s.seen =
      slice_last_id max_entries s.seen w.seen_bounded in
    λ i. record { pending = p i; seen = q i }

commit_written :
    (next left : State) (j : SyncJournal)
    → j.rejected ≡ false
    → commit true next left j ≡ (ok tt, record { state = bounded next; rejected = false })
unfolding commit
commit_written next left j h = rw h

known : Item → State → Bool
known operation s =
    any (has_id operation.operation_id) s.pending || includes operation.operation_id s.seen

known-pushed :
    (operation : Item) (s : State)
    → known operation (bounded (record s { pending = s.pending ++ operation ∷ [] })) ≡ true
unfolding known bounded
known-pushed operation s =
    let last : any (has_id operation.operation_id)
          (slice_last max_entries (s.pending ++ operation ∷ []))
        ≡ true =
      any-slice_last (has_id operation.operation_id) 9999 s.pending operation
        (eq_refl operation.operation_id) in
    rw last

known-enqueued :
    (operation : Item) (s : State)
    → IsWell s
    → known operation (bounded (enqueued operation s)) ≡ true
unfolding known enqueued
known-enqueued operation s w =
    elim (Bool-cases
      (includes operation.operation_id s.seen || any (has_id operation.operation_id) s.pending)) [
        | inl old ↦ rw old (rw (bounded_id s w) (ground arith))
        | inr new ↦ rw new (known-pushed operation s)
      ]

any-drop {ℓ} :
    {A : Type ℓ} (p : A → Bool) (n : ℕ) (xs : List A) → any p xs ≡ false → any p (drop n xs) ≡ false
any-drop p zero xs h = h
any-drop p (suc n) [] h = h
any-drop p (suc n) (x ∷ xs) h = any-drop p n xs (ground arith)

any-keep-not {ℓ} :
    {A : Type ℓ} (p : A → Bool) (xs : List A) → any p (keep (λ x. not (p x)) xs) ≡ false
any-keep-not p [] = refl
any-keep-not p (x ∷ xs) = ground (arith, any-keep-not p xs)

module _ (k : String) (s : State) where
  includes-marked : length s.seen ≤ max_entries → includes k (bounded (marked k s)).seen ≡ true
  unfolding bounded marked
  includes-marked h = elim (Bool-cases (includes k s.seen)) [
    | inl old ↦ rw old (rw (slice_last_id max_entries s.seen h) old)
    | inr new ↦ rw new (any-slice_last (λ x. x === k) 9999 s.seen k (eq_refl k))
  ]

  any-marked : any (has_id k) (bounded (marked k s)).pending ≡ false
  unfolding bounded marked
  any-marked = any-drop (has_id k) _ _ (any-keep-not (has_id k) s.pending)

enqueued_seen :
    (operation : Item) (s : State)
    → includes operation.operation_id s.seen ≡ true
    → enqueued operation s ≡ s
unfolding enqueued
enqueued_seen operation s h = rw h

module _ (operation : Item) (j : SyncJournal) (named : operation.operation_id ≢ "")
    (idle : j.rejected ≡ false) (w : IsWell j.state) where
  enqueue_written :
      (i : SyncJournal)
      → i.rejected ≡ false
      → enqueue true operation i
        ≡ (ok tt, record { state = bounded (enqueued operation i.state); rejected = false })
  unfolding enqueue
  enqueue_written i h = ground (arith, eq_iff operation.operation_id "")

  -- An operation that is enqueued, with its write done, is pending unless it has been seen: what
  -- makes room for it is never itself.
  pub enqueue_known :
      (any (has_id operation.operation_id) (pending (enqueue true operation j).1)
        || has_seen operation.operation_id (enqueue true operation j).1)
      ≡ true
  unfolding pending has_seen
  enqueue_known = rw (enqueue_written j idle) (unfold known in known-enqueued operation j.state w)

  marked_state : State
  marked_state = bounded (marked operation.operation_id j.state)

  marked_journal : SyncJournal
  unfolding marked_state
  marked_journal = record { state = marked_state; rejected = false }

  mark_written : mark_seen true operation.operation_id j ≡ (ok tt, marked_journal)
  unfolding mark_seen marked_journal
  mark_written = commit_written (marked operation.operation_id j.state) j.state j idle

  seen_marked : includes operation.operation_id marked_state.seen ≡ true
  unfolding marked_state
  seen_marked = includes-marked operation.operation_id j.state w.seen_bounded

  enqueue_marked : enqueue true operation marked_journal ≡ (ok tt, marked_journal)
  unfolding marked_journal
  enqueue_marked = rw (enqueue_written (record { state = marked_state; rejected = false }) refl) (
      rw (enqueued_seen operation marked_state seen_marked)
        (rw (bounded_id marked_state (marked-IsWell operation.operation_id j.state w))))

  -- Marking takes an operation off the pending ones for good: it is seen, it is no longer pending,
  -- and to enqueue it again is answered with success and changes nothing.
  pub mark_seen_final :
      (has_seen operation.operation_id (mark_seen true operation.operation_id j).1 ≡ true)
      × (any (has_id operation.operation_id) (pending (mark_seen true operation.operation_id j).1)
          ≡ false)
      × (enqueue true operation (mark_seen true operation.operation_id j).1
          ≡ (ok tt, (mark_seen true operation.operation_id j).1))
  unfolding pending has_seen marked_journal
  mark_seen_final =
      rw mark_written (seen_marked, any-marked operation.operation_id j.state, enqueue_marked)
