-- ===== src/Trash/Claims/Fenced.antt =====
-- Two workers at one item: the lock keeps the second out, a failure of a worker that lost its claim is
-- dropped, and a success of such a worker is not.
use mathlib.Core.Path.{subst, sym}
use servidor_drive.Prelude.{
  ℕ, ◌+◌, ◌≡◌, ◌<◌, refl, ap, ◌∙◌, true, false, Option, none, some, Text, text_eq, text_eq_refl,
  is_nonempty, arith, Bool-cases, Option-cases, inl, inr,
}
use servidor_drive.Prelude.TextMaps.{TextMap, lookup, lookup-insert}
use servidor_drive.Trash.Names.{safe_name}
use servidor_drive.Trash.Item.{
  TrashItem, RemoteDeletion, completed, permanently_deleted, normalize_trash_item,
}
use servidor_drive.Trash.Repository.{get_trash_item, save_trash_item}
use servidor_drive.Trash.Deletion.{
  ProviderError, failure_category, with_remote, remote_state, to_settle, holds_claim,
  completed_state, transition,
}
use servidor_drive.Trash.Remote.Branches.{fail_not, complete_not, complete_some}
use servidor_drive.Trash.Claims.{
  Attempt, Disk, Lock, Job, refused, removed, thrown, is_missing, claimed_state, token_of,
  operation_of, due, take_lock, claim_with_lock, claim_current, claim_remote_deletion,
  release_remote_claim, settle, finish_remote_deletion, with_items, release,
}
use servidor_drive.Trash.Claims.Begin.{
  IsReady, claimed_item, claim_of, path_of, with_claim, get_claimed, to_settle-claimed, found-id,
  due-waits, stored_or-some, get_own, get_nonempty, claimed_item-id, remote_state-claimed,
}
use servidor_drive.Trash.Claims.Outcomes.{job_of}

claim_not_due :
    (b : Attempt) (item found : TrashItem) (disk : Disk)
    → get_trash_item item.id disk.items ≡ some found
    → due b.now found ≡ none
    → claim_remote_deletion b item disk ≡ (disk, refused)
unfolding claim_remote_deletion claim_current
claim_not_due b item found disk got e = rw (stored_or-some item.id item found disk.items got) (rw e)

take_lock_held :
    (b : Attempt) (path token : Text) (held : Lock) (locks : TextMap Lock)
    → lookup path locks ≡ some held
    → b.now < held.mtime_ms + b.lease_ms
    → take_lock b path token locks ≡ none
unfolding take_lock
take_lock_held b path token held locks there early = rw (there, take_lock) (ground arith)

claim_held :
    (b : Attempt) (item found : TrashItem) (s : RemoteDeletion) (held : Lock) (disk : Disk)
    → get_trash_item item.id disk.items ≡ some found
    → due b.now found ≡ some s
    → lookup (path_of b s) disk.locks ≡ some held
    → b.now < held.mtime_ms + b.lease_ms
    → claim_remote_deletion b item disk ≡ (disk, refused)
unfolding claim_remote_deletion claim_current claim_with_lock
claim_held b item found s held disk got ready there early =
    rw (stored_or-some item.id item found disk.items got)
      (rw ready (rw (take_lock_held b (path_of b s) (token_of b) held disk.locks there early)))

claimed_state-operation :
    (a b : Attempt) (s : RemoteDeletion)
    → is_nonempty (operation_of a s) ≡ true
    → operation_of b (claimed_state a s) ≡ operation_of a s
unfolding claimed_state transition
claimed_state-operation a b s e = rw e

some_injective : {s t : RemoteDeletion} → Path (Option RemoteDeletion) (some s) (some t) → s ≡ t
some_injective h = cc

abbrev completed_over : ℕ → RemoteDeletion → TrashItem → TrashItem
completed_over now s item = record (with_remote (completed_state now s) item) {
  status = permanently_deleted;
}

settle_removed_over :
    (failed_at now : ℕ) (job : Job) (s : RemoteDeletion) (d : Disk)
    → to_settle (some job.claim.token) job.current ≡ some s
    → settle failed_at now removed job d
      ≡ with_items d (save_trash_item (completed_over now s job.current) d.items)
unfolding settle
settle_removed_over failed_at now job s d e =
    ap (with_items d) (complete_some now (some job.claim.token) job.current d.items s e)

to_settle-lost :
    (token : Option Text) (item : TrashItem) (t : RemoteDeletion)
    → remote_state item ≡ some t
    → holds_claim token t ≡ false
    → to_settle token item ≡ none
unfolding to_settle
to_settle-lost token item t e lost = rw (e, to_settle) (rw lost (ground arith))

settle_thrown_over :
    (failed_at now : ℕ) (error : ProviderError) (job : Job) (stored : TrashItem) (d : Disk)
    → get_trash_item job.claim.item.id d.items ≡ some stored
    → to_settle (some job.claim.token) stored ≡ none
    → settle failed_at now (thrown error) job d ≡ (d, stored)
unfolding settle
settle_thrown_over failed_at now error job stored d got e =
    rw (stored_or-some job.claim.item.id job.claim.item stored d.items got)
      (elim (Bool-cases (is_missing (failure_category error))) [
        | inl y ↦
            rw y (ap (with_items d) (complete_not now (some job.claim.token) stored d.items e))
        | inr n ↦ rw n (
            ap (with_items d)
              (fail_not failed_at now error (some job.claim.token) stored d.items e))
      ])

module _ {a : Attempt} {item found : TrashItem} {s : RemoteDeletion} {disk : Disk}
    (r : IsReady a item found s disk) where
  -- While a claim's lock is younger than the lease of a second worker, that worker's claim of the item is
  -- refused and changes nothing.
  pub claim_remote_deletion_excluded :
      (b : Attempt)
      → is_nonempty (operation_of a s) ≡ true
      → b.now < a.written_at + b.lease_ms
      → claim_remote_deletion b item (with_claim a s found disk)
        ≡ (with_claim a s found disk, refused)
  claim_remote_deletion_excluded b named early =
      let after = with_claim a s found disk in
      elim (Option-cases (due b.now (claimed_item a s found))) [
        | inl e ↦ claim_not_due b item (claimed_item a s found) after (get_claimed r) e
        | inr (t, e) ↦
            let same : t ≡ claimed_state a s = some_injective (
              sym (due-waits b.now (claimed_item a s found) t e).0
              ∙ remote_state-claimed a s found (due-waits a.now found s r.ready).1) in
            let path : path_of b t ≡ path_of a s =
              ap (path_of b) same ∙ ap safe_name (claimed_state-operation a b s named) in
            let lock : Lock = record { token = token_of a; mtime_ms = a.written_at } in
            let there : lookup (path_of b t) after.locks ≡ some lock = rw path (
              lookup-insert (path_of a s) (path_of a s) lock disk.locks
              ∙ rw (text_eq_refl (path_of a s))) in
            claim_held b item (claimed_item a s found) t lock after (get_claimed r) e there early
      ]

  -- A worker that waited while anything else was done, and whose provider then reports success, writes the
  -- item as it was before the wait: it is permanently deleted and its deletion completed, also where the
  -- deletion was cancelled or claimed by another worker in the meantime.
  pub finish_removed_unfenced :
      (failed_at now : ℕ) (meanwhile : Disk)
      → (kept : TrashItem) × (t : RemoteDeletion) × (get_trash_item item.id
            (finish_remote_deletion failed_at now removed (job_of a s found) meanwhile).0.items
          ≡ some kept)
        × (kept.status ≡ permanently_deleted)
        × (kept.metadata.remote_deletion ≡ some t)
        × (t.state ≡ completed)
  unfolding finish_remote_deletion normalize_trash_item with_remote completed_state transition
  finish_removed_unfenced failed_at now meanwhile =
      let x = completed_over now (claimed_state a s) (claimed_item a s found) in
      let over =
        settle_removed_over failed_at now (job_of a s found) (claimed_state a s) meanwhile
          (to_settle-claimed r) in
      let same : x.id ≡ item.id = claimed_item-id a s found ∙ found-id r in
      let got =
        get_own x item.id meanwhile.items (get_nonempty item.id disk.items found r.stored) same in
      (
        normalize_trash_item x,
        completed_state now (claimed_state a s),
        subst
            (λ (d : Disk × TrashItem).
              get_trash_item item.id (release (claim_of a s found) d.0).items
              ≡ some (normalize_trash_item x))
            (sym over) got,
        refl,
        refl,
        refl,
      )

module _ (failed_at now : ℕ) (error : ProviderError) (job : Job) (meanwhile : Disk)
    (stored : TrashItem) (t : RemoteDeletion) (held : Lock) where
  -- A worker whose provider throws, when the stored deletion holds the claim of another one and so does the
  -- lock, changes nothing at all.
  pub finish_thrown_stale :
      get_trash_item job.claim.item.id meanwhile.items ≡ some stored
      → remote_state stored ≡ some t
      → holds_claim (some job.claim.token) t ≡ false
      → lookup job.claim.path meanwhile.locks ≡ some held
      → text_eq held.token job.claim.token ≡ false
      → finish_remote_deletion failed_at now (thrown error) job meanwhile ≡ (meanwhile, stored)
  unfolding finish_remote_deletion release_remote_claim
  finish_thrown_stale got state lost lock other =
      let none_left = to_settle-lost (some job.claim.token) stored t state lost in
      let kept : settle failed_at now (thrown error) job meanwhile ≡ (meanwhile, stored) =
        settle_thrown_over failed_at now error job stored meanwhile got none_left in
      rw (kept, finish_remote_deletion) (rw (lock, release_remote_claim) (rw other))
