-- ===== src/Trash/Claims/Begin.antt =====
-- A claim that is taken, up to the call of the provider.
use mathlib.Core.Path.{subst, sym}
use servidor_drive.Prelude.{
  ℕ, ◌≡◌, refl, ◌∙◌, true, none, some, List, [], ◌∷◌, Text, text_eq_refl, eq_of_text_eq,
  is_nonempty, arith,
}
use servidor_drive.Prelude.TextMaps.{lookup, insert}
use servidor_drive.Trash.Names.{safe_name}
use servidor_drive.Trash.Item.{
  TrashItem, RemoteDeletion, remote_delete_pending, normalize_trash_item,
}
use servidor_drive.Trash.Repository.{
  find, get_trash_item, save_trash_item, get_trash_item-save_trash_item,
}
use servidor_drive.Trash.Deletion.{remote_state, with_remote, transition, holds_claim, to_settle}
use servidor_drive.Trash.Claims.{
  Attempt, Disk, Claim, waiting, begin_claimed, claimed, due, take_lock, claimed_state, token_of,
  operation_of, write_claim, claim_remote_deletion, begin_remote_deletion, waits, still_waits,
  may_remove, stored_or, claim_current, claim_with_lock,
}

-- The item with the claim, as it is stored.
abbrev pub claimed_item : Attempt → RemoteDeletion → TrashItem → TrashItem
claimed_item a s item = normalize_trash_item (with_remote (claimed_state a s) item)

abbrev pub path_of : Attempt → RemoteDeletion → Text
path_of a s = safe_name (operation_of a s)

abbrev pub claim_of : Attempt → RemoteDeletion → TrashItem → Claim
claim_of a s item = record { item = claimed_item a s item; token = token_of a; path = path_of a s }

abbrev pub with_claim : Attempt → RemoteDeletion → TrashItem → Disk → Disk
with_claim a s item disk = record {
  items = (save_trash_item (with_remote (claimed_state a s) item) disk.items).1;
  locks = insert (path_of a s) (record { token = token_of a; mtime_ms = a.written_at }) disk.locks;
}

pub due-waits :
    (now : ℕ) (item : TrashItem) (s : RemoteDeletion)
    → due now item ≡ some s
    → (remote_state item ≡ some s) × (waits s.state ≡ true)
unfolding due
due-waits now item s h = (ground arith, ground arith)

pub remote_state-claimed :
    (a : Attempt) (s : RemoteDeletion) (item : TrashItem)
    → waits s.state ≡ true
    → remote_state (claimed_item a s item) ≡ some (claimed_state a s)
unfolding remote_state normalize_trash_item with_remote claimed_state transition
remote_state-claimed a s item h = ground arith

pub get_nonempty :
    (id : Text) (items : List TrashItem) (item : TrashItem)
    → get_trash_item id items ≡ some item
    → is_nonempty id ≡ true
unfolding get_trash_item
get_nonempty [] items item h = absurd (cc)
get_nonempty (c ∷ cs) items item h = refl

pub get_own :
    (item : TrashItem) (id : Text) (items : List TrashItem)
    → is_nonempty id ≡ true
    → item.id ≡ id
    → get_trash_item id (save_trash_item item items).1 ≡ some (normalize_trash_item item)
get_own item id items e same =
    get_trash_item-save_trash_item item id items ∙ rw (e, same, text_eq_refl id)

pub stored_or-some :
    (id : Text) (item found : TrashItem) (items : List TrashItem)
    → get_trash_item id items ≡ some found
    → stored_or id item items ≡ found
unfolding stored_or
stored_or-some id item found items e = rw (e, stored_or)

pub still_waits-some :
    (item : TrashItem) (s : RemoteDeletion)
    → remote_state item ≡ some s
    → waits s.state ≡ true
    → still_waits item ≡ true
unfolding still_waits
still_waits-some item s e w = rw (e, still_waits) w

pub write_claim_saved :
    (a : Attempt) (s : RemoteDeletion) (found : TrashItem) (disk : Disk)
    → still_waits found ≡ true
    → a.is_saved ≡ true
    → write_claim a found s (path_of a s) disk ≡ (
      record disk {
        items = (save_trash_item (with_remote (claimed_state a s) found) disk.items).1;
      },
      claimed (claim_of a s found),
    )
unfolding write_claim save_trash_item
write_claim_saved a s found disk w saved = rw w (rw saved)

module _ (a : Attempt) (s : RemoteDeletion) (found : TrashItem) (disk : Disk) where
  take_lock_free :
      lookup (path_of a s) disk.locks ≡ none
      → take_lock a (path_of a s) (token_of a) disk.locks ≡ some (with_claim a s found disk).locks
  unfolding take_lock
  take_lock_free free = rw (free, take_lock)

  pub claim_remote_deletion_free :
      (item : TrashItem)
      → get_trash_item item.id disk.items ≡ some found
      → get_trash_item found.id disk.items ≡ some found
      → due a.now found ≡ some s
      → lookup (path_of a s) disk.locks ≡ none
      → a.is_saved ≡ true
      → claim_remote_deletion a item disk
        ≡ (with_claim a s found disk, claimed (claim_of a s found))
  unfolding claim_remote_deletion claim_current claim_with_lock
  claim_remote_deletion_free item got own ready free saved =
      let (state, w) = due-waits a.now found s ready in
      rw (stored_or-some item.id item found disk.items got) (
        rw ready (
          rw (take_lock_free free) (
            rw (stored_or-some found.id found found disk.items own) (
              write_claim_saved a s found
                (record disk { locks = (with_claim a s found disk).locks })
                (still_waits-some found s state w) saved))))

find-id :
    (id : Text) (items : List TrashItem) (item : TrashItem)
    → find id items ≡ some item
    → item.id ≡ id
find-id id [] item h = absurd (cc)
find-id id (x ∷ xs) item h = ground (arith, eq_of_text_eq x.id id, find-id id xs item)

pub get_trash_item-id :
    (id : Text) (items : List TrashItem) (item : TrashItem)
    → get_trash_item id items ≡ some item
    → item.id ≡ id
unfolding get_trash_item
get_trash_item-id [] items item h = absurd (cc)
get_trash_item-id (c ∷ cs) items item h = find-id (c ∷ cs) _ item h

pub may_remove-some :
    (item : TrashItem) (s : RemoteDeletion)
    → remote_state item ≡ some s
    → item.status ≡ remote_delete_pending
    → waits s.state ≡ true
    → may_remove item ≡ true
unfolding may_remove
may_remove-some item s e pending w = rw (e, may_remove) (ground arith)

holds_claim-own :
    (t : Text) (s : RemoteDeletion) → s.lease_token ≡ some t → holds_claim (some t) s ≡ true
unfolding holds_claim
holds_claim-own [] s e = refl
holds_claim-own (c ∷ cs) s e = rw (e, holds_claim) (text_eq_refl (c ∷ cs))

claimed_state-token :
    (a : Attempt) (s : RemoteDeletion) → (claimed_state a s).lease_token ≡ some (token_of a)
unfolding claimed_state transition
claimed_state-token a s = refl

claimed_state-state : (a : Attempt) (s : RemoteDeletion) → (claimed_state a s).state ≡ s.state
unfolding claimed_state transition
claimed_state-state a s = refl

pub claimed_item-status :
    (a : Attempt) (s : RemoteDeletion) (item : TrashItem)
    → (claimed_item a s item).status ≡ item.status
unfolding normalize_trash_item with_remote
claimed_item-status a s item = refl

pub claimed_item-id :
    (a : Attempt) (s : RemoteDeletion) (item : TrashItem) → (claimed_item a s item).id ≡ item.id
unfolding normalize_trash_item with_remote
claimed_item-id a s item = refl

pub with_remote-id : (s : RemoteDeletion) (item : TrashItem) → (with_remote s item).id ≡ item.id
unfolding with_remote
with_remote-id s item = refl

-- An item that is due, whose lock is free and that can be written.
pub record IsReady (a : Attempt) (item found : TrashItem) (s : RemoteDeletion) (disk : Disk)
    : Type 0 where
  pub stored : get_trash_item item.id disk.items ≡ some found
  pub ready : due a.now found ≡ some s
  pub pending : found.status ≡ remote_delete_pending
  pub free : lookup (path_of a s) disk.locks ≡ none
  pub saved : a.is_saved ≡ true

module _ {a : Attempt} {item found : TrashItem} {s : RemoteDeletion} {disk : Disk}
    (r : IsReady a item found s disk) where
  claimed_waits : waits (claimed_state a s).state ≡ true
  claimed_waits = rw (claimed_state-state a s) (due-waits a.now found s r.ready).1

  claimed_read : remote_state (claimed_item a s found) ≡ some (claimed_state a s)
  claimed_read = remote_state-claimed a s found (due-waits a.now found s r.ready).1

  pub claimed_pending : (claimed_item a s found).status ≡ remote_delete_pending
  claimed_pending = claimed_item-status a s found ∙ r.pending

  pub found-id : found.id ≡ item.id
  found-id = get_trash_item-id item.id disk.items found r.stored

  pub to_settle-claimed :
      to_settle (some (token_of a)) (claimed_item a s found) ≡ some (claimed_state a s)
  unfolding to_settle
  to_settle-claimed =
      rw (claimed_read, to_settle)
        (rw claimed_pending (
          rw (holds_claim-own (token_of a) (claimed_state a s) (claimed_state-token a s))
            (ground (arith, claimed_waits))))

  pub get_claimed :
      get_trash_item item.id (with_claim a s found disk).items ≡ some (claimed_item a s found)
  get_claimed =
      get_own (with_remote (claimed_state a s) found) item.id disk.items
        (get_nonempty item.id disk.items found r.stored)
        (with_remote-id (claimed_state a s) found ∙ found-id)

  pub begin_remote_deletion_ready : begin_remote_deletion a item disk ≡ (
    with_claim a s found disk,
    waiting (record { current = claimed_item a s found; claim = claim_of a s found }),
  )
  unfolding begin_remote_deletion begin_claimed get_trash_item
  begin_remote_deletion_ready =
      let own : get_trash_item found.id disk.items ≡ some found =
        subst (λ (id : Text). get_trash_item id disk.items ≡ some found) (sym found-id) r.stored in
      rw (claim_remote_deletion_free a s found disk item r.stored own r.ready r.free r.saved) (
        rw (stored_or-some item.id (claimed_item a s found) (claimed_item a s found) _ get_claimed)
          (rw (
            may_remove-some (claimed_item a s found) (claimed_state a s) claimed_read
              claimed_pending claimed_waits)))
