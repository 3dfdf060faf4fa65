-- ===== src/Sync/Tests.antt =====
-- Runs of the sync store and the journal, and the theorems at concrete inputs.
use servidor_drive.Prelude.{
  ◌≡◌, ◌≢◌, refl, true, false, ◌||◌, none, some, [], ◌∷◌, arith, ok, any, err,
}
use servidor_drive.Prelude.Objects.{own, get, set, read, inherited, array_index}
use servidor_drive.Sync.Revision.{compare_revisions}
use servidor_drive.Sync.Collations.{code_point_order}
use servidor_drive.Sync.Operation.{Operation, create, update, text}
use servidor_drive.Sync.Store.{
  UserState, empty_user, stored, replay, conflict, stale, outcome, put_user, store, put, failed,
  forget_oldest,
}
use servidor_drive.Sync.Store.Opening.{
  open_store, version_one, missing, invalid, StoredUser, invalid_store,
}
use servidor_drive.Sync.Store.Records.{IsWell, put_user-IsWell}
use servidor_drive.Sync.Store.Replay.{put_user_again}
use servidor_drive.Sync.Store.Growth.{puts, Grown, puts-Grown}
use servidor_drive.Sync.Store.Transact.{put_after_failure, run}
use servidor_drive.Sync.Journal
use servidor_drive.Sync.Journal.{Item, SyncJournal, enqueue, mark_seen, has_seen, has_id, pending}
use servidor_drive.Sync.Journal.Invariant
use servidor_drive.Sync.Journal.Invariant.{calls, calls-IsWell, enqueue_call, mark_seen_call}
use servidor_drive.Sync.Journal.Delivery.{enqueue_known}

abbrev first : Operation
first = record {
  protocol_version = 2;
  operation_id = "op-1";
  object_id = "doc";
  file_id = "doc";
  version_id = "v1";
  operation = create;
  revision = record { counter = 1; device_id = "laptop" };
  base_revision = none;
  key_epoch = "e1";
  compartment_id = "private";
  device_id = "laptop";
  metadata = ("path", text "notes.txt") ∷ [];
  tombstone = false;
  ciphertext = some "AAAA";
  nonce = some "AAAAAAAAAAAAAAAA";
  tag = some "AAAAAAAAAAAAAAAAAAAAAA";
  aad = some "e30";
  authorization = none;
}

abbrev second : Operation
second = record first {
  operation_id = "op-2";
  version_id = "v2";
  operation = update;
  revision = record { counter = 2; device_id = "phone" };
  base_revision = some (record { counter = 1; device_id = "laptop" });
}

one_object : UserState
unfolding put_user
one_object = (put_user code_point_order first empty_user).1

store_tests :
    (outcome code_point_order first empty_user ≡ stored first)
    × (outcome code_point_order second one_object ≡ stored second)
    × (outcome code_point_order first one_object ≡ replay)
    × (outcome code_point_order (record second { base_revision = none }) one_object
        ≡ conflict (own first))
    × (outcome code_point_order (record second { revision = first.revision }) one_object
        ≡ stale first)
unfolding outcome one_object store get set read inherited code_point_order array_index forget_oldest
    compare_revisions
store_tests = (refl, refl, refl, refl, refl)

-- An operation named like a member of every object is taken for one that was seen.
constructor_is_replay :
    outcome code_point_order (record first { operation_id = "constructor" }) empty_user ≡ replay
unfolding outcome get read inherited
constructor_is_replay = refl

empty_user-IsWell : IsWell empty_user
unfolding get
empty_user-IsWell = record {
  revision_kept = λ k r h. cc;
  newest_last = λ k r h. cc;
  history_bounded = λ k. omega arith;
  seen_bounded = omega arith;
}

put_user-IsWell_example : IsWell (put_user code_point_order first empty_user).1
put_user-IsWell_example = put_user-IsWell code_point_order first empty_user empty_user-IsWell

put_user_again_example :
    (put_user code_point_order first (put_user code_point_order first empty_user).1).1
    ≡ (put_user code_point_order first empty_user).1
put_user_again_example = put_user_again code_point_order first empty_user first store_tests.0

first_is_there : get "doc" one_object.objects ≡ some first
unfolding one_object store outcome get set read inherited code_point_order array_index
first_is_there = refl

puts-Grown_example :
    Grown code_point_order "doc" first (puts code_point_order (second ∷ first ∷ []) one_object)
puts-Grown_example =
    puts-Grown code_point_order (second ∷ first ∷ []) "doc" first one_object first_is_there

put_after_failure_example :
    ((run code_point_order []
        (put code_point_order false "ana" first (record { state = []; rejected = false })).1).state
      ≡ [])
    × ((put code_point_order true "ana" second (
          run code_point_order []
            (put code_point_order false "ana" first (record { state = []; rejected = false })).1)).0
        ≡ failed)
put_after_failure_example =
    put_after_failure code_point_order "ana" first (record { state = []; rejected = false }) []
      (record { name = "ana"; input = second; written = true })

abbrev item : Item
item = record { operation_id = "op-1"; properties = [] }

init-IsWell : Invariant.IsWell Journal.init.state
init-IsWell = record {
  distinct = tt;
  apart = tt;
  pending_bounded = omega arith;
  seen_bounded = omega arith;
}

calls-IsWell_example :
    Invariant.IsWell
      (calls
        (enqueue_call true item ∷ enqueue_call true item ∷ mark_seen_call false "op-1" ∷ [])
        Journal.init).state
calls-IsWell_example =
    calls-IsWell
      (enqueue_call true item ∷ enqueue_call true item ∷ mark_seen_call false "op-1" ∷ [])
      Journal.init init-IsWell

item_named : item.operation_id ≢ ""
item_named p = cc

enqueue_known_example :
    (any (has_id "op-1") (pending (enqueue true item Journal.init).1)
      || has_seen "op-1" (enqueue true item Journal.init).1)
    ≡ true
enqueue_known_example = enqueue_known item Journal.init item_named refl init-IsWell

abbrev old_user : StoredUser
old_user = record { objects = ("doc", first) ∷ []; versions = none; revisions = none; seen = none }

opening_tests :
    (open_store true (λ s. true) (version_one (("ana", old_user) ∷ []))
      ≡ ok (record {
        state =
            (
              "ana",
              record {
                objects = ("doc", first) ∷ [];
                versions = ("doc", first ∷ []) ∷ [];
                revisions = ("doc", first.revision) ∷ [];
                seen = [];
              },
            )
            ∷ [];
        rejected = false;
      }))
    × (open_store true (λ s. true) invalid ≡ err invalid_store)
    × (open_store true (λ s. true) missing ≡ ok (record { state = []; rejected = false }))
unfolding open_store set get read inherited array_index
opening_tests = (refl, refl, refl)

plain_names : inherited "doc" ≡ false
unfolding inherited
plain_names = refl
