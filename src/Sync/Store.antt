-- ===== src/Sync/Store.antt =====
-- SyncObjectStore of src/routes/sync.js: what the server keeps for each user, and the answers to
-- `put`, `list` and `history`.
pub mod Seen
pub mod Records
pub mod Replay
pub mod Growth
pub mod Transact
pub mod Opening
use servidor_drive.Prelude.{
  ℕ, ◌-◌, String, Bool, true, false, Option, none, some, List, [], ◌∷◌, ◌++◌, map, Ordering, length,
  take, slice_last, if◌then◌else◌,
}
use servidor_drive.Prelude.Objects.{
  Object, Slot, absent, foreign, own, get, read, set, remove, keys,
}
use servidor_drive.Sync.Revision.{Revision, Collation, compare_revisions}
use servidor_drive.Sync.Operation.{Operation, OperationKind, create}

abbrev pub max_history_per_object : ℕ
max_history_per_object = 32

abbrev pub max_seen_operations : ℕ
max_seen_operations = 10000

pub record UserState : Type 0 where
  pub objects : Object Operation
  pub versions : Object (List Operation)
  pub revisions : Object Revision
  pub seen : Object Bool

abbrev pub empty_user : UserState
empty_user = record { objects = []; versions = []; revisions = []; seen = [] }

abbrev pub State : Type 0
State = Object UserState

-- `publicRecord`: the listed fields and nothing else; a record has those alone.
unfoldable pub public_record : Operation → Operation
public_record r = record {
  protocol_version = r.protocol_version;
  operation_id = r.operation_id;
  object_id = r.object_id;
  file_id = r.file_id;
  version_id = r.version_id;
  operation = r.operation;
  revision = r.revision;
  base_revision = r.base_revision;
  key_epoch = r.key_epoch;
  compartment_id = r.compartment_id;
  device_id = r.device_id;
  metadata = r.metadata;
  tombstone = r.tombstone;
  ciphertext = r.ciphertext;
  nonce = r.nonce;
  tag = r.tag;
  aad = r.aad;
  authorization = r.authorization;
}

-- The current record in a refusal: none, a value that every object inherits, or a record.
pub data Outcome : Type 0 where
  replay : Outcome
  conflict : Slot Operation → Outcome
  stale : Operation → Outcome
  stored : Operation → Outcome

abbrev pub or_empty {ℓ} : {A : Type ℓ} → Option (List A) → List A
or_empty none = []
or_empty (some xs) = xs

abbrev pub or_new_user : Option UserState → UserState
or_new_user none = empty_user
or_new_user (some u) = u

-- `user(next, username)`
unfoldable pub user : State → String → UserState
user s name = or_new_user (get name s)

-- The loop that deletes the oldest names.
pub delete_all {ℓ} : {V : Type ℓ} → List String → Object V → Object V
delete_all [] o = o
delete_all (k ∷ ks) o = delete_all ks (remove k o)

unfoldable pub forget_oldest : Object Bool → Object Bool
unfolding delete_all
forget_oldest seen =
    let seen_ids = keys seen in
    delete_all (take (length seen_ids - max_seen_operations) seen_ids) seen

-- The writes of an accepted operation.
unfoldable pub store : Operation → UserState → UserState
unfolding public_record
store input u =
    let rec = public_record input in
    let history = or_empty (get input.object_id u.versions) ++ rec ∷ [] in
    record {
      objects = set input.object_id rec u.objects;
      versions = set input.object_id (slice_last max_history_per_object history) u.versions;
      revisions = set input.object_id input.revision u.revisions;
      seen = forget_oldest (set input.operation_id true u.seen);
    }

abbrev pub is_create : OperationKind → Bool
is_create create = true
is_create _ = false

abbrev pub is_eq : Ordering → Bool
is_eq Ordering.eq = true
is_eq _ = false

abbrev pub is_gt : Ordering → Bool
is_gt Ordering.gt = true
is_gt _ = false

abbrev pub is_seen : Slot Bool → Bool
is_seen absent = false
is_seen foreign = true
is_seen (own b) = b

module _ (c : Collation) where
  -- The checks of `put` on an object that is there, from its base revision on.
  unfoldable pub against : Operation → Operation → Option Revision → Outcome
  against input current none = conflict (own current)
  against input current (some base) =
      if is_eq (compare_revisions c (some base) (some current.revision))
      then if is_gt (compare_revisions c (some input.revision) (some current.revision))
        then stored (public_record input)
        else stale current
      else conflict (own current)

  unfoldable pub decide : Operation → Slot Operation → Outcome
  unfolding against
  decide input absent =
      if is_create input.operation then stored (public_record input) else conflict absent
  decide input foreign = conflict foreign
  decide input (own current) =
      if is_create input.operation
      then conflict (own current)
      else against input current input.base_revision

  abbrev pub apply_outcome : Outcome → Operation → UserState → UserState
  apply_outcome (stored rec) input u = store input u
  apply_outcome _ input u = u

  unfoldable pub outcome : Operation → UserState → Outcome
  unfolding decide
  outcome input u =
      if is_seen (read input.operation_id u.seen)
      then replay
      else decide input (read input.object_id u.objects)

  unfoldable pub put_user : Operation → UserState → Outcome × UserState
  unfolding outcome store
  put_user input u = (outcome input u, apply_outcome (outcome input u) input u)

  -- The mutator that `put` hands to `transact`, on the copy of the state.
  unfoldable pub put_state : String → Operation → State → Outcome × State
  unfolding put_user user
  put_state name input s = let (answer, u) = put_user input (user s name) in (answer, set name u s)

-- A stored object whose queue of transactions may be rejected: `this.queue` keeps the rejection of a
-- write that failed, and each later `then` passes it on without a run of its mutator.
pub record SyncObjectStore : Type 0 where
  pub state : State
  pub rejected : Bool

pub data Settled : Type 0 where
  fulfilled : Outcome → Settled
  failed : Settled

module _ (c : Collation) where
  -- `put` through `transact`; `written` says whether `durableWrite` succeeds.
  unfoldable pub put : Bool → String → Operation → SyncObjectStore → Settled × SyncObjectStore
  put written name input s =
      if s.rejected
      then (failed, s)
      else let (answer, next) = put_state c name input s.state in
        if written
        then (fulfilled answer, record s { state = next })
        else (failed, record s { rejected = true })

abbrev values {ℓ} : {V : Type ℓ} → Object V → List V
values [] = []
values ((k, v) ∷ o) = v ∷ values o

abbrev listed : Option Operation → List Operation
listed none = []
listed (some r) = public_record r ∷ []

-- `list(username, objectId)`
unfoldable pub list : String → Option String → State → List Operation
unfolding public_record user
list name none s = map public_record (values (user s name).objects)
list name (some object_id) s = listed (get object_id (user s name).objects)

unfoldable pub history : String → String → State → List Operation
unfolding public_record user
history name object_id s = map public_record (or_empty (get object_id (user s name).versions))
