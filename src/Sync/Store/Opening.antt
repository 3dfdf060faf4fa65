-- ===== src/Sync/Store/Opening.antt =====
-- `SyncObjectStore.open` of src/routes/sync.js: what is read from the file, and a state of version 1.
use servidor_drive.Prelude.{
  ◌≤◌, String, ◌≡◌, refl, sym, ◌∙◌, Bool, true, false, Option, none, some, List, [], ◌∷◌, length,
  if◌then◌else◌, ◌===◌, arith, eq_iff, Result, ok, err, All,
}
use servidor_drive.Prelude.Objects.{
  Object, absent, foreign, own, get, set, read, inherited, get-set,
}
use servidor_drive.Sync.Revision.{Revision}
use servidor_drive.Sync.Operation.{Operation}
use servidor_drive.Sync.Store.{UserState, State, SyncObjectStore, or_empty}
use servidor_drive.Sync.Store.Records.{IsWell}

-- A user in the file. In version 1 there may be objects alone.
pub record StoredUser : Type 0 where
  pub objects : Object Operation
  pub versions : Option (Object (List Operation))
  pub revisions : Option (Object Revision)
  pub seen : Option (Object Bool)

pub data StoreFile : Type 0 where
  missing invalid : StoreFile
  version_one version_two : Object StoredUser → StoreFile

pub data OpenError : Type 0 where
  invalid_store not_ciphertext write_failed : OpenError

-- `object[key] ||= value`, for values that are all truthy.
unfoldable pub default_to {ℓ} : {V : Type ℓ} → String → V → Object V → Object V
unfolding read
default_to k v o = elim (read k o) [ absent ↦ set k v o | foreign ↦ o | own w ↦ o ]

abbrev or_new {ℓ} : {V : Type ℓ} → Option (Object V) → Object V
or_new none = []
or_new (some o) = o

-- The loop over the objects of a user.
unfoldable pub migrate_objects : Object Operation → UserState → UserState
unfolding default_to
migrate_objects [] u = u
migrate_objects ((k, r) ∷ rest) u = migrate_objects rest (record u {
  versions = default_to k (r ∷ []) u.versions;
  revisions = default_to k r.revision u.revisions;
})

abbrev pub plain_user : StoredUser → UserState
plain_user u = record {
  objects = u.objects;
  versions = or_new u.versions;
  revisions = or_new u.revisions;
  seen = or_new u.seen;
}

unfoldable pub migrate_user : StoredUser → UserState
unfolding migrate_objects
migrate_user u = migrate_objects u.objects (plain_user u)

abbrev pub each_user : (StoredUser → UserState) → Object StoredUser → State
each_user f [] = []
each_user f ((name, u) ∷ users) = (name, f u) ∷ each_user f users

-- `written` says whether a write succeeds, and `attested` is attestCiphertextOnlySyncState, which throws
-- for a state that holds more than ciphertext. A user whose other parts are missing in a state of version
-- 2 gets them when the user is next read.
unfoldable pub open_store : Bool → (State → Bool) → StoreFile → Result OpenError SyncObjectStore
unfolding migrate_user
open_store written attested missing =
    if written then ok (record { state = []; rejected = false }) else err write_failed
open_store written attested invalid = err invalid_store
open_store written attested (version_one users) =
    let state = each_user migrate_user users in
    if written
    then (if attested state
        then ok (record { state = state; rejected = false })
        else err not_ciphertext)
    else err write_failed
open_store written attested (version_two users) =
    let state = each_user plain_user users in
    if attested state then ok (record { state = state; rejected = false }) else err not_ciphertext

abbrev first {ℓ} : {V : Type ℓ} → Option V → Option V → Option V
first none y = y
first (some x) y = some x

same_get {ℓ} : {V : Type ℓ} (j k : String) (o : Object V) → (j === k) ≡ true → get j o ≡ get k o
same_get j k o t = rw ((eq_iff j k).0 t) refl

get-default_to {ℓ} :
    {V : Type ℓ} (j k : String) (v : V) (o : Object V)
    → inherited j ≡ false
    → get k (default_to j v o) ≡ first (get k o) (if j === k then some v else none)
unfolding default_to read
get-default_to j k v o plain = ground (arith, get-set j k v o, same_get j k o)

-- No object is named like what every object inherits.
abbrev pub ArePlain : Object Operation → Type 0
ArePlain objects = All (λ (entry : String × Operation). inherited entry.0 ≡ false) objects

abbrev its_revision : Option Operation → Option Revision
its_revision none = none
its_revision (some r) = some r.revision

abbrev its_versions : Option Operation → Option (List Operation)
its_versions none = none
its_versions (some r) = some (r ∷ [])

first_nothing {ℓ} : {V : Type ℓ} (x : Option V) → first x none ≡ x
first_nothing none = refl
first_nothing (some x) = refl

-- One round: what is there stays, and otherwise the first object of that name decides.
round_revision :
    (x : Option Revision) (b : Bool) (r : Operation) (y : Option Operation)
    → first (first x (if b then some r.revision else none)) (its_revision y)
      ≡ first x (its_revision (if b then some r else y))
round_revision none true r y = refl
round_revision none false r y = refl
round_revision (some x) b r y = refl

round_versions :
    (x : Option (List Operation)) (b : Bool) (r : Operation) (y : Option Operation)
    → first (first x (if b then some (r ∷ []) else none)) (its_versions y)
      ≡ first x (its_versions (if b then some r else y))
round_versions none true r y = refl
round_versions none false r y = refl
round_versions (some x) b r y = refl

abbrev next : String → Operation → UserState → UserState
next k r u = record u {
  versions = default_to k (r ∷ []) u.versions;
  revisions = default_to k r.revision u.revisions;
}

revisions-migrate_objects :
    (k : String) (es : Object Operation) (u : UserState)
    → ArePlain es
    → get k (migrate_objects es u).revisions ≡ first (get k u.revisions) (its_revision (get k es))
unfolding migrate_objects
revisions-migrate_objects k [] u h = unfold get in sym (first_nothing (get k u.revisions))
revisions-migrate_objects k ((j, r) ∷ es) u (plain, h) =
    revisions-migrate_objects k es (next j r u) h
    ∙ rw (get-default_to j k r.revision u.revisions plain)
        (unfold get in round_revision (get k u.revisions) (j === k) r (get k es))

versions-migrate_objects :
    (k : String) (es : Object Operation) (u : UserState)
    → ArePlain es
    → get k (migrate_objects es u).versions ≡ first (get k u.versions) (its_versions (get k es))
unfolding migrate_objects
versions-migrate_objects k [] u h = unfold get in sym (first_nothing (get k u.versions))
versions-migrate_objects k ((j, r) ∷ es) u (plain, h) =
    versions-migrate_objects k es (next j r u) h
    ∙ rw (get-default_to j k (r ∷ []) u.versions plain)
        (unfold get in round_versions (get k u.versions) (j === k) r (get k es))

rest-migrate_objects :
    (es : Object Operation) (u : UserState)
    → ((migrate_objects es u).objects ≡ u.objects) × ((migrate_objects es u).seen ≡ u.seen)
unfolding migrate_objects
rest-migrate_objects [] u = (refl, refl)
rest-migrate_objects ((j, r) ∷ es) u = rest-migrate_objects es (next j r u)

one_version : (o : Option Operation) → length (or_empty (its_versions o)) ≤ 1
one_version none = omega arith
one_version (some r) = omega arith

-- A user that has objects alone, as in version 1, is well formed once migrated: each object has its
-- revision, and a history of one record, unless it is named like what every object inherits.
pub migrate_user-IsWell :
    (objects : Object Operation)
    → ArePlain objects
    → IsWell (
        migrate_user (record { objects = objects; versions = none; revisions = none; seen = none }))
unfolding migrate_user
migrate_user-IsWell objects plain =
    let start : UserState = record {
      objects = objects;
      versions = [];
      revisions = [];
      seen = [];
    } in
    let (same_objects, same_seen) = rest-migrate_objects objects start in
    record {
      revision_kept = λ k r h.
          let e : get k objects ≡ some r = rw same_objects at h in
          revisions-migrate_objects k objects start plain ∙ unfold get in rw e refl;
      newest_last = λ k r h.
          let e : get k objects ≡ some r = rw same_objects at h in
          rw (versions-migrate_objects k objects start plain) (unfold get in rw e refl);
      history_bounded = λ k.
          rw (versions-migrate_objects k objects start plain)
            (unfold get in omega (arith, one_version (get k objects)));
      seen_bounded = rw same_seen (omega arith);
    }
