-- ===== src/Sync/Store/Records.antt =====
-- What an accepted operation leaves in the objects, the versions and the revisions of a user.
use servidor_drive.Prelude.{
  ℕ, ◌≤◌, String, ◌≡◌, refl, Bool, true, false, Option, none, some, List, [], ◌∷◌, ◌++◌, ◌∙◌, arith,
  ◌===◌, length, slice_last, drop, length-slice_last, if◌then◌else◌, ◌-◌, suc, zero, length-append,
}
use servidor_drive.Prelude.Objects.{get, set, get-set}
use servidor_drive.Sync.Revision.{Revision, Collation}
use servidor_drive.Sync.Operation.{Operation}
use servidor_drive.Sync.Store.{
  UserState, public_record, store, or_empty, max_history_per_object, max_seen_operations, outcome,
  put_user, stored, replay, conflict, stale, Outcome, apply_outcome,
}
use servidor_drive.Sync.Store.Seen.{length-forget_oldest}

pub public_record_lem : (r : Operation) → public_record r ≡ r
unfolding public_record
public_record_lem r = refl

abbrev pub last {ℓ} : {A : Type ℓ} → List A → Option A
last [] = none
last (x ∷ []) = some x
last (x ∷ y ∷ xs) = last (y ∷ xs)

last-append_one {ℓ} : {A : Type ℓ} (xs : List A) (x : A) → last (xs ++ x ∷ []) ≡ some x
last-append_one [] x = refl
last-append_one (y ∷ []) x = refl
last-append_one (y ∷ z ∷ xs) x = last-append_one (z ∷ xs) x

last-drop {ℓ} : {A : Type ℓ} (n : ℕ) (xs : List A) → suc n ≤ length xs → last (drop n xs) ≡ last xs
last-drop zero xs h = refl
last-drop (suc n) [] h = absurd (omega arith)
last-drop (suc n) (x ∷ []) h = absurd (omega arith)
last-drop (suc n) (x ∷ y ∷ xs) h = last-drop n (y ∷ xs) (omega arith)

last-slice_last {ℓ} :
    {A : Type ℓ} (n : ℕ) (xs : List A) (x : A) → last (slice_last (suc n) (xs ++ x ∷ [])) ≡ some x
last-slice_last n xs x =
    last-drop (length (xs ++ x ∷ []) - suc n) (xs ++ x ∷ [])
      (omega (arith, length-append xs (x ∷ [])))
    ∙ last-append_one xs x

-- The record of an object is the newest of its versions, its revision is the one that is kept, and
-- the histories and the names of accepted operations stay within their bounds.
pub record IsWell (u : UserState) : Type 0 where
  pub revision_kept :
      (k : String) (r : Operation) → get k u.objects ≡ some r → get k u.revisions ≡ some r.revision
  pub newest_last :
      (k : String) (r : Operation)
      → get k u.objects ≡ some r
      → last (or_empty (get k u.versions)) ≡ some r
  pub history_bounded : (k : String) → length (or_empty (get k u.versions)) ≤ max_history_per_object
  pub seen_bounded : length u.seen ≤ max_seen_operations

module _ (input : Operation) (u : UserState) where
  pub objects-store :
      (k : String)
      → get k (store input u).objects
        ≡ (if input.object_id === k then some input else get k u.objects)
  unfolding store public_record
  objects-store k = get-set input.object_id k input u.objects

  pub revisions-store :
      (k : String)
      → get k (store input u).revisions
        ≡ (if input.object_id === k then some input.revision else get k u.revisions)
  unfolding store
  revisions-store k = get-set input.object_id k input.revision u.revisions

  pub versions-store :
      (k : String)
      → get k (store input u).versions ≡ (
          if input.object_id === k
          then some (
              slice_last max_history_per_object
                (or_empty (get input.object_id u.versions) ++ input ∷ []))
          else get k u.versions)
  unfolding store public_record
  versions-store k = get-set input.object_id k _ u.versions

  -- One step of each field, on the test that the key is the operation's.
  revision_step :
      (b : Bool) (o : Option Operation) (rev : Option Revision) (r : Operation)
      → (o ≡ some r → rev ≡ some r.revision)
      → (if b then some input else o) ≡ some r
      → (if b then some input.revision else rev) ≡ some r.revision
  revision_step true o rev r h e = cc
  revision_step false o rev r h e = h e

  newest_step :
      (b : Bool) (o : Option Operation) (vs : Option (List Operation)) (xs : List Operation)
      (r : Operation)
      → (o ≡ some r → last (or_empty vs) ≡ some r)
      → (if b then some input else o) ≡ some r
      → last
          (or_empty (if b then some (slice_last max_history_per_object (xs ++ input ∷ [])) else vs))
        ≡ some r
  newest_step true o vs xs r h e = last-slice_last 31 xs input ∙ e
  newest_step false o vs xs r h e = h e

  bounded_step :
      (b : Bool) (vs : Option (List Operation)) (xs : List Operation)
      → length (or_empty vs) ≤ max_history_per_object
      → length (or_empty (if b then some (slice_last max_history_per_object xs) else vs))
        ≤ max_history_per_object
  bounded_step true vs xs h = omega (arith, length-slice_last 32 xs)
  bounded_step false vs xs h = h

  seen-store : length (store input u).seen ≤ max_seen_operations
  unfolding store
  seen-store = length-forget_oldest (set input.operation_id true u.seen)

  pub store-IsWell : IsWell u → IsWell (store input u)
  store-IsWell w = record {
    revision_kept = λ k r.
        rw objects-store
          (rw revisions-store (revision_step (input.object_id === k) _ _ r (w.revision_kept k r)));
    newest_last = λ k r. rw objects-store (
        rw versions-store (
          newest_step (input.object_id === k) _ (get k u.versions)
            (or_empty (get input.object_id u.versions)) r (w.newest_last k r)));
    history_bounded = λ k. rw versions-store (
        bounded_step (input.object_id === k) (get k u.versions)
          (or_empty (get input.object_id u.versions) ++ input ∷ []) (w.history_bounded k));
    seen_bounded = seen-store;
  }

pub apply_outcome-IsWell :
    (c : Collation) (answer : Outcome) (input : Operation) (u : UserState)
    → IsWell u
    → IsWell (apply_outcome c answer input u)
apply_outcome-IsWell c replay input u w = w
apply_outcome-IsWell c (conflict current) input u w = w
apply_outcome-IsWell c (stale current) input u w = w
apply_outcome-IsWell c (stored rec) input u w = store-IsWell input u w

-- Whatever `put` answers, a well-formed user state stays well-formed.
pub put_user-IsWell :
    (c : Collation) (input : Operation) (u : UserState) → IsWell u → IsWell (put_user c input u).1
unfolding put_user
put_user-IsWell c input u w = apply_outcome-IsWell c (outcome c input u) input u w
