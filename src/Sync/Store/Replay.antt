-- ===== src/Sync/Store/Replay.antt =====
-- Sending an accepted operation again.
use servidor_drive.Prelude.{◌≡◌, refl, Option, none, some, arith, eq_refl}
use servidor_drive.Prelude.Objects.{own, read, get}
use servidor_drive.Sync.Revision.{Revision, Collation, compare_revisions_same}
use servidor_drive.Sync.Operation.{Operation}
use servidor_drive.Sync.Store.{
  UserState, store, outcome, put_user, stored, against, decide, apply_outcome,
}
use servidor_drive.Sync.Store.Records.{objects-store}

read-store :
    (input : Operation) (u : UserState) → read input.object_id (store input u).objects ≡ own input
unfolding read
read-store input u =
    let e : get input.object_id (store input u).objects ≡ some input =
      rw objects-store (simp eq_refl) in
    rw (e, read)

-- Against itself as the current record an operation is refused: its base differs, or it is stale.
against_self :
    (c : Collation) (input : Operation) (base : Option Revision) (v : UserState)
    → apply_outcome c (against c input input base) input v ≡ v
unfolding against
against_self c input none v = refl
against_self c input (some base) v = ground (arith, compare_revisions_same c (some input.revision))

decide_self :
    (c : Collation) (input : Operation) (v : UserState)
    → apply_outcome c (decide c input (own input)) input v ≡ v
unfolding decide
decide_self c input v = ground (arith, against_self c input input.base_revision v)

outcome_self :
    (c : Collation) (input : Operation) (u v : UserState)
    → read input.object_id u.objects ≡ own input
    → apply_outcome c (outcome c input u) input v ≡ v
unfolding outcome
outcome_self c input u v h = ground (arith, decide_self c input v)

-- An accepted operation that is sent again changes nothing, whether or not its name is still kept.
pub put_user_again :
    (c : Collation) (input : Operation) (u : UserState) (rec : Operation)
    → outcome c input u ≡ stored rec
    → (put_user c input (put_user c input u).1).1 ≡ (put_user c input u).1
unfolding put_user
put_user_again c input u rec h =
    rw h (outcome_self c input (store input u) (store input u) (read-store input u))
