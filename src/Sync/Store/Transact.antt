-- ===== src/Sync/Store/Transact.antt =====
-- Users and failures: whose state a request changes, and what a failed write leaves.
use servidor_drive.Prelude.{
  String, ◌≡◌, ◌≢◌, refl, Bool, true, false, List, [], ◌∷◌, arith, eq_iff, if◌then◌else◌, ◌===◌,
}
use servidor_drive.Prelude.Objects.{get-set}
use servidor_drive.Sync.Revision.{Collation}
use servidor_drive.Sync.Operation.{Operation}
use servidor_drive.Sync.Store.{State, SyncObjectStore, failed, put_user, put_state, put, user}

module _ (c : Collation) where
  user-put_state :
      (name other : String) (input : Operation) (s : State)
      → user (put_state c name input s).1 other
        ≡ (if name === other then (put_user c input (user s name)).1 else user s other)
  unfolding user put_state
  user-put_state name other input s = rw get-set (ground arith)

  -- A request of one user leaves what every other user sees unchanged.
  pub put_state_other :
      (name other : String) (input : Operation) (s : State)
      → name ≢ other
      → user (put_state c name input s).1 other ≡ user s other
  put_state_other name other input s h = rw user-put_state (ground (arith, eq_iff name other))

  -- The requests that reach the store, with whether the write of each succeeds.
  pub record Request : Type 0 where
    pub name : String
    pub input : Operation
    pub written : Bool

  unfoldable pub run : List Request → SyncObjectStore → SyncObjectStore
  run [] s = s
  run (r ∷ rest) s = run rest (put c r.written r.name r.input s).1

  -- A store whose queue is rejected answers no request again and keeps its state.
  run_rejected :
      (requests : List Request) (s : SyncObjectStore) → s.rejected ≡ true → run requests s ≡ s
  unfolding run put
  run_rejected [] s h = refl
  run_rejected (r ∷ rest) s h = simp h (run_rejected rest s h)

  failed_write :
      (name : String) (input : Operation) (s : SyncObjectStore)
      → (put c false name input s).1 ≡ record s { rejected = true }
  unfolding put
  failed_write name input s = ground arith

  put_rejected :
      (r : Request) (s : SyncObjectStore)
      → s.rejected ≡ true
      → (put c r.written r.name r.input s).0 ≡ failed
  unfolding put
  put_rejected r s h = ground arith

  -- A write that fails leaves the state as it was, and after it no request is ever answered: each
  -- later one fails, whether or not its own write would succeed, and none changes the state.
  pub put_after_failure :
      (name : String) (input : Operation) (s : SyncObjectStore) (requests : List Request)
      (last : Request)
      → ((run requests (put c false name input s).1).state ≡ s.state)
        × ((put c last.written last.name last.input (run requests (put c false name input s).1)).0
            ≡ failed)
  put_after_failure name input s requests last =
      let stuck : SyncObjectStore = record s { rejected = true } in
      rw (failed_write name input s)
        (rw (run_rejected requests stuck refl) (refl, put_rejected last stuck refl))
