-- ===== src/Resilience/Once.antt =====
-- What `runIdempotent` does with a key that was used before.
use servidor_drive.Prelude.{◌≡◌, refl, true, none, Text, text_eq_refl, is_nonempty, ok, err}
use servidor_drive.Prelude.TextMaps.{TextMap, lookup, insert, lookup-insert, lookup-discard}
use servidor_drive.Resilience.{Run, going, done, shared, started, start_run, end_run}

module _ {A : Type 0} (key : Text) (named : is_nonempty key ≡ true) (store : TextMap (Run A)) where
  after_success :
      (E : Type 0) (a : A)
      → start_run key (end_run {E = E} key (ok a) store)
        ≡ (shared (done a), end_run {E = E} key (ok a) store)
  unfolding start_run end_run
  after_success E a = rw named (rw (lookup-insert key key (done a) store, text_eq_refl key) refl)

  after_failure : {E : Type 0} (e : E) → (start_run key (end_run key (err e) store)).0 ≡ started
  unfolding start_run end_run
  after_failure e = rw named (rw (lookup-discard key key store, text_eq_refl key) refl)

  starts : lookup key store ≡ none → start_run key store ≡ (started, insert key going store)
  unfolding start_run
  starts new = rw named (rw new refl)

  shares : start_run key (insert key going store) ≡ (shared going, insert key going store)
  unfolding start_run
  shares = rw named (rw (lookup-insert key key going store, text_eq_refl key) refl)

  -- A key whose run goes on or has succeeded shares that run and starts none; one whose run has failed may
  -- start again.
  pub start_run_once :
      {E : Type 0} (a : A) (e : E)
      → lookup key store ≡ none
      → (start_run key (start_run key store).1 ≡ (shared going, (start_run key store).1))
        × (start_run key (end_run {E = E} key (ok a) store)
            ≡ (shared (done a), end_run {E = E} key (ok a) store))
        × ((start_run key (end_run key (err e) store)).0 ≡ started)
  start_run_once a e new = (rw (starts new) shares, after_success _ a, after_failure e)
