-- ===== src/Scheduler/Runs.antt =====
-- One backup at a time.
use servidor_drive.Prelude.{
  ℕ, ◌+◌, ◌≡◌, ◌≤◌, refl, Bool, true, false, Option, none, some, Text, arith, Bool-cases, inl, inr,
}
use servidor_drive.Scheduler.{Task, begin_run, end_run, close, new_task}

-- What happens to a task, with the number of backups that go on: the clock fires, a backup that goes on
-- ends, or the task is stopped.
pub data Step : Task × ℕ → Task × ℕ → Type 0 where
  fires_idle :
      {t : Task} {n : ℕ} (now : ℕ)
      → (begin_run now t).0 ≡ true
      → Step (t, n) ((begin_run now t).1, n + 1)
  fires_busy :
      {t : Task} {n : ℕ} (now : ℕ)
      → (begin_run now t).0 ≡ false
      → Step (t, n) ((begin_run now t).1, n)
  ends : {t : Task} {n : ℕ} (now : ℕ) (id : Option Text) → Step (t, n + 1) (end_run now id t, n)
  closes : {t : Task} {n : ℕ} (now : ℕ) → Step (t, n) (close now t, n)

pub data Reaches : Task × ℕ → Type 0 where
  begins : Reaches (new_task, 0)
  and_then : {x y : Task × ℕ} → Reaches x → Step x y → Reaches y

abbrev pub one_if : Bool → ℕ
one_if true = 1
one_if false = 0

abbrev Counted : Task × ℕ → Type 0
Counted (t, n) = n ≡ one_if t.is_running

one_if_small : (b : Bool) → one_if b ≤ 1
one_if_small true = omega arith
one_if_small false = omega arith

Step-Counted : {x y : Task × ℕ} → Step x y → Counted x → Counted y
unfolding begin_run end_run close
Step-Counted (fires_idle {t} {n} now free) c = elim (Bool-cases t.is_running) [
  | inl busy ↦ absurd (cc (rw (busy, begin_run) at free))
  | inr rest ↦ rw (rest, begin_run) (omega (arith, rw rest at c))
]
Step-Counted (fires_busy {t} {n} now busy) c = elim (Bool-cases t.is_running) [
  | inl going ↦ rw (going, begin_run) (rw going at c)
  | inr rest ↦ absurd (cc (rw (rest, begin_run) at busy))
]
Step-Counted (ends {t} {n} now (some id)) c = omega (arith, c, one_if_small t.is_running)
Step-Counted (ends {t} {n} now none) c = omega (arith, c, one_if_small t.is_running)
Step-Counted (closes now) c = c

Reaches-Counted : {x : Task × ℕ} → Reaches x → Counted x
Reaches-Counted begins = refl
Reaches-Counted (and_then r s) = Step-Counted s (Reaches-Counted r)

-- In every state that is reached at most one backup goes on, and the flag says whether one does, whatever
-- was stopped in between.
pub Reaches-one : {t : Task} {n : ℕ} → Reaches (t, n) → (n ≡ one_if t.is_running) × (n ≤ 1)
Reaches-one {t} {n} r =
    let counted : n ≡ one_if t.is_running = Reaches-Counted r in
    (counted, omega (arith, counted, one_if_small t.is_running))
