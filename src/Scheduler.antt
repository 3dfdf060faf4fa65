-- ===== src/Scheduler.antt =====
-- services/backupScheduler.js: when automatic backups run, and one run at a time.
pub mod Times
pub mod Runs
pub mod Tests
use servidor_drive.Prelude.{
  ℕ, ◌+◌, ◌-◌, ◌*◌, Bool, true, false, not, ◌&&◌, ◌||◌, Option, none, some, List, [], ◌∷◌, leb,
  if◌then◌else◌, ◌==◌, codes, is_digit, is_nonempty, Text, text_eq, to_lower_case,
}

pub record Time : Type 0 where
  pub hour : ℕ
  pub minute : ℕ

unfoldable pub two_digits : ℕ → ℕ → ℕ
two_digits a b = (a - 48) * 10 + (b - 48)

-- `/^(\d{2}):(\d{2})$/` and the bounds.
unfoldable pub parse_backup_time : Text → Option Time
unfolding is_digit two_digits
parse_backup_time (a ∷ b ∷ c ∷ d ∷ e ∷ []) =
    if is_digit a
      && is_digit b
      && c == b':'
      && is_digit d
      && is_digit e
      && leb (two_digits a b) 23
      && leb (two_digits d e) 59
    then some (record { hour = two_digits a b; minute = two_digits d e })
    else none
parse_backup_time _ = none

-- The variables of the environment; one that is empty is as good as missing.
pub record Env : Type 0 where
  pub backup_enabled : Text
  pub backup_auto_enabled : Text
  pub backup_time : Text
  pub backup_timezone : Text

abbrev pub or_text : Text → Text → Text
or_text [] fallback = fallback
or_text (c ∷ cs) fallback = c ∷ cs

abbrev pub is_off : Text → Bool
is_off value = text_eq (to_lower_case (or_text value (codes "true"))) (codes "false")

pub data Planned : Type 0 where
  disabled invalid_time invalid_timezone : Planned
  planned : Time → Text → Planned

-- The checks before anything is scheduled; `is_timezone` is Intl's.
unfoldable pub plan : (Text → Bool) → Env → Planned
unfolding parse_backup_time to_lower_case
plan is_timezone env =
    let timezone = or_text env.backup_timezone (codes "UTC") in
    if is_off env.backup_enabled || is_off env.backup_auto_enabled
    then disabled
    else elim (parse_backup_time (or_text env.backup_time (codes "03:00"))) [
      | none ↦ invalid_time
      | some time ↦ if is_timezone timezone then planned time timezone else invalid_timezone
    ]

pub data Latest : Type 0 where
  idle running success failure stopped : Latest

-- What a scheduled task keeps; `started` and `finished` are the clock's readings.
pub record Task : Type 0 where
  pub is_running : Bool
  pub latest : Latest
  pub started_at : Option ℕ
  pub finished_at : Option ℕ
  pub backup_id : Option Text
  pub backup_failed : Bool

abbrev pub new_task : Task
new_task = record {
  is_running = false;
  latest = idle;
  started_at = none;
  finished_at = none;
  backup_id = none;
  backup_failed = false;
}

-- The callback up to where it waits for the backup: whether a backup starts.
unfoldable pub begin_run : ℕ → Task → Bool × Task
begin_run now t = if t.is_running then (false, t) else (
  true,
  record t {
    is_running = true;
    latest = running;
    started_at = some now;
    finished_at = none;
    backup_failed = false;
  },
)

-- The rest of it, with the backup's identifier, or after it failed.
unfoldable pub end_run : ℕ → Option Text → Task → Task
end_run now (some id) t = record t {
  is_running = false;
  latest = success;
  backup_id = some id;
  finished_at = some now;
}
end_run now none t = record t {
  is_running = false;
  latest = failure;
  backup_failed = true;
  finished_at = some now;
}

-- `stop` and `destroy`: a run that goes on is not stopped.
unfoldable pub close : ℕ → Task → Task
close now t = record t { latest = stopped; finished_at = some now }
