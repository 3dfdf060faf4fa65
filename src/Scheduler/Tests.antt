-- ===== src/Scheduler/Tests.antt =====
-- Runs of the scheduler, and the theorems at concrete inputs.
use servidor_drive.Prelude.{◌≡◌, refl, Bool, true, false, none, some, [], codes, Text, text_eq}
use servidor_drive.Scheduler.{
  Env, Task, parse_backup_time, plan, planned, disabled, invalid_time, invalid_timezone, begin_run,
  end_run, close, new_task, success,
}
use servidor_drive.Scheduler.Runs.{Reaches, begins, and_then, fires_idle, fires_busy, closes}

abbrev env : Env
env = record {
  backup_enabled = [];
  backup_auto_enabled = codes "True";
  backup_time = [];
  backup_timezone = [];
}

abbrev any_zone : Text → Bool
any_zone zone = true

plan_tests :
    (plan any_zone env ≡ planned (record { hour = 3; minute = 0 }) (codes "UTC"))
    × (plan any_zone (record env { backup_enabled = codes "FALSE" }) ≡ disabled)
    × (plan any_zone (record env { backup_time = codes "24:00" }) ≡ invalid_time)
    × (plan (λ zone. false) env ≡ invalid_timezone)
    × (parse_backup_time (codes "9:30") ≡ none)
unfolding plan parse_backup_time text_eq
plan_tests = (refl, refl, refl, refl, refl)

busy : Task
unfolding begin_run
busy = (begin_run 5 new_task).1

-- A backup that goes on when the task is stopped ends as a success.
stopped_then_success : (end_run 9 (some (codes "b1")) (close 7 busy)).latest ≡ success
unfolding end_run
stopped_then_success = refl

reached : Reaches (close 7 busy, 1)
unfolding busy begin_run
reached = and_then (and_then (and_then begins (fires_idle 5 refl)) (fires_busy 6 refl)) (closes 7)
