-- ===== src/Backup/Schedule.antt =====
-- app/backup/worker.py: when the daily backup is due, and the run under the advisory lock. A
-- moment is its day and its hour; the outcome of `create_backup` and of the lock are arguments.
pub mod Daily
mod Tests
use wardnode.Base.{
  ℕ, Bool, true, false, ◌&&◌, Option, none, some, List, [], ◌∷◌, ltb, if◌then◌else◌,
}

pub record Moment : Type 0 where
  pub day : ℕ
  pub hour : ℕ

-- `is_backup_due`
abbrev pub is_earlier_day : Option Moment → Moment → Bool
is_earlier_day none now = true
is_earlier_day (some last) now = ltb last.day now.day

unfoldable pub is_backup_due : Moment → ℕ → Option Moment → Bool
is_backup_due now backup_hour last_run_at =
    if ltb now.hour backup_hour then false else is_earlier_day last_run_at now

-- How `create_backup` ends: it returns, raises `BackupError`, or raises anything else.
pub data Outcome : Type 0 where
  done backup_error crashed : Outcome

-- The two settings, and the runs that ended with a status, newest first.
pub record State : Type 0 where
  pub last_run_at : Option Moment
  pub last_ok : Bool
  pub finished : List Moment

-- `_persist_outcome`
unfoldable pub persist_outcome : Moment → Bool → State → State
persist_outcome now ok st = record {
  last_run_at = some now;
  last_ok = ok;
  finished = now ∷ st.finished;
}

-- `_run_backup_and_notify`: a failed backup is persisted too; another exception leaves it.
unfoldable pub run_backup_and_notify : Moment → Outcome → State → State
unfolding persist_outcome
run_backup_and_notify now done st = persist_outcome now true st
run_backup_and_notify now backup_error st = persist_outcome now false st
run_backup_and_notify now crashed st = st

-- `_run_locked` on PostgreSQL: whether the lock was got, and the second look under it.
unfoldable pub run_locked : Bool → Moment → ℕ → Outcome → State → State
unfolding run_backup_and_notify is_backup_due
run_locked got now backup_hour outcome st =
    if got && is_backup_due now backup_hour st.last_run_at
    then run_backup_and_notify now outcome st
    else st
