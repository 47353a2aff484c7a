-- ===== src/Backup/Schedule/Daily.antt =====
-- No day has two finished backups.
use wardnode.Base.{
  ℕ, ◌<◌, ◌≡◌, refl, Bool, true, false, Option, none, some, List, [], ◌∷◌, Bool-cases, inl, inr,
  arith,
}
use wardnode.Backup.Schedule.{
  Moment, is_earlier_day, is_backup_due, Outcome, done, backup_error, crashed, State,
  persist_outcome, run_backup_and_notify, run_locked,
}

abbrev pub newest : List Moment → Option Moment
newest [] = none
newest (m ∷ ms) = some m

-- The day is after that of the run before it, if there is one.
abbrev pub IsLater : Moment → Option Moment → Type 0
IsLater m none = Unit
IsLater m (some last) = last.day < m.day

-- Each run is on a later day than the one before it.
abbrev pub IsDescending : List Moment → Type 0
IsDescending [] = Unit
IsDescending (m ∷ ms) = IsLater m (newest ms) × IsDescending ms

-- The setting is the newest of the finished runs, and each of them is on
-- a later day than the one before it.
pub record IsDaily (st : State) : Type 0 where
  pub last : st.last_run_at ≡ newest st.finished
  pub days : IsDescending st.finished

is_earlier_day-IsLater :
    (now : Moment) (o : Option Moment) → is_earlier_day o now ≡ true → IsLater now o
is_earlier_day-IsLater now none h = tt
is_earlier_day-IsLater now (some last) h = ground (arith, h)

persist_outcome-IsDaily :
    (now : Moment) (ok : Bool) (st : State)
    → is_earlier_day st.last_run_at now ≡ true
    → IsDaily st
    → IsDaily (persist_outcome now ok st)
unfolding persist_outcome
persist_outcome-IsDaily now ok st due h = record {
  last = refl;
  days = (is_earlier_day-IsLater now (newest st.finished) (rw h.last at due), h.days);
}

run_backup_and_notify-IsDaily :
    (now : Moment) (o : Outcome) (st : State)
    → is_earlier_day st.last_run_at now ≡ true
    → IsDaily st
    → IsDaily (run_backup_and_notify now o st)
unfolding run_backup_and_notify
run_backup_and_notify-IsDaily now done st due h = persist_outcome-IsDaily now true st due h
run_backup_and_notify-IsDaily now backup_error st due h = persist_outcome-IsDaily now false st due h
run_backup_and_notify-IsDaily now crashed st due h = h

is_backup_due_day :
    (now : Moment) (hour : ℕ) (o : Option Moment)
    → is_backup_due now hour o ≡ true
    → is_earlier_day o now ≡ true
unfolding is_backup_due
is_backup_due_day now hour o h = ground (arith, h)

run_locked-IsDaily :
    (got : Bool) (now : Moment) (hour : ℕ) (o : Outcome) (st : State)
    → IsDaily st
    → IsDaily (run_locked got now hour o st)
unfolding run_locked
run_locked-IsDaily false now hour o st h = h
run_locked-IsDaily true now hour o st h =
    elim (Bool-cases (is_backup_due now hour st.last_run_at)) [
      | inl due ↦
          rw due (
            run_backup_and_notify-IsDaily now o st (is_backup_due_day now hour st.last_run_at due)
              h)
      | inr idle ↦ rw idle h
    ]

-- One turn of a worker: whether it got the lock, the time it read before, the configured hour and
-- how the backup ends.
pub record Turn : Type 0 where
  pub got : Bool
  pub now : Moment
  pub hour : ℕ
  pub outcome : Outcome

unfoldable pub turns : List Turn → State → State
turns [] st = st
turns (t ∷ ts) st = turns ts (run_locked t.got t.now t.hour t.outcome st)

-- In whatever order workers take their turns under the lock, with whatever clocks, hours and
-- outcomes: if the finished backups are on descending days and the setting is the newest, this
-- still holds, so that no day has two.
pub turns-IsDaily : (ts : List Turn) (st : State) → IsDaily st → IsDaily (turns ts st)
unfolding turns
turns-IsDaily [] st h = h
turns-IsDaily (t ∷ ts) st h =
    turns-IsDaily ts (run_locked t.got t.now t.hour t.outcome st)
      (run_locked-IsDaily t.got t.now t.hour t.outcome st h)
