-- ===== src/Backup/Schedule/Tests.antt =====
-- Two workers at the same hour, and the theorem at their turns.
use wardnode.Base.{ℕ, ◌≡◌, refl, true, none, List, [], ◌∷◌, length}
use wardnode.Backup.Schedule.{
  is_backup_due, done, State, persist_outcome, run_backup_and_notify, run_locked,
}
use wardnode.Backup.Schedule.Daily.{IsDaily, Turn, turns, turns-IsDaily}

abbrev idle : State
idle = record { last_run_at = none; last_ok = true; finished = [] }

abbrev turn : ℕ → ℕ → Turn
turn day hour = record {
  got = true;
  now = record { day = day; hour = hour };
  hour = 3;
  outcome = done;
}

abbrev schedule : List Turn
schedule = turn 1 2 ∷ turn 1 3 ∷ turn 1 3 ∷ turn 2 4 ∷ []

two_days : length (turns schedule idle).finished ≡ 2
unfolding turns run_locked is_backup_due run_backup_and_notify persist_outcome
two_days = refl

turns-IsDaily_example : IsDaily (turns schedule idle)
turns-IsDaily_example = turns-IsDaily schedule idle (record { last = refl; days = tt })
