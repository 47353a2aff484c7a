-- ===== src/Soc/Cycle/Tests.antt =====
-- A cycle run on two candidates, and the theorems at those inputs.
use wardnode.Base.{ℕ, String, false, none, some, List, [], ◌∷◌, ◌≡◌, refl, keep, map, All}
use wardnode.Float.{float_max, float_min}
use wardnode.Float.Samples.{whole}
use wardnode.Soc.Detect.{Candidate, defaults, score_candidate, severity_for_score, sev_order}
use wardnode.Soc.Cycle.{
  Incident, World, Outside, Cycle, find_existing, latest, refresh, fresh_incident, bump_severity,
  detect_each, run_detection_cycle,
}
use wardnode.Soc.Cycle.Raised.{Extends, detect_each-Extends}
use wardnode.Soc.Cycle.Represented.{Some, IsCarrying, detect_each-IsCarrying}
use wardnode.Soc.Cycle.Budget.{IsBudgeted, run_detection_cycle-IsBudgeted}

abbrev candidate : String → ℕ → Candidate
candidate ip events = record {
  source_ip = ip;
  event_count = events;
  cat_diversity = 2;
  path_fanout = 5;
  blocks = events;
  method_diversity = 1;
  status_diversity = 1;
  domain = none;
  categories = [];
  min_events = 20;
}

abbrev candidates : List Candidate
candidates = candidate "8.8.8.8" 40 ∷ candidate "9.9.9.9" 20 ∷ []

abbrev open_incident : Incident whole
open_incident = record {
  id = 1;
  source_ip = "9.9.9.9";
  domain = none;
  status = "nuevo";
  window_start = 0;
  window_end = 8_999_000_000;
  event_count = 21;
  score = 30;
  ml_score = none;
  severity = "low";
  abuse_score = none;
}

abbrev before : World whole
before = record {
  incidents = open_incident ∷ [];
  next_id = 2;
  created = [];
  lookups = [];
  audit = [];
}

abbrev outside : Outside whole
outside = record { get_abuse_info = λ ip. some (some 80); ml_score_of = λ c. none }

abbrev cycle : Cycle whole
cycle = record {
  now = 9_000_000_000;
  window_start = 8_100_000_000;
  sev_thresholds = defaults;
  ml_enabled = false;
}

abbrev shown : Incident whole → ℕ × ℕ × ℕ × String
shown i = (i.id, i.event_count, i.score, i.severity)

-- The first address gets an incident, raised by its reputation; the second raises its own.
after_cycle :
    map shown (run_detection_cycle whole outside cycle candidates before).incidents
    ≡ (1, 21, 60, "high") ∷ (2, 40, 80, "critical") ∷ []
unfolding run_detection_cycle detect_each find_existing latest keep refresh fresh_incident
    bump_severity score_candidate severity_for_score sev_order float_max float_min
after_cycle = refl

detect_each-Extends_example :
    Extends whole 9_000_000_000 before.incidents
      (detect_each whole outside cycle candidates before 0).incidents
detect_each-Extends_example = detect_each-Extends whole outside cycle candidates before 0

detect_each-IsCarrying_example :
    All
      (λ c.
        Some whole
          (IsCarrying whole outside cycle c)
          (detect_each whole outside cycle candidates before 0).incidents)
      candidates
detect_each-IsCarrying_example = detect_each-IsCarrying whole outside cycle candidates before 0

run_detection_cycle-IsBudgeted_example :
    IsBudgeted whole (run_detection_cycle whole outside cycle candidates before)
run_detection_cycle-IsBudgeted_example =
    run_detection_cycle-IsBudgeted whole outside cycle candidates before refl refl
