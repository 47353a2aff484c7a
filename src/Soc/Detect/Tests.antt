-- ===== src/Soc/Detect/Tests.antt =====
-- Scores and severities of samples, and the theorems at those inputs.
use wardnode.Base.{leb, ◌≡◌, refl, Bool, true, some, none, [], ◌∷◌, arith}
use wardnode.Text.{int}
use wardnode.Config.{Table, setting}
use wardnode.Float.Samples.{whole}
use wardnode.Soc.Detect.{Candidate, defaults, score_candidate, resolve_severity_thresholds}
use wardnode.Soc.Detect.Severity.{IsOrdered, resolve_severity_thresholds-IsOrdered}
use wardnode.Soc.Detect.Score.{score_candidate_bounds}

abbrev scan : Candidate
scan = record {
  source_ip = "8.8.8.8";
  event_count = 30;
  cat_diversity = 3;
  path_fanout = 40;
  blocks = 30;
  method_diversity = 1;
  status_diversity = 2;
  domain = none;
  categories = [];
  min_events = 20;
}

scored : score_candidate whole scan ≡ 85
unfolding score_candidate
scored = refl

-- One value that is no number brings all three defaults back.
abbrev broken : Table
broken =
    record { key = "soc_sev_critical"; value = some " 95 "; encrypted = Bool.false }
    ∷ record { key = "soc_sev_high"; value = some "x"; encrypted = Bool.false }
    ∷ []

abbrev raised : Table
raised = record { key = "soc_sev_critical"; value = some " 9_5 "; encrypted = Bool.false } ∷ []

fallback :
    (resolve_severity_thresholds broken ≡ defaults)
    × (resolve_severity_thresholds raised ≡ record { crit = 95; high = 60; med = 40 })
unfolding resolve_severity_thresholds setting int
fallback = (refl, refl)

score_candidate_bounds_example :
    (leb 0 (score_candidate whole scan) ≡ true) × (leb (score_candidate whole scan) 100 ≡ true)
score_candidate_bounds_example = score_candidate_bounds whole scan (omega arith)

resolve_severity_thresholds-IsOrdered_example : IsOrdered (resolve_severity_thresholds raised)
resolve_severity_thresholds-IsOrdered_example = resolve_severity_thresholds-IsOrdered raised
