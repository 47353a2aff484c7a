-- ===== src/Soc/Detect.antt =====
-- app/soc/detect.py: the score of a candidate and the severity that it stands for.
pub mod Severity
pub mod Score
pub mod Tests
use mathlib.Core.Option
use wardnode.Base.{
  ℕ, ◌+◌, ◌*◌, ◌≤◌, ◌<◌, max, String, Bool, true, false, ◌&&◌, Option, none, some, List, ltb, ◌==◌,
  ◌=?◌, if◌then◌else◌,
}
use wardnode.Text.{PyInt, pos, int, clamp}
use wardnode.Config.{Table, setting}
use wardnode.Float.{FloatLibrary, float_min}

-- `_SEV_ORDER.get(severity, default)`
unfoldable pub sev_order : String → ℕ → ℕ
sev_order severity default =
    if severity == "low"
    then 0
    else if severity == "medium"
    then 1
    else if severity == "high"
    then 2
    else if severity == "critical"
    then 3
    else default

abbrev pub default_threshold_events : ℕ
default_threshold_events = 20

-- The aggregates of one source address, as `find_candidates` returns them.
pub record Candidate : Type 0 where
  pub source_ip : String
  pub event_count : ℕ
  pub cat_diversity : ℕ
  pub path_fanout : ℕ
  pub blocks : ℕ
  pub method_diversity : ℕ
  pub status_diversity : ℕ
  pub domain : Option String
  pub categories : List String
  pub min_events : ℕ

module _ (lib : FloatLibrary) where
  open lib use {Float, of_int, add, mul, div, round1}

  abbrev block_ratio : Candidate → Float
  block_ratio c =
      if c.event_count =? 0
      then of_int 0
      else mul (of_int 20) (div (of_int c.blocks) (of_int c.event_count))

  -- `score_candidate`
  unfoldable pub score_candidate : Candidate → Float
  unfolding float_min
  score_candidate c =
      let min_events = max 1 c.min_events in
      let volume =
        float_min lib (of_int 40)
          (div (mul (of_int 40) (of_int c.event_count)) (of_int (2 * min_events))) in
      let diversity = float_min lib (of_int 20) (mul (of_int 5) (of_int c.cat_diversity)) in
      let fanout = float_min lib (of_int 20) (mul (of_int 2) (of_int c.path_fanout)) in
      round1 (add (add (add volume diversity) (block_ratio c)) fanout)

pub record Thresholds : Type 0 where
  pub crit : ℕ
  pub high : ℕ
  pub med : ℕ

abbrev pub defaults : Thresholds
defaults = record { crit = 80; high = 60; med = 40 }

-- `max(1, min(100, int(AppConfig.get(key) or default)))`; `none` is `ValueError`.
abbrev parsed_or : ℕ → Option String → Option PyInt
parsed_or default none = some (pos default)
parsed_or default (some v) = int v

unfoldable pub bounded_setting : Table → String → ℕ → Option ℕ
bounded_setting config key default =
    Option.map (clamp 1 100) (parsed_or default (setting config key))

-- The `except` and the order test: incoherent thresholds fall back to the defaults.
abbrev coherent : Thresholds → Thresholds
coherent t = if ltb t.med t.high && ltb t.high t.crit then t else defaults

abbrev gather : Option ℕ → Option ℕ → Option ℕ → Thresholds
gather (some c) (some h) (some m) = record { crit = c; high = h; med = m }
gather _ _ _ = defaults

-- `resolve_severity_thresholds`
unfoldable pub resolve_severity_thresholds : Table → Thresholds
unfolding bounded_setting
resolve_severity_thresholds config = coherent (
    gather (bounded_setting config "soc_sev_critical" 80) (bounded_setting config "soc_sev_high" 60)
      (bounded_setting config "soc_sev_medium" 40))

module _ (lib : FloatLibrary) where
  open lib use {Float, of_int, le}

  -- `severity_for_score`, with the thresholds of the cycle.
  unfoldable pub severity_for_score : Float → Thresholds → String
  severity_for_score score t =
      if le (of_int t.crit) score
      then "critical"
      else if le (of_int t.high) score
      then "high"
      else if le (of_int t.med) score
      then "medium"
      else "low"
