-- ===== src/Soc/Cycle.antt =====
-- app/soc/services.py, `run_detection_cycle` up to the notifications: each candidate raises the
-- open incident of its address or makes a new one. What the reputation service and the trained
-- model answer are functions; the times are microseconds.
mod Settings
pub mod Raised
pub mod Represented
pub mod Budget
mod Tests
use mathlib.Core.Option
use wardnode.Base.{
  ℕ, suc, ◌+◌, ◌*◌, ◌≤◌, max, min, String, Bool, true, false, ◌&&◌, Option, none, some, List, [],
  ◌∷◌, ◌++◌, ltb, leb, keep, map, ◌==◌, ◌=?◌, if◌then◌else◌,
}
use wardnode.Float.{FloatLibrary, float_max}
use wardnode.Soc.Detect.{Candidate, Thresholds, score_candidate, severity_for_score, sev_order}

-- `MAX_ENRICH_PER_CYCLE`
abbrev pub max_enrich_per_cycle : ℕ
max_enrich_per_cycle = 25

-- `DEDUPE_LOOKBACK`
abbrev pub dedupe_lookback : ℕ
dedupe_lookback = 3600 * 1_000_000

-- `_bump_severity`
unfoldable pub bump_severity : String → String
bump_severity s =
    if s == "low"
    then "medium"
    else if s == "medium"
    then "high"
    else if s == "high"
    then "critical"
    else if s == "critical"
    then "critical"
    else "high"

abbrev pub raised_severity : String → String → String
raised_severity before severity =
    if ltb (sev_order before 1) (sev_order severity 1) then severity else before

module _ (lib : FloatLibrary) where
  open lib use {Float, of_int, le}

  pub record Incident : Type 0 where
    pub id : ℕ
    pub source_ip : String
    pub domain : Option String
    pub status : String
    pub window_start : ℕ
    pub window_end : ℕ
    pub event_count : ℕ
    pub score : Float
    pub ml_score : Option Float
    pub severity : String
    pub abuse_score : Option ℕ

  -- The incidents, those created in this cycle, the addresses whose reputation was asked for and
  -- the audit records.
  pub record World : Type 0 where
    pub incidents : List Incident
    pub next_id : ℕ
    pub created : List ℕ
    pub lookups : List String
    pub audit : List (String × String)

  pub record Outside : Type 0 where
    -- `enrich.get_abuse_info(ip)`: nothing, or an answer that may lack the score
    pub get_abuse_info : String → Option (Option ℕ)
    -- `ml.score_candidate`, where the model is on
    pub ml_score_of : Candidate → Option Float

  pub record Cycle : Type 0 where
    pub now : ℕ
    pub window_start : ℕ
    pub sev_thresholds : Thresholds
    pub ml_enabled : Bool

  -- The filter of the dedupe query.
  abbrev pub is_open : ℕ → String → Incident → Bool
  is_open now ip i =
      i.source_ip == ip && i.status == "nuevo" && leb now (i.window_end + dedupe_lookback)

  -- `order_by(window_end.desc()).first()`
  abbrev pub newer : Incident → Option Incident → Option Incident
  newer i none = some i
  newer i (some j) = if ltb i.window_end j.window_end then some j else some i

  unfoldable pub latest : List Incident → Option Incident
  latest [] = none
  latest (i ∷ is) = newer i (latest is)

  unfoldable pub find_existing : ℕ → String → List Incident → Option Incident
  find_existing now ip is = latest (keep (is_open now ip) is)

  abbrev pub ml_of : Outside → Cycle → Candidate → Option Float
  ml_of o cycle c = if cycle.ml_enabled then o.ml_score_of c else none

  abbrev pub or_zero : Option Float → Float
  or_zero none = of_int 0
  or_zero (some x) = x

  -- `severity_for_score(max(score, ml_score or 0.0), thresholds)`
  abbrev pub severity_of : Outside → Cycle → Candidate → String
  severity_of o cycle c =
      severity_for_score lib (float_max lib (score_candidate lib c) (or_zero (ml_of o cycle c)))
        cycle.sev_thresholds

  abbrev pub raised_ml : Option Float → Option Float → Option Float
  raised_ml before none = before
  raised_ml before (some x) = some (float_max lib (or_zero before) x)

  -- The open incident takes the candidate in.
  unfoldable pub refresh : Outside → Cycle → Candidate → Incident → Incident
  refresh o cycle c i = record i {
    window_end = cycle.now;
    event_count = max i.event_count c.event_count;
    score = float_max lib i.score (score_candidate lib c);
    ml_score = raised_ml i.ml_score (ml_of o cycle c);
    severity = raised_severity i.severity (severity_of o cycle c);
  }

  abbrev pub refresh_id : Outside → Cycle → Candidate → ℕ → Incident → Incident
  refresh_id o cycle c id i = if i.id =? id then refresh o cycle c i else i

  -- The new incident takes the reputation in; 75 and more raise its severity by one.
  abbrev pub enriched : Incident → Option (Option ℕ) → Incident
  enriched i (some (some n)) = record i {
    abuse_score = some n;
    severity = if leb 75 n then bump_severity i.severity else i.severity;
  }
  enriched i _ = i

  unfoldable pub fresh_incident : Outside → Cycle → Candidate → ℕ → Incident
  fresh_incident o cycle c id = record {
    id = id;
    source_ip = c.source_ip;
    domain = c.domain;
    status = "nuevo";
    window_start = cycle.window_start;
    window_end = cycle.now;
    event_count = c.event_count;
    score = score_candidate lib c;
    ml_score = ml_of o cycle c;
    severity = severity_of o cycle c;
    abuse_score = none;
  }

  abbrev audit_severity : String → String
  audit_severity severity =
      if severity == "high" then "warning" else if severity == "critical" then "warning" else "info"

  abbrev pub store : World → Incident → List String → World
  store w i asked = record {
    incidents = w.incidents ++ (i ∷ []);
    next_id = suc w.next_id;
    created = w.created ++ (i.id ∷ []);
    lookups = w.lookups ++ asked;
    audit = w.audit ++ ((i.source_ip, audit_severity i.severity) ∷ []);
  }

  -- `enriched_count` is the number of lookups so far.
  abbrev pub create : Outside → Cycle → Candidate → World → ℕ → World
  create o cycle c w enriched_count =
      let i = fresh_incident o cycle c w.next_id in
      if ltb enriched_count max_enrich_per_cycle
      then store w (enriched i (o.get_abuse_info c.source_ip)) (c.source_ip ∷ [])
      else store w i []

  -- One turn of the loop, with the number of lookups so far.
  abbrev pub take_in : Outside → Cycle → Candidate → World → ℕ → Option Incident → World
  take_in o cycle c w enriched_count (some e) = record w {
    incidents = map (refresh_id o cycle c e.id) w.incidents;
  }
  take_in o cycle c w enriched_count none = create o cycle c w enriched_count

  abbrev pub next_count : ℕ → Option Incident → ℕ
  next_count n (some e) = n
  next_count n none = if ltb n max_enrich_per_cycle then suc n else n

  unfoldable pub detect_each : Outside → Cycle → List Candidate → World → ℕ → World
  detect_each o cycle [] w n = w
  detect_each o cycle (c ∷ cs) w n =
      let existing = find_existing cycle.now c.source_ip w.incidents in
      detect_each o cycle cs (take_in o cycle c w n existing) (next_count n existing)

  -- The loop of `run_detection_cycle` over the candidates.
  unfoldable pub run_detection_cycle : Outside → Cycle → List Candidate → World → World
  run_detection_cycle o cycle cs w = detect_each o cycle cs w 0
