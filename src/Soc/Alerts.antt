-- ===== src/Soc/Alerts.antt =====
-- app/soc/alerts.py, `notify_incidents` and `_in_cooldown`: which incidents an alert is sent for.
-- The channels answer for an incident by its id; times are microseconds, one when the cooldown is
-- looked up and one when the alert is marked.
pub mod Justified
mod Tests
use wardnode.Base.{
  ℕ, ◌+◌, ◌*◌, String, Bool, true, false, not, ◌&&◌, ◌||◌, Option, none, some, List, [], ◌∷◌, any,
  ltb, leb, ◌==◌, ◌=?◌, or_else, if◌then◌else◌,
}
use wardnode.Text.{PyInt, pos, int, clamp}
use wardnode.Config.{Table, setting, is_on}
use wardnode.Soc.Detect.{sev_order}

-- `ALERT_COOLDOWN_MIN_DEFAULT`
abbrev pub alert_cooldown_min_default : ℕ
alert_cooldown_min_default = 60

pub record Incident : Type 0 where
  pub id : ℕ
  pub source_ip : String
  pub severity : String
  pub alerted_at : Option ℕ

-- The audit record of an alert, with the channels that sent it; none of them is a failure.
pub data Entry : Type 0 where
  alert_sent : ℕ → List String → Entry
  alert_failed : ℕ → Entry

pub record World : Type 0 where
  pub incidents : List Incident
  pub audit : List Entry

-- What the clock and the channels answer for an incident.
pub record Outside : Type 0 where
  pub checked_at : ℕ → ℕ
  pub marked_at : ℕ → ℕ
  pub send_email : ℕ → Bool
  pub send_telegram : ℕ → Bool

-- `max(5, min(1440, int(setting or default)))`, with the default on `ValueError`
abbrev pub cooldown_of : Option String → ℕ
cooldown_of none = clamp 5 1440 (pos alert_cooldown_min_default)
cooldown_of (some v) = clamp 5 1440 (or_else (int v) (pos alert_cooldown_min_default))

-- `_in_cooldown`
abbrev pub alerted_since : ℕ → ℕ → Option ℕ → Bool
alerted_since now cooldown_min none = false
alerted_since now cooldown_min (some t) = leb now (t + cooldown_min * 60_000_000)

unfoldable pub in_cooldown : ℕ → ℕ → Incident → List Incident → Bool
in_cooldown now cooldown_min i rows =
    any
      (λ r.
        r.source_ip == i.source_ip
        && not (r.id =? i.id)
        && alerted_since now cooldown_min r.alerted_at)
      rows

-- The row of the primary key, and its mark.
unfoldable pub row_of : ℕ → List Incident → Option Incident
row_of id [] = none
row_of id (i ∷ rows) = if i.id =? id then some i else row_of id rows

unfoldable pub mark : ℕ → ℕ → List Incident → List Incident
mark id t [] = []
mark id t (i ∷ rows) =
    if i.id =? id then record i { alerted_at = some t } ∷ rows else i ∷ mark id t rows

abbrev pub channels : Outside → Incident → List String
channels o i =
    if o.send_email i.id
    then (if o.send_telegram i.id then "email" ∷ "telegram" ∷ [] else "email" ∷ [])
    else (if o.send_telegram i.id then "telegram" ∷ [] else [])

-- `SEV_ORDER.get(severity, 0) < SEV_ORDER.get(min_severity, 2)` is false.
abbrev pub is_grave : String → Incident → Bool
is_grave min_severity i = not (ltb (sev_order i.severity 0) (sev_order min_severity 2))

abbrev pub record_alert : Outside → Incident → World → List String → World
record_alert o i w [] = record w { audit = alert_failed i.id ∷ w.audit }
record_alert o i w (c ∷ cs) = record {
  incidents = mark i.id (o.marked_at i.id) w.incidents;
  audit = alert_sent i.id (c ∷ cs) ∷ w.audit;
}

-- One turn of the loop.
abbrev pub notify_row : Outside → String → ℕ → World → Option Incident → World
notify_row o min_severity cooldown_min w none = w
notify_row o min_severity cooldown_min w (some i) =
    if not (is_grave min_severity i)
    then w
    else if in_cooldown (o.checked_at i.id) cooldown_min i w.incidents
    then w
    else record_alert o i w (channels o i)

unfoldable pub notify_each : Outside → String → ℕ → List ℕ → World → World
notify_each o min_severity cooldown_min [] w = w
notify_each o min_severity cooldown_min (id ∷ ids) w =
    notify_each o min_severity cooldown_min ids
      (notify_row o min_severity cooldown_min w (row_of id w.incidents))

-- `notify_incidents`, over the ids of the incidents
unfoldable pub notify_incidents : Table → Outside → List ℕ → World → World
notify_incidents config o ids w =
    if is_on config "soc_alerts_enabled"
    then notify_each o (or_else (setting config "soc_alert_min_severity") "high")
        (cooldown_of (setting config "soc_alert_cooldown_min")) ids w
    else w
