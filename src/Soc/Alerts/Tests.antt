-- ===== src/Soc/Alerts/Tests.antt =====
-- A run of alerts over three incidents, and the theorem at it.
use wardnode.Base.{ℕ, ◌≡◌, refl, String, true, false, none, some, List, [], ◌∷◌, any, or_else}
use wardnode.Config.{Table, find, get, setting, is_on}
use wardnode.Soc.Detect.{sev_order}
use wardnode.Soc.Alerts.{
  Incident, World, Outside, alert_sent, in_cooldown, row_of, mark, notify_each, notify_incidents,
}
use wardnode.Soc.Alerts.Justified.{Keeps, notify_incidents-Keeps}

abbrev config : Table
config = record { key = "soc_alerts_enabled"; value = some "1"; encrypted = false } ∷ []

abbrev incident : ℕ → String → String → Incident
incident id ip severity = record { id = id; source_ip = ip; severity = severity; alerted_at = none }

abbrev before : World
before = record {
  incidents =
      incident 1 "8.8.8.8" "critical"
      ∷ incident 2 "8.8.8.8" "high"
      ∷ incident 3 "9.9.9.9" "low"
      ∷ [];
  audit = [];
}

abbrev outside : Outside
outside = record {
  checked_at = λ id. 1_000;
  marked_at = λ id. 2_000;
  send_email = λ id. true;
  send_telegram = λ id. false;
}

abbrev ids : List ℕ
ids = 1 ∷ 2 ∷ 3 ∷ []

-- The second incident is in the cooldown of the first, the third is not grave enough.
one_alert : (notify_incidents config outside ids before).audit ≡ alert_sent 1 ("email" ∷ []) ∷ []
unfolding notify_incidents is_on setting get find notify_each row_of in_cooldown any mark sev_order
one_alert = refl

notify_incidents-Keeps_example :
    Keeps outside
      (or_else (setting config "soc_alert_min_severity") "high")
      before.incidents
      (notify_incidents config outside ids before).incidents
    × (is_on config "soc_alerts_enabled" ≡ false
        → notify_incidents config outside ids before ≡ before)
notify_incidents-Keeps_example = notify_incidents-Keeps config outside ids before
