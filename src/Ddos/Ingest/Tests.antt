-- ===== src/Ddos/Ingest/Tests.antt =====
-- Two polls over sample alerts, and the theorems at those inputs.
use wardnode.Base.{ℕ, String, ◌≡◌, refl, Option, none, some, [], length, ◌==◌, if◌then◌else◌}
use wardnode.Text.{pos}
use wardnode.Json.{
  Json, Items, number, text, items, object, no_items, item, no_fields, field, get_or,
}
use wardnode.Ddos.Ingest.{
  Moment, naive, first_parsed, take_text, text_length, time_of, parse_alert, same_id, has_id,
  insert_event, store_alerts, printed, poll_once,
}
use wardnode.Ddos.Ingest.Once.{IsComplete, poll_once_idem, store_alerts-IsComplete}

abbrev strptime : String → String → Option Moment
strptime raw format = if format == "%Y-%m-%dT%H:%M:%SZ" then some (naive 7) else none

abbrev country : Json → Option String
country ip = none

abbrev alert : ℕ → Json
alert id = object (
    field "id" (number (pos id)) (
      field "source" (object (field "ip" (text "1.2.3.4") no_fields))
        (field "created_at" (text "2026-06-11T20:00:00Z") no_fields)))

-- The second alert has no id, and the third is seen before.
abbrev alerts : Items
alerts = item (alert 42) (item (object no_fields) (item (alert 42) (item (alert 43) no_items)))

stored_once : length (poll_once strptime country 9 (printed (items alerts)) []) ≡ 2
unfolding poll_once store_alerts parse_alert get_or time_of first_parsed take_text text_length
    insert_event has_id same_id
stored_once = refl

poll_once_idem_example :
    poll_once strptime country 70
      (printed (items alerts))
      (poll_once strptime country 9 (printed (items alerts)) [])
    ≡ poll_once strptime country 9 (printed (items alerts)) []
poll_once_idem_example = poll_once_idem country strptime 9 70 (printed (items alerts)) []

store_alerts-IsComplete_example :
    IsComplete country strptime 9 alerts (store_alerts strptime country 9 alerts [])
store_alerts-IsComplete_example = store_alerts-IsComplete country strptime 9 alerts []
