-- ===== src/Ddos/Ingest.antt =====
-- app/ddos/ingest.py: the alerts of CrowdSec become ban events, each once. An alert is a JSON
-- value; `datetime.strptime`, the GeoIP table and the container are parameters. The table of
-- events refuses a second row of the same `cs_alert_id`.
pub mod Once
mod Tests
use mathlib.Core.Option
use wardnode.Base.{
  ℕ, zero, suc, String, Bool, true, false, ◌&&◌, ◌||◌, Option, none, some, List, [], ◌∷◌, ◌++◌, any,
  ◌==◌, ◌=?◌, if◌then◌else◌,
}
use wardnode.Text.{PyInt, pos, negsuc}
use wardnode.Json.{
  Json, Items, Fields, null, flag, number, fraction, text, items, object, no_items, item, no_fields,
  field, truthy, get_or, or_else_json, int_of, fields_of,
}

-- `value[0]` of a value that is true
abbrev pub first_of : Json → Option Json
first_of (items (item j js)) = some j
first_of (text s) = some (text s)
first_of _ = none

-- A time without and with a zone; both are instants in UTC once normalised.
pub data Moment : Type 0 where
  naive aware : ℕ → Moment

abbrev pub normalised : Moment → ℕ
normalised (naive t) = t
normalised (aware t) = t

pub record Parsed : Type 0 where
  pub cs_alert_id : PyInt
  pub source_ip : Json
  pub scenario : Json
  pub events_count : PyInt
  pub created_at : ℕ
  pub expires_at : Option ℕ

-- What the loop over the formats finds: a time, none of the formats, or an exception that it does
-- not catch.
pub data Found : Type 0 where
  found : ℕ → Found
  not_found escaped : Found

unfoldable pub take_text : ℕ → String → String
take_text zero s = String.[]
take_text (suc n) String.[] = String.[]
take_text (suc n) (String.◌∷◌ c s) = String.◌∷◌ c (take_text n s)

unfoldable pub text_length : String → ℕ
text_length String.[] = 0
text_length (String.◌∷◌ c s) = suc (text_length s)

abbrev pub formats : List String
formats = "%Y-%m-%dT%H:%M:%SZ" ∷ "%Y-%m-%dT%H:%M:%S%z" ∷ "%Y-%m-%dT%H:%M:%S.%fZ" ∷ []

module _ (strptime : String → String → Option Moment) where
  -- One attempt for each format, cut to the length of the value; `none` is `ValueError`.
  unfoldable pub first_parsed : String → List String → Found
  unfolding take_text text_length
  first_parsed raw [] = not_found
  first_parsed raw (f ∷ fs) =
      let rest = first_parsed raw fs in
      elim (strptime (take_text 26 raw) (take_text (text_length raw) f)) [
        | none ↦ rest
        | some m ↦ found (normalised m)
      ]

  -- A value without slices raises `TypeError`, which the loop catches; the slice of a dictionary
  -- raises `KeyError`, which it does not.
  unfoldable pub time_of : Json → Found
  unfolding first_parsed
  time_of (text s) = first_parsed s formats
  time_of (object fs) = escaped
  time_of _ = not_found

  abbrev pub created_of : ℕ → Found → Option ℕ
  created_of now (found t) = some t
  created_of now not_found = some now
  created_of now escaped = none

  abbrev pub expires_of : Found → Option (Option ℕ)
  expires_of (found t) = some (some t)
  expires_of not_found = some none
  expires_of escaped = none

  -- `decisions[0].get("until") or ""`
  abbrev pub expiry : Json → Option (Option ℕ)
  expiry decisions =
      if truthy decisions
      then elim (first_of decisions) [
        | none ↦ none
        | some d ↦ elim (fields_of d) [
          | none ↦ none
          | some fs ↦ expires_of (time_of (or_else_json (get_or fs "until" null) (text "")))
        ]
      ]
      else some none

  abbrev pub assemble :
      PyInt → Json → Json → Option PyInt → Option ℕ → Option (Option ℕ) → Option Parsed
  assemble id ip scenario (some events) (some created) (some expires) = some (record {
    cs_alert_id = id;
    source_ip = ip;
    scenario = scenario;
    events_count = events;
    created_at = created;
    expires_at = expires;
  })
  assemble id ip scenario _ _ _ = none

  abbrev pub parse_with : ℕ → Fields → PyInt → Option Fields → Option Parsed
  parse_with now alert id none = none
  parse_with now alert id (some source) =
      let ip = get_or source "ip" (text "") in
      if truthy ip
      then assemble id ip (or_else_json (get_or alert "scenario" null) (text "unknown"))
          (int_of (or_else_json (get_or alert "events_count" null) (number (pos 1))))
          (created_of now (
            time_of (
              or_else_json
                (or_else_json (get_or alert "created_at" null) (get_or alert "startAt" null))
                (text ""))))
          (expiry (or_else_json (get_or alert "decisions" null) (items no_items)))
      else none

  abbrev pub parse_fields : ℕ → Fields → Option PyInt → Option Parsed
  parse_fields now alert none = none
  parse_fields now alert (some (pos zero)) = none
  parse_fields now alert (some id) =
      parse_with now alert id
        (fields_of (or_else_json (get_or alert "source" null) (object no_fields)))

  -- `_parse_alert`; every exception gives `none`.
  unfoldable pub parse_alert : ℕ → Json → Option Parsed
  unfolding get_or time_of
  parse_alert now (object alert) =
      parse_fields now alert (int_of (get_or alert "id" (number (pos 0))))
  parse_alert now _ = none

-- A row of `DdosBanEvent`.
pub record BanEvent : Type 0 where
  pub parsed : Parsed
  pub country_code : Option String

unfoldable pub same_id : PyInt → PyInt → Bool
same_id (pos m) (pos n) = m =? n
same_id (negsuc m) (negsuc n) = m =? n
same_id _ _ = false

unfoldable pub has_id : PyInt → List BanEvent → Bool
has_id id [] = false
has_id id (e ∷ es) = same_id e.parsed.cs_alert_id id || has_id id es

-- `add` and `commit`. The column of the id is unique in the table (app/models.py), so that the
-- database answers a second row of one id with `IntegrityError`, which the code rolls back.
unfoldable pub insert_event : Option String → Parsed → List BanEvent → List BanEvent
insert_event country p table =
    if has_id p.cs_alert_id table
    then table
    else table ++ (record { parsed = p; country_code = country } ∷ [])

abbrev pub store_parsed : (Json → Option String) → Option Parsed → List BanEvent → List BanEvent
store_parsed country none table = table
store_parsed country (some p) table = insert_event (country p.source_ip) p table

-- What the container answers: it is missing or stopped, the command fails, prints nothing or no
-- JSON, or prints a JSON value.
pub data Answer : Type 0 where
  no_container stopped failed no_output no_json : Answer
  printed : Json → Answer

-- `isinstance(alerts, list)`; nothing is done with another value.
abbrev pub listed : Json → Items
listed (items later) = later
listed _ = no_items

module _ (strptime : String → String → Option Moment) (country : Json → Option String) where
  -- The loop of `_poll_once` over the alerts.
  unfoldable pub store_alerts : ℕ → Items → List BanEvent → List BanEvent
  store_alerts now no_items table = table
  store_alerts now (item a later) table =
      store_alerts now later (store_parsed country (parse_alert strptime now a) table)

  unfoldable pub poll_once : ℕ → Answer → List BanEvent → List BanEvent
  unfolding store_alerts
  poll_once now (printed alerts) table = store_alerts now (listed alerts) table
  poll_once now _ table = table
