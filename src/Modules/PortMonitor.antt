-- ===== src/Modules/PortMonitor.antt =====
-- app/modules/port_monitor.py: the alert about Docker ports that are open to the outside. Times are
-- microseconds. The reading and writing of a time as a text, the agent's reply, the mail server, the
-- database's lock and its commits are parameters; the text of the mail is left out.
pub mod Spacing
mod Tests
use wardnode.Base.{
  ℕ, ◌+◌, ◌*◌, String, Bool, true, false, not, ◌&&◌, ◌||◌, Option, none, some, List, [], ◌∷◌, ◌++◌,
  leb, all, keep, ◌==◌, if◌then◌else◌,
}
use wardnode.Base.Options.{◌>>=◌}
use wardnode.Json.{
  Json, Items, Fields, null, flag, number, fraction, text, items, object, no_fields, field, get_or,
  truthy, list_of,
}
use wardnode.Config.{Table, get, put, setting, is_on}

-- `_ALERT_INTERVAL_HOURS`
abbrev pub interval : ℕ
interval = 21600000000

abbrev pub alert_key : String
alert_key = "port_monitor_last_alert_at"

-- What one tick meets: its time, whether it gets the lock, the agent's reply, the addresses of the
-- administrators, whether the mail can be sent, whether the write to the table is committed, and
-- whether the audit log can be written.
pub record Tick : Type 0 where
  pub now : ℕ
  pub locked : Bool
  pub reply : Fields
  pub admins : List String
  pub mails : Bool
  pub commits : Bool

-- What a tick does: nothing, an exception, an alert that is sent, or leaving no time of a last
-- alert, after the agent told that no port is open (`calm`) or after its reply was a failure
-- (`unanswered`).
pub data Event : Type 0 where
  idle crashed calm unanswered : Event
  alert : ℕ → Event

-- `_get_exposed_ports`; `none` is an exception.
abbrev pub is_exposed : Fields → Bool
is_exposed p =
    not (truthy (get_or p "loopback_only" null)) && not (truthy (get_or p "blocked" null))

unfoldable pub exposed_among : List Json → Option (List Fields)
exposed_among [] = some []
exposed_among (object p ∷ rest) = do
  later ← exposed_among rest
  some (if is_exposed p then p ∷ later else later)
exposed_among (_ ∷ rest) = none

-- A text or a dictionary goes through its characters or keys, which have no `get`.
abbrev pub ports_of : Json → Option (List Json)
ports_of (items js) = some (list_of js)
ports_of j = if truthy j then none else some []

unfoldable pub get_exposed_ports : Fields → Option (List Fields)
unfolding exposed_among get_or
get_exposed_ports reply =
    if truthy (get_or reply "ok" null)
    then ports_of (get_or reply "ports" null) >>= exposed_among
    else some []

-- The fields that the mail names: `p['host_port']`, `p['proto']`, `p['container']`.
unfoldable pub has_key : Fields → String → Bool
has_key no_fields key = false
has_key (field k v fs) key = k == key || has_key fs key

abbrev pub has_names : Fields → Bool
has_names p = has_key p "host_port" && has_key p "proto" && has_key p "container"

module _ (from_iso : String → Option ℕ) (iso : ℕ → String) where
  -- `_read_last_alert`
  abbrev pub or_empty : Option String → String
  or_empty none = ""
  or_empty (some s) = s

  unfoldable pub read_last_alert : Table → Option ℕ
  unfolding setting
  read_last_alert t = from_iso (or_empty (setting t alert_key))

  -- `_should_alert`
  abbrev pub due : Option ℕ → ℕ → Bool
  due none now = true
  due (some last) now = leb (last + interval) now

  abbrev pub should_alert : Table → ℕ → Bool
  should_alert t now = due (read_last_alert t) now

  -- `_clear_last_alert`; a failed reply comes here too, as a list without ports.
  abbrev pub cleared : Bool → Event
  cleared true = calm
  cleared false = unanswered

  abbrev pub answered : Tick → Bool
  answered tick = truthy (get_or tick.reply "ok" null)

  abbrev pub clear_present : Tick → Table → Option String → Event × Table
  clear_present tick t none = (cleared (answered tick), t)
  clear_present tick t (some s) =
      if tick.commits
      then (cleared (answered tick), put t alert_key (some "") false)
      else (crashed, t)

  unfoldable pub clear_last_alert : Tick → Table → Event × Table
  unfolding setting put get_or
  clear_last_alert tick t = clear_present tick t (setting t alert_key)

  -- `_save_last_alert`; what raises there is only logged.
  abbrev pub save_last_alert : Tick → Table → Table
  save_last_alert tick t = if tick.commits then put t alert_key (some (iso tick.now)) false else t

  -- `smtp_configured`
  abbrev pub is_present : Option String → Bool
  is_present none = false
  is_present (some s) = true

  abbrev pub smtp_configured : Table → Bool
  smtp_configured t = is_present (setting t "smtp_host")

  -- `_send_alert`
  abbrev pub mail : Tick → Table → Event × Table
  mail tick t = if tick.mails then (alert tick.now, save_last_alert tick t) else (idle, t)

  abbrev pub mail_to : List String → Tick → List Fields → Table → Event × Table
  mail_to [] tick exposed t = (idle, t)
  mail_to (a ∷ rest) tick exposed t = if all has_names exposed then mail tick t else (crashed, t)

  unfoldable pub send_alert : Tick → List Fields → Table → Event × Table
  unfolding setting all has_key put
  send_alert tick exposed t =
      if smtp_configured t then mail_to tick.admins tick exposed t else (idle, t)

  -- `_run_check`
  abbrev pub check_exposed : Tick → Table → Option (List Fields) → Event × Table
  check_exposed tick t none = (crashed, t)
  check_exposed tick t (some []) = clear_last_alert tick t
  check_exposed tick t (some (p ∷ ps)) =
      if should_alert t tick.now then send_alert tick (p ∷ ps) t else (idle, t)

  unfoldable pub run_check : Tick → Table → Event × Table
  unfolding is_on get_exposed_ports read_last_alert clear_last_alert send_alert
  run_check tick t =
      if is_on t "module_wf_enabled"
      then check_exposed tick t (get_exposed_ports tick.reply)
      else (idle, t)

  -- `_run_locked` and the loop: the events of a run of ticks.
  unfoldable pub run_locked : Tick → Table → Event × Table
  unfolding run_check
  run_locked tick t = if tick.locked then run_check tick t else (idle, t)

  abbrev pub record_event : Event × Table → (Table → List Event) → List Event
  record_event (e, t) later = e ∷ later t

  unfoldable pub monitor : List Tick → Table → List Event
  unfolding run_locked
  monitor [] t = []
  monitor (tick ∷ ticks) t = record_event (run_locked tick t) (monitor ticks)
