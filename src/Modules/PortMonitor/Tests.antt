-- ===== src/Modules/PortMonitor/Tests.antt =====
-- Ticks of the monitor.
use wardnode.Base.{
  ℕ, zero, suc, ap, String, true, false, ◌≡◌, refl, Option, none, some, List, [], ◌∷◌, all,
}
use wardnode.Json.{Fields, field, no_fields, item, no_items, flag, text, items, object, get_or}
use wardnode.Config.{Table, setting, get, find, put, is_on}
use wardnode.Modules.PortMonitor.{
  Tick, alert, calm, unanswered, idle, get_exposed_ports, exposed_among, has_key, read_last_alert,
  clear_last_alert, send_alert, run_check, run_locked, monitor,
}
use wardnode.Modules.PortMonitor.Spacing.{IsSpaced, monitor-IsSpaced}

-- A time as a text of that length and one more, and back.
unary : ℕ → String
unary zero = ""
unary (suc n) = String.◌∷◌ "I" (unary n)

size : String → ℕ
size String.[] = 0
size (String.◌∷◌ c s) = suc (size s)

abbrev iso : ℕ → String
iso n = String.◌∷◌ "T" (unary n)

abbrev from_iso : String → Option ℕ
from_iso String.[] = none
from_iso (String.◌∷◌ c s) = some (size s)

size-unary : (n : ℕ) → size (unary n) ≡ n
unfolding size unary
size-unary zero = refl
size-unary (suc n) = ap suc (size-unary n)

abbrev a_port : Fields
a_port =
    field "host_port" (text "8080")
      (field "proto" (text "tcp") (field "container" (text "web") no_fields))

abbrev open_reply : Fields
open_reply =
    field "ok" (flag true) (field "ports" (items (item (object a_port) no_items)) no_fields)

abbrev closed_reply : Fields
closed_reply = field "ok" (flag true) (field "ports" (items no_items) no_fields)

abbrev failed_reply : Fields
failed_reply = field "ok" (flag false) no_fields

abbrev tick_at : ℕ → Fields → Tick
tick_at n reply = record {
  now = n;
  locked = true;
  reply = reply;
  admins = "admin@example.org" ∷ [];
  mails = true;
  commits = true;
}

abbrev ticks : List Tick
ticks =
    tick_at 3 open_reply ∷ tick_at 5 open_reply ∷ tick_at 6 closed_reply ∷ tick_at 7 open_reply ∷ []

abbrev table : Table
table =
    put (put [] "module_wf_enabled" (some "1") false) "smtp_host" (some "mail.example.org") false

monitor_test : monitor from_iso iso ticks table ≡ alert 3 ∷ idle ∷ calm ∷ alert 7 ∷ []
unfolding monitor run_locked run_check is_on get find put setting get_exposed_ports exposed_among
    get_or has_key read_last_alert clear_last_alert send_alert all size unary
monitor_test = refl

-- A failed reply between two ticks with open ports brings the second alert at once.
unanswered_test :
    monitor from_iso iso
      (tick_at 3 open_reply ∷ tick_at 5 failed_reply ∷ tick_at 6 open_reply ∷ [])
      table
    ≡ alert 3 ∷ unanswered ∷ alert 6 ∷ []
unfolding monitor run_locked run_check is_on get find put setting get_exposed_ports exposed_among
    get_or has_key read_last_alert clear_last_alert send_alert all size unary
unanswered_test = refl

monitor-IsSpaced_example :
    IsSpaced (read_last_alert from_iso iso table) (monitor from_iso iso ticks table)
monitor-IsSpaced_example =
    monitor-IsSpaced from_iso iso refl (λ n. ap some (size-unary n)) ticks table
      (refl, (refl, (refl, (refl, tt))))
