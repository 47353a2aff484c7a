-- ===== src/Proxy/SyslogWorker/Tests.antt =====
-- A forwarder run on two small tables, and the theorems at those inputs.
use wardnode.Base.{
  ℕ, ◌≤◌, String, true, none, some, List, [], ◌∷◌, ◌≡◌, refl, arith, any, keep, length, ltb, ◌=?◌,
  if◌then◌else◌,
}
use wardnode.Text.{pos}
use wardnode.Proxy.SyslogWorker.{
  Stream, Outcome, sent, os_error, raised, get_cursor, set_cursor, bootstrap_cursor, pending,
  next_batch, send_each, last_of, forward, State, run_tick, max_id, aborted,
}
use wardnode.Proxy.SyslogWorker.Streams.{holds}
use wardnode.Proxy.SyslogWorker.Delivery.{
  IsCovered, IsForwarded, Event, insert_audit, purge_modsec, tick, history, history-IsForwarded,
}
use wardnode.Proxy.SyslogWorker.Drain.{drain, drain-delivered}

abbrev waf : Stream
waf = record { rows = 3 ∷ 5 ∷ 9 ∷ []; issued = 9; cursor = some (pos 3); delivered = [] }

abbrev audit : Stream
audit = record { rows = 1 ∷ 2 ∷ []; issued = 4; cursor = some (pos 2); delivered = [] }

abbrev before : State
before = record {
  modsec = waf;
  audit = audit;
  sent_total = 7;
  last_error = none;
  last_sent_at = none;
}

waf-IsCovered : IsCovered 3 waf
unfolding holds
waf-IsCovered = record {
  reached = 3;
  reads = refl;
  from_start = omega arith;
  to_issued = omega arith;
  rows_issued = omega arith;
  sorted = omega arith;
  covered = λ id h k l. ground arith;
}

audit-IsCovered : IsCovered 2 audit
unfolding holds
audit-IsCovered = record {
  reached = 2;
  reads = refl;
  from_start = omega arith;
  to_issued = omega arith;
  rows_issued = omega arith;
  sorted = omega arith;
  covered = λ id h k l. ground arith;
}

abbrev fine : ℕ → Outcome
fine id = sent

abbrev at_nine : ℕ → Outcome
at_nine id = if id =? 9 then os_error else sent

abbrev broken : ℕ → Outcome
broken id = raised

abbrev both : List String
both = "modsecurity" ∷ "audit" ∷ []

-- The second send fails, so the cursor stays and the first row will be sent again.
failed_send : (forward at_nine waf).stream ≡ record waf { delivered = 5 ∷ [] }
unfolding forward get_cursor next_batch pending keep send_each
failed_send = refl

whole_batch : run_tick fine fine both 100 before ≡ record before {
  modsec = record waf { cursor = some (pos 9); delivered = 5 ∷ 9 ∷ [] };
  sent_total = 9;
  last_sent_at = some 100;
}
unfolding run_tick any forward get_cursor next_batch pending keep send_each set_cursor last_of
whole_batch = refl

-- Another exception leaves the tick: the total is not written.
broken_tick : (run_tick broken fine both 100 before).last_error ≡ some aborted
unfolding run_tick any forward get_cursor next_batch pending keep send_each set_cursor last_of
broken_tick = refl

first_tick : (forward fine (record waf { cursor = none })).stream.cursor ≡ some (pos 9)
unfolding forward bootstrap_cursor max_id get_cursor next_batch pending keep send_each set_cursor
    last_of
first_tick = refl

abbrev events : List Event
events =
    tick at_nine fine both 100
    ∷ insert_audit 0
    ∷ purge_modsec (λ id. ltb 3 id)
    ∷ tick fine fine both 110
    ∷ []

history-IsForwarded_example : IsForwarded 3 2 (history events before)
history-IsForwarded_example = history-IsForwarded 3 2 events before (waf-IsCovered, audit-IsCovered)

one_tick : length (pending waf) ≤ 500
unfolding pending keep get_cursor
one_tick = omega arith

nine_in_table : holds 9 waf.rows ≡ true
unfolding holds
nine_in_table = refl

drain-delivered_example : holds 9 (drain 1 waf).delivered ≡ true
drain-delivered_example =
    drain-delivered 1 3 waf 9 waf-IsCovered one_tick nine_in_table (omega arith)
