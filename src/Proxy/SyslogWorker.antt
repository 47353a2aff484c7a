-- ===== src/Proxy/SyslogWorker.antt =====
-- app/proxy/syslog_worker.py: one tick of the forwarder. A stream is one of the two log tables
-- with its cursor; the table is kept in the order of its ids, which the query asks for. The
-- cursor is the setting as `int` reads it, `none` where it is missing or not a number. What the
-- collector has been sent is recorded, and the network is a function that says how each `send`
-- of the tick ends. The frame that is sent is that of SyslogForwarder.
pub mod Streams
pub mod Delivery
pub mod Drain
mod Tests
use wardnode.Base.{
  ℕ, zero, suc, ◌+◌, max, String, Bool, true, false, Option, none, some, List, [], ◌∷◌, ◌++◌, ltb,
  any, keep, length, take, if◌then◌else◌, ◌==◌,
}
use wardnode.Text.{PyInt, pos, negsuc}

-- `_BATCH_SIZE`
abbrev pub batch_size : ℕ
batch_size = 500

pub record Stream : Type 0 where
  pub rows : List ℕ
  pub issued : ℕ
  pub cursor : Option PyInt
  pub delivered : List ℕ

-- How `sender.send` ends: it returns, raises `OSError`, or raises anything else.
pub data Outcome : Type 0 where
  sent os_error raised : Outcome

-- `_get_cursor`; -1 stands for a cursor that is missing or corrupt.
unfoldable pub get_cursor : Stream → PyInt
get_cursor s = elim s.cursor [ none ↦ negsuc 0 | some c ↦ c ]

unfoldable pub set_cursor : Stream → ℕ → Stream
set_cursor s id = record s { cursor = some (pos id) }

-- `func.max(model.id)`, or 0
unfoldable pub max_id : List ℕ → ℕ
max_id [] = 0
max_id (id ∷ ids) = max id (max_id ids)

-- `_bootstrap_cursor`
unfoldable pub bootstrap_cursor : Stream → Stream
unfolding set_cursor max_id
bootstrap_cursor s = set_cursor s (max_id s.rows)

abbrev pub initialised : PyInt → Stream → Stream
initialised (pos c) s = s
initialised (negsuc zero) s = bootstrap_cursor s
initialised (negsuc (suc n)) s = s

-- `model.id > cursor`
abbrev pub is_after : PyInt → ℕ → Bool
is_after (pos c) id = ltb c id
is_after (negsuc c) id = true

-- The query: what is after the cursor, at most a batch.
unfoldable pub pending : Stream → List ℕ
unfolding get_cursor
pending s = keep (is_after (get_cursor s)) s.rows

unfoldable pub next_batch : Stream → List ℕ
next_batch s = take batch_size (pending s)

-- The loop over the rows: what was sent, and how the last `send` ended.
unfoldable pub send_each : (ℕ → Outcome) → List ℕ → List ℕ × Outcome
send_each network [] = ([], sent)
send_each network (id ∷ ids) =
    let rest = send_each network ids in
    elim (network id) [
      | sent ↦ (id ∷ rest.0, rest.1)
      | os_error ↦ ([], os_error)
      | raised ↦ ([], raised)
    ]

-- `rows[-1].id`, of a batch that starts with the given id
unfoldable pub last_of : ℕ → List ℕ → ℕ
last_of id [] = id
last_of id (j ∷ ids) = last_of j ids

-- What forwarding one source leaves: the stream, the rows it counts and how it ended.
pub record Forwarded : Type 0 where
  pub stream : Stream
  pub count : ℕ
  pub outcome : Outcome

-- The cursor moves only when the whole batch was sent.
abbrev pub settle : Stream → ℕ → List ℕ → List ℕ × Outcome → Forwarded
settle s id ids (now, sent) = record {
  stream = set_cursor (record s { delivered = s.delivered ++ now }) (last_of id ids);
  count = length (id ∷ ids);
  outcome = sent;
}
settle s id ids (now, other) = record {
  stream = record s { delivered = s.delivered ++ now };
  count = 0;
  outcome = other;
}

abbrev pub forward_rows : (ℕ → Outcome) → Stream → List ℕ → Forwarded
forward_rows network s [] = record { stream = s; count = 0; outcome = sent }
forward_rows network s (id ∷ ids) = settle s id ids (send_each network (id ∷ ids))

-- The body of `_run_tick` for one source.
unfoldable pub forward : (ℕ → Outcome) → Stream → Forwarded
forward network s =
    let ready = initialised (get_cursor s) s in forward_rows network ready (next_batch ready)

-- Which source's send failed, or that the tick was left by another exception.
pub data Problem : Type 0 where
  waf_send audit_send aborted : Problem

pub record State : Type 0 where
  pub modsec : Stream
  pub audit : Stream
  pub sent_total : ℕ
  pub last_error : Option Problem
  pub last_sent_at : Option ℕ

abbrev pub skipped : Stream → Forwarded
skipped s = record { stream = s; count = 0; outcome = sent }

abbrev pub problem_of : Outcome → Problem → Option Problem → Option Problem
problem_of sent p before = before
problem_of os_error p before = some p
problem_of raised p before = some aborted

-- An exception other than `OSError` leaves the tick: `_run_locked_body` writes it as the last
-- error and commits, with the cursor that was already written and without the total.
abbrev pub abort : State → Stream → Stream → State
abort st m a = record st { modsec = m; audit = a; last_error = some aborted }

abbrev pub telemetry : State → ℕ → Option Problem → ℕ → State
telemetry st total none now = record st {
  sent_total = total;
  last_error = none;
  last_sent_at = some now;
}
telemetry st total (some p) now = record st { sent_total = total; last_error = some p }

abbrev pub after_audit : State → ℕ → Forwarded → Forwarded → State
after_audit st now m a = elim a.outcome [
  | raised ↦ abort st m.stream a.stream
  | o ↦
      telemetry (record st { modsec = m.stream; audit = a.stream })
        (st.sent_total + m.count + a.count)
        (problem_of o audit_send (problem_of m.outcome waf_send none)) now
]

abbrev pub after_modsec : (ℕ → Outcome) → State → ℕ → Bool → Forwarded → State
after_modsec network st now audited m = elim m.outcome [
  | raised ↦ abort st m.stream st.audit
  | o ↦ after_audit st now m (if audited then forward network st.audit else skipped st.audit)
]

-- `_run_tick`, with one network for each table.
unfoldable pub run_tick : (ℕ → Outcome) → (ℕ → Outcome) → List String → ℕ → State → State
run_tick waf_network audit_network sources now st =
    after_modsec audit_network st now (any (λ s. s == "audit") sources) (
      if any (λ s. s == "modsecurity") sources
      then forward waf_network st.modsec
      else skipped st.modsec)
