-- ===== src/Proxy/SyslogWorker/Delivery.antt =====
-- Forwarding is at least once: no row that the cursor has passed was left out.
use wardnode.Base.{
  ℕ, suc, ◌+◌, ◌≤◌, ◌<◌, String, Bool, true, false, Option, none, some, List, [], ◌∷◌, ◌++◌, ◌≡◌,
  refl, arith, any, keep, take, All, All-map, All-append, All-take, All-keep, Bool-cases, inl, inr,
  if◌then◌else◌, ltb, ◌==◌, subst, sym, ◌∙◌,
}
use wardnode.Text.{pos}
use wardnode.Proxy.SyslogWorker.{
  batch_size, Stream, Outcome, sent, os_error, raised, get_cursor, set_cursor, initialised, pending,
  next_batch, send_each, last_of, Forwarded, settle, forward_rows, forward, State, skipped,
  telemetry, problem_of, after_audit, after_modsec, run_tick, Problem, waf_send,
}
use wardnode.Proxy.SyslogWorker.Streams.{
  holds, IsSorted, holds-append, holds-keep, holds-keep_only, All-keep_any, IsSorted-keep,
  IsSorted-snoc, last_of-All, final, holds-take,
}

-- The table is in order and holds issued ids only; the cursor is one of them, not before the
-- start, and every row of the table after the start and up to the cursor was delivered.
pub record IsCovered (start : ℕ) (s : Stream) : Type 0 where
  pub reached : ℕ
  pub reads : s.cursor ≡ some (pos reached)
  pub from_start : start ≤ reached
  pub to_issued : reached ≤ s.issued
  pub rows_issued : All (λ k. k ≤ s.issued) s.rows
  pub sorted : IsSorted s.rows
  pub covered :
      (id : ℕ) → holds id s.rows ≡ true → start < id → id ≤ reached → holds id s.delivered ≡ true

send_each_sent :
    (network : ℕ → Outcome) (ids : List ℕ)
    → (send_each network ids).1 ≡ sent
    → (send_each network ids).0 ≡ ids
unfolding send_each
send_each_sent network [] h = refl
send_each_sent network (id ∷ ids) h = ground (arith, send_each_sent network ids)

module _ (start : ℕ) (s : Stream) (h : IsCovered start s) where
  open h use {reached, reads, from_start, to_issued, rows_issued, sorted, covered}

  after_cursor : List ℕ
  after_cursor = keep (ltb reached) s.rows

  next_batch_lem : next_batch s ≡ take batch_size (keep (ltb reached) s.rows)
  unfolding next_batch pending get_cursor
  next_batch_lem = rw reads refl

  -- Rows delivered without a move of the cursor keep it.
  delivered-IsCovered :
      (now : List ℕ) → IsCovered start (record s { delivered = s.delivered ++ now })
  delivered-IsCovered now = record {
    reached = reached;
    reads = reads;
    from_start = from_start;
    to_issued = to_issued;
    rows_issued = rows_issued;
    sorted = sorted;
    covered = λ id k l m. rw (holds-append id s.delivered now, covered id k l m) refl;
  }

  module _ (id : ℕ) (ids : List ℕ) (e : next_batch s ≡ id ∷ ids) where
    batch-All : (P : ℕ → Type 0) → All P (keep (ltb reached) s.rows) → All P (id ∷ ids)
    batch-All P k =
        subst (All P) (sym next_batch_lem ∙ e) (All-take P batch_size (keep (ltb reached) s.rows) k)

    batch-holds :
        (i : ℕ)
        → holds i s.rows ≡ true
        → reached < i
        → i ≤ last_of id ids
        → holds i (id ∷ ids) ≡ true
    batch-holds i k l m =
        subst (λ ys. i ≤ final ys → holds i ys ≡ true) (sym next_batch_lem ∙ e)
          (holds-take 499 i (keep (ltb reached) s.rows) (IsSorted-keep (ltb reached) s.rows sorted)
            (holds-keep (ltb reached) i s.rows (ground (arith, l)) k))
          m

    batch-IsAfter : All (λ k. reached < k) (id ∷ ids)
    batch-IsAfter =
        batch-All (λ k. reached < k)
          (All-map (λ k. ltb reached k ≡ true) (λ k. reached < k) (λ k t. ground (arith, t))
            (keep (ltb reached) s.rows) (All-keep (ltb reached) s.rows))

    batch-IsIssued : All (λ k. k ≤ s.issued) (id ∷ ids)
    batch-IsIssued =
        batch-All (λ k. k ≤ s.issued)
          (All-keep_any (λ k. k ≤ s.issued) (ltb reached) s.rows rows_issued)

    -- The cursor moves past a batch that was delivered.
    moved-IsCovered :
        IsCovered start
          (set_cursor (record s { delivered = s.delivered ++ (id ∷ ids) }) (last_of id ids))
    unfolding set_cursor
    moved-IsCovered = record {
      reached = last_of id ids;
      reads = refl;
      from_start = omega (
        arith,
        from_start,
        last_of-All (λ k. reached < k) id ids batch-IsAfter.0 batch-IsAfter.1,
      );
      to_issued = last_of-All (λ k. k ≤ s.issued) id ids batch-IsIssued.0 batch-IsIssued.1;
      rows_issued = rows_issued;
      sorted = sorted;
      covered = λ i k l m. elim (Bool-cases (ltb reached i)) [
        | inl after ↦
            rw (holds-append i s.delivered (id ∷ ids))
              (ground (arith, batch-holds i k (ground (arith, after)) m))
        | inr before ↦
            rw (holds-append i s.delivered (id ∷ ids))
              (ground (arith, covered i k l (ground (arith, before))))
      ];
    }

  settle-IsCovered :
      (id : ℕ) (ids now : List ℕ) (o : Outcome)
      → next_batch s ≡ id ∷ ids
      → (o ≡ sent → now ≡ id ∷ ids)
      → IsCovered start (settle s id ids (now, o)).stream
  settle-IsCovered id ids now sent e whole = rw (whole refl) (moved-IsCovered id ids e)
  settle-IsCovered id ids now os_error e whole = delivered-IsCovered now
  settle-IsCovered id ids now raised e whole = delivered-IsCovered now

  forward_rows-IsCovered :
      (network : ℕ → Outcome) (ids : List ℕ)
      → next_batch s ≡ ids
      → IsCovered start (forward_rows network s ids).stream
  forward_rows-IsCovered network [] e = h
  forward_rows-IsCovered network (id ∷ ids) e =
      settle-IsCovered id ids (send_each network (id ∷ ids)).0 (send_each network (id ∷ ids)).1 e
        (send_each_sent network (id ∷ ids))

  pub forward-IsCovered : (network : ℕ → Outcome) → IsCovered start (forward network s).stream
  unfolding forward get_cursor
  forward-IsCovered network =
      let ready : initialised (get_cursor s) s ≡ s = rw reads refl in
      rw ready (forward_rows-IsCovered network (next_batch s) refl)

module _ (first second : ℕ) where
  -- Both streams of a state keep what they promise.
  abbrev pub IsForwarded : State → Type 0
  IsForwarded st = IsCovered first st.modsec × IsCovered second st.audit

  telemetry-IsForwarded :
      (st : State) (total : ℕ) (p : Option Problem) (now : ℕ)
      → IsForwarded st
      → IsForwarded (telemetry st total p now)
  telemetry-IsForwarded st total none now h = h
  telemetry-IsForwarded st total (some p) now h = h

  after_audit-IsForwarded :
      (st : State) (now : ℕ) (m : Forwarded) (s : Stream) (n : ℕ) (o : Outcome)
      → IsCovered first m.stream
      → IsCovered second s
      → IsForwarded (after_audit st now m (record { stream = s; count = n; outcome = o }))
  after_audit-IsForwarded st now m s n sent h k =
      telemetry-IsForwarded (record st { modsec = m.stream; audit = s })
        (st.sent_total + m.count + n) (problem_of m.outcome waf_send none) now (h, k)
  after_audit-IsForwarded st now m s n os_error h k = (h, k)
  after_audit-IsForwarded st now m s n raised h k = (h, k)

  audited-IsForwarded :
      (network : ℕ → Outcome) (st : State) (now : ℕ) (audited : Bool) (m : Forwarded)
      → IsCovered first m.stream
      → IsCovered second st.audit
      → IsForwarded
          (after_audit st now m (if audited then forward network st.audit else skipped st.audit))
  audited-IsForwarded network st now true m h k =
      let a : Forwarded = forward network st.audit in
      after_audit-IsForwarded st now m a.stream a.count a.outcome h
        (forward-IsCovered second st.audit k network)
  audited-IsForwarded network st now false m h k =
      after_audit-IsForwarded st now m st.audit 0 sent h k

  after_modsec-IsForwarded :
      (network : ℕ → Outcome) (st : State) (now : ℕ) (audited : Bool) (s : Stream) (n : ℕ)
      (o : Outcome)
      → IsCovered first s
      → IsCovered second st.audit
      → IsForwarded
          (after_modsec network st now audited (record { stream = s; count = n; outcome = o }))
  after_modsec-IsForwarded network st now audited s n raised h k = (h, k)
  after_modsec-IsForwarded network st now audited s n sent h k =
      audited-IsForwarded network st now audited (record { stream = s; count = n; outcome = sent })
        h k
  after_modsec-IsForwarded network st now audited s n os_error h k =
      audited-IsForwarded network st now audited
        (record { stream = s; count = n; outcome = os_error }) h k

  run_tick-IsForwarded :
      (waf audit : ℕ → Outcome) (sources : List String) (now : ℕ) (st : State)
      → IsForwarded st
      → IsForwarded (run_tick waf audit sources now st)
  unfolding run_tick
  run_tick-IsForwarded waf audit sources now st h =
      elim (Bool-cases (any (λ s. s == "modsecurity") sources)) [
        | inl on ↦
            let m : Forwarded = forward waf st.modsec in
            rw on (
              after_modsec-IsForwarded audit st now (any (λ s. s == "audit") sources) m.stream
                m.count m.outcome (forward-IsCovered first st.modsec h.0 waf) h.1)
        | inr off ↦ rw off (
            after_modsec-IsForwarded audit st now (any (λ s. s == "audit") sources) st.modsec 0 sent
              h.0 h.1)
      ]

-- What happens to the tables and the cursors: a row is inserted, under an id that was not issued
-- before; rows are purged; a tick runs.
pub data Event : Type 0 where
  insert_modsec insert_audit : ℕ → Event
  purge_modsec purge_audit : (ℕ → Bool) → Event
  tick : (ℕ → Outcome) → (ℕ → Outcome) → List String → ℕ → Event

unfoldable pub insert : ℕ → Stream → Stream
insert gap s = record s {
  rows = s.rows ++ ((s.issued + suc gap) ∷ []);
  issued = s.issued + suc gap;
}

unfoldable pub purge : (ℕ → Bool) → Stream → Stream
purge p s = record s { rows = keep p s.rows }

unfoldable pub happen : Event → State → State
happen (insert_modsec gap) st = record st { modsec = insert gap st.modsec }
happen (insert_audit gap) st = record st { audit = insert gap st.audit }
happen (purge_modsec p) st = record st { modsec = purge p st.modsec }
happen (purge_audit p) st = record st { audit = purge p st.audit }
happen (tick waf audit sources now) st = run_tick waf audit sources now st

unfoldable pub history : List Event → State → State
history [] st = st
history (e ∷ es) st = history es (happen e st)

module _ (start : ℕ) (s : Stream) (h : IsCovered start s) where
  open h use {reached, reads, from_start, to_issued, rows_issued, sorted, covered}

  insert-IsCovered : (gap : ℕ) → IsCovered start (insert gap s)
  unfolding insert holds
  insert-IsCovered gap = record {
    reached = reached;
    reads = reads;
    from_start = from_start;
    to_issued = omega (arith, to_issued);
    rows_issued =
        All-append (λ k. k ≤ s.issued + suc gap) s.rows ((s.issued + suc gap) ∷ [])
          (All-map (λ k. k ≤ s.issued) (λ k. k ≤ s.issued + suc gap) (λ k l. omega (arith, l))
            s.rows rows_issued)
          (omega arith, tt);
    sorted = IsSorted-snoc s.rows (s.issued + suc gap) sorted (
        All-map (λ k. k ≤ s.issued) (λ k. k < s.issued + suc gap) (λ k l. omega (arith, l)) s.rows
          rows_issued);
    covered = λ id k l m.
        covered id
          (ground (arith, holds-append id s.rows ((s.issued + suc gap) ∷ []), to_issued, m, k)) l m;
  }

  purge-IsCovered : (p : ℕ → Bool) → IsCovered start (purge p s)
  unfolding purge
  purge-IsCovered p = record {
    reached = reached;
    reads = reads;
    from_start = from_start;
    to_issued = to_issued;
    rows_issued = All-keep_any (λ k. k ≤ s.issued) p s.rows rows_issued;
    sorted = IsSorted-keep p s.rows sorted;
    covered = λ id k l m. covered id (holds-keep_only p id s.rows k) l m;
  }

module _ (first second : ℕ) where
  happen-IsForwarded :
      (e : Event) (st : State)
      → IsForwarded first second st
      → IsForwarded first second (happen e st)
  unfolding happen
  happen-IsForwarded (insert_modsec gap) st h = (insert-IsCovered first st.modsec h.0 gap, h.1)
  happen-IsForwarded (insert_audit gap) st h = (h.0, insert-IsCovered second st.audit h.1 gap)
  happen-IsForwarded (purge_modsec p) st h = (purge-IsCovered first st.modsec h.0 p, h.1)
  happen-IsForwarded (purge_audit p) st h = (h.0, purge-IsCovered second st.audit h.1 p)
  happen-IsForwarded (tick waf audit sources now) st h =
      run_tick-IsForwarded first second waf audit sources now st h

  -- Whatever rows are inserted and purged and however the sends of each tick end: when both
  -- streams were covered from a start, they still are, so every row of a table after the start
  -- and up to the cursor was sent.
  pub history-IsForwarded :
      (es : List Event) (st : State)
      → IsForwarded first second st
      → IsForwarded first second (history es st)
  unfolding history
  history-IsForwarded [] st h = h
  history-IsForwarded (e ∷ es) st h =
      history-IsForwarded es (happen e st) (happen-IsForwarded e st h)
