-- ===== src/Modules/PortMonitor/Spacing.antt =====
-- Alerts are six hours apart while the agent answers that ports are open.
use wardnode.Base.{
  ℕ, ◌+◌, ◌≤◌, String, Bool, true, false, ◌≡◌, refl, sym, ap, ◌∙◌, subst, Option, none, some, List,
  [], ◌∷◌, leb→le, eq_iff, ◌==◌, if◌then◌else◌, all, All, Bool-cases, inl, inr,
}
use wardnode.Json.{Fields}
use wardnode.Config.{Table, put, setting, is_on}
use wardnode.Config.Laws.{get-put}
use wardnode.Modules.PortMonitor.{
  interval, alert_key, Tick, Event, idle, crashed, calm, unanswered, alert, cleared, answered,
  get_exposed_ports, has_names, read_last_alert, due, should_alert, clear_present, clear_last_alert,
  smtp_configured, mail, mail_to, send_alert, check_exposed, run_check, run_locked, record_event,
  monitor,
}

abbrev IsAfter : Option ℕ → ℕ → Type 0
IsAfter none t = Unit
IsAfter (some last) t = last + interval ≤ t

-- Every alert is six hours or more after the one before it, if no tick between found all ports
-- closed or got a failure for a reply.
abbrev pub IsSpaced : Option ℕ → List Event → Type 0
IsSpaced last [] = Unit
IsSpaced last (alert t ∷ es) = IsAfter last t × IsSpaced (some t) es
IsSpaced last (calm ∷ es) = IsSpaced none es
IsSpaced last (unanswered ∷ es) = IsSpaced none es
IsSpaced last (_ ∷ es) = IsSpaced last es

module _ (from_iso : String → Option ℕ) (iso : ℕ → String) where
  -- What a tick leaves as the time of the last alert.
  abbrev IsLeft : Option ℕ → Event → Option ℕ → Type 0
  IsLeft last (alert t) after = IsAfter last t × (after ≡ some t)
  IsLeft last calm after = after ≡ none
  IsLeft last unanswered after = after ≡ none
  IsLeft last _ after = after ≡ last

  abbrev Leaves : Table → Event × Table → Type 0
  Leaves t r = IsLeft (read_last_alert from_iso iso t) r.0 (read_last_alert from_iso iso r.1)

  cleared-IsLeft :
      (b : Bool) (last after : Option ℕ) → after ≡ none → IsLeft last (cleared from_iso iso b) after
  cleared-IsLeft true last after h = h
  cleared-IsLeft false last after h = h

  if-Leaves :
      (t : Table) (b : Bool) (x y : Event × Table)
      → Leaves t x
      → Leaves t y
      → Leaves t (if b then x else y)
  if-Leaves t true x y h k = h
  if-Leaves t false x y h k = k

  read-put :
      (t : Table) (v : String)
      → read_last_alert from_iso iso (put t alert_key (some v) false) ≡ from_iso v
  unfolding read_last_alert setting
  read-put t v = elim (Bool-cases (v == "")) [
    | inl e ↦
        rw (get-put t alert_key alert_key (some v) false, e) (ap from_iso (sym ((eq_iff v "").0 e)))
    | inr e ↦ rw (get-put t alert_key alert_key (some v) false, e) refl
  ]

  module _ (from_iso-empty : from_iso "" ≡ none)
      (from_iso-iso : (n : ℕ) → from_iso (iso n) ≡ some n) where
    due-IsAfter : (last : Option ℕ) (now : ℕ) → due from_iso iso last now ≡ true → IsAfter last now
    due-IsAfter none now h = tt
    due-IsAfter (some last) now h = leb→le (last + interval) now h

    setting-read :
        (t : Table) (o : Option String)
        → setting t alert_key ≡ o
        → o ≡ none
        → read_last_alert from_iso iso t ≡ none
    unfolding read_last_alert
    setting-read t o h k = rw (h, k) from_iso-empty

    clear-Leaves :
        (tick : Tick) (t : Table) (o : Option String)
        → setting t alert_key ≡ o
        → Leaves t (clear_present from_iso iso tick t o)
    clear-Leaves tick t none h =
        cleared-IsLeft (answered from_iso iso tick) (read_last_alert from_iso iso t)
          (read_last_alert from_iso iso t) (setting-read t none h refl)
    clear-Leaves tick t (some s) h = elim (Bool-cases tick.commits) [
      | inl e ↦
          let u = put t alert_key (some "") false in
          rw e (
            cleared-IsLeft (answered from_iso iso tick) (read_last_alert from_iso iso t)
              (read_last_alert from_iso iso u) (read-put t "" ∙ from_iso-empty))
      | inr e ↦ rw e refl
    ]

    mail-Leaves :
        (tick : Tick) (t : Table)
        → tick.commits ≡ true
        → IsAfter (read_last_alert from_iso iso t) tick.now
        → Leaves t (mail from_iso iso tick t)
    mail-Leaves tick t c h = elim (Bool-cases tick.mails) [
      | inl e ↦ rw (e, c) (h, read-put t (iso tick.now) ∙ from_iso-iso tick.now)
      | inr e ↦ rw e refl
    ]

    mail_to-Leaves :
        (admins : List String) (tick : Tick) (exposed : List Fields) (t : Table)
        → tick.commits ≡ true
        → IsAfter (read_last_alert from_iso iso t) tick.now
        → Leaves t (mail_to from_iso iso admins tick exposed t)
    mail_to-Leaves [] tick exposed t c h = refl
    mail_to-Leaves (a ∷ rest) tick exposed t c h = elim (Bool-cases (all has_names exposed)) [
      | inl e ↦ rw e (mail-Leaves tick t c h)
      | inr e ↦ rw e refl
    ]

    send_alert-Leaves :
        (tick : Tick) (exposed : List Fields) (t : Table)
        → tick.commits ≡ true
        → IsAfter (read_last_alert from_iso iso t) tick.now
        → Leaves t (send_alert from_iso iso tick exposed t)
    unfolding send_alert
    send_alert-Leaves tick exposed t c h = elim (Bool-cases (smtp_configured from_iso iso t)) [
      | inl e ↦ rw e (mail_to-Leaves tick.admins tick exposed t c h)
      | inr e ↦ rw e refl
    ]

    check_exposed-Leaves :
        (tick : Tick) (t : Table) (o : Option (List Fields))
        → tick.commits ≡ true
        → Leaves t (check_exposed from_iso iso tick t o)
    unfolding clear_last_alert
    check_exposed-Leaves tick t none c = refl
    check_exposed-Leaves tick t (some []) c = clear-Leaves tick t (setting t alert_key) refl
    check_exposed-Leaves tick t (some (p ∷ ps)) c =
        elim (Bool-cases (should_alert from_iso iso t tick.now)) [
          | inl e ↦ rw e (
              send_alert-Leaves tick (p ∷ ps) t c
                (due-IsAfter (read_last_alert from_iso iso t) tick.now e))
          | inr e ↦ rw e refl
        ]

    run_locked-Leaves :
        (tick : Tick) (t : Table) → tick.commits ≡ true → Leaves t (run_locked from_iso iso tick t)
    unfolding run_locked run_check
    run_locked-Leaves tick t c =
        if-Leaves t tick.locked (run_check from_iso iso tick t) (idle, t)
          (if-Leaves t (is_on t "module_wf_enabled")
            (check_exposed from_iso iso tick t (get_exposed_ports tick.reply)) (idle, t)
            (check_exposed-Leaves tick t (get_exposed_ports tick.reply) c) refl)
          refl

    record_event-IsSpaced :
        (t : Table) (r : Event × Table) (later : Table → List Event)
        → Leaves t r
        → ((u : Table) → IsSpaced (read_last_alert from_iso iso u) (later u))
        → IsSpaced (read_last_alert from_iso iso t) (record_event from_iso iso r later)
    record_event-IsSpaced t (alert n, u) later h k =
        (h.0, subst (λ l. IsSpaced l (later u)) h.1 (k u))
    record_event-IsSpaced t (calm, u) later h k = subst (λ l. IsSpaced l (later u)) h (k u)
    record_event-IsSpaced t (unanswered, u) later h k = subst (λ l. IsSpaced l (later u)) h (k u)
    record_event-IsSpaced t (idle, u) later h k = subst (λ l. IsSpaced l (later u)) h (k u)
    record_event-IsSpaced t (crashed, u) later h k = subst (λ l. IsSpaced l (later u)) h (k u)

    -- If the writes of the ticks are committed, and a time is read from a text as it was written and
    -- not from the empty text, then, whatever the agent replies and the mail server does, every
    -- alert about open ports is six hours or more after the alert before it, unless at a tick between
    -- the agent told that no port is open or its reply was a failure; the first is so after the time
    -- that the table holds at the start.
    pub monitor-IsSpaced :
        (ticks : List Tick) (t : Table)
        → All (λ tick. tick.commits ≡ true) ticks
        → IsSpaced (read_last_alert from_iso iso t) (monitor from_iso iso ticks t)
    unfolding monitor
    monitor-IsSpaced [] t h = tt
    monitor-IsSpaced (tick ∷ ticks) t h =
        record_event-IsSpaced t (run_locked from_iso iso tick t) (monitor from_iso iso ticks)
          (run_locked-Leaves tick t h.0) (λ u. monitor-IsSpaced ticks u h.1)
