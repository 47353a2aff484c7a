-- ===== src/Ddos/Ingest/Once.antt =====
-- Each alert is stored once, however often it is seen.
use wardnode.Base.{
  ℕ, zero, suc, String, ◌≡◌, refl, ap, ◌∙◌, subst, true, ◌||◌, Option, none, some, List, [], ◌∷◌,
  ◌++◌, inl, inr, Bool-cases, arith,
}
use wardnode.Text.{PyInt, pos, negsuc}
use wardnode.Json.{
  Json, Items, Fields, null, flag, number, fraction, text, items, object, no_items, item, truthy,
  get_or,
}
use wardnode.Ddos.Ingest.{
  Moment, Parsed, Found, found, not_found, escaped, created_of, assemble, parse_with, parse_fields,
  parse_alert, BanEvent, same_id, has_id, insert_event, store_parsed, store_alerts, Answer, printed,
  listed, poll_once,
}

same_id_refl : (i : PyInt) → same_id i i ≡ true
unfolding same_id
same_id_refl (pos n) = ground arith
same_id_refl (negsuc n) = ground arith

has_id-append :
    (i : PyInt) (t : List BanEvent) (e : BanEvent)
    → has_id i (t ++ (e ∷ [])) ≡ (has_id i t || same_id e.parsed.cs_alert_id i)
unfolding has_id
has_id-append i [] e = ground arith
has_id-append i (d ∷ t) e = ground (arith, has_id-append i t e)

-- Two results of the parsing, at two times: both fail, or both have the same id.
abbrev AreSame : Option Parsed → Option Parsed → Type 0
AreSame none none = Unit
AreSame none (some q) = ⊥
AreSame (some p) none = ⊥
AreSame (some p) (some q) = p.cs_alert_id ≡ q.cs_alert_id

module _ (strptime : String → String → Option Moment) (now later_now : ℕ) where
  assemble-AreSame :
      (id : PyInt) (ip scenario : Json) (events : Option PyInt) (f : Found)
      (expires : Option (Option ℕ))
      → AreSame
          (assemble strptime id ip scenario events (created_of strptime now f) expires)
          (assemble strptime id ip scenario events (created_of strptime later_now f) expires)
  assemble-AreSame id ip scenario none f expires = tt
  assemble-AreSame id ip scenario (some e) escaped expires = tt
  assemble-AreSame id ip scenario (some e) (found t) none = tt
  assemble-AreSame id ip scenario (some e) (found t) (some x) = refl
  assemble-AreSame id ip scenario (some e) not_found none = tt
  assemble-AreSame id ip scenario (some e) not_found (some x) = refl

  parse_with-AreSame :
      (alert : Fields) (id : PyInt) (o : Option Fields)
      → AreSame (parse_with strptime now alert id o) (parse_with strptime later_now alert id o)
  parse_with-AreSame alert id none = tt
  parse_with-AreSame alert id (some source) =
      elim (Bool-cases (truthy (get_or source "ip" (text "")))) [
        | inl e ↦ rw e (assemble-AreSame id _ _ _ _ _)
        | inr e ↦ rw e tt
      ]

  parse_fields-AreSame :
      (alert : Fields) (o : Option PyInt)
      → AreSame (parse_fields strptime now alert o) (parse_fields strptime later_now alert o)
  parse_fields-AreSame alert none = tt
  parse_fields-AreSame alert (some (pos zero)) = tt
  parse_fields-AreSame alert (some (pos (suc n))) = parse_with-AreSame alert (pos (suc n)) _
  parse_fields-AreSame alert (some (negsuc n)) = parse_with-AreSame alert (negsuc n) _

  parse_alert-AreSame :
      (a : Json) → AreSame (parse_alert strptime now a) (parse_alert strptime later_now a)
  unfolding parse_alert
  parse_alert-AreSame null = tt
  parse_alert-AreSame (flag b) = tt
  parse_alert-AreSame (number n) = tt
  parse_alert-AreSame (fraction z n) = tt
  parse_alert-AreSame (text s) = tt
  parse_alert-AreSame (items l) = tt
  parse_alert-AreSame (object alert) = parse_fields-AreSame alert _

module _ (country : Json → Option String) where
  -- Rows stay.
  store_parsed_keeps :
      (i : PyInt) (o : Option Parsed) (t : List BanEvent)
      → has_id i t ≡ true
      → has_id i (store_parsed country o t) ≡ true
  unfolding insert_event
  store_parsed_keeps i none t h = h
  store_parsed_keeps i (some p) t h = elim (Bool-cases (has_id p.cs_alert_id t)) [
    | inl e ↦ rw e h
    | inr e ↦
        rw (e, has_id-append i t (record { parsed = p; country_code = country p.source_ip }), h)
          refl
  ]

  store_parsed_present :
      (p : Parsed) (t : List BanEvent)
      → has_id p.cs_alert_id (store_parsed country (some p) t) ≡ true
  unfolding insert_event
  store_parsed_present p t = elim (Bool-cases (has_id p.cs_alert_id t)) [
    | inl e ↦ rw (e, e) refl
    | inr e ↦ ground (
      arith,
      e,
      same_id_refl p.cs_alert_id,
      has_id-append p.cs_alert_id t (record { parsed = p; country_code = country p.source_ip }),
    )
  ]

  module _ (strptime : String → String → Option Moment) (now : ℕ) where
    store_alerts_keeps :
        (i : PyInt) (later : Items) (t : List BanEvent)
        → has_id i t ≡ true
        → has_id i (store_alerts strptime country now later t) ≡ true
    unfolding store_alerts
    store_alerts_keeps i no_items t h = h
    store_alerts_keeps i (item a later) t h =
        store_alerts_keeps i later (store_parsed country (parse_alert strptime now a) t)
          (store_parsed_keeps i (parse_alert strptime now a) t h)

    -- Every alert that can be read has a row of its id.
    abbrev pub IsComplete : Items → List BanEvent → Type 0
    IsComplete no_items t = Unit
    IsComplete (item a later) t =
        ((p : Parsed) → parse_alert strptime now a ≡ some p → has_id p.cs_alert_id t ≡ true)
        × IsComplete later t

    -- After a poll every alert that can be read has a row of its id.
    pub store_alerts-IsComplete :
        (later : Items) (t : List BanEvent)
        → IsComplete later (store_alerts strptime country now later t)
    unfolding store_alerts
    store_alerts-IsComplete no_items t = tt
    store_alerts-IsComplete (item a later) t =
        let next = store_parsed country (parse_alert strptime now a) t in
        (
          λ p e. store_alerts_keeps p.cs_alert_id later next (rw e (store_parsed_present p t)),
          store_alerts-IsComplete later next,
        )

    stored_id :
        (o : Option Parsed) (t : List BanEvent)
        → ((p : Parsed) → o ≡ some p → has_id p.cs_alert_id t ≡ true)
        → store_parsed country o t ≡ t
    unfolding insert_event
    stored_id none t h = refl
    stored_id (some p) t h = rw (h p refl) refl

    complete_id :
        (later : Items) (t : List BanEvent)
        → IsComplete later t
        → store_alerts strptime country now later t ≡ t
    unfolding store_alerts
    complete_id no_items t h = refl
    complete_id (item a later) t h =
        rw (stored_id (parse_alert strptime now a) t h.0) (complete_id later t h.1)

  stored_later :
      (o o' : Option Parsed) (t : List BanEvent)
      → AreSame o o'
      → ((p : Parsed) → o ≡ some p → has_id p.cs_alert_id t ≡ true)
      → ((p : Parsed) → o' ≡ some p → has_id p.cs_alert_id t ≡ true)
  stored_later none none t same h p e = cc
  stored_later none (some q) t same h p e = absurd same
  stored_later (some r) none t same h p e = absurd same
  stored_later (some r) (some q) t same h p e =
      subst (λ i. has_id i t ≡ true) (same ∙ ap (id_of q) e) (h r refl)
    where
      id_of : Parsed → Option Parsed → PyInt
      id_of q none = q.cs_alert_id
      id_of q (some p) = p.cs_alert_id

  IsComplete-later :
      (strptime : String → String → Option Moment) (now later_now : ℕ) (later : Items)
      (t : List BanEvent)
      → IsComplete strptime now later t
      → IsComplete strptime later_now later t
  IsComplete-later strptime now later_now no_items t h = tt
  IsComplete-later strptime now later_now (item a later) t h = (
    stored_later (parse_alert strptime now a) (parse_alert strptime later_now a) t
        (parse_alert-AreSame strptime now later_now a) h.0,
    IsComplete-later strptime now later_now later t h.1,
  )

  -- A second poll with the same answer, at whatever time, stores nothing more.
  pub poll_once_idem :
      (strptime : String → String → Option Moment) (now later_now : ℕ) (answer : Answer)
      (t : List BanEvent)
      → poll_once strptime country later_now answer (poll_once strptime country now answer t)
        ≡ poll_once strptime country now answer t
  unfolding poll_once
  poll_once_idem strptime now later_now (printed alerts) t =
      complete_id strptime later_now (listed alerts)
        (store_alerts strptime country now (listed alerts) t)
        (IsComplete-later strptime now later_now (listed alerts)
          (store_alerts strptime country now (listed alerts) t)
          (store_alerts-IsComplete strptime now (listed alerts) t))
  poll_once_idem strptime now later_now Answer.no_container t = refl
  poll_once_idem strptime now later_now Answer.stopped t = refl
  poll_once_idem strptime now later_now Answer.failed t = refl
  poll_once_idem strptime now later_now Answer.no_output t = refl
  poll_once_idem strptime now later_now Answer.no_json t = refl
