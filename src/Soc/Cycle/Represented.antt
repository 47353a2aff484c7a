-- ===== src/Soc/Cycle/Represented.antt =====
-- What the loop promises for each candidate: an open incident that carries it.
use wardnode.Base.{
  ℕ, ◌≤◌, String, ◌≡◌, refl, ◌∙◌, ◌⊎◌, inl, inr, Bool, true, false, Option, none, some, List, [],
  ◌∷◌, ◌++◌, arith, ltb, keep, map, ◌==◌, eq_iff, ◌=?◌, if◌then◌else◌, Bool-cases, All, ap,
}
use wardnode.Float.{FloatLibrary}
use wardnode.Soc.Detect.{Candidate, score_candidate, sev_order}
use wardnode.Soc.Cycle.{
  bump_severity, max_enrich_per_cycle, Incident, World, Outside, Cycle, is_open, newer, latest,
  find_existing, severity_of, refresh, refresh_id, enriched, fresh_incident, create, take_in,
  next_count, detect_each,
}
use wardnode.Soc.Cycle.Raised.{
  IsRaised, Extends, raised_severity_lem, float_max_right, detect_each-Extends,
}

pub bump_severity_up : (s : String) → sev_order s 1 ≤ sev_order (bump_severity s) 1
unfolding sev_order bump_severity
bump_severity_up s = elim (Bool-cases (s == "low")) [
  | inl e ↦ rw e (ground arith)
  | inr l ↦ elim (Bool-cases (s == "medium")) [
    | inl e ↦ rw (l, e) (ground arith)
    | inr m ↦ elim (Bool-cases (s == "high")) [
      | inl e ↦ rw (l, m, e) (ground arith)
      | inr h ↦ elim (Bool-cases (s == "critical")) [
        | inl e ↦ rw (l, m, h, e) (ground arith)
        | inr c ↦ rw (l, m, h, c) (ground arith)
      ]
    ]
  ]
]

module _ (lib : FloatLibrary) where
  open lib use {Float, le, le_refl, le_trans}

  abbrev pub Some : (Incident lib → Type 0) → List (Incident lib) → Type 0
  Some P [] = ⊥
  Some P (i ∷ is) = P i ⊎ Some P is

  Some-append :
      (P : Incident lib → Type 0) (xs : List (Incident lib)) (i : Incident lib)
      → P i
      → Some P (xs ++ (i ∷ []))
  Some-append P [] i h = inl h
  Some-append P (x ∷ xs) i h = inr (Some-append P xs i h)

  newer_cases :
      (i e : Incident lib) (rest : Option (Incident lib))
      → newer lib i rest ≡ some e
      → (i ≡ e) ⊎ (rest ≡ some e)
  newer_cases i e none h = inl cc
  newer_cases i e (some j) h = elim (Bool-cases (ltb i.window_end j.window_end)) [
    | inl t ↦ inr (ground (arith, t, h))
    | inr t ↦ inl (ground (arith, t, h))
  ]

  latest-Some :
      (is : List (Incident lib)) (e : Incident lib) → latest lib is ≡ some e → Some (λ i. i ≡ e) is
  unfolding latest
  latest-Some [] e h = cc
  latest-Some (i ∷ is) e h = elim (newer_cases i e (latest lib is) h) [
    | inl here ↦ inl here
    | inr later ↦ inr (latest-Some is e later)
  ]

  kept :
      (p : Incident lib → Bool) (e i : Incident lib) (b : Bool) (is : List (Incident lib))
      → p i ≡ b
      → (Some (λ i. i ≡ e) (keep p is) → Some (λ i. (i ≡ e) × (p i ≡ true)) is)
      → Some (λ i. i ≡ e) (if b then i ∷ keep p is else keep p is)
      → Some (λ i. (i ≡ e) × (p i ≡ true)) (i ∷ is)
  kept p e i true is t rest (inl same) = inl (same, t)
  kept p e i true is t rest (inr h) = inr (rest h)
  kept p e i false is t rest h = inr (rest h)

  Some-keep :
      (p : Incident lib → Bool) (e : Incident lib) (is : List (Incident lib))
      → Some (λ i. i ≡ e) (keep p is)
      → Some (λ i. (i ≡ e) × (p i ≡ true)) is
  unfolding keep
  Some-keep p e [] h = h
  Some-keep p e (i ∷ is) h = kept p e i (p i) is refl (Some-keep p e is) h

  module _ (o : Outside lib) (cycle : Cycle lib) where
    -- The incident is open, ends now, and has the candidate's address and at least its events,
    -- its score and its severity.
    pub record IsCarrying (c : Candidate) (i : Incident lib) : Type 0 where
      pub ip : i.source_ip ≡ c.source_ip
      pub open_status : i.status ≡ "nuevo"
      pub ends_now : i.window_end ≡ cycle.now
      pub events : c.event_count ≤ i.event_count
      pub scored : le (score_candidate lib c) i.score ≡ true
      pub severe : sev_order (severity_of lib o cycle c) 1 ≤ sev_order i.severity 1

    IsRaised-IsCarrying :
        (c : Candidate) (i j : Incident lib)
        → IsRaised lib cycle.now i j
        → IsCarrying c i
        → IsCarrying c j
    IsRaised-IsCarrying c i j r h = record {
      ip = r.same_ip ∙ h.ip;
      open_status = r.same_status ∙ h.open_status;
      ends_now = r.still_now h.ends_now;
      events = omega (arith, r.events, h.events);
      scored = le_trans (score_candidate lib c) i.score j.score h.scored r.score_up;
      severe = omega (arith, r.severity_up, h.severe);
    }

    Extends-Some :
        (c : Candidate) (xs ys : List (Incident lib))
        → Extends lib cycle.now xs ys
        → Some (IsCarrying c) xs
        → Some (IsCarrying c) ys
    Extends-Some c [] ys e h = elim h [ ]
    Extends-Some c (x ∷ xs) [] e h = elim e [ ]
    Extends-Some c (x ∷ xs) (y ∷ ys) e (inl h) = inl (IsRaised-IsCarrying c x y e.0 h)
    Extends-Some c (x ∷ xs) (y ∷ ys) e (inr h) = inr (Extends-Some c xs ys e.1 h)

    refresh-IsCarrying :
        (c : Candidate) (i : Incident lib)
        → is_open lib cycle.now c.source_ip i ≡ true
        → IsCarrying c (refresh lib o cycle c i)
    unfolding refresh
    refresh-IsCarrying c i h = record {
      ip = ground (arith, h, eq_iff i.source_ip c.source_ip);
      open_status = ground (arith, h, eq_iff i.status "nuevo");
      ends_now = refl;
      events = omega arith;
      scored = float_max_right lib i.score (score_candidate lib c);
      severe = (raised_severity_lem i.severity (severity_of lib o cycle c)).1;
    }

    map-IsCarrying :
        (c : Candidate) (e : Incident lib) (is : List (Incident lib))
        → Some (λ i. (i ≡ e) × (is_open lib cycle.now c.source_ip i ≡ true)) is
        → Some (IsCarrying c) (map (refresh_id lib o cycle c e.id) is)
    map-IsCarrying c e [] h = elim h [ ]
    map-IsCarrying c e (i ∷ is) (inl (same, h)) =
        let found : (i.id =? e.id) ≡ true = ground (arith, ap (λ (j : Incident lib). j.id) same) in
        rw found (inl (refresh-IsCarrying c i h))
    map-IsCarrying c e (i ∷ is) (inr h) = inr (map-IsCarrying c e is h)

    fresh_incident-IsCarrying :
        (c : Candidate) (id : ℕ) → IsCarrying c (fresh_incident lib o cycle c id)
    unfolding fresh_incident
    fresh_incident-IsCarrying c id = record {
      ip = refl;
      open_status = refl;
      ends_now = refl;
      events = omega arith;
      scored = le_refl (score_candidate lib c);
      severe = omega arith;
    }

    enriched-IsCarrying :
        (c : Candidate) (i : Incident lib) (answer : Option (Option ℕ))
        → IsCarrying c i
        → IsCarrying c (enriched lib i answer)
    enriched-IsCarrying c i none h = h
    enriched-IsCarrying c i (some none) h = h
    enriched-IsCarrying c i (some (some n)) h = record {
      ip = h.ip;
      open_status = h.open_status;
      ends_now = h.ends_now;
      events = h.events;
      scored = h.scored;
      severe = ground (arith, h.severe, bump_severity_up i.severity);
    }

    create-IsCarrying :
        (c : Candidate) (w : World lib) (n : ℕ)
        → Some (IsCarrying c) (create lib o cycle c w n).incidents
    create-IsCarrying c w n =
        let i = fresh_incident lib o cycle c w.next_id in
        let answer = o.get_abuse_info c.source_ip in
        let carried = fresh_incident-IsCarrying c w.next_id in
        elim (Bool-cases (ltb n max_enrich_per_cycle)) [
          | inl e ↦ rw e (
              Some-append (IsCarrying c) w.incidents (enriched lib i answer)
                (enriched-IsCarrying c i answer carried))
          | inr e ↦ rw e (Some-append (IsCarrying c) w.incidents i carried)
        ]

    take_in-IsCarrying :
        (c : Candidate) (w : World lib) (n : ℕ) (e : Option (Incident lib))
        → find_existing lib cycle.now c.source_ip w.incidents ≡ e
        → Some (IsCarrying c) (take_in lib o cycle c w n e).incidents
    unfolding find_existing
    take_in-IsCarrying c w n none h = create-IsCarrying c w n
    take_in-IsCarrying c w n (some e) h = map-IsCarrying c e w.incidents (
        Some-keep (is_open lib cycle.now c.source_ip) e w.incidents
          (latest-Some (keep (is_open lib cycle.now c.source_ip) w.incidents) e h))

    -- After the loop, for each of its candidates there is an incident that is open, ends now and
    -- has the candidate's address, and no fewer events, no lower score and no lower severity
    -- than the candidate's.
    pub detect_each-IsCarrying :
        (cs : List Candidate) (w : World lib) (n : ℕ)
        → All (λ c. Some (IsCarrying c) (detect_each lib o cycle cs w n).incidents) cs
    unfolding detect_each
    detect_each-IsCarrying [] w n = tt
    detect_each-IsCarrying (c ∷ cs) w n =
        let existing = find_existing lib cycle.now c.source_ip w.incidents in
        let next = take_in lib o cycle c w n existing in
        let count = next_count lib n existing in
        (
          Extends-Some c next.incidents (detect_each lib o cycle cs next count).incidents
              (detect_each-Extends lib o cycle cs next count)
              (take_in-IsCarrying c w n existing refl),
          detect_each-IsCarrying cs next count,
        )
