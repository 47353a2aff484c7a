-- ===== src/Soc/Cycle/Raised.antt =====
-- What the loop does to the incidents that are there: it raises them and forgets none.
use wardnode.Base.{
  ℕ, ◌≤◌, String, ◌≡◌, refl, ◌∙◌, true, Option, none, some, List, [], ◌∷◌, ◌++◌, arith, ltb, map,
  ◌=?◌, Bool-cases, inl, inr,
}
use wardnode.Float.{FloatLibrary, float_max}
use wardnode.Soc.Detect.{Candidate, score_candidate, sev_order}
use wardnode.Soc.Cycle.{
  max_enrich_per_cycle, Incident, World, Outside, Cycle, find_existing, severity_of,
  raised_severity, refresh, refresh_id, enriched, fresh_incident, create, take_in, next_count,
  detect_each,
}

pub raised_severity_lem :
    (before severity : String)
    → (sev_order before 1 ≤ sev_order (raised_severity before severity) 1)
      × (sev_order severity 1 ≤ sev_order (raised_severity before severity) 1)
raised_severity_lem before severity = ground arith

module _ (lib : FloatLibrary) where
  open lib use {Float, le, le_refl, le_trans, le_total}

  float_max_left : (x y : Float) → le x (float_max lib x y) ≡ true
  unfolding float_max
  float_max_left x y = elim (Bool-cases (le y x)) [
    | inl e ↦ rw e (le_refl x)
    | inr e ↦ rw e (elim (le_total x y) [ inl k ↦ k | inr k ↦ ground (arith, k, e) ])
  ]

  pub float_max_right : (x y : Float) → le y (float_max lib x y) ≡ true
  unfolding float_max
  float_max_right x y = elim (Bool-cases (le y x)) [ inl e ↦ rw e e | inr e ↦ rw e (le_refl y) ]

  -- The same incident later: nothing that it counts has fallen, and a time that is now stays.
  pub record IsRaised (now : ℕ) (i j : Incident lib) : Type 0 where
    pub same_id : j.id ≡ i.id
    pub same_ip : j.source_ip ≡ i.source_ip
    pub same_status : j.status ≡ i.status
    pub same_start : j.window_start ≡ i.window_start
    pub still_now : i.window_end ≡ now → j.window_end ≡ now
    pub events : i.event_count ≤ j.event_count
    pub score_up : le i.score j.score ≡ true
    pub severity_up : sev_order i.severity 1 ≤ sev_order j.severity 1

  pub IsRaised-refl : (now : ℕ) (i : Incident lib) → IsRaised now i i
  IsRaised-refl now i = record {
    same_id = refl;
    same_ip = refl;
    same_status = refl;
    same_start = refl;
    still_now = λ h. h;
    events = omega arith;
    score_up = le_refl i.score;
    severity_up = omega arith;
  }

  pub IsRaised-trans :
      (now : ℕ) (i j k : Incident lib) → IsRaised now i j → IsRaised now j k → IsRaised now i k
  IsRaised-trans now i j k p q = record {
    same_id = q.same_id ∙ p.same_id;
    same_ip = q.same_ip ∙ p.same_ip;
    same_status = q.same_status ∙ p.same_status;
    same_start = q.same_start ∙ p.same_start;
    still_now = λ h. q.still_now (p.still_now h);
    events = omega (arith, p.events, q.events);
    score_up = le_trans i.score j.score k.score p.score_up q.score_up;
    severity_up = omega (arith, p.severity_up, q.severity_up);
  }

  -- The second list starts with the incidents of the first, each raised.
  abbrev pub Extends : ℕ → List (Incident lib) → List (Incident lib) → Type 0
  Extends now [] ys = Unit
  Extends now (x ∷ xs) [] = ⊥
  Extends now (x ∷ xs) (y ∷ ys) = IsRaised now x y × Extends now xs ys

  pub Extends-refl : (now : ℕ) (xs : List (Incident lib)) → Extends now xs xs
  Extends-refl now [] = tt
  Extends-refl now (x ∷ xs) = (IsRaised-refl now x, Extends-refl now xs)

  pub Extends-trans :
      (now : ℕ) (xs ys zs : List (Incident lib))
      → Extends now xs ys
      → Extends now ys zs
      → Extends now xs zs
  Extends-trans now [] ys zs p q = tt
  Extends-trans now (x ∷ xs) [] zs p q = elim p [ ]
  Extends-trans now (x ∷ xs) (y ∷ ys) [] p q = elim q [ ]
  Extends-trans now (x ∷ xs) (y ∷ ys) (z ∷ zs) p q =
      (IsRaised-trans now x y z p.0 q.0, Extends-trans now xs ys zs p.1 q.1)

  Extends-append : (now : ℕ) (xs ys : List (Incident lib)) → Extends now xs (xs ++ ys)
  Extends-append now [] ys = tt
  Extends-append now (x ∷ xs) ys = (IsRaised-refl now x, Extends-append now xs ys)

  module _ (o : Outside lib) (cycle : Cycle lib) where
    pub refresh-IsRaised :
        (c : Candidate) (i : Incident lib) → IsRaised cycle.now i (refresh lib o cycle c i)
    unfolding refresh
    refresh-IsRaised c i = record {
      same_id = refl;
      same_ip = refl;
      same_status = refl;
      same_start = refl;
      still_now = λ h. refl;
      events = omega arith;
      score_up = float_max_left i.score (score_candidate lib c);
      severity_up = (raised_severity_lem i.severity (severity_of lib o cycle c)).0;
    }

    map-Extends :
        (c : Candidate) (id : ℕ) (is : List (Incident lib))
        → Extends cycle.now is (map (refresh_id lib o cycle c id) is)
    map-Extends c id [] = tt
    map-Extends c id (i ∷ is) = elim (Bool-cases (i.id =? id)) [
      | inl e ↦ rw e (refresh-IsRaised c i, map-Extends c id is)
      | inr e ↦ rw e (IsRaised-refl cycle.now i, map-Extends c id is)
    ]

    pub create-Extends :
        (c : Candidate) (w : World lib) (n : ℕ)
        → Extends cycle.now w.incidents (create lib o cycle c w n).incidents
    create-Extends c w n = elim (Bool-cases (ltb n max_enrich_per_cycle)) [
      | inl e ↦ rw e (
          Extends-append cycle.now w.incidents (
            enriched lib (fresh_incident lib o cycle c w.next_id) (o.get_abuse_info c.source_ip)
            ∷ []))
      | inr e ↦
          rw e (Extends-append cycle.now w.incidents (fresh_incident lib o cycle c w.next_id ∷ []))
    ]

    pub take_in-Extends :
        (c : Candidate) (w : World lib) (n : ℕ) (e : Option (Incident lib))
        → Extends cycle.now w.incidents (take_in lib o cycle c w n e).incidents
    take_in-Extends c w n none = create-Extends c w n
    take_in-Extends c w n (some e) = map-Extends c e.id w.incidents

    -- Whatever the candidates, the reputation service and the model: every incident is still
    -- there after the loop, with its id, address, status and start, and neither its event count
    -- nor its score nor its severity has fallen.
    pub detect_each-Extends :
        (cs : List Candidate) (w : World lib) (n : ℕ)
        → Extends cycle.now w.incidents (detect_each lib o cycle cs w n).incidents
    unfolding detect_each
    detect_each-Extends [] w n = Extends-refl cycle.now w.incidents
    detect_each-Extends (c ∷ cs) w n =
        let existing = find_existing lib cycle.now c.source_ip w.incidents in
        let next = take_in lib o cycle c w n existing in
        Extends-trans cycle.now w.incidents next.incidents
          (detect_each lib o cycle cs next (next_count lib n existing)).incidents
          (take_in-Extends c w n existing) (detect_each-Extends cs next (next_count lib n existing))
