-- ===== src/Soc/Cycle/Budget.antt =====
-- How often a cycle asks the reputation service.
use wardnode.Base.{
  ℕ, suc, ◌+◌, min, String, ◌≡◌, refl, inl, inr, Option, none, some, List, [], ◌∷◌, length,
  length-append, arith, ltb, Bool-cases,
}
use wardnode.Float.{FloatLibrary}
use wardnode.Soc.Detect.{Candidate}
use wardnode.Soc.Cycle.{
  max_enrich_per_cycle, Incident, World, Outside, Cycle, find_existing, fresh_incident, enriched,
  store, take_in, next_count, detect_each, run_detection_cycle,
}

module _ (lib : FloatLibrary) where
  -- The first incidents of the cycle are looked up, one address each, until the cap.
  abbrev pub IsBudgeted : World lib → Type 0
  IsBudgeted w = length w.lookups ≡ min max_enrich_per_cycle (length w.created)

  store-length :
      (w : World lib) (i : Incident lib) (asked : List String)
      → (length (store lib w i asked).lookups ≡ length w.lookups + length asked)
        × (length (store lib w i asked).created ≡ suc (length w.created))
  store-length w i asked =
      (length-append w.lookups asked, omega (arith, length-append w.created (i.id ∷ [])))

  module _ (o : Outside lib) (cycle : Cycle lib) where
    take_in-IsBudgeted :
        (c : Candidate) (w : World lib) (n : ℕ) (e : Option (Incident lib))
        → n ≡ length w.lookups
        → IsBudgeted w
        → (next_count lib n e ≡ length (take_in lib o cycle c w n e).lookups)
          × IsBudgeted (take_in lib o cycle c w n e)
    take_in-IsBudgeted c w n (some e) h k = (h, k)
    take_in-IsBudgeted c w n none h k =
        let i = fresh_incident lib o cycle c w.next_id in
        let answered = enriched lib i (o.get_abuse_info c.source_ip) in
        elim (Bool-cases (ltb n max_enrich_per_cycle)) [
          | inl e ↦ rw e (
              let sizes = store-length w answered (c.source_ip ∷ []) in
              (omega (arith, h, sizes.0), ground (arith, h, k, sizes.0, sizes.1, e)))
          | inr e ↦ rw e (
              let sizes = store-length w i [] in
              (omega (arith, h, sizes.0), ground (arith, h, k, sizes.0, sizes.1, e)))
        ]

    detect_each-IsBudgeted :
        (cs : List Candidate) (w : World lib) (n : ℕ)
        → n ≡ length w.lookups
        → IsBudgeted w
        → IsBudgeted (detect_each lib o cycle cs w n)
    unfolding detect_each
    detect_each-IsBudgeted [] w n h k = k
    detect_each-IsBudgeted (c ∷ cs) w n h k =
        let existing = find_existing lib cycle.now c.source_ip w.incidents in
        let step = take_in-IsBudgeted c w n existing h k in
        detect_each-IsBudgeted cs (take_in lib o cycle c w n existing) (next_count lib n existing)
          step.0 step.1

    -- A cycle that starts with nothing created and nothing asked asks the reputation service once
    -- for each incident that it creates, and no more than 25 times.
    pub run_detection_cycle-IsBudgeted :
        (cs : List Candidate) (w : World lib)
        → w.created ≡ []
        → w.lookups ≡ []
        → IsBudgeted (run_detection_cycle lib o cycle cs w)
    unfolding run_detection_cycle
    run_detection_cycle-IsBudgeted cs w h k =
        detect_each-IsBudgeted cs w 0 (rw k refl) (rw (h, k) refl)
