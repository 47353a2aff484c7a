-- ===== src/Soc/Alerts/Justified.antt =====
-- Whose mark a run of alerts changes.
use wardnode.Base.{
  ℕ, ◌≡◌, refl, ◌∙◌, ◌≤◌, ◌⊎◌, inl, inr, subst, sym, ap, String, true, false, Option, none, some,
  List, [], ◌∷◌, ◌=?◌, or_else, Bool-cases, arith,
}
use wardnode.Config.{Table, setting, is_on}
use wardnode.Soc.Detect.{sev_order}
use wardnode.Soc.Alerts.{
  Incident, World, Outside, in_cooldown, row_of, mark, channels, is_grave, record_alert, notify_row,
  notify_each, notify_incidents, cooldown_of,
}

some_injective : {a b : Incident} → some a ≡ some b → a ≡ b
some_injective {a} {b} h = cc

module _ (o : Outside) (min_severity : String) where
  -- The incident's severity is of the least rank or above it, and the mail or the message of its
  -- alert was sent. A severity that is not known has rank 0, an unknown least severity rank 2.
  pub record IsJustified (i : Incident) : Type 0 where
    pub grave : sev_order min_severity 2 ≤ sev_order i.severity 0
    pub by_channel : (o.send_email i.id ≡ true) ⊎ (o.send_telegram i.id ≡ true)

  -- The same incident later: only its mark may have changed, and then to the time of its alert.
  pub record IsKept (i j : Incident) : Type 0 where
    pub same_id : j.id ≡ i.id
    pub same_ip : j.source_ip ≡ i.source_ip
    pub same_severity : j.severity ≡ i.severity
    pub marked :
        (j.alerted_at ≡ i.alerted_at) ⊎ (IsJustified i × (j.alerted_at ≡ some (o.marked_at i.id)))

  IsKept-refl : (i : Incident) → IsKept i i
  IsKept-refl i = record { same_id = refl; same_ip = refl; same_severity = refl; marked = inl refl }

  channels-sent :
      (i : Incident) (c : String) (cs : List String)
      → channels o i ≡ c ∷ cs
      → (o.send_email i.id ≡ true) ⊎ (o.send_telegram i.id ≡ true)
  channels-sent i c cs h = elim (Bool-cases (o.send_email i.id)) [
    | inl email ↦ inl email
    | inr no_email ↦ elim (Bool-cases (o.send_telegram i.id)) [
      | inl telegram ↦ inr telegram
      | inr no_telegram ↦ absurd (ground (arith, h, no_email, no_telegram))
    ]
  ]

  IsJustified-before : (i j : Incident) → IsKept i j → IsJustified j → IsJustified i
  IsJustified-before i j k h = record {
    grave = subst (λ s. sev_order min_severity 2 ≤ sev_order s 0) k.same_severity h.grave;
    by_channel =
        subst (λ n. (o.send_email n ≡ true) ⊎ (o.send_telegram n ≡ true)) k.same_id h.by_channel;
  }

  marked_after :
      (i j k : Incident)
      → IsKept i j
      → IsKept j k
      → (k.alerted_at ≡ i.alerted_at) ⊎ (IsJustified i × (k.alerted_at ≡ some (o.marked_at i.id)))
  marked_after i j k p q = elim q.marked [
    | inr (h, e) ↦ inr (IsJustified-before i j p h, e ∙ ap (λ n. some (o.marked_at n)) p.same_id)
    | inl e ↦ elim p.marked [ inl d ↦ inl (e ∙ d) | inr (h, d) ↦ inr (h, e ∙ d) ]
  ]

  IsKept-trans : (i j k : Incident) → IsKept i j → IsKept j k → IsKept i k
  IsKept-trans i j k p q = record {
    same_id = q.same_id ∙ p.same_id;
    same_ip = q.same_ip ∙ p.same_ip;
    same_severity = q.same_severity ∙ p.same_severity;
    marked = marked_after i j k p q;
  }

  -- Row by row.
  abbrev pub Keeps : List Incident → List Incident → Type 0
  Keeps [] [] = Unit
  Keeps [] (j ∷ js) = ⊥
  Keeps (i ∷ is) [] = ⊥
  Keeps (i ∷ is) (j ∷ js) = IsKept i j × Keeps is js

  Keeps-refl : (is : List Incident) → Keeps is is
  Keeps-refl [] = tt
  Keeps-refl (i ∷ is) = (IsKept-refl i, Keeps-refl is)

  Keeps-trans : (is js ks : List Incident) → Keeps is js → Keeps js ks → Keeps is ks
  Keeps-trans [] [] ks p q = q
  Keeps-trans [] (j ∷ js) ks p q = elim p [ ]
  Keeps-trans (i ∷ is) [] ks p q = elim p [ ]
  Keeps-trans (i ∷ is) (j ∷ js) [] p q = elim q [ ]
  Keeps-trans (i ∷ is) (j ∷ js) (k ∷ ks) p q =
      (IsKept-trans i j k p.0 q.0, Keeps-trans is js ks p.1 q.1)

  mark-Keeps :
      (id : ℕ) (rows : List Incident)
      → ((i : Incident) → row_of id rows ≡ some i → IsJustified i × (i.id ≡ id))
      → Keeps rows (mark id (o.marked_at id) rows)
  unfolding mark row_of
  mark-Keeps id [] h = tt
  mark-Keeps id (r ∷ rows) h = elim (Bool-cases (r.id =? id)) [
    | inl e ↦
        let at_r = h r (rw e refl) in
        rw e (
          record {
            same_id = refl;
            same_ip = refl;
            same_severity = refl;
            marked = inr (at_r.0, ap (λ n. some (o.marked_at n)) (sym at_r.1));
          },
          Keeps-refl rows,
        )
    | inr e ↦ rw e (IsKept-refl r, mark-Keeps id rows (λ i k. h i (rw e k)))
  ]

  row_of-id : (id : ℕ) (rows : List Incident) (i : Incident) → row_of id rows ≡ some i → i.id ≡ id
  unfolding row_of
  row_of-id id [] i h = cc
  row_of-id id (r ∷ rows) i h = elim (Bool-cases (r.id =? id)) [
    | inl e ↦
        let same : r ≡ i = some_injective (rw (row_of, e) at h) in
        subst (λ (j : Incident). j.id ≡ id) same (ground (arith, e))
    | inr e ↦ row_of-id id rows i (rw (row_of, e) at h)
  ]

  record_alert-Keeps :
      (id : ℕ) (i : Incident) (w : World) (cs : List String)
      → row_of id w.incidents ≡ some i
      → is_grave min_severity i ≡ true
      → channels o i ≡ cs
      → Keeps w.incidents (record_alert o i w cs).incidents
  record_alert-Keeps id i w [] h g e = Keeps-refl w.incidents
  record_alert-Keeps id i w (c ∷ cs) h g e =
      let own : row_of i.id w.incidents ≡ some i =
        subst (λ n. row_of n w.incidents ≡ some i) (sym (row_of-id id w.incidents i h)) h in
      let justified : IsJustified i = record {
        grave = ground (arith, g);
        by_channel = channels-sent i c cs e;
      } in
      mark-Keeps i.id w.incidents (λ j k.
        let same : i ≡ j = some_injective (sym own ∙ k) in
        subst (λ (r : Incident). IsJustified r × (r.id ≡ i.id)) same (justified, refl))

  notify_row-Keeps :
      (cooldown_min id : ℕ) (w : World) (r : Option Incident)
      → row_of id w.incidents ≡ r
      → Keeps w.incidents (notify_row o min_severity cooldown_min w r).incidents
  notify_row-Keeps cooldown_min id w none h = Keeps-refl w.incidents
  notify_row-Keeps cooldown_min id w (some i) h = elim (Bool-cases (is_grave min_severity i)) [
    | inr g ↦ rw g (Keeps-refl w.incidents)
    | inl g ↦ elim (Bool-cases (in_cooldown (o.checked_at i.id) cooldown_min i w.incidents)) [
      | inl c ↦ rw (g, c) (Keeps-refl w.incidents)
      | inr c ↦ rw (g, c) (record_alert-Keeps id i w (channels o i) h g refl)
    ]
  ]

  notify_each-Keeps :
      (cooldown_min : ℕ) (ids : List ℕ) (w : World)
      → Keeps w.incidents (notify_each o min_severity cooldown_min ids w).incidents
  unfolding notify_each
  notify_each-Keeps cooldown_min [] w = Keeps-refl w.incidents
  notify_each-Keeps cooldown_min (id ∷ ids) w =
      let next = notify_row o min_severity cooldown_min w (row_of id w.incidents) in
      Keeps-trans w.incidents next.incidents
        (notify_each o min_severity cooldown_min ids next).incidents
        (notify_row-Keeps cooldown_min id w (row_of id w.incidents) refl)
        (notify_each-Keeps cooldown_min ids next)

-- Whatever the clock and the channels answer: after a run the incidents are those of before, and
-- a mark that changed is the time of an alert that a channel sent, of an incident of at least the
-- configured severity; with alerts switched off nothing changes.
pub notify_incidents-Keeps :
    (config : Table) (o : Outside) (ids : List ℕ) (w : World)
    → Keeps o
        (or_else (setting config "soc_alert_min_severity") "high")
        w.incidents
        (notify_incidents config o ids w).incidents
      × (is_on config "soc_alerts_enabled" ≡ false → notify_incidents config o ids w ≡ w)
unfolding notify_incidents
notify_incidents-Keeps config o ids w =
    let severity = or_else (setting config "soc_alert_min_severity") "high" in
    elim (Bool-cases (is_on config "soc_alerts_enabled")) [
      | inl on ↦ rw on (
        notify_each-Keeps o severity (cooldown_of (setting config "soc_alert_cooldown_min")) ids w,
        λ h. cc,
      )
      | inr off ↦ rw off (Keeps-refl o severity w.incidents, λ h. refl)
    ]
