-- ===== src/Soc/Soar/Marks.antt =====
-- What the engine writes to the incidents, and how the marks and the calls agree.
use wardnode.Base.{
  ℕ, String, ◌≡◌, ◌⊎◌, inl, inr, refl, ap, Bool, true, false, Option, none, some, List, [], ◌∷◌,
  Bool-cases, ◌==◌, ◌=?◌, arith,
}
use wardnode.Config.{Table, is_on}
use wardnode.Ip.{IpLibrary}
use wardnode.Modules.SocketClient.{Agent, deny_ip, valid_ip}
use wardnode.Soc.Soar.Duration.{Expiry, until, unknown, overflow, parse_duration_to_dt}
use wardnode.Soc.Soar.{
  Incident, Call, crowdsec_ban, ufw_deny, World, Outside, Run, blocked_by, update, after_ban,
  persist, execute_block, is_eligible, evaluate_and_block, block_each, is_method_available,
  run_settings, maybe_block_incidents,
}
use wardnode.Soc.Soar.Safe.{AmongIncidents}

-- A call that blocked the source of an incident.
abbrev pub IsBlockOf : Incident → Call → Type 0
IsBlockOf k (crowdsec_ban ip duration id ok) = (ip ≡ k.source_ip) × (id ≡ k.id) × (ok ≡ true)
IsBlockOf k (ufw_deny ip ok) = (ip ≡ k.source_ip) × (ok ≡ true)

abbrev pub IsBlocked : Incident → List Call → Type 0
IsBlocked k [] = ⊥
IsBlocked k (c ∷ cs) = IsBlockOf k c ⊎ IsBlocked k cs

-- A row that a run at this time marked: nothing but the mark is new, and an incident of the batch
-- with its id had its source blocked by a call that succeeded.
pub record IsMarked (now : ℕ) (created : List Incident) (calls : List Call) (i j : Incident)
    : Type 0 where
  pub same_id : j.id ≡ i.id
  pub same_ip : j.source_ip ≡ i.source_ip
  pub same_severity : j.severity ≡ i.severity
  pub blocked : j.blocked ≡ true
  pub blocked_at : j.blocked_at ≡ some now
  pub incident : Incident
  pub listed : AmongIncidents incident created
  pub of : incident.id ≡ i.id
  pub called : IsBlocked incident calls

abbrev pub IsKept : ℕ → List Incident → List Call → Incident → Incident → Type 0
IsKept now created calls i j = (j ≡ i) ⊎ IsMarked now created calls i j

-- Row by row: unchanged, or marked.
abbrev pub Keeps : ℕ → List Incident → List Call → List Incident → List Incident → Type 0
Keeps now created calls [] [] = Unit
Keeps now created calls [] (j ∷ js) = ⊥
Keeps now created calls (i ∷ is) [] = ⊥
Keeps now created calls (i ∷ is) (j ∷ js) =
    IsKept now created calls i j × Keeps now created calls is js

is_usable :
    (config : Table) (agent : Agent) (method : String)
    → is_method_available config agent method ≡ true
    → ((method == "crowdsec") ≡ true) ⊎ ((method == "ufw") ≡ true)
unfolding is_method_available
is_usable config agent method h = elim (Bool-cases (method == "crowdsec")) [
  | inl e ↦ inl e
  | inr e ↦ elim (Bool-cases (method == "ufw")) [
    | inl f ↦ inr f
    | inr f ↦ absurd (ground (arith, e, f, h))
  ]
]

module _ (now : ℕ) (created : List Incident) where
  Keeps-refl : (calls : List Call) (is : List Incident) → Keeps now created calls is is
  Keeps-refl calls [] = tt
  Keeps-refl calls (i ∷ is) = (inl refl, Keeps-refl calls is)

  -- One call more.
  IsKept-call :
      (c : Call) (calls : List Call) (i j : Incident)
      → IsKept now created calls i j
      → IsKept now created (c ∷ calls) i j
  IsKept-call c calls i j (inl e) = inl e
  IsKept-call c calls i j (inr m) = inr (record {
    same_id = m.same_id;
    same_ip = m.same_ip;
    same_severity = m.same_severity;
    blocked = m.blocked;
    blocked_at = m.blocked_at;
    incident = m.incident;
    listed = m.listed;
    of = m.of;
    called = inr m.called;
  })

  Keeps-call :
      (c : Call) (calls : List Call) (is js : List Incident)
      → Keeps now created calls is js
      → Keeps now created (c ∷ calls) is js
  Keeps-call c calls [] [] h = tt
  Keeps-call c calls [] (j ∷ js) h = h
  Keeps-call c calls (i ∷ is) [] h = h
  Keeps-call c calls (i ∷ is) (j ∷ js) h =
      (IsKept-call c calls i j h.0, Keeps-call c calls is js h.1)

  kept_fields :
      (calls : List Call) (i j : Incident)
      → IsKept now created calls i j
      → (j.id ≡ i.id) × (j.source_ip ≡ i.source_ip) × (j.severity ≡ i.severity)
  kept_fields calls i j (inl e) = (
    ap (λ (x : Incident). x.id) e,
    ap (λ (x : Incident). x.source_ip) e,
    ap (λ (x : Incident). x.severity) e,
  )
  kept_fields calls i j (inr m) = (m.same_id, m.same_ip, m.same_severity)

  module _ (run : Run) (at_now : run.now ≡ now) (k : Incident)
      (listed : AmongIncidents k created) where
    update-Keeps :
        (u : Option ℕ) (calls : List Call) (is js : List Incident)
        → IsBlocked k calls
        → Keeps now created calls is js
        → Keeps now created calls is (update k.id (blocked_by run u) js)
    unfolding update
    update-Keeps u calls [] [] b h = tt
    update-Keeps u calls [] (j ∷ js) b h = absurd h
    update-Keeps u calls (i ∷ is) [] b h = h
    update-Keeps u calls (i ∷ is) (j ∷ js) b h = elim (Bool-cases (j.id =? k.id)) [
      | inl e ↦
          let f = kept_fields calls i j h.0 in
          rw e (
            inr (record {
              same_id = f.0;
              same_ip = f.1;
              same_severity = f.2;
              blocked = refl;
              blocked_at = ap some at_now;
              incident = k;
              listed = listed;
              of = ground (arith, e, f.0);
              called = b;
            }),
            update-Keeps u calls is js b h.1,
          )
      | inr e ↦ rw e (h.0, update-Keeps u calls is js b h.1)
    ]

    module _ (out : Outside) (start : List Incident) where
      persist-Keeps :
          (u : Option ℕ) (w : World)
          → IsBlocked k w.calls
          → Keeps now created w.calls start w.incidents
          → let w' = persist out run k u w in Keeps now created w'.calls start w'.incidents
      unfolding persist
      persist-Keeps u w b h = elim (Bool-cases (out.commits k.id)) [
        | inl done ↦ rw done (update-Keeps u w.calls start w.incidents b h)
        | inr failed ↦ rw failed h
      ]

      after_ban-Keeps :
          (e : Expiry) (w : World)
          → IsBlocked k w.calls
          → Keeps now created w.calls start w.incidents
          → let w' = after_ban out run k e w in Keeps now created w'.calls start w'.incidents
      after_ban-Keeps (until t) w b h = persist-Keeps (some t) w b h
      after_ban-Keeps unknown w b h = persist-Keeps none w b h
      after_ban-Keeps overflow w b h = h

      execute_block-Keeps :
          (w : World)
          → ((run.method == "crowdsec") ≡ true) ⊎ ((run.method == "ufw") ≡ true)
          → Keeps now created w.calls start w.incidents
          → let w' = execute_block out run k w in Keeps now created w'.calls start w'.incidents
      unfolding execute_block
      execute_block-Keeps w usable h =
          let ban = λ (ok : Bool). crowdsec_ban k.source_ip run.duration k.id ok in
          let deny = λ (ok : Bool). ufw_deny k.source_ip ok in
          let more = λ (c : Call). Keeps-call c w.calls start w.incidents h in
          elim (Bool-cases (run.method == "crowdsec")) [
            | inl crowdsec ↦ elim (Bool-cases (out.ban_ip k.source_ip run.duration k.id)) [
              | inl banned ↦
                  rw (crowdsec, banned)
                    (after_ban-Keeps (parse_duration_to_dt run.now run.duration)
                      (record w { calls = ban true ∷ w.calls }) (inl (refl, refl, refl))
                      (more (ban true)))
              | inr failed ↦ rw (crowdsec, failed) (more (ban false))
            ]
            | inr other ↦ elim (Bool-cases (run.method == "ufw")) [
              | inr neither ↦ absurd (ground (arith, usable, other, neither))
              | inl ufw ↦ elim (Bool-cases (valid_ip k.source_ip)) [
                | inr malformed ↦ rw (other, ufw, malformed) h
                | inl valid ↦ elim (Bool-cases (out.agent (deny_ip k.source_ip)).ok) [
                  | inl denied ↦
                      rw (other, ufw, valid, denied)
                        (persist-Keeps none (record w { calls = deny true ∷ w.calls })
                          (inl (refl, refl)) (more (deny true)))
                  | inr failed ↦ rw (other, ufw, valid, failed) (more (deny false))
                ]
              ]
            ]
          ]

module _ (lib : IpLibrary) (config : Table) (out : Outside) where
  evaluate_and_block-Keeps :
      (created : List Incident) (run : Run) (k : Incident) (start : List Incident) (w : World)
      → AmongIncidents k created
      → ((run.method == "crowdsec") ≡ true) ⊎ ((run.method == "ufw") ≡ true)
      → Keeps run.now created w.calls start w.incidents
      → let w' = evaluate_and_block lib config out run k w in
        Keeps run.now created w'.calls start w'.incidents
  unfolding evaluate_and_block
  evaluate_and_block-Keeps created run k start w listed usable h =
      elim (Bool-cases (is_eligible lib config out run w k)) [
        | inl eligible ↦
            rw eligible (execute_block-Keeps run.now created run refl k listed out start w usable h)
        | inr skipped ↦ rw skipped h
      ]

  block_each-Keeps :
      (created : List Incident) (run : Run) (rest start : List Incident) (w : World)
      → ((i : Incident) → AmongIncidents i rest → AmongIncidents i created)
      → ((run.method == "crowdsec") ≡ true) ⊎ ((run.method == "ufw") ≡ true)
      → Keeps run.now created w.calls start w.incidents
      → let w' = block_each lib config out run rest w in
        Keeps run.now created w'.calls start w'.incidents
  unfolding block_each
  block_each-Keeps created run [] start w sub usable h = h
  block_each-Keeps created run (k ∷ rest) start w sub usable h =
      block_each-Keeps created run rest start (evaluate_and_block lib config out run k w)
        (λ i m. sub i (inr m)) usable
        (evaluate_and_block-Keeps created run k start w (sub k (inl refl)) usable h)

  -- A run of the engine neither adds nor removes an incident, and each row stays as it was, or is
  -- marked as blocked at the time of the run: then its id, address and severity are those it had,
  -- and an incident of the batch with its id had its source blocked by a call that succeeded.
  pub maybe_block_incidents-Keeps :
      (now : ℕ) (created : List Incident) (w : World)
      → let w' = maybe_block_incidents lib config out now created w in
        Keeps now created w'.calls w.incidents w'.incidents
  unfolding maybe_block_incidents run_settings
  maybe_block_incidents-Keeps now created w =
      let run = run_settings lib config now w in
      elim (Bool-cases (is_on config "soc_soar_enabled")) [
        | inr off ↦ rw off (Keeps-refl now created w.calls w.incidents)
        | inl enabled ↦ elim (Bool-cases (is_method_available config out.agent run.method)) [
          | inr missing ↦ rw (enabled, missing) (Keeps-refl now created w.calls w.incidents)
          | inl available ↦
              rw (enabled, available)
                (block_each-Keeps created run created w.incidents w (λ i m. m)
                  (is_usable config out.agent run.method available)
                  (Keeps-refl now created w.calls w.incidents))
        ]
      ]
