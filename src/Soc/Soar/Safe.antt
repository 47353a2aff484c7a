-- ===== src/Soc/Soar/Safe.antt =====
-- Whom the engine may block: every call that leaves the console is for an eligible incident.
use wardnode.Base.{
  ℕ, ◌+◌, ◌≤◌, ◌<◌, String, ◌≡◌, ◌≢◌, eq_iff, ◌⊎◌, inl, inr, refl, sym, ap, ◌∙◌, subst, Bool, true,
  false, Option, none, some, List, [], ◌∷◌, ◌++◌, append_assoc, arith, any, keep, or_else, All,
  Bool-cases, Option-cases, ◌==◌,
}
use wardnode.Config.{Table, setting, is_on}
use wardnode.Ip.{IpLibrary, is_special}
use wardnode.Ddos.Safety.{safe, is_ban_safe, member}
use wardnode.Ddos.Safety.Guards.{NoneNames, member-norm_set}
use wardnode.Modules.SocketClient.{deny_ip, valid_ip}
use wardnode.Soc.Detect.{sev_order}
use wardnode.Soc.Soar.Duration.{Expiry, until, unknown, overflow}
use wardnode.Soc.Soar.{
  Incident, Call, crowdsec_ban, block_lookback, ufw_deny, World, Outside, Run, after_ban, persist,
  execute_block, blocks_again, is_public_ip, canonical_or, is_eligible, evaluate_and_block,
  block_each, is_recent_login, login_texts, recent_admin_login_ips, is_method_available,
  run_settings, maybe_block_incidents,
}

abbrev pub call_ip : Call → String
call_ip (crowdsec_ban ip _ _ _) = ip
call_ip (ufw_deny ip _) = ip

abbrev pub method_of : Call → String
method_of (crowdsec_ban _ _ _ _) = "crowdsec"
method_of (ufw_deny _ _) = "ufw"

abbrev pub AmongIncidents : Incident → List Incident → Type 0
AmongIncidents i [] = ⊥
AmongIncidents i (x ∷ xs) = (i ≡ x) ⊎ AmongIncidents i xs

pub any-false :
    (i j : Incident) (now : ℕ) (incidents : List Incident)
    → any (blocks_again i now) incidents ≡ false
    → AmongIncidents j incidents
    → blocks_again i now j ≡ false
unfolding any
any-false i j now [] h m = absurd m
any-false i j now (x ∷ xs) h (inl e) = rw e (ground arith)
any-false i j now (x ∷ xs) h (inr m) = any-false i j now xs (ground arith) m

-- What the anti-repetition query says of another mark of the same address.
pub earlier_mark :
    (i j : Incident) (now t : ℕ)
    → blocks_again i now j ≡ false
    → j.source_ip ≡ i.source_ip
    → j.id ≢ i.id
    → j.blocked ≡ true
    → j.blocked_at ≡ some t
    → t + block_lookback < now
unfolding blocks_again
earlier_mark i j now t h same other was at = ground (arith, (eq_iff j.source_ip i.source_ip).1 same)

calls-persist :
    (out : Outside) (run : Run) (i : Incident) (u : Option ℕ) (w : World)
    → (persist out run i u w).calls ≡ w.calls
unfolding persist
calls-persist out run i u w = ground arith

calls-after_ban :
    (out : Outside) (run : Run) (i : Incident) (e : Expiry) (w : World)
    → (after_ban out run i e w).calls ≡ w.calls
calls-after_ban out run i (until t) w = calls-persist out run i (some t) w
calls-after_ban out run i unknown w = calls-persist out run i none w
calls-after_ban out run i overflow w = refl

-- A block calls nothing but for the incident's address, by the method of the run.
execute_block-All :
    (P : Call → Type 0) (out : Outside) (run : Run) (i : Incident) (w : World)
    → ((c : Call) → call_ip c ≡ i.source_ip → method_of c ≡ run.method → P c)
    → All P w.calls
    → All P (execute_block out run i w).calls
unfolding execute_block
execute_block-All P out run i w new old =
    let ban = λ (ok : Bool). crowdsec_ban i.source_ip run.duration i.id ok in
    let deny = λ (ok : Bool). ufw_deny i.source_ip ok in
    let by = λ (m : String) (e : (run.method == m) ≡ true). sym ((eq_iff run.method m).0 e) in
    elim (Bool-cases (run.method == "crowdsec")) [
      | inl crowdsec ↦ elim (Bool-cases (out.ban_ip i.source_ip run.duration i.id)) [
        | inl banned ↦
            rw (crowdsec, banned, calls-after_ban)
              (new (ban true) refl (by "crowdsec" crowdsec), old)
        | inr failed ↦ rw (crowdsec, failed) (new (ban false) refl (by "crowdsec" crowdsec), old)
      ]
      | inr other ↦ elim (Bool-cases (run.method == "ufw")) [
        | inr neither ↦ rw (other, neither, calls-persist) old
        | inl ufw ↦ elim (Bool-cases (valid_ip i.source_ip)) [
          | inr malformed ↦ rw (other, ufw, malformed) old
          | inl valid ↦ elim (Bool-cases (out.agent (deny_ip i.source_ip)).ok) [
            | inl denied ↦
                rw (other, ufw, valid, denied, calls-persist)
                  (new (deny true) refl (by "ufw" ufw), old)
            | inr failed ↦
                rw (other, ufw, valid, failed) (new (deny false) refl (by "ufw" ufw), old)
          ]
        ]
      ]
    ]

module _ (lib : IpLibrary) where
  open lib use {Address, ip_address, to_text}

  -- The guards in the order of the code, each as a fact.
  pub is_eligible_facts :
      (config : Table) (out : Outside) (run : Run) (w : World) (i : Incident)
      → is_eligible lib config out run w i ≡ true
      → (sev_order run.min_severity 2 ≤ sev_order i.severity 0)
        × (is_public_ip lib i.source_ip ≡ true)
        × (is_ban_safe lib config out.network i.source_ip "" ≡ safe)
        × (member (canonical_or lib i.source_ip (ip_address i.source_ip)) run.recent_admin_ips
            ≡ false)
        × (any (blocks_again i run.now) w.incidents ≡ false)
  unfolding is_eligible
  is_eligible_facts config out run w i h = ground arith

  -- The incidents once the first ones of a batch are dealt with.
  abbrev pub incidents_after : Table → Outside → ℕ → List Incident → World → List Incident
  incidents_after config out now before start =
      (block_each lib config out (run_settings lib config now start) before start).incidents

  -- Why a call may be made: the engine is on and the module of the call's method is available, the
  -- call is for an incident of the batch that is severe enough, the source is a public address,
  -- `is_ban_safe` lets it through, it is no address that an administrator logged in from in the last
  -- 24 hours, in any spelling, and, once the earlier incidents of the batch are dealt with, any mark
  -- of a block of the same address, by another incident, is more than six hours old.
  pub record IsTarget (config : Table) (out : Outside) (now : ℕ) (created : List Incident)
      (start : World) (c : Call) : Type 0 where
    pub incident : Incident
    pub before : List Incident
    pub after : List Incident
    pub batch : before ++ (incident ∷ after) ≡ created
    pub address_of : call_ip c ≡ incident.source_ip
    pub severe :
        sev_order (or_else (setting config "soc_soar_min_severity") "high") 2
        ≤ sev_order incident.severity 0
    pub switched_on : is_on config "soc_soar_enabled" ≡ true
    pub available : is_method_available config out.agent (method_of c) ≡ true
    pub address : Address
    pub named : ip_address incident.source_ip ≡ some address
    pub not_special : is_special lib address ≡ false
    pub ban_safe : is_ban_safe lib config out.network incident.source_ip "" ≡ safe
    pub no_recent_login :
        NoneNames lib address (login_texts (keep (is_recent_login now) start.audit))
    pub not_repeated :
        (j : Incident) (t : ℕ)
        → AmongIncidents j (incidents_after config out now before start)
        → j.source_ip ≡ incident.source_ip
        → j.id ≢ incident.id
        → j.blocked ≡ true
        → j.blocked_at ≡ some t
        → t + block_lookback < now

  module _ (config : Table) (out : Outside) (now : ℕ) (created : List Incident)
      (start : World) where
    eligible-IsTarget :
        (before after : List Incident) (i : Incident) (w : World) (c : Call)
        → is_on config "soc_soar_enabled" ≡ true
        → is_method_available config out.agent (run_settings lib config now start).method ≡ true
        → before ++ (i ∷ after) ≡ created
        → block_each lib config out (run_settings lib config now start) before start ≡ w
        → is_eligible lib config out (run_settings lib config now start) w i ≡ true
        → call_ip c ≡ i.source_ip
        → method_of c ≡ (run_settings lib config now start).method
        → IsTarget config out now created start c
    unfolding run_settings is_public_ip recent_admin_login_ips
    eligible-IsTarget before after i w c on open_method batch state eligible for by =
        let run = run_settings lib config now start in
        let facts = is_eligible_facts config out run w i eligible in
        elim (Option-cases (ip_address i.source_ip)) [
          | inl e ↦ absurd (ground (arith, e, facts.1))
          | inr (a, e) ↦ record {
            incident = i;
            before = before;
            after = after;
            batch = batch;
            address_of = for;
            severe = facts.0;
            switched_on = on;
            available = rw by open_method;
            address = a;
            named = e;
            not_special = ground (arith, e, facts.1);
            ban_safe = facts.2;
            no_recent_login =
                (member-norm_set lib a (login_texts (keep (is_recent_login now) start.audit))).0
                  (rw e at (facts.3));
            not_repeated = λ j t m. earlier_mark i j now t (
                any-false i j now w.incidents facts.4
                  (subst (λ (u : World). AmongIncidents j u.incidents) state m));
          }
        ]

  evaluate_and_block-All :
      (P : Call → Type 0) (config : Table) (out : Outside) (run : Run) (i : Incident) (w : World)
      → (is_eligible lib config out run w i ≡ true
          → (c : Call) → call_ip c ≡ i.source_ip
          → method_of c ≡ run.method
          → P c)
      → All P w.calls
      → All P (evaluate_and_block lib config out run i w).calls
  unfolding evaluate_and_block
  evaluate_and_block-All P config out run i w new old =
      elim (Bool-cases (is_eligible lib config out run w i)) [
        | inr skipped ↦ rw skipped old
        | inl eligible ↦ rw eligible (execute_block-All P out run i w (new eligible) old)
      ]

  block_each-snoc :
      (config : Table) (out : Outside) (run : Run) (before : List Incident) (i : Incident)
      (w : World)
      → block_each lib config out run (before ++ (i ∷ [])) w
        ≡ evaluate_and_block lib config out run i (block_each lib config out run before w)
  unfolding block_each
  block_each-snoc config out run [] i w = refl
  block_each-snoc config out run (b ∷ before) i w =
      block_each-snoc config out run before i (evaluate_and_block lib config out run b w)

  module _ (config : Table) (out : Outside) (now : ℕ) (created : List Incident)
      (start : World) where
    block_each-IsTarget :
        (before rest : List Incident) (w : World)
        → is_on config "soc_soar_enabled" ≡ true
        → is_method_available config out.agent (run_settings lib config now start).method ≡ true
        → before ++ rest ≡ created
        → block_each lib config out (run_settings lib config now start) before start ≡ w
        → All (IsTarget config out now created start) w.calls
        → All
            (IsTarget config out now created start)
            (block_each lib config out (run_settings lib config now start) rest w).calls
    unfolding block_each
    block_each-IsTarget before [] w on open_method batch state old = old
    block_each-IsTarget before (i ∷ rest) w on open_method batch state old =
        let run = run_settings lib config now start in
        block_each-IsTarget (before ++ (i ∷ [])) rest (evaluate_and_block lib config out run i w) on
          open_method (append_assoc before (i ∷ []) rest ∙ batch)
          (block_each-snoc config out run before i start
            ∙ ap (evaluate_and_block lib config out run i) state)
          (evaluate_and_block-All (IsTarget config out now created start) config out run i w
            (λ eligible c for by.
              eligible-IsTarget config out now created start before rest i w c on open_method batch
                state eligible for by)
            old)

  -- Every call that a run of the engine makes has a target that passes all its guards: the switches,
  -- the least severity, a public address, `is_ban_safe`, the recent administrators, and no block of
  -- the address marked by another incident in the last six hours, in the incidents as the earlier
  -- ones of the batch leave them.
  pub maybe_block_incidents-IsTarget :
      (config : Table) (out : Outside) (now : ℕ) (created : List Incident) (w : World)
      → All (IsTarget config out now created w) w.calls
      → All
          (IsTarget config out now created w)
          (maybe_block_incidents lib config out now created w).calls
  unfolding maybe_block_incidents block_each
  maybe_block_incidents-IsTarget config out now created w old =
      let run = run_settings lib config now w in
      elim (Bool-cases (is_on config "soc_soar_enabled")) [
        | inr off ↦ rw off old
        | inl enabled ↦ elim (Bool-cases (is_method_available config out.agent run.method)) [
          | inr missing ↦ rw (enabled, missing) old
          | inl available ↦
              rw (enabled, available)
                (block_each-IsTarget config out now created w [] created w enabled available refl
                  refl old)
        ]
      ]
