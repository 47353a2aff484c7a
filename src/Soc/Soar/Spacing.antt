-- ===== src/Soc/Soar/Spacing.antt =====
-- The marks of different incidents of one address lie more than six hours apart. A ban that left no
-- mark, as its commit failed or its expiry overflowed, does not show here.
use wardnode.Base.{
  ℕ, ◌+◌, ◌≤◌, ◌<◌, ◌≡◌, ◌≢◌, ◌⊎◌, inl, inr, refl, ap, sym, ◌∙◌, true, false, Option, none, some,
  List, [], ◌∷◌, arith, any, Bool-cases, ◌==◌, ◌=?◌,
}
use wardnode.Config.{Table, is_on}
use wardnode.Ip.{IpLibrary}
use wardnode.Modules.SocketClient.{deny_ip, valid_ip}
use wardnode.Soc.Soar.Duration.{Expiry, until, unknown, overflow, parse_duration_to_dt}
use wardnode.Soc.Soar.{
  Incident, World, Outside, Run, block_lookback, blocked_by, update, blocks_again, after_ban,
  persist, execute_block, is_eligible, evaluate_and_block, block_each, is_method_available,
  run_settings, maybe_block_incidents,
}
use wardnode.Soc.Soar.Safe.{AmongIncidents, any-false, earlier_mark, is_eligible_facts}

abbrev pub IsApart : ℕ → ℕ → Type 0
IsApart s t = (s + block_lookback < t) ⊎ (t + block_lookback < s)

-- The marks of two incidents of one address are apart, and no mark lies in the future.
pub record IsSpaced (now : ℕ) (incidents : List Incident) : Type 0 where
  pub apart :
      (i j : Incident) (s t : ℕ)
      → AmongIncidents i incidents
      → AmongIncidents j incidents
      → i.id ≢ j.id
      → i.source_ip ≡ j.source_ip
      → i.blocked ≡ true
      → j.blocked ≡ true
      → i.blocked_at ≡ some s
      → j.blocked_at ≡ some t
      → IsApart s t
  pub past : (i : Incident) (t : ℕ) → AmongIncidents i incidents → i.blocked_at ≡ some t → t ≤ now

-- The rows with the id of an incident are rows of its address.
abbrev pub HasRow : List Incident → Incident → Type 0
HasRow incidents i =
    (k : Incident) → AmongIncidents k incidents → k.id ≡ i.id → k.source_ip ≡ i.source_ip

-- A row after an update is an old row with another id, or an old row with this id rewritten.
among-update :
    (id : ℕ) (f : Incident → Incident) (j : Incident) (incidents : List Incident)
    → AmongIncidents j (update id f incidents)
    → (AmongIncidents j incidents × (j.id ≢ id))
      ⊎ ((k : Incident) × AmongIncidents k incidents × (k.id ≡ id) × (j ≡ f k))
unfolding update
among-update id f j [] m = absurd m
among-update id f j (x ∷ xs) (inl here) = elim (Bool-cases (x.id =? id)) [
  | inl e ↦ inr (x, inl refl, ground (arith, e), rw e at here)
  | inr e ↦
      let same : j ≡ x = rw e at here in inl (inl same, λ p. absurd (ground (arith, e, p, same)))
]
among-update id f j (x ∷ xs) (inr there) = elim (among-update id f j xs there) [
  | inl (m, other) ↦ inl (inr m, other)
  | inr (k, m, e, q) ↦ inr (k, inr m, e, q)
]

-- The fields of a row that a block has just written.
marked_now :
    (run : Run) (u : Option ℕ) (k j : Incident) (t : ℕ)
    → j ≡ blocked_by run u k
    → j.blocked_at ≡ some t
    → t ≡ run.now
marked_now run u k j t q at = cc (ap (λ (x : Incident). x.blocked_at) q)

marked_ip :
    (run : Run) (u : Option ℕ) (k j : Incident) → j ≡ blocked_by run u k → j.source_ip ≡ k.source_ip
marked_ip run u k j q = ap (λ (x : Incident). x.source_ip) q

marked_id : (run : Run) (u : Option ℕ) (k j : Incident) → j ≡ blocked_by run u k → j.id ≡ k.id
marked_id run u k j q = ap (λ (x : Incident). x.id) q

HasRow-update :
    (i : Incident) (id : ℕ) (run : Run) (u : Option ℕ) (incidents : List Incident)
    → HasRow incidents i
    → HasRow (update id (blocked_by run u) incidents) i
HasRow-update i id run u incidents rows k m e =
    elim (among-update id (blocked_by run u) k incidents m) [
      | inl (old, _) ↦ rows k old e
      | inr (old, m', _, q) ↦
          marked_ip run u old k q ∙ rows old m' (sym (marked_id run u old k q) ∙ e)
    ]

-- Marking an incident that the anti-repetition query lets through keeps the marks apart.
update-IsSpaced :
    (i : Incident) (run : Run) (u : Option ℕ) (incidents : List Incident)
    → HasRow incidents i
    → any (blocks_again i run.now) incidents ≡ false
    → IsSpaced run.now incidents
    → IsSpaced run.now (update i.id (blocked_by run u) incidents)
update-IsSpaced i run u incidents rows query v = record {
  apart = λ a b s t ma mb ids ips ba bb ta tb.
      elim (among-update i.id (blocked_by run u) a incidents ma) [
        | inl (ma', ia) ↦ elim (among-update i.id (blocked_by run u) b incidents mb) [
          | inl (mb', ib) ↦ v.apart a b s t ma' mb' ids ips ba bb ta tb
          | inr (k, mk, ik, q) ↦ inl (
              rw (marked_now run u k b t q tb) (
                earlier_mark i a run.now s (any-false i a run.now incidents query ma')
                  (ips ∙ marked_ip run u k b q ∙ rows k mk ik) ia ba ta))
        ]
        | inr (k, mk, ik, q) ↦ elim (among-update i.id (blocked_by run u) b incidents mb) [
          | inl (mb', ib) ↦ inr (
              rw (marked_now run u k a s q ta) (
                earlier_mark i b run.now t (any-false i b run.now incidents query mb')
                  (sym ips ∙ marked_ip run u k a q ∙ rows k mk ik) ib bb tb))
          | inr (l, ml, il, r) ↦
              absurd (ids (marked_id run u k a q ∙ ik ∙ sym (marked_id run u l b r ∙ il)))
        ]
      ];
  past = λ a t m at. elim (among-update i.id (blocked_by run u) a incidents m) [
    | inl (m', other) ↦ v.past a t m' at
    | inr (k, mk, ik, q) ↦ omega (arith, marked_now run u k a t q at)
  ];
}

-- The state of a batch whose rows are rows of the incidents still to come.
abbrev IsReady : ℕ → List Incident → World → Type 0
IsReady now rest w =
    IsSpaced now w.incidents × ((i : Incident) → AmongIncidents i rest → HasRow w.incidents i)

persist-IsReady :
    (out : Outside) (run : Run) (i : Incident) (rest : List Incident) (u : Option ℕ) (w : World)
    → HasRow w.incidents i
    → any (blocks_again i run.now) w.incidents ≡ false
    → IsReady run.now rest w
    → IsReady run.now rest (persist out run i u w)
unfolding persist
persist-IsReady out run i rest u w rows query ready = elim (Bool-cases (out.commits i.id)) [
  | inr failed ↦ rw failed ready
  | inl done ↦ rw done (
    update-IsSpaced i run u w.incidents rows query ready.0,
    λ j m. HasRow-update j i.id run u w.incidents (ready.1 j m),
  )
]

module _ (out : Outside) (run : Run) (i : Incident) (rest : List Incident) where
  after_ban-IsReady :
      (e : Expiry) (w : World)
      → HasRow w.incidents i
      → any (blocks_again i run.now) w.incidents ≡ false
      → IsReady run.now rest w
      → IsReady run.now rest (after_ban out run i e w)
  after_ban-IsReady (until t) w rows query ready =
      persist-IsReady out run i rest (some t) w rows query ready
  after_ban-IsReady unknown w rows query ready =
      persist-IsReady out run i rest none w rows query ready
  after_ban-IsReady overflow w rows query ready = ready

  execute_block-IsReady :
      (w : World)
      → HasRow w.incidents i
      → any (blocks_again i run.now) w.incidents ≡ false
      → IsReady run.now rest w
      → IsReady run.now rest (execute_block out run i w)
  unfolding execute_block
  execute_block-IsReady w rows query ready = elim (Bool-cases (run.method == "crowdsec")) [
    | inl crowdsec ↦ elim (Bool-cases (out.ban_ip i.source_ip run.duration i.id)) [
      | inl banned ↦
          rw (crowdsec, banned)
            (after_ban-IsReady (parse_duration_to_dt run.now run.duration) _ rows query ready)
      | inr failed ↦ rw (crowdsec, failed) ready
    ]
    | inr other ↦ elim (Bool-cases (run.method == "ufw")) [
      | inr neither ↦ rw (other, neither) (persist-IsReady out run i rest none w rows query ready)
      | inl ufw ↦ elim (Bool-cases (valid_ip i.source_ip)) [
        | inr malformed ↦ rw (other, ufw, malformed) ready
        | inl valid ↦ elim (Bool-cases (out.agent (deny_ip i.source_ip)).ok) [
          | inl denied ↦
              rw (other, ufw, valid, denied)
                (persist-IsReady out run i rest none _ rows query ready)
          | inr failed ↦ rw (other, ufw, valid, failed) ready
        ]
      ]
    ]
  ]

module _ (lib : IpLibrary) (config : Table) (out : Outside) where
  evaluate_and_block-IsReady :
      (run : Run) (i : Incident) (rest : List Incident) (w : World)
      → HasRow w.incidents i
      → IsReady run.now rest w
      → IsReady run.now rest (evaluate_and_block lib config out run i w)
  unfolding evaluate_and_block
  evaluate_and_block-IsReady run i rest w rows ready =
      elim (Bool-cases (is_eligible lib config out run w i)) [
        | inr skipped ↦ rw skipped ready
        | inl eligible ↦ rw eligible (
            execute_block-IsReady out run i rest w rows
              ((is_eligible_facts lib config out run w i eligible).4) ready)
      ]

  block_each-IsSpaced :
      (run : Run) (created : List Incident) (w : World)
      → IsReady run.now created w
      → IsSpaced run.now (block_each lib config out run created w).incidents
  unfolding block_each
  block_each-IsSpaced run [] w ready = ready.0
  block_each-IsSpaced run (i ∷ rest) w ready =
      block_each-IsSpaced run rest (evaluate_and_block lib config out run i w) (
        evaluate_and_block-IsReady run i rest w (ready.1 i (inl refl))
          (ready.0, λ j m. ready.1 j (inr m)))

  -- If the marks of different incidents of one address are more than six hours apart and none
  -- lies in the future, they are so after a run of the engine, whatever the outside answers, for
  -- incidents whose rows have their address.
  pub maybe_block_incidents-IsSpaced :
      (now : ℕ) (created : List Incident) (w : World)
      → ((i : Incident) → AmongIncidents i created → HasRow w.incidents i)
      → IsSpaced now w.incidents
      → IsSpaced now (maybe_block_incidents lib config out now created w).incidents
  unfolding maybe_block_incidents run_settings
  maybe_block_incidents-IsSpaced now created w rows spaced =
      let run = run_settings lib config now w in
      elim (Bool-cases (is_on config "soc_soar_enabled")) [
        | inr off ↦ rw off spaced
        | inl enabled ↦ elim (Bool-cases (is_method_available config out.agent run.method)) [
          | inr missing ↦ rw (enabled, missing) spaced
          | inl available ↦
              rw (enabled, available) (block_each-IsSpaced run created w (spaced, rows))
        ]
      ]
