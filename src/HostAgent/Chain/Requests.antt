-- ===== src/HostAgent/Chain/Requests.antt =====
-- A run of requests, compared with a function that remembers which ports are closed.
use wardnode.Base.{
  ◌≤◌, Bool, true, false, ◌≡◌, refl, sym, ap, ◌∙◌, subst, fun_ext, List, [], ◌∷◌, any,
  if◌then◌else◌, Bool-cases, inl, inr, arith,
}
use wardnode.HostAgent.{Arg, Host, World}
use wardnode.HostAgent.Ports.{lo_rule, drop_rule, protect_host_port, unprotect_host_port}
use wardnode.HostAgent.Chain.{Chain, count, without}
use wardnode.HostAgent.Chain.Counts.{
  count-without_self, any-without_self, count-without_le, any-without_apart,
}
use wardnode.HostAgent.Chain.Operations.{
  opened, closed, IsBounded, protect_host_port_lem, unprotect_host_port_lem,
}

pub data Request : Type 0 where
  protect unprotect : Arg → Request

module _ (host : Host) where
  -- The world after one request after the other.
  unfoldable pub run_requests : List Request → World host → World host
  run_requests [] w = w
  run_requests (protect p ∷ rest) w = run_requests rest (protect_host_port host p w).1
  run_requests (unprotect p ∷ rest) w = run_requests rest (unprotect_host_port host p w).1

  module _ (c : Chain host) where
    -- The two ports are the same to iptables.
    abbrev pub same_port : Arg → Arg → Bool
    same_port p q = c.equal (c.read (drop_rule p)) (c.read (drop_rule q))

    -- The same requests on the set of the closed ports.
    unfoldable pub replay : List Request → (Arg → Bool) → Arg → Bool
    replay [] f = f
    replay (protect p ∷ rest) f = replay rest (λ q. if same_port q p then true else f q)
    replay (unprotect p ∷ rest) f = replay rest (λ q. if same_port q p then false else f q)

    -- The chain has the DROP of the port.
    unfoldable pub is_closed : List c.Rule → Arg → Bool
    unfolding any
    is_closed rs p = any (c.equal (c.read (drop_rule p))) rs

    equal-apart : (r s x : c.Rule) → c.equal s r ≡ false → c.equal r x ≡ true → c.equal s x ≡ false
    equal-apart r s x h k = subst (λ y. c.equal s y ≡ false) (c.equal_sound r x k) h

    opened-IsBounded :
        (p : Arg) (rs : List c.Rule)
        → IsBounded host c p rs
        → IsBounded host c p (opened host c p rs)
    opened-IsBounded p rs h r =
        let a =
          count-without_le (c.equal r) (c.equal (c.read (drop_rule p)))
            (without (c.equal (c.read (lo_rule p))) rs) in
        let b = count-without_le (c.equal r) (c.equal (c.read (lo_rule p))) rs in
        omega (arith, a, b, h r)

    -- No copy of the one rule is left, nor of the other.
    opened-drop :
        (p : Arg) (rs : List c.Rule)
        → count (c.equal (c.read (drop_rule p))) (opened host c p rs) ≡ 0
    opened-drop p rs =
        count-without_self (c.equal (c.read (drop_rule p)))
          (without (c.equal (c.read (lo_rule p))) rs)

    opened-lo :
        (p : Arg) (rs : List c.Rule) → count (c.equal (c.read (lo_rule p))) (opened host c p rs) ≡ 0
    opened-lo p rs =
        let a =
          count-without_le (c.equal (c.read (lo_rule p))) (c.equal (c.read (drop_rule p)))
            (without (c.equal (c.read (lo_rule p))) rs) in
        let b = count-without_self (c.equal (c.read (lo_rule p))) rs in omega (arith, a, b)

    closed-IsBounded :
        (p : Arg) (rs : List c.Rule)
        → IsBounded host c p rs
        → IsBounded host c p (closed host c p rs)
    unfolding count
    closed-IsBounded p rs h r = elim (Bool-cases (c.equal r (c.read (lo_rule p)))) [
      | inl e ↦
          let none =
            ap (λ x. count (c.equal x) (opened host c p rs))
              (c.equal_sound r (c.read (lo_rule p)) e)
            ∙ opened-lo p rs in
          ground (arith, none)
      | inr e ↦ elim (Bool-cases (c.equal r (c.read (drop_rule p)))) [
        | inl d ↦
            let none =
              ap (λ x. count (c.equal x) (opened host c p rs))
                (c.equal_sound r (c.read (drop_rule p)) d)
              ∙ opened-drop p rs in
            ground (arith, none)
        | inr d ↦ ground (arith, e, d, opened-IsBounded p rs h r)
      ]
    ]

    equal_sym : (r s : c.Rule) → c.equal r s ≡ false → c.equal s r ≡ false
    equal_sym r s h = elim (Bool-cases (c.equal s r)) [
      | inl e ↦ e ∙ (sym (c.equal_refl r) ∙ (ap (c.equal r) (sym (c.equal_sound s r e)) ∙ h))
      | inr e ↦ e
    ]

    opened-is_closed :
        (p q : Arg) (rs : List c.Rule)
        → is_closed (opened host c p rs) q ≡ (if same_port q p then false else is_closed rs q)
    unfolding is_closed
    opened-is_closed p q rs = elim (Bool-cases (same_port q p)) [
      | inl e ↦ rw e (
          ap (λ x. any (c.equal x) (opened host c p rs))
            (c.equal_sound (c.read (drop_rule q)) (c.read (drop_rule p)) e)
          ∙ any-without_self (c.equal (c.read (drop_rule p)))
              (without (c.equal (c.read (lo_rule p))) rs))
      | inr e ↦ rw e (
          any-without_apart (c.equal (c.read (drop_rule q))) (c.equal (c.read (drop_rule p)))
            (λ x.
              equal-apart (c.read (drop_rule q)) (c.read (drop_rule p)) x
                (equal_sym (c.read (drop_rule q)) (c.read (drop_rule p)) e))
            (without (c.equal (c.read (lo_rule p))) rs)
          ∙ any-without_apart (c.equal (c.read (drop_rule q))) (c.equal (c.read (lo_rule p)))
              (λ x. equal-apart (c.read (drop_rule q)) (c.read (lo_rule p)) x (c.apart p q)) rs)
    ]

    closed-is_closed :
        (p q : Arg) (rs : List c.Rule)
        → is_closed (closed host c p rs) q ≡ (if same_port q p then true else is_closed rs q)
    unfolding is_closed any
    closed-is_closed p q rs =
        let lo_apart = equal_sym (c.read (lo_rule p)) (c.read (drop_rule q)) (c.apart p q) in
        let rest = opened-is_closed p q rs in
        elim (Bool-cases (same_port q p)) [
          | inl e ↦ ground (arith, e)
          | inr e ↦ ground (arith, e, lo_apart, rest)
        ]

    -- The requests keep the number of copies of every rule at ten at most, and which ports are closed
    -- afterwards is what the same requests make of the set of the ports that were closed: a port is
    -- closed if the last request on it protects it, and without one if it was.
    pub run_requests_refines :
        (requests : List Request) (w : World host)
        → ((r : c.Rule) → count (c.equal r) (c.rules w.system) ≤ 10)
        → ((r : c.Rule) → count (c.equal r) (c.rules (run_requests requests w).system) ≤ 10)
          × (is_closed (c.rules (run_requests requests w).system)
              ≡ replay requests (is_closed (c.rules w.system)))
    unfolding run_requests replay
    run_requests_refines [] w h = (h, refl)
    run_requests_refines (protect p ∷ rest) w h =
        let step = protect_host_port_lem host c p w h in
        let after = ap (λ r. c.rules r.1.system) step.1.0 ∙ step.1.1.0 in
        let rec = run_requests_refines rest (protect_host_port host p w).1 (
          subst (λ rs. (r : c.Rule) → count (c.equal r) rs ≤ 10) (sym after)
            (closed-IsBounded p (c.rules w.system) h)) in
        (
          rec.0,
          rec.1
              ∙ ap (replay rest)
                  (ap is_closed after ∙ fun_ext (λ q. closed-is_closed p q (c.rules w.system))),
        )
    run_requests_refines (unprotect p ∷ rest) w h =
        let step = unprotect_host_port_lem host c p w h in
        let after = ap (λ r. c.rules r.1.system) step.1.0 ∙ step.1.1.0 in
        let rec = run_requests_refines rest (unprotect_host_port host p w).1 (
          subst (λ rs. (r : c.Rule) → count (c.equal r) rs ≤ 10) (sym after)
            (opened-IsBounded p (c.rules w.system) h)) in
        (
          rec.0,
          rec.1
              ∙ ap (replay rest)
                  (ap is_closed after ∙ fun_ext (λ q. opened-is_closed p q (c.rules w.system))),
        )
