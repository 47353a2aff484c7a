-- ===== src/HostAgent/Chain/Yields.antt =====
-- What a computation of the agent leaves of the chain and of the marker file.
use wardnode.Base.{
  ℕ, zero, suc, ◌≤◌, Bool, true, false, ◌≡◌, refl, sym, ap, ◌∙◌, subst, some, List, ◌∷◌, any,
  Bool-cases, inl, inr, arith,
}
use wardnode.HostAgent.{
  Arg, iptables, Exit, Host, Marker, World, M, and_then, ◌>>=◌, finish, run, iptables_done,
  run_iptables, deleted, delete_all,
}
use wardnode.HostAgent.Ports.{raw_delete, raw_insert}
use wardnode.HostAgent.Chain.{Chain, IsExit, count, without, remove}
use wardnode.HostAgent.Chain.Counts.{
  count-remove, without-remove, any-count, any-count_some, count_none,
}

module _ (host : Host) (c : Chain host) where
  -- A computation from a world gives a result, a chain and a marker.
  abbrev pub Yields : {A : Type 0} → M host A → World host → A → List c.Rule → Marker → Type 0
  Yields m w a rs ports =
      (v : World host) × ((m w ≡ (some a, v))
        × ((c.rules v.system ≡ rs) × (v.protected_ports ≡ ports)))

  pub bind-Yields :
      {A B : Type 0} (m : M host A) (f : A → M host B) (w : World host) (a : A) (b : B)
      (rs rs' : List c.Rule) (ports ports' : Marker)
      → Yields m w a rs ports
      → ((v : World host)
          → c.rules v.system ≡ rs
          → v.protected_ports ≡ ports
          → Yields (f a) v b rs' ports')
      → Yields (m >>= f) w b rs' ports'
  bind-Yields m f w a b rs rs' ports ports' h k =
      let rest = k h.0 h.1.1.0 h.1.1.1 in
      (rest.0, (ap (λ r. and_then r f) h.1.0 ∙ rest.1.0, rest.1.1))

  finish_lem :
      (args : List Arg) (w : World host) (b : Bool) (rs : List c.Rule) (r : Exit × host.System)
      → IsExit b r.0
      → c.rules r.1 ≡ rs
      → (v : World host) × ((and_then (finish host (iptables args) w r) (iptables_done host)
            ≡ (some b, v))
          × ((c.rules v.system ≡ rs) × (v.protected_ports ≡ w.protected_ports)))
  finish_lem args w b rs (e, s) h k =
      (record w { system = s; calls = iptables args ∷ w.calls }, (rw h.1 refl, (k, refl)))

  pub run_lem :
      (args : List Arg) (w : World host) (b : Bool) (rs : List c.Rule)
      → IsExit b (host.run (iptables args) w.system).0
      → c.rules (host.run (iptables args) w.system).1 ≡ rs
      → Yields (run_iptables host args) w b rs w.protected_ports
  unfolding run_iptables run
  run_lem args w b rs h k = finish_lem args w b rs (host.run (iptables args) w.system) h k

  pub insert_lem :
      (r : List Arg) (w : World host)
      → Yields
          (run_iptables host (raw_insert r))
          w
          true
          (c.read r ∷ c.rules w.system)
          w.protected_ports
  insert_lem r w =
      run_lem (raw_insert r) w true _ (c.insert_exit r w.system) (c.insert_rules r w.system)

  abbrev pub test : List Arg → c.Rule → Bool
  test r = c.equal (c.read r)

  pub delete_lem :
      (r : List Arg) (w : World host) (b : Bool)
      → any (test r) (c.rules w.system) ≡ b
      → Yields
          (run_iptables host (raw_delete r))
          w
          b
          (remove (test r) (c.rules w.system))
          w.protected_ports
  delete_lem r w b h =
      run_lem (raw_delete r) w b _
        (subst (λ x. IsExit x (host.run (iptables (raw_delete r)) w.system).0) h
          (c.delete_exit r w.system))
        (c.delete_rules r w.system)

  pub delete_all_lem :
      (n : ℕ) (r : List Arg) (w : World host)
      → count (test r) (c.rules w.system) ≤ n
      → Yields
          (delete_all host n (raw_delete r))
          w
          (count (test r) (c.rules w.system))
          (without (test r) (c.rules w.system))
          w.protected_ports
  unfolding delete_all
  delete_all_lem zero r w h =
      let none : count (test r) (c.rules w.system) ≡ 0 = omega (arith, h) in
      (
        w,
        (
          ap (λ k. (some k, w)) (sym none),
          (sym (count_none (test r) (c.rules w.system) none), refl),
        ),
      )
  delete_all_lem (suc n) r w h =
      let rs = c.rules w.system in
      let t = test r in
      elim (Bool-cases (any t rs)) [
        | inl e ↦
            bind-Yields (run_iptables host (raw_delete r))
              (deleted host (delete_all host n (raw_delete r))) w true (count t rs) (remove t rs)
              (without t rs) w.protected_ports w.protected_ports (delete_lem r w true e)
              (λ v p q.
                let fewer = ap (count t) p ∙ count-remove t rs in
                let i = delete_all_lem n r v (omega (arith, h, fewer)) in
                (
                  i.0,
                  (
                    ap (λ x. and_then x (λ k u. (some (suc k), u))) i.1.0
                        ∙ ap (λ k. (some k, i.0)) (omega (arith, fewer, any-count_some t rs e)),
                    (i.1.1.0 ∙ (ap (without t) p ∙ without-remove t rs), i.1.1.1 ∙ q),
                  ),
                ))
        | inr e ↦
            bind-Yields (run_iptables host (raw_delete r))
              (deleted host (delete_all host n (raw_delete r))) w false (count t rs) (remove t rs)
              (without t rs) w.protected_ports w.protected_ports (delete_lem r w false e)
              (λ v p q.
                let none = any-count t rs e in
                (
                  v,
                  (
                    ap (λ k. (some k, v)) (sym none),
                    (
                      p
                          ∙ (sym (
                                count_none t (remove t rs) (omega (arith, none, count-remove t rs)))
                              ∙ without-remove t rs),
                      q,
                    ),
                  ),
                ))
      ]

  pub delete_from_lem :
      (n : ℕ) (r : List Arg) (w : World host) (rs : List c.Rule)
      → c.rules w.system ≡ rs
      → count (test r) rs ≤ n
      → Yields
          (delete_all host n (raw_delete r))
          w
          (count (test r) rs)
          (without (test r) rs)
          w.protected_ports
  delete_from_lem n r w rs h =
      subst
        (λ x.
          count (test r) x ≤ n
          → Yields (delete_all host n (raw_delete r)) w (count (test r) x) (without (test r) x)
              w.protected_ports)
        h (delete_all_lem n r w)
