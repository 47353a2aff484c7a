-- ===== src/HostAgent/Chain/Operations.antt =====
-- What protecting a port and giving it up do to the chain and to the marker file.
use wardnode.Base.{ℕ, ◌+◌, ◌≤◌, true, ◌≡◌, refl, ap, ◌∙◌, subst, List, ◌∷◌, any, arith}
use wardnode.HostAgent.{
  Arg, iptables, Host, port_protected, port_unprotected, Marker, set_port, drop_port, World, M,
  ◌>>=◌, run_iptables, delete_all,
}
use wardnode.HostAgent.Ports.{
  lo_rule, drop_rule, raw_delete, raw_insert, raw_check, save_protected_ports, remember, forget,
  is_host_port_blocked, protect_rest, protect_lo, protect_host_port, unprotect_host_port,
}
use wardnode.HostAgent.Chain.{Chain, IsExit, count, without}
use wardnode.HostAgent.Chain.Counts.{count-without_le}
use wardnode.HostAgent.Chain.Yields.{
  Yields, bind-Yields, run_lem, insert_lem, test, delete_from_lem, delete_all_lem,
}

module _ (host : Host) (c : Chain host) where
  module _ (port : Arg) where
    abbrev pub lo : List c.Rule → List c.Rule
    lo rs = without (test host c (lo_rule port)) rs

    -- The chain without the two rules of a port.
    abbrev pub opened : List c.Rule → List c.Rule
    opened rs = without (test host c (drop_rule port)) (without (test host c (lo_rule port)) rs)

    -- The two rules first, the ACCEPT before the DROP, and no other copy of them.
    abbrev pub closed : List c.Rule → List c.Rule
    closed rs = c.read (lo_rule port) ∷ c.read (drop_rule port) ∷ opened rs

    -- The loops that delete ten copies at most come to an end of them.
    abbrev pub IsBounded : List c.Rule → Type 0
    IsBounded rs = (r : c.Rule) → count (c.equal r) rs ≤ 10

    save_lem :
        (ports : Marker) (w : World host)
        → Yields host c (save_protected_ports host ports) w tt (c.rules w.system) ports
    unfolding save_protected_ports
    save_lem ports w =
        (record w { protected_ports = ports }, (rw (c.writable w.system) refl, (refl, refl)))

    remember_lem :
        (w : World host)
        → Yields host c
            (remember host port)
            w
            tt
            (c.rules w.system)
            (set_port port w.protected_ports)
    unfolding remember
    remember_lem w = save_lem (set_port port w.protected_ports) w

    forget_lem :
        (w : World host)
        → Yields host c
            (forget host port)
            w
            tt
            (c.rules w.system)
            (drop_port port w.protected_ports)
    unfolding forget
    forget_lem w = save_lem (drop_port port w.protected_ports) w

    check_lem :
        (w : World host)
        → any (test host c (drop_rule port)) (c.rules w.system) ≡ true
        → Yields host c (is_host_port_blocked host port) w true (c.rules w.system) w.protected_ports
    unfolding is_host_port_blocked
    check_lem w h =
        run_lem host c (raw_check (drop_rule port)) w true _
          (subst (λ x. IsExit x (host.run (iptables (raw_check (drop_rule port))) w.system).0) h
            (c.check_exit (drop_rule port) w.system))
          (c.check_rules (drop_rule port) w.system)

    closed-any : (rs : List c.Rule) → any (test host c (drop_rule port)) (closed rs) ≡ true
    unfolding any
    closed-any rs = ground (arith, c.equal_refl (c.read (drop_rule port)))

    protect_rest_lem :
        (w : World host) (rs : List c.Rule)
        → c.rules w.system ≡ closed rs
        → Yields host c
            (protect_rest host port true)
            w
            (port_protected true)
            (closed rs)
            (set_port port w.protected_ports)
    protect_rest_lem w rs h =
        bind-Yields host c (remember host port) _ w tt (port_protected true) (c.rules w.system)
          (closed rs) (set_port port w.protected_ports) (set_port port w.protected_ports)
          (remember_lem w)
          (λ v p q.
            bind-Yields host c (is_host_port_blocked host port) _ v true (port_protected true)
              (c.rules v.system) (closed rs) v.protected_ports (set_port port w.protected_ports)
              (check_lem v (ap (any (test host c (drop_rule port))) (p ∙ h) ∙ closed-any rs))
              (λ u x y. (u, (refl, (x ∙ (p ∙ h), y ∙ q)))))

    delete_both :
        {B : Type 0} (f : ℕ → ℕ → M host B) (w : World host) (b : B) (rs : List c.Rule)
        (ports : Marker)
        → IsBounded (c.rules w.system)
        → ((v : World host)
            → c.rules v.system ≡ opened (c.rules w.system)
            → v.protected_ports ≡ w.protected_ports
            → Yields host c
                (f
                  (count (test host c (lo_rule port)) (c.rules w.system))
                  (count (test host c (drop_rule port)) (lo (c.rules w.system))))
                v
                b
                rs
                ports)
        → Yields host c
            (delete_all host 10 (raw_delete (lo_rule port)) >>= λ k.
              delete_all host 10 (raw_delete (drop_rule port)) >>= f k)
            w
            b
            rs
            ports
    delete_both f w b rs ports h k =
        bind-Yields host c (delete_all host 10 (raw_delete (lo_rule port))) _ w _ b _ rs
          w.protected_ports ports
          (delete_all_lem host c 10 (lo_rule port) w (h (c.read (lo_rule port))))
          (λ v p q.
            bind-Yields host c (delete_all host 10 (raw_delete (drop_rule port))) _ v _ b _ rs
              v.protected_ports ports
              (delete_from_lem host c 10 (drop_rule port) v (lo (c.rules w.system)) p (
                omega (
                  arith,
                  h (c.read (drop_rule port)),
                  count-without_le (test host c (drop_rule port)) (test host c (lo_rule port))
                      (c.rules w.system),
                )))
              (λ u x y. k u x (y ∙ q)))

    -- On a chain with ten copies of a rule at most, protecting a port succeeds and says so: the
    -- ACCEPT of the loopback is then the first rule, the DROP the second, no other copy of the two is
    -- left, the other rules are as before, and the marker has the port.
    pub protect_host_port_lem :
        (w : World host)
        → IsBounded (c.rules w.system)
        → Yields host c
            (protect_host_port host port)
            w
            (port_protected true)
            (closed (c.rules w.system))
            (set_port port w.protected_ports)
    unfolding protect_host_port
    protect_host_port_lem w h =
        delete_both _ w (port_protected true) (closed (c.rules w.system))
          (set_port port w.protected_ports) h
          (λ v p q.
            bind-Yields host c (run_iptables host (raw_insert (drop_rule port)))
              (protect_lo host port) v true (port_protected true) _ (closed (c.rules w.system))
              v.protected_ports (set_port port w.protected_ports)
              (insert_lem host c (drop_rule port) v)
              (λ u x y.
                bind-Yields host c (run_iptables host (raw_insert (lo_rule port)))
                  (protect_rest host port) u true (port_protected true) _
                  (closed (c.rules w.system)) u.protected_ports (set_port port w.protected_ports)
                  (insert_lem host c (lo_rule port) u)
                  (λ z a b.
                    subst
                      (λ ports.
                        Yields host c (protect_rest host port true) z (port_protected true)
                          (closed (c.rules w.system)) (set_port port ports))
                      (b ∙ (y ∙ q))
                      (protect_rest_lem z (c.rules w.system) (
                        a
                        ∙ ap (λ l. c.read (lo_rule port) ∷ l)
                            (x ∙ ap (λ l. c.read (drop_rule port) ∷ l) p))))))

    -- Giving up a port answers how many rules it took away: none of the two is left in the chain, the
    -- other rules are as before, and the marker has the port no more.
    pub unprotect_host_port_lem :
        (w : World host)
        → IsBounded (c.rules w.system)
        → Yields host c
            (unprotect_host_port host port)
            w
            (port_unprotected (
              count (test host c (lo_rule port)) (c.rules w.system)
              + count (test host c (drop_rule port)) (lo (c.rules w.system))))
            (opened (c.rules w.system))
            (drop_port port w.protected_ports)
    unfolding unprotect_host_port
    unprotect_host_port_lem w h =
        delete_both _ w _ (opened (c.rules w.system)) (drop_port port w.protected_ports) h (λ v p q.
          bind-Yields host c (forget host port) _ v tt _ (c.rules v.system)
            (opened (c.rules w.system)) (drop_port port v.protected_ports)
            (drop_port port w.protected_ports) (forget_lem v)
            (λ u x y. (u, (refl, (x ∙ p, y ∙ ap (drop_port port) q)))))
