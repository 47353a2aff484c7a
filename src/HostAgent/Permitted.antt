-- ===== src/HostAgent/Permitted.antt =====
-- Every operation of the agent runs permitted commands only.
use wardnode.Base.{
  ℕ, zero, suc, String, Bool, true, false, ◌≡◌, refl, List, [], ◌∷◌, ◌++◌, any, all, All,
  All-append, Bool-cases, inl, inr,
}
use wardnode.HostAgent.{Arg, Host, M, return, run_iptables, delete_all, deleted}
use wardnode.HostAgent.Ports.{
  words, lo_rule, drop_rule, raw_delete, raw_insert, raw_check, input_drop, input_lo, input_delete,
  input_insert, save_protected_ports, remember, forget, is_host_port_blocked, protect_rest,
  protect_lo, protect_host_port as protect_port, unprotect_host_port as unprotect_port,
  console_rest, console_lo, secure_console_port as secure_port,
}
use wardnode.HostAgent.Commands.{
  in_vocabulary, IsArgument, words-IsArgument, around-IsArgument, Issues, bind-Issues,
  run_iptables-Issues,
}

module _ (port : Arg) (h : IsArgument port) where
  lo_rule-IsArgument : All IsArgument (lo_rule port)
  unfolding all in_vocabulary any
  lo_rule-IsArgument =
      around-IsArgument ("-i" ∷ "lo" ∷ "-p" ∷ "tcp" ∷ "--dport" ∷ []) ("-j" ∷ "ACCEPT" ∷ []) port
        refl refl h

  drop_rule-IsArgument : All IsArgument (drop_rule port)
  unfolding all in_vocabulary any
  drop_rule-IsArgument =
      around-IsArgument ("-p" ∷ "tcp" ∷ "--dport" ∷ [])
        ("!" ∷ "-s" ∷ "172.16.0.0/12" ∷ "-j" ∷ "DROP" ∷ []) port refl refl h

-- A rule after the words of a command.
after-IsArgument :
    (ws : List String) (rule : List Arg)
    → all in_vocabulary ws ≡ true
    → All IsArgument rule
    → All IsArgument (words ws ++ rule)
after-IsArgument ws rule p h = All-append IsArgument (words ws) rule (words-IsArgument ws p) h

module _ (rule : List Arg) (h : All IsArgument rule) where
  raw_delete-IsArgument : All IsArgument (raw_delete rule)
  unfolding all in_vocabulary any
  raw_delete-IsArgument = after-IsArgument ("-t" ∷ "raw" ∷ "-D" ∷ "PREROUTING" ∷ []) rule refl h

  raw_insert-IsArgument : All IsArgument (raw_insert rule)
  unfolding all in_vocabulary any
  raw_insert-IsArgument =
      after-IsArgument ("-t" ∷ "raw" ∷ "-I" ∷ "PREROUTING" ∷ "1" ∷ []) rule refl h

  raw_check-IsArgument : All IsArgument (raw_check rule)
  unfolding all in_vocabulary any
  raw_check-IsArgument = after-IsArgument ("-t" ∷ "raw" ∷ "-C" ∷ "PREROUTING" ∷ []) rule refl h

  input_delete-IsArgument : All IsArgument (input_delete rule)
  unfolding all in_vocabulary any
  input_delete-IsArgument = after-IsArgument ("-D" ∷ "INPUT" ∷ []) rule refl h

  input_insert-IsArgument : All IsArgument (input_insert rule)
  unfolding all in_vocabulary any
  input_insert-IsArgument = after-IsArgument ("-I" ∷ "INPUT" ∷ "1" ∷ []) rule refl h

input_drop-IsArgument : All IsArgument input_drop
unfolding all in_vocabulary any
input_drop-IsArgument =
    words-IsArgument ("-p" ∷ "tcp" ∷ "--dport" ∷ "5000" ∷ "-j" ∷ "DROP" ∷ []) refl

input_lo-IsArgument : All IsArgument input_lo
unfolding all in_vocabulary any
input_lo-IsArgument =
    words-IsArgument ("-i" ∷ "lo" ∷ "-p" ∷ "tcp" ∷ "--dport" ∷ "5000" ∷ "-j" ∷ "ACCEPT" ∷ []) refl

module _ (host : Host) where
  return-Issues : {A : Type 0} (a : A) → Issues host (return a)
  return-Issues a w h = h

  deleted-Issues :
      (later : M host ℕ) → Issues host later → (ok : Bool) → Issues host (deleted host later ok)
  deleted-Issues later h true = bind-Issues host later _ h (λ k w c. c)
  deleted-Issues later h false = λ w c. c

  delete_all-Issues :
      (n : ℕ) (args : List Arg) → All IsArgument args → Issues host (delete_all host n args)
  unfolding delete_all
  delete_all-Issues zero args h = λ w k. k
  delete_all-Issues (suc n) args h =
      bind-Issues host (run_iptables host args) (deleted host (delete_all host n args))
        (run_iptables-Issues host args h)
        (deleted-Issues (delete_all host n args) (delete_all-Issues n args h))

  remember-Issues : (port : Arg) → Issues host (remember host port)
  unfolding remember save_protected_ports
  remember-Issues port w h = elim (Bool-cases (host.can_write w.system)) [
    | inl e ↦ rw e h
    | inr e ↦ rw e h
  ]

  forget-Issues : (port : Arg) → Issues host (forget host port)
  unfolding forget save_protected_ports
  forget-Issues port w h = elim (Bool-cases (host.can_write w.system)) [
    | inl e ↦ rw e h
    | inr e ↦ rw e h
  ]

  module _ (port : Arg) (h : IsArgument port) where
    pub is_host_port_blocked-Issues : Issues host (is_host_port_blocked host port)
    unfolding is_host_port_blocked
    is_host_port_blocked-Issues =
        run_iptables-Issues host (raw_check (drop_rule port))
          (raw_check-IsArgument (drop_rule port) (drop_rule-IsArgument port h))

    protect_rest-Issues : (ok : Bool) → Issues host (protect_rest host port ok)
    protect_rest-Issues false = λ w c. c
    protect_rest-Issues true = bind-Issues host (remember host port) _ (remember-Issues port) (λ u.
        bind-Issues host (is_host_port_blocked host port) _ is_host_port_blocked-Issues
          (λ b w c. c))

    protect_lo-Issues : (ok : Bool) → Issues host (protect_lo host port ok)
    protect_lo-Issues false = λ w c. c
    protect_lo-Issues true =
        bind-Issues host (run_iptables host (raw_insert (lo_rule port))) (protect_rest host port)
          (run_iptables-Issues host (raw_insert (lo_rule port))
            (raw_insert-IsArgument (lo_rule port) (lo_rule-IsArgument port h)))
          protect_rest-Issues

    delete_lo-Issues : Issues host (delete_all host 10 (raw_delete (lo_rule port)))
    delete_lo-Issues =
        delete_all-Issues 10 (raw_delete (lo_rule port))
          (raw_delete-IsArgument (lo_rule port) (lo_rule-IsArgument port h))

    delete_drop-Issues : Issues host (delete_all host 10 (raw_delete (drop_rule port)))
    delete_drop-Issues =
        delete_all-Issues 10 (raw_delete (drop_rule port))
          (raw_delete-IsArgument (drop_rule port) (drop_rule-IsArgument port h))

    pub protect_port-Issues : Issues host (protect_port host port)
    unfolding protect_port
    protect_port-Issues =
        bind-Issues host (delete_all host 10 (raw_delete (lo_rule port))) _ delete_lo-Issues (λ k.
          bind-Issues host (delete_all host 10 (raw_delete (drop_rule port))) _ delete_drop-Issues
            (λ n.
              bind-Issues host (run_iptables host (raw_insert (drop_rule port)))
                (protect_lo host port)
                (run_iptables-Issues host (raw_insert (drop_rule port))
                  (raw_insert-IsArgument (drop_rule port) (drop_rule-IsArgument port h)))
                protect_lo-Issues))

    pub unprotect_port-Issues : Issues host (unprotect_port host port)
    unfolding unprotect_port
    unprotect_port-Issues =
        bind-Issues host (delete_all host 10 (raw_delete (lo_rule port))) _ delete_lo-Issues (λ k.
          bind-Issues host (delete_all host 10 (raw_delete (drop_rule port))) _ delete_drop-Issues
            (λ n. bind-Issues host (forget host port) _ (forget-Issues port) (λ u w c. c)))

  console_rest-Issues : (ok : Bool) → Issues host (console_rest host ok)
  console_rest-Issues false w h = h
  console_rest-Issues true w h = elim (Bool-cases (host.can_write w.system)) [
    | inl e ↦ rw e h
    | inr e ↦ rw e h
  ]

  console_lo-Issues : (ok : Bool) → Issues host (console_lo host ok)
  console_lo-Issues false = λ w h. h
  console_lo-Issues true =
      bind-Issues host (run_iptables host (input_insert input_lo)) (console_rest host)
        (run_iptables-Issues host (input_insert input_lo)
          (input_insert-IsArgument input_lo input_lo-IsArgument))
        console_rest-Issues

  pub secure_port-Issues : Issues host (secure_port host)
  unfolding secure_port
  secure_port-Issues =
      bind-Issues host (delete_all host 10 (input_delete input_drop)) _
        (delete_all-Issues 10 (input_delete input_drop)
          (input_delete-IsArgument input_drop input_drop-IsArgument))
        (λ k.
          bind-Issues host (delete_all host 10 (input_delete input_lo)) _
            (delete_all-Issues 10 (input_delete input_lo)
              (input_delete-IsArgument input_lo input_lo-IsArgument))
            (λ n.
              bind-Issues host (run_iptables host (input_insert input_drop)) (console_lo host)
                (run_iptables-Issues host (input_insert input_drop)
                  (input_insert-IsArgument input_drop input_drop-IsArgument))
                console_lo-Issues))
