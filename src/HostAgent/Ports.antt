-- ===== src/HostAgent/Ports.antt =====
-- The rules that close a port to the outside: what the agent inserts, deletes and keeps in its
-- marker files.
use wardnode.Base.{◌+◌, String, Bool, true, false, some, List, [], ◌∷◌, ◌++◌, if◌then◌else◌}
use wardnode.Text.{codes}
use wardnode.HostAgent.{
  Arg, Host, iptables_failed, Answer, failed, secured, port_protected, port_unprotected, Marker,
  set_port, drop_port, M, and_then, ◌>>=◌, ◌>>◌, return, run_iptables, delete_all,
}

abbrev pub words : List String → List Arg
words [] = []
words (w ∷ ws) = codes w ∷ words ws

-- The two rules of a protected port, without the table and the chain.
abbrev pub lo_rule : Arg → List Arg
lo_rule port =
    words ("-i" ∷ "lo" ∷ "-p" ∷ "tcp" ∷ "--dport" ∷ []) ++ (port ∷ words ("-j" ∷ "ACCEPT" ∷ []))

abbrev pub drop_rule : Arg → List Arg
drop_rule port =
    words ("-p" ∷ "tcp" ∷ "--dport" ∷ [])
    ++ (port ∷ words ("!" ∷ "-s" ∷ "172.16.0.0/12" ∷ "-j" ∷ "DROP" ∷ []))

abbrev pub raw_delete : List Arg → List Arg
raw_delete rule = words ("-t" ∷ "raw" ∷ "-D" ∷ "PREROUTING" ∷ []) ++ rule

abbrev pub raw_insert : List Arg → List Arg
raw_insert rule = words ("-t" ∷ "raw" ∷ "-I" ∷ "PREROUTING" ∷ "1" ∷ []) ++ rule

abbrev pub raw_check : List Arg → List Arg
raw_check rule = words ("-t" ∷ "raw" ∷ "-C" ∷ "PREROUTING" ∷ []) ++ rule

abbrev pub input_drop : List Arg
input_drop = words ("-p" ∷ "tcp" ∷ "--dport" ∷ "5000" ∷ "-j" ∷ "DROP" ∷ [])

abbrev pub input_lo : List Arg
input_lo = words ("-i" ∷ "lo" ∷ "-p" ∷ "tcp" ∷ "--dport" ∷ "5000" ∷ "-j" ∷ "ACCEPT" ∷ [])

abbrev pub input_delete : List Arg → List Arg
input_delete rule = words ("-D" ∷ "INPUT" ∷ []) ++ rule

abbrev pub input_insert : List Arg → List Arg
input_insert rule = words ("-I" ∷ "INPUT" ∷ "1" ∷ []) ++ rule

module _ (host : Host) where
  -- `_save_protected_ports`; a failure is only logged.
  unfoldable pub save_protected_ports : Marker → M host Unit
  save_protected_ports ports w =
      (some tt, if host.can_write w.system then record w { protected_ports = ports } else w)

  unfoldable pub remember : Arg → M host Unit
  unfolding save_protected_ports set_port
  remember port w = save_protected_ports (set_port port w.protected_ports) w

  unfoldable pub forget : Arg → M host Unit
  unfolding save_protected_ports drop_port
  forget port w = save_protected_ports (drop_port port w.protected_ports) w

  -- `_is_host_port_blocked`
  unfoldable pub is_host_port_blocked : Arg → M host Bool
  unfolding run_iptables
  is_host_port_blocked port = run_iptables host (raw_check (drop_rule port))

  -- `_protect_host_port`: the DROP goes to the front, then the ACCEPT before it.
  abbrev pub protect_rest : Arg → Bool → M host Answer
  protect_rest port false = return (failed iptables_failed)
  protect_rest port true = do
    remember port
    blocked ← is_host_port_blocked port
    return (port_protected blocked)

  abbrev pub protect_lo : Arg → Bool → M host Answer
  protect_lo port false = return (failed iptables_failed)
  protect_lo port true = do ok ← run_iptables host (raw_insert (lo_rule port)); protect_rest port ok

  unfoldable pub protect_host_port : Arg → M host Answer
  unfolding delete_all run_iptables
  protect_host_port port = do
    delete_all host 10 (raw_delete (lo_rule port))
    delete_all host 10 (raw_delete (drop_rule port))
    ok ← run_iptables host (raw_insert (drop_rule port))
    protect_lo port ok

  -- `_unprotect_host_port`
  unfoldable pub unprotect_host_port : Arg → M host Answer
  unfolding delete_all
  unprotect_host_port port = do
    k ← delete_all host 10 (raw_delete (lo_rule port))
    n ← delete_all host 10 (raw_delete (drop_rule port))
    forget port
    return (port_unprotected (k + n))

  -- `_restore_protected_ports_if_needed`; the answers are only logged.
  unfoldable pub restore_each : Marker → M host Unit
  restore_each [] = return tt
  restore_each ((port, active) ∷ rest) =
      let later = restore_each rest in if active then protect_host_port port >> later else later

  unfoldable pub restore_protected_ports : M host Unit
  unfolding restore_each
  restore_protected_ports w = restore_each w.protected_ports w

  -- `_secure_console_port`
  abbrev pub console_rest : Bool → M host Answer
  console_rest false = return (failed iptables_failed)
  console_rest true = λ w.
      (some secured, if host.can_write w.system then record w { console_secured = true } else w)

  abbrev pub console_lo : Bool → M host Answer
  console_lo false = return (failed iptables_failed)
  console_lo true = do ok ← run_iptables host (input_insert input_lo); console_rest ok

  unfoldable pub secure_console_port : M host Answer
  unfolding delete_all run_iptables
  secure_console_port = do
    delete_all host 10 (input_delete input_drop)
    delete_all host 10 (input_delete input_lo)
    ok ← run_iptables host (input_insert input_drop)
    console_lo ok

  -- `_restore_secure_port_if_needed`
  unfoldable pub restore_secure_port : M host Unit
  unfolding secure_console_port
  restore_secure_port w =
      if w.console_secured then and_then (secure_console_port w) (λ a. return tt) else (some tt, w)
