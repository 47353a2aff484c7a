-- ===== src/HostAgent/Tests.antt =====
-- A host with a chain of its own, and runs of the agent on it.
use wardnode.Base.{
  none, ◌≤◌, true, false, ◌≡◌, refl, ap, some, List, [], ◌∷◌, any, keep, drop, if◌then◌else◌, arith,
}
use wardnode.Text.{same, codes, is_digit, has_prefix}
use wardnode.Json.{Json, Fields, get_or, text}
use wardnode.Modules.SocketClient.Fields.{valid_port}
use wardnode.HostAgent.{
  Arg, Call, ufw, iptables, Exit, exited, timed_out, Host, port_protected, set_port, run, run_ufw,
  World, run_iptables, delete_all,
}
use wardnode.HostAgent.Arguments.{same_rule, same_rule_refl, same_rule_sound}
use wardnode.HostAgent.Ports.{
  words, lo_rule, drop_rule, raw_delete, raw_insert, raw_check, is_host_port_blocked, remember,
  forget, save_protected_ports, protect_host_port, unprotect_host_port,
}
use wardnode.HostAgent.Docker.{mappings, mapping_at, span, last_colon}
use wardnode.Modules.SocketClient.{is_hex_or_colon}
use wardnode.HostAgent.Handle.{action_of, serve_command}
use wardnode.HostAgent.Chain.{Chain, count, remove}
use wardnode.HostAgent.Chain.Yields.{Yields}
use wardnode.HostAgent.Chain.Operations.{protect_host_port_lem}
use wardnode.HostAgent.Chain.Requests.{
  Request, protect, unprotect, run_requests, replay, is_closed, run_requests_refines,
}

abbrev Rules : Type 0
Rules = List (List Arg)

-- What iptables does to a chain: the command without its table.
abbrev chain_run : Arg → List Arg → Rules → Exit × Rules
chain_run op rule s =
    if same (codes "-D") op
    then (exited (any (same_rule rule) s) [], remove (same_rule rule) s)
    else (if same (codes "-I") op
        then (exited true [], drop 1 rule ∷ s)
        else (exited (any (same_rule rule) s) [], s))

abbrev command : List Arg → Rules → Exit × Rules
command (t ∷ table ∷ op ∷ chain ∷ rule) s = chain_run op rule s
command _ s = (timed_out, s)

abbrev run_call : Call → Rules → Exit × Rules
run_call (iptables args) s = command args s
run_call _ s = (exited true (codes "Rules updated"), s)

abbrev str_of : Json → Arg
str_of (text s) = codes s
str_of _ = []

abbrev a_host : Host
a_host = record {
  System = Rules;
  run = run_call;
  can_write = λ s. true;
  ufw_defaults = λ s. some (codes "IPV6=no" ∷ []);
  which_docker = λ s. none;
  is_executable = λ p s. same (codes "/snap/bin/docker") p;
  read_item = λ line. some (codes "web", line);
  str = str_of;
  str-text = λ s. refl;
}

chain_apart : (p q : Arg) → same_rule (lo_rule p) (drop_rule q) ≡ false
unfolding same same_rule
chain_apart p q = refl

chain_insert :
    (r : List Arg) (s : Rules) → run_call (iptables (raw_insert r)) s ≡ (exited true [], r ∷ s)
unfolding same
chain_insert r s = refl

chain_delete :
    (r : List Arg) (s : Rules)
    → run_call (iptables (raw_delete r)) s
      ≡ (exited (any (same_rule r) s) [], remove (same_rule r) s)
unfolding same
chain_delete r s = refl

chain_check :
    (r : List Arg) (s : Rules)
    → run_call (iptables (raw_check r)) s ≡ (exited (any (same_rule r) s) [], s)
unfolding same
chain_check r s = refl

abbrev a_chain : Chain a_host
a_chain = record {
  Rule = List Arg;
  read = λ r. r;
  equal = same_rule;
  equal_refl = same_rule_refl;
  equal_sound = same_rule_sound;
  apart = chain_apart;
  rules = λ s. s;
  insert_exit = λ r s. ([], ap (λ x. x.0) (chain_insert r s));
  insert_rules = λ r s. ap (λ x. x.1) (chain_insert r s);
  delete_exit = λ r s. ([], ap (λ x. x.0) (chain_delete r s));
  delete_rules = λ r s. ap (λ x. x.1) (chain_delete r s);
  check_exit = λ r s. ([], ap (λ x. x.0) (chain_check r s));
  check_rules = λ r s. ap (λ x. x.1) (chain_check r s);
  writable = λ s. refl;
}

abbrev ssh_rule : List Arg
ssh_rule = words ("-p" ∷ "tcp" ∷ "--dport" ∷ "22" ∷ "-j" ∷ "ACCEPT" ∷ [])

abbrev a_world : World a_host
a_world = record {
  system = ssh_rule ∷ drop_rule (codes "81") ∷ [];
  calls = [];
  protected_ports = [];
  console_secured = false;
}

abbrev requests : List Request
requests = protect (codes "8080") ∷ protect (codes "81") ∷ unprotect (codes "8080") ∷ []

requests_test :
    (run_requests a_host requests a_world).system
    ≡ lo_rule (codes "81") ∷ drop_rule (codes "81") ∷ ssh_rule ∷ []
unfolding run_requests protect_host_port unprotect_host_port delete_all run_iptables run remove
    same_rule any same is_host_port_blocked remember forget save_protected_ports
requests_test = refl

a_world-bounded : (r : List Arg) → count (same_rule r) a_world.system ≤ 10
unfolding count
a_world-bounded r = ground arith

protect_host_port_lem_example :
    Yields a_host a_chain
      (protect_host_port a_host (codes "81"))
      a_world
      (port_protected true)
      (lo_rule (codes "81") ∷ drop_rule (codes "81") ∷ ssh_rule ∷ [])
      ((codes "81", true) ∷ [])
unfolding keep set_port same_rule same
protect_host_port_lem_example =
    protect_host_port_lem a_host a_chain (codes "81") a_world a_world-bounded

run_requests_refines_example :
    ((r : List Arg) → count (same_rule r) (run_requests a_host requests a_world).system ≤ 10)
    × (is_closed a_host a_chain (run_requests a_host requests a_world).system
        ≡ replay a_host a_chain requests (is_closed a_host a_chain a_world.system))
run_requests_refines_example = run_requests_refines a_host a_chain requests a_world a_world-bounded

abbrev limit_cmd : Json
limit_cmd = Json.object (
    Fields.field "action" (text "limit_port")
      (Fields.field "port" (text "2222") (Fields.field "proto" (text "udp") Fields.no_fields)))

limit_test :
    (serve_command a_host (some limit_cmd) a_world).1.calls
    ≡ ufw (codes "limit" ∷ codes "2222/udp" ∷ []) ∷ []
unfolding serve_command action_of get_or valid_port same run_ufw run
limit_test = refl

mapping_test :
    mappings 0 (codes "0.0.0.0:8080->80/tcp, :::8080->80/tcp")
    ≡ record {
      host_ip = codes "0.0.0.0";
      host_port = codes "8080";
      container_port = codes "80";
      proto = codes "tcp";
    }
      ∷ record {
        host_ip = codes "::";
        host_port = codes "8080";
        container_port = codes "80";
        proto = codes "tcp";
      }
      ∷ []
unfolding mappings mapping_at span last_colon is_digit is_hex_or_colon has_prefix
mapping_test = refl

-- A range of ports, and an address of version 6 in brackets, are not found.
range_test : mappings 0 (codes "0.0.0.0:8000-8005->8000-8005/tcp, [::]:9000->90/tcp") ≡ []
unfolding mappings mapping_at span last_colon is_digit is_hex_or_colon has_prefix
range_test = refl
