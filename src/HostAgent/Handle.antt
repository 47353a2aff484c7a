-- ===== src/HostAgent/Handle.antt =====
-- `handle`: each action of the agent with its checks.
use wardnode.Base.{
  ℕ, String, Bool, true, ◌&&◌, ◌||◌, Option, none, some, List, [], ◌∷◌, ◌++◌, map, any, drop, ◌==◌,
  ◌=?◌, if◌then◌else◌,
}
use wardnode.Text.{same, codes, trim, has_prefix, to_lower}
use wardnode.Json.{Json, Fields, flag, text, get_or}
use wardnode.Modules.SocketClient.{is_address}
use wardnode.Modules.SocketClient.Fields.{valid_port, valid_rule_num, value, without_newline}
use wardnode.HostAgent.{
  Arg, set_ipv6_script, Exit, exited, timed_out, not_found, Host, not_allowed, invalid_port,
  invalid_proto, invalid_ip, invalid_rule, reserved_port, ipv6_not_bool, ipv6_timeout,
  ipv6_no_script, ipv6_unreadable, malformed, Answer, ran, failed, ipv6, is_ok, output_of, World, M,
  ◌>>=◌, ◌>>◌, return, throw, run, run_ufw,
}
use wardnode.HostAgent.Docker.{list_docker_ports as list_ports}
use wardnode.HostAgent.Ports.{
  words, protect_host_port as protect_port, unprotect_host_port as unprotect_port,
  secure_console_port as secure_port,
}

-- `ACTIONS` and the tests on them
pub data Action : Type 0 where
  status allow_port deny_port allow_ip deny_ip delete_rule check_defaults init_firewall : Action
  get_ipv6_status set_ipv6 secure_console_port protect_host_port unprotect_host_port : Action
  list_docker_ports limit_port unlimit_port : Action

abbrev pub actions : List (String × Action)
actions =
    ("status", status)
    ∷ ("allow_port", allow_port)
    ∷ ("deny_port", deny_port)
    ∷ ("allow_ip", allow_ip)
    ∷ ("deny_ip", deny_ip)
    ∷ ("delete_rule", delete_rule)
    ∷ ("check_defaults", check_defaults)
    ∷ ("init_firewall", init_firewall)
    ∷ ("get_ipv6_status", get_ipv6_status)
    ∷ ("set_ipv6", set_ipv6)
    ∷ ("secure_console_port", secure_console_port)
    ∷ ("protect_host_port", protect_host_port)
    ∷ ("unprotect_host_port", unprotect_host_port)
    ∷ ("list_docker_ports", list_docker_ports)
    ∷ ("limit_port", limit_port)
    ∷ ("unlimit_port", unlimit_port)
    ∷ []

unfoldable pub action_named : List (String × Action) → String → Option Action
action_named [] s = none
action_named ((name, a) ∷ rest) s = if name == s then some a else action_named rest s

-- The action, none of them, or a list or dictionary, which no set can be asked for: `TypeError`.
pub data Asked : Type 0 where
  asked : Action → Asked
  unknown unhashable : Asked

abbrev pub known : Option Action → Asked
known none = unknown
known (some a) = asked a

unfoldable pub action_of : Json → Asked
unfolding action_named
action_of (text s) = known (action_named actions s)
action_of (Json.items js) = unhashable
action_of (Json.object fs) = unhashable
action_of _ = unknown

-- `_vproto`
abbrev pub is_proto : Arg → Bool
is_proto p = same (codes "tcp") p || same (codes "udp") p || same (codes "any") p

-- `_BLOCKED_PORTS`
abbrev pub blocked_ports : List ℕ
blocked_ports = 22 ∷ 80 ∷ 443 ∷ 5000 ∷ []

-- `f"{port}/{proto}"`, and the port alone where any protocol is meant
abbrev pub port_rule : Arg → Arg → Arg
port_rule port proto = port ++ (b'/' ∷ proto)

abbrev pub rule_text : Arg → Arg → Arg
rule_text port proto = if same (codes "any") proto then port else port_rule port proto

-- The value of the line of IPV6= in /etc/default/ufw; without one it is on.
unfoldable pub ipv6_value : List Arg → Bool
unfolding has_prefix trim to_lower
ipv6_value [] = true
ipv6_value (line ∷ rest) =
    let later = ipv6_value rest in
    if has_prefix (codes "IPV6=") line
    then same (codes "yes") (map to_lower (trim (drop 5 (trim line))))
    else later

module _ (host : Host) where
  -- `str(cmd.get(key, default))`
  abbrev pub field_of : Fields → String → String → Arg
  field_of cmd key default = host.str (get_or cmd key (text default))

  -- The checks of a port and a protocol, and then a command with both.
  abbrev pub with_port : Arg → M host Answer → M host Answer
  with_port port go = if valid_port port then go else return (failed invalid_port)

  abbrev pub with_proto : Arg → M host Answer → M host Answer
  with_proto proto go = if is_proto proto then go else return (failed invalid_proto)

  abbrev pub with_address : Arg → M host Answer → M host Answer
  with_address ip go = if is_address ip then go else return (failed invalid_ip)

  abbrev pub rule_of_port : Arg → Arg → Arg → M host Answer
  rule_of_port verb port proto =
      with_port port (with_proto proto (run_ufw host (verb ∷ rule_text port proto ∷ [])))

  -- The steps of `init_firewall`: all of them run, whatever the earlier ones answer.
  unfoldable pub run_steps : List (List Arg) → M host (List Answer)
  run_steps [] = return []
  run_steps (args ∷ rest) = do a ← run_ufw host args; later ← run_steps rest; return (a ∷ later)

  abbrev pub steps : Arg → List (List Arg)
  steps ssh_port =
      words ("default" ∷ "deny" ∷ "incoming" ∷ [])
      ∷ words ("default" ∷ "allow" ∷ "outgoing" ∷ [])
      ∷ (codes "allow" ∷ port_rule ssh_port (codes "tcp") ∷ [])
      ∷ words ("allow" ∷ "80/tcp" ∷ [])
      ∷ words ("allow" ∷ "443/tcp" ∷ [])
      ∷ words (
          "allow" ∷ "from" ∷ "172.16.0.0/12" ∷ "to" ∷ "any" ∷ "port" ∷ "8081" ∷ "proto" ∷ "tcp"
          ∷ [])
      ∷ words ("logging" ∷ "medium" ∷ [])
      ∷ words ("--force" ∷ "enable" ∷ [])
      ∷ []

  -- `all(s.get("ok") for s in steps)` and the joined outputs
  unfoldable pub all_ok : List Answer → Bool
  all_ok [] = true
  all_ok (a ∷ rest) = is_ok a && all_ok rest

  unfoldable pub joined : List Answer → Arg
  joined [] = []
  joined (a ∷ []) = output_of a
  joined (a ∷ b ∷ rest) = output_of a ++ (10 ∷ joined (b ∷ rest))

  abbrev pub ipv6_set : Exit → M host Answer
  ipv6_set (exited ok output) = return (ran ok output)
  ipv6_set timed_out = return (failed ipv6_timeout)
  ipv6_set not_found = return (failed ipv6_no_script)

  abbrev pub set_ipv6_to : Json → M host Answer
  set_ipv6_to (flag b) = do
    e ← run host (set_ipv6_script (codes (if b then "yes" else "no")))
    ipv6_set e
  set_ipv6_to _ = return (failed ipv6_not_bool)

  abbrev pub ipv6_status : Option (List Arg) → Answer
  ipv6_status none = failed ipv6_unreadable
  ipv6_status (some lines) = ipv6 (ipv6_value lines)

  abbrev pub perform : Action → Fields → M host Answer
  perform status cmd = run_ufw host (words ("status" ∷ "numbered" ∷ []))
  perform allow_port cmd =
      rule_of_port (codes "allow") (field_of cmd "port" "") (field_of cmd "proto" "tcp")
  perform deny_port cmd =
      rule_of_port (codes "deny") (field_of cmd "port" "") (field_of cmd "proto" "tcp")
  perform allow_ip cmd =
      let ip = field_of cmd "ip" "" in
      with_address ip (run_ufw host (codes "allow" ∷ codes "from" ∷ ip ∷ []))
  perform deny_ip cmd =
      let ip = field_of cmd "ip" "" in
      with_address ip (run_ufw host (codes "deny" ∷ codes "from" ∷ ip ∷ []))
  perform delete_rule cmd =
      let num = field_of cmd "rule_num" "" in
      if valid_rule_num num
      then run_ufw host (codes "--force" ∷ codes "delete" ∷ num ∷ [])
      else return (failed invalid_rule)
  perform check_defaults cmd = run_ufw host (words ("status" ∷ "verbose" ∷ []))
  perform init_firewall cmd =
      let port = field_of cmd "ssh_port" "22" in
      with_port port
        (do replies ← run_steps (steps port); return (ran (all_ok replies) (joined replies)))
  perform get_ipv6_status cmd = λ w. (some (ipv6_status (host.ufw_defaults w.system)), w)
  perform set_ipv6 cmd = set_ipv6_to (get_or cmd "enabled" Json.null)
  perform secure_console_port cmd = secure_port host
  perform protect_host_port cmd =
      let port = field_of cmd "port" "" in
      with_port port (
        if any (λ b. b =? value 0 (without_newline port)) blocked_ports
        then return (failed reserved_port)
        else protect_port host port)
  perform unprotect_host_port cmd =
      let port = field_of cmd "port" "" in with_port port (unprotect_port host port)
  perform list_docker_ports cmd = list_ports host
  perform limit_port cmd =
      let port = field_of cmd "port" "22" in
      let proto = field_of cmd "proto" "tcp" in
      with_port port (with_proto proto (run_ufw host (codes "limit" ∷ port_rule port proto ∷ [])))
  perform unlimit_port cmd =
      let port = field_of cmd "port" "22" in
      let proto = field_of cmd "proto" "tcp" in
      with_port port (
        with_proto proto (do
          run_ufw host (codes "delete" ∷ codes "limit" ∷ port_rule port proto ∷ [])
          run_ufw host (codes "allow" ∷ port_rule port proto ∷ [])))

  -- `handle`
  abbrev pub dispatch : Asked → Fields → M host Answer
  dispatch (asked a) cmd = perform a cmd
  dispatch unknown cmd = return (failed not_allowed)
  dispatch unhashable cmd = throw

  unfoldable pub handle : Fields → M host Answer
  handle cmd = dispatch (action_of (get_or cmd "action" (text ""))) cmd

  -- What `serve` replies: an exception gives "Comando malformado".
  abbrev pub reply : Option Answer × World host → Answer × World host
  reply (none, w) = (failed malformed, w)
  reply (some a, w) = (a, w)

  -- The body of the loop of `serve` for a command that was read; no JSON, and a value that has no
  -- `get`, are malformed too.
  unfoldable pub serve_command : Option Json → World host → Answer × World host
  unfolding handle
  serve_command (some (Json.object cmd)) w = reply (handle cmd w)
  serve_command _ w = (failed malformed, w)
