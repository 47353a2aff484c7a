-- ===== src/HostAgent/Listed.antt =====
-- The commands of the listing of Docker's ports: the port of a container is a run of digits.
use wardnode.Base.{
  ℕ, zero, suc, ◌-◌, Bool, true, false, ◌≡◌, Option, none, some, List, [], ◌∷◌, ◌++◌, drop, length,
  any, if◌then◌else◌, All, Bool-cases, inl, inr, arith, ◌=?◌,
}
use wardnode.Text.{codes, trim, is_digit, has_prefix}
use wardnode.Proxy.CustomRules.{split_lines}
use wardnode.Modules.SocketClient.{is_hex_or_colon}
use wardnode.Modules.SocketClient.Characters.{is_plain}
use wardnode.HostAgent.{
  Arg, docker_ps, Exit, exited, timed_out, not_found, Host, M, DockerPort, run,
}
use wardnode.HostAgent.Ports.{is_host_port_blocked}
use wardnode.HostAgent.Docker.{
  Mapping, onto, span, proto_at, with_protocol, container_at, port_at, after_ip, is_v4_char,
  last_colon, v6_from, v4_at, v6_at, either, mapping_at, found, mappings, is_loopback, is_same_key,
  list_mapping, list_mappings, list_item, list_lines, docker_bin, listed, list_with,
  list_docker_ports,
}
use wardnode.HostAgent.Commands.{is_harmless, checked, Issues, bind-Issues, run-Issues}
use wardnode.HostAgent.Harmless.{IsHarmless}
use wardnode.HostAgent.Permitted.{is_host_port_blocked-Issues}

digit_harmless : (c : ℕ) → is_digit c ≡ true → is_harmless c ≡ true
unfolding is_harmless is_plain is_hex_or_colon is_digit
digit_harmless c h = ground (arith, h)

onto-IsHarmless :
    (c : ℕ) (r : Arg × Arg) → is_harmless c ≡ true → IsHarmless r.0 → IsHarmless (onto c r).0
onto-IsHarmless c (a, b) h k = (h, k)

span-IsHarmless : (s : Arg) → IsHarmless (span is_digit s).0
unfolding span
span-IsHarmless [] = tt
span-IsHarmless (c ∷ s) = elim (Bool-cases (is_digit c)) [
  | inl e ↦ rw e (onto-IsHarmless c (span is_digit s) (digit_harmless c e) (span-IsHarmless s))
  | inr e ↦ rw e tt
]

-- The port of a match is harmless.
abbrev Matches : Option (Mapping × Arg) → Type 0
Matches none = Unit
Matches (some (m, rest)) = IsHarmless m.host_port

with_protocol-Matches :
    (ip port inner : Arg) (o : Option (Arg × Arg))
    → IsHarmless port
    → Matches (with_protocol ip port inner o)
with_protocol-Matches ip port inner none h = tt
with_protocol-Matches ip port inner (some (p, rest)) h = h

container_at-Matches :
    (ip port : Arg) (r : Arg × Arg) → IsHarmless port → Matches (container_at ip port r)
container_at-Matches ip port ([], rest) h = tt
container_at-Matches ip port (d ∷ ds, rest) h =
    with_protocol-Matches ip port (d ∷ ds) (proto_at rest) h

port_at-Matches : (ip : Arg) (r : Arg × Arg) → IsHarmless r.0 → Matches (port_at ip r)
port_at-Matches ip ([], rest) h = tt
port_at-Matches ip (d ∷ ds, rest) h = elim (Bool-cases (has_prefix (codes "->") rest)) [
  | inl e ↦ rw e (container_at-Matches ip (d ∷ ds) (span is_digit (drop 2 rest)) h)
  | inr e ↦ rw e tt
]

after_ip-Matches : (ip s : Arg) → Matches (after_ip ip s)
after_ip-Matches [] s = tt
after_ip-Matches (i ∷ ip) [] = tt
after_ip-Matches (i ∷ ip) (c ∷ s) = elim (Bool-cases (c =? b':')) [
  | inl e ↦ rw e (port_at-Matches (i ∷ ip) (span is_digit s) (span-IsHarmless s))
  | inr e ↦ rw e tt
]

v6_from-Matches : (o : Option (Arg × Arg)) (rest : Arg) → Matches (v6_from o rest)
v6_from-Matches none rest = tt
v6_from-Matches (some (ip, tail)) rest = after_ip-Matches ip (tail ++ rest)

v4_at-Matches : (r : Arg × Arg) → Matches (v4_at r)
v4_at-Matches (ip, rest) = after_ip-Matches ip rest

v6_at-Matches : (r : Arg × Arg) → Matches (v6_at r)
v6_at-Matches (chars, rest) = v6_from-Matches (last_colon chars) rest

either-Matches : (a b : Option (Mapping × Arg)) → Matches a → Matches b → Matches (either a b)
either-Matches none b h k = k
either-Matches (some m) b h k = h

mapping_at-Matches : (s : Arg) → Matches (mapping_at s)
unfolding mapping_at
mapping_at-Matches s =
    either-Matches (v4_at (span is_v4_char s)) (v6_at (span is_hex_or_colon s))
      (v4_at-Matches (span is_v4_char s)) (v6_at-Matches (span is_hex_or_colon s))

abbrev Ported : List Mapping → Type 0
Ported ms = All (λ m. IsHarmless m.host_port) ms

found-Ported :
    (o : Option (Mapping × Arg)) (size : ℕ) (go : ℕ → List Mapping)
    → Matches o
    → ((k : ℕ) → Ported (go k))
    → Ported (found o size go)
found-Ported none size go h k = k 0
found-Ported (some (m, rest)) size go h k = (h, k (size - length rest))

mappings-Ported : (skip : ℕ) (s : Arg) → Ported (mappings skip s)
unfolding mappings
mappings-Ported skip [] = tt
mappings-Ported zero (c ∷ s) =
    found-Ported (mapping_at (c ∷ s)) (length s) (λ k. mappings k s) (mapping_at-Matches (c ∷ s))
      (λ k. mappings-Ported k s)
mappings-Ported (suc skip) (c ∷ s) = mappings-Ported skip s

module _ (host : Host) where
  if-Issues :
      {A : Type 0} (b : Bool) (x y : M host A)
      → Issues host x
      → Issues host y
      → Issues host (if b then x else y)
  if-Issues true x y h k = h
  if-Issues false x y h k = k

  list_mapping-Issues :
      (name : Arg) (m : Mapping) (ports : List DockerPort)
      → IsHarmless m.host_port
      → Issues host (list_mapping host name m ports)
  list_mapping-Issues name m ports h =
      if-Issues (any (is_same_key name m) ports) _ _ (λ w c. c)
        (if-Issues (is_loopback m.host_ip) _ _ (λ w c. c)
          (bind-Issues host (is_host_port_blocked host m.host_port) _
            (is_host_port_blocked-Issues host m.host_port (checked h)) (λ b w c. c)))

  list_mappings-Issues :
      (name : Arg) (ms : List Mapping) (ports : List DockerPort)
      → Ported ms
      → Issues host (list_mappings host name ms ports)
  unfolding list_mappings
  list_mappings-Issues name [] ports h = λ w c. c
  list_mappings-Issues name (m ∷ ms) ports h =
      bind-Issues host (list_mapping host name m ports) (list_mappings host name ms)
        (list_mapping-Issues name m ports h.0) (λ after. list_mappings-Issues name ms after h.1)

  list_item-Issues :
      (o : Option (Arg × Arg)) (ports : List DockerPort) → Issues host (list_item host o ports)
  list_item-Issues none ports = λ w c. c
  list_item-Issues (some (name, published)) ports =
      list_mappings-Issues name (mappings 0 published) ports (mappings-Ported 0 published)

  list_lines-Issues :
      (lines : List Arg) (ports : List DockerPort) → Issues host (list_lines host lines ports)
  unfolding list_lines
  list_lines-Issues [] ports = λ w c. c
  list_lines-Issues (line ∷ rest) ports =
      bind-Issues host (list_item host (host.read_item (trim line)) ports) (list_lines host rest)
        (list_item-Issues (host.read_item (trim line)) ports)
        (λ after. list_lines-Issues rest after)

  listed-Issues : (e : Exit) → Issues host (listed host e)
  listed-Issues (exited true output) =
      bind-Issues host (list_lines host (split_lines false (trim output)) []) _
        (list_lines-Issues (split_lines false (trim output)) []) (λ ports w c. c)
  listed-Issues (exited false output) = λ w c. c
  listed-Issues timed_out = λ w c. c
  listed-Issues not_found = λ w c. c

  list_with-Issues : (o : Option Arg) → Issues host (list_with host o)
  list_with-Issues none = λ w c. c
  list_with-Issues (some docker) =
      bind-Issues host (run host (docker_ps docker)) (listed host)
        (run-Issues host (docker_ps docker) tt) listed-Issues

  pub list_docker_ports-Issues : Issues host (list_docker_ports host)
  unfolding list_docker_ports
  list_docker_ports-Issues w = list_with-Issues (docker_bin host w.system) w
