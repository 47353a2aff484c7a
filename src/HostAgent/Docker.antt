-- ===== src/HostAgent/Docker.antt =====
-- `_list_docker_ports`: the ports that the containers publish, and whether they are closed.
use wardnode.Base.{
  ℕ, zero, suc, ◌-◌, Bool, true, false, ◌&&◌, ◌||◌, Option, none, some, List, [], ◌∷◌, ◌++◌, drop,
  length, any, ◌=?◌, if◌then◌else◌,
}
use wardnode.Text.{same, codes, trim, is_digit, has_prefix}
use wardnode.Proxy.CustomRules.{split_lines}
use wardnode.Modules.SocketClient.{is_hex_or_colon}
use wardnode.HostAgent.{
  Arg, docker_ps, Exit, exited, timed_out, not_found, Host, Answer, failed, no_docker,
  docker_failed, docker_timeout, docker_ports, DockerPort, M, ◌>>=◌, return, throw, run,
}
use wardnode.HostAgent.Ports.{is_host_port_blocked}

-- The groups of `_PORT_MAPPING_RE`.
pub record Mapping : Type 0 where
  pub host_ip : Arg
  pub host_port : Arg
  pub container_port : Arg
  pub proto : Arg

-- The longest first part of these characters, and the rest.
abbrev pub onto : ℕ → Arg × Arg → Arg × Arg
onto c (a, b) = (c ∷ a, b)

unfoldable pub span : (ℕ → Bool) → Arg → Arg × Arg
span p [] = ([], [])
span p (c ∷ s) = let rest = span p s in if p c then onto c rest else ([], c ∷ s)

-- `/(tcp|udp)` and what follows it
abbrev pub proto_at : Arg → Option (Arg × Arg)
proto_at s =
    if has_prefix (codes "/tcp") s
    then some (codes "tcp", drop 4 s)
    else (if has_prefix (codes "/udp") s then some (codes "udp", drop 4 s) else none)

abbrev pub with_protocol : Arg → Arg → Arg → Option (Arg × Arg) → Option (Mapping × Arg)
with_protocol ip port inner none = none
with_protocol ip port inner (some (proto, rest)) =
    some (record { host_ip = ip; host_port = port; container_port = inner; proto = proto }, rest)

-- `(\d+)` and what follows it
abbrev pub container_at : Arg → Arg → Arg × Arg → Option (Mapping × Arg)
container_at ip port ([], rest) = none
container_at ip port (d ∷ ds, rest) = with_protocol ip port (d ∷ ds) (proto_at rest)

-- `(\d+)->` and what follows it
abbrev pub port_at : Arg → Arg × Arg → Option (Mapping × Arg)
port_at ip ([], rest) = none
port_at ip (d ∷ ds, rest) =
    if has_prefix (codes "->") rest
    then container_at ip (d ∷ ds) (span is_digit (drop 2 rest))
    else none

-- A colon after the address
abbrev pub after_ip : Arg → Arg → Option (Mapping × Arg)
after_ip [] s = none
after_ip (i ∷ ip) [] = none
after_ip (i ∷ ip) (c ∷ s) = if c =? b':' then port_at (i ∷ ip) (span is_digit s) else none

-- `[\d.]+`, which no colon belongs to, or else `[\da-fA-F:]+`, which ends before the last colon of
-- its run.
abbrev pub is_v4_char : ℕ → Bool
is_v4_char c = is_digit c || c =? b'.'

unfoldable pub last_colon : Arg → Option (Arg × Arg)
last_colon [] = none
last_colon (c ∷ s) =
    let later = last_colon s in
    elim later [
      | some (a, b) ↦ some (c ∷ a, b)
      | none ↦ if c =? b':' then some ([], c ∷ s) else none
    ]

abbrev pub v6_from : Option (Arg × Arg) → Arg → Option (Mapping × Arg)
v6_from none rest = none
v6_from (some (ip, tail)) rest = after_ip ip (tail ++ rest)

abbrev pub v4_at : Arg × Arg → Option (Mapping × Arg)
v4_at (ip, rest) = after_ip ip rest

abbrev pub v6_at : Arg × Arg → Option (Mapping × Arg)
v6_at (run_chars, rest) = v6_from (last_colon run_chars) rest

abbrev pub either {ℓ} : {A : Type ℓ} → Option A → Option A → Option A
either (some a) o = some a
either none o = o

unfoldable pub mapping_at : Arg → Option (Mapping × Arg)
unfolding span last_colon is_digit is_hex_or_colon has_prefix
mapping_at s = either (v4_at (span is_v4_char s)) (v6_at (span is_hex_or_colon s))

-- `finditer`: the characters of a match are passed over.
abbrev pub found : Option (Mapping × Arg) → ℕ → (ℕ → List Mapping) → List Mapping
found none size go = go 0
found (some (m, rest)) size go = m ∷ go (size - length rest)

unfoldable pub mappings : ℕ → Arg → List Mapping
unfolding mapping_at
mappings skip [] = []
mappings zero (c ∷ s) = found (mapping_at (c ∷ s)) (length s) (λ k. mappings k s)
mappings (suc skip) (c ∷ s) = mappings skip s

abbrev pub is_loopback : Arg → Bool
is_loopback ip = same (codes "127.0.0.1") ip || same (codes "::1") ip

abbrev pub is_same_key : Arg → Mapping → DockerPort → Bool
is_same_key name m p = same name p.container && same m.host_port p.host_port && same m.proto p.proto

module _ (host : Host) where
  -- The ports that were found so far hold the keys that were seen.
  abbrev pub add_port : Arg → Mapping → List DockerPort → Bool → List DockerPort
  add_port name m ports blocked =
      ports
      ++ (record {
        container = name;
        host_port = m.host_port;
        container_port = m.container_port;
        proto = m.proto;
        loopback_only = is_loopback m.host_ip;
        blocked = blocked;
      }
          ∷ [])

  abbrev pub list_mapping : Arg → Mapping → List DockerPort → M host (List DockerPort)
  list_mapping name m ports =
      if any (is_same_key name m) ports
      then return ports
      else (if is_loopback m.host_ip
          then return (add_port name m ports false)
          else is_host_port_blocked host m.host_port >>= λ blocked.
              return (add_port name m ports blocked))

  unfoldable pub list_mappings : Arg → List Mapping → List DockerPort → M host (List DockerPort)
  unfolding any same
  list_mappings name [] ports = return ports
  list_mappings name (m ∷ ms) ports = list_mapping name m ports >>= list_mappings name ms

  abbrev pub list_item : Option (Arg × Arg) → List DockerPort → M host (List DockerPort)
  list_item none ports = return ports
  list_item (some (name, published)) ports = list_mappings name (mappings 0 published) ports

  unfoldable pub list_lines : List Arg → List DockerPort → M host (List DockerPort)
  unfolding list_mappings mappings trim
  list_lines [] ports = return ports
  list_lines (line ∷ rest) ports = list_item (host.read_item (trim line)) ports >>= list_lines rest

  -- `_docker_bin`
  unfoldable pub first_executable : List Arg → host.System → Option Arg
  first_executable [] s = none
  first_executable (p ∷ ps) s =
      let rest = first_executable ps s in if host.is_executable p s then some p else rest

  abbrev pub docker_paths : List Arg
  docker_paths =
      codes "/usr/bin/docker" ∷ codes "/usr/local/bin/docker" ∷ codes "/snap/bin/docker" ∷ []

  unfoldable pub docker_bin : host.System → Option Arg
  unfolding first_executable
  docker_bin s = elim (host.which_docker s) [
    | some p ↦ some p
    | none ↦ first_executable docker_paths s
  ]

  abbrev pub listed : Exit → M host Answer
  listed (exited true output) =
      list_lines (split_lines false (trim output)) [] >>= λ ports. return (docker_ports ports)
  listed (exited false output) = return (failed docker_failed)
  listed timed_out = return (failed docker_timeout)
  listed not_found = throw

  abbrev pub list_with : Option Arg → M host Answer
  list_with none = return (failed no_docker)
  list_with (some docker) = run host (docker_ps docker) >>= listed

  unfoldable pub list_docker_ports : M host Answer
  unfolding docker_bin list_lines split_lines
  list_docker_ports w = list_with (docker_bin w.system) w
