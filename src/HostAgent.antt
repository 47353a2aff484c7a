-- ===== src/HostAgent.antt =====
-- host-agent/wardnode-wf-agent.py: the privileged agent that runs ufw and iptables for the console.
-- The host is a parameter: its state and what a command that is run answers. A computation takes
-- the world, the host with a record of the commands run, and may end in an exception, which the
-- caller turns into a reply; what was done before it stays done.
pub mod Ports
pub mod Docker
pub mod Handle
pub mod Arguments
pub mod Commands
pub mod Permitted
pub mod Harmless
pub mod Listed
pub mod Requests
pub mod Chain
mod Tests
use wardnode.Base.{
  ℕ, zero, suc, ◌+◌, String, Bool, true, false, ◌||◌, Option, none, some, List, [], ◌∷◌, ◌++◌, map,
  any, keep, ◌==◌, ◌=?◌, if◌then◌else◌, ◌≡◌, not,
}
use wardnode.Text.{same, codes}
use wardnode.Json.{Json, text}

-- One argument of a command, as code points.
abbrev pub Arg : Type 0
Arg = List ℕ

-- What `subprocess.run` is called with: the arguments of ufw and iptables, that of the script that
-- sets IPv6, and the program of `docker ps`.
pub data Call : Type 0 where
  ufw iptables : List Arg → Call
  set_ipv6_script docker_ps : Arg → Call

-- How it ends: an exit code of zero or not, with the output that is read (what was written to the
-- standard output, or else to the standard error; for docker the former only), `TimeoutExpired` or
-- `FileNotFoundError`.
pub data Exit : Type 0 where
  exited : Bool → Arg → Exit
  timed_out not_found : Exit

pub record Host : Type 1 where
  pub System : Type 0
  pub run : Call → System → Exit × System
  -- Whether a marker file can be written.
  pub can_write : System → Bool
  -- The lines of /etc/default/ufw, if it can be read.
  pub ufw_defaults : System → Option (List Arg)
  -- `shutil.which`, and whether a path is a file that can be run.
  pub which_docker : System → Option Arg
  pub is_executable : Arg → System → Bool
  -- What `json.loads` makes of a line of the format of `docker ps`: the name and the ports.
  pub read_item : Arg → Option (Arg × Arg)
  -- `str(value)` of a JSON value
  pub str : Json → Arg
  pub str-text : (s : String) → str (text s) ≡ codes s

pub data Failure : Type 0 where
  not_allowed invalid_port invalid_proto invalid_ip invalid_rule reserved_port ufw_timeout : Failure
  ipv6_not_bool ipv6_timeout ipv6_no_script ipv6_unreadable iptables_failed malformed : Failure
  no_docker docker_failed docker_timeout : Failure

-- A port that a container publishes.
pub record DockerPort : Type 0 where
  pub container : Arg
  pub host_port : Arg
  pub container_port : Arg
  pub proto : Arg
  pub loopback_only : Bool
  pub blocked : Bool

-- The replies; all but the first and the failures have `ok` true.
pub data Answer : Type 0 where
  ran : Bool → Arg → Answer
  failed : Failure → Answer
  secured : Answer
  port_protected : Bool → Answer
  port_unprotected : ℕ → Answer
  ipv6 : Bool → Answer
  docker_ports : List DockerPort → Answer

-- `reply.get("ok")`
abbrev pub is_ok : Answer → Bool
is_ok (ran b output) = b
is_ok (failed f) = false
is_ok _ = true

-- `reply.get("output", "")`
abbrev pub output_of : Answer → Arg
output_of (ran b output) = output
output_of _ = []

-- The marker of the protected ports, a dictionary from ports to Booleans.
abbrev pub Marker : Type 0
Marker = List (Arg × Bool)

unfoldable pub set_port : Arg → Marker → Marker
set_port port [] = (port, true) ∷ []
set_port port ((p, b) ∷ rest) =
    if same p port then (p, true) ∷ rest else (p, b) ∷ set_port port rest

unfoldable pub drop_port : Arg → Marker → Marker
drop_port port [] = []
drop_port port ((p, b) ∷ rest) =
    let later = drop_port port rest in if same p port then later else (p, b) ∷ later

-- A computation over a world; `none` is an exception.
abbrev pub Computation : Type 0 → Type 0 → Type 0
Computation W A = W → Option A × W

abbrev pub and_then : {W A B : Type 0} → Option A × W → (A → Computation W B) → Option B × W
and_then (none, w) f = (none, w)
and_then (some a, w) f = f a w

infixl 5 ◌>>=◌ ◌>>◌
abbrev pub ◌>>=◌ : {W A B : Type 0} → Computation W A → (A → Computation W B) → Computation W B
◌>>=◌ m f w = and_then (m w) f

abbrev pub ◌>>◌ : {W A B : Type 0} → Computation W A → Computation W B → Computation W B
m >> k = m >>= λ _. k

abbrev pub return : {W A : Type 0} → A → Computation W A
return a w = (some a, w)

abbrev pub throw : {W A : Type 0} → Computation W A
throw w = (none, w)

module _ (host : Host) where
  open host use {System, can_write}

  -- The files are what `_load_protected_ports` reads, empty if the marker is missing or broken,
  -- and whether the marker of the console's port is there.
  pub record World : Type 0 where
    pub system : System
    pub calls : List Call
    pub protected_ports : Marker
    pub console_secured : Bool

  abbrev pub M : Type 0 → Type 0
  M A = Computation World A

  -- `subprocess.run`
  abbrev pub finish : Call → World → Exit × System → Option Exit × World
  finish c w (e, s) = (some e, record w { system = s; calls = c ∷ w.calls })

  unfoldable pub run : Call → M Exit
  run c w = finish c w (host.run c w.system)

  -- `_ufw`
  abbrev pub ufw_answer : Exit → M Answer
  ufw_answer (exited ok output) = return (ran ok output)
  ufw_answer timed_out = return (failed ufw_timeout)
  ufw_answer not_found = throw

  unfoldable pub run_ufw : List Arg → M Answer
  run_ufw args = do e ← run (ufw args); ufw_answer e

  -- `_iptables`, and the reading of `output` in the reply, which a timeout or a missing program
  -- does not have: a `KeyError`.
  abbrev pub iptables_done : Exit → M Bool
  iptables_done (exited ok output) = return ok
  iptables_done _ = throw

  unfoldable pub run_iptables : List Arg → M Bool
  run_iptables args = do e ← run (iptables args); iptables_done e

  -- The loop `for _ in range(n)` that deletes a rule until that fails: the deletions made. A
  -- timeout or a missing program raises here as well.
  abbrev pub deleted : M ℕ → Bool → M ℕ
  deleted later true = do k ← later; return (suc k)
  deleted later false = return 0

  unfoldable pub delete_all : ℕ → List Arg → M ℕ
  unfolding run_iptables
  delete_all zero args = return 0
  delete_all (suc n) args = do ok ← run_iptables args; deleted (delete_all n args) ok
