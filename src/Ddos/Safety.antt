-- ===== src/Ddos/Safety.antt =====
-- app/ddos/safety.py: whether an address may be banned. The address library is a parameter, and
-- so is what the sockets of the host report about its own addresses.
pub mod Guards
pub mod Allowlist
pub mod Tests
use mathlib.Core.Option
use wardnode.Base.{
  String, Bool, true, false, not, ◌&&◌, Option, none, some, List, [], ◌∷◌, ◌++◌, ◌==◌,
  if◌then◌else◌, any, or_else,
}
use wardnode.Text.{strip, split}
use wardnode.Config.{Table, setting}
use wardnode.Ip.{IpLibrary, is_special}

-- What the operating system answers: the source address of a UDP socket for each family, and
-- the addresses of the host's name. `none` is an `OSError`.
pub record HostNetwork : Type 0 where
  pub outbound : List (Option String)
  pub resolved : Option (List String)

-- The reasons of a refusal; those whose message quotes the address carry it.
pub data Reason : Type 0 where
  invalid_address : Reason
  own_address : Reason
  protected_range : String → Reason
  host_interface : String → Reason
  ssh_host : String → Reason
  safe_listed : String → Reason

-- `(True, "")` and `(False, motivo)`.
pub data Verdict : Type 0 where
  safe : Verdict
  refused : Reason → Verdict

-- `value in items`
unfoldable pub member : String → List String → Bool
member s [] = false
member s (x ∷ xs) = if x == s then true else member s xs

abbrev same : String → Option String → Bool
same s none = false
same s (some t) = s == t

-- A canonical form is never empty, so `if n` drops `None` only.
abbrev collect : Option String → List String → List String
collect none out = out
collect (some n) out = n ∷ out

-- `(s for s in raw.split(",") if s.strip())`
abbrev present_items : List String → List String
present_items [] = []
present_items (s ∷ rest) =
    let others = present_items rest in if strip s == "" then others else s ∷ others

module _ (lib : IpLibrary) where
  open lib use {Address, ip_address, to_text}

  -- `_norm`
  unfoldable pub norm : String → Option String
  norm value = Option.map to_text (ip_address (strip value))

  -- `_norm_set`: the canonical forms, with what is no address dropped.
  unfoldable pub norm_set : List String → List String
  unfolding norm
  norm_set [] = []
  norm_set (x ∷ xs) = collect (norm x) (norm_set xs)

  -- `_host_ips`, over both sources.
  outbound_ips : List (Option String) → List String
  unfolding norm
  outbound_ips [] = []
  outbound_ips (none ∷ rest) = outbound_ips rest
  outbound_ips (some raw ∷ rest) = collect (norm raw) (outbound_ips rest)

  unfoldable pub host_ips : HostNetwork → List String
  unfolding outbound_ips norm_set
  host_ips net = outbound_ips net.outbound ++ norm_set (or_else net.resolved [])

  -- `ssh_host and (sh_norm := _norm(ssh_host)) and norm == sh_norm`
  unfoldable pub is_ssh_host : Table → String → Bool
  unfolding norm
  is_ssh_host config canonical =
      let host = strip (or_else (setting config "wf_ssh_host") "") in
      if host == "" then false else same canonical (norm host)

  -- `norm in _norm_set(safe_items)` over the setting `ddos_safe_ips`, a comma-separated list.
  unfoldable pub is_safe_listed : Table → String → Bool
  unfolding norm_set member
  is_safe_listed config canonical =
      member canonical
        (norm_set (present_items (split b',' (or_else (setting config "ddos_safe_ips") ""))))

  -- Guards 1 to 5, on an address that parsed.
  unfoldable pub guards : Table → HostNetwork → String → String → Address → Verdict
  unfolding norm is_special host_ips is_ssh_host is_safe_listed member
  guards config net ip request_ip addr =
      let canonical = to_text addr in
      if same canonical (norm request_ip)
      then refused own_address
      else if is_special lib addr
      then refused (protected_range ip)
      else if member canonical (host_ips net)
      then refused (host_interface ip)
      else if is_ssh_host config canonical
      then refused (ssh_host ip)
      else if is_safe_listed config canonical
      then refused (safe_listed ip)
      else safe

  abbrev checked : Table → HostNetwork → String → String → Option Address → Verdict
  checked config net ip request_ip none = refused invalid_address
  checked config net ip request_ip (some addr) = guards config net ip request_ip addr

  -- `is_ban_safe`; `request_ip` is the text after `(request_ip or "")`.
  unfoldable pub is_ban_safe : Table → HostNetwork → String → String → Verdict
  unfolding guards
  is_ban_safe config net ip request_ip =
      checked config net (strip ip) (strip request_ip) (ip_address (strip ip))
