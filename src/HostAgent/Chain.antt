-- ===== src/HostAgent/Chain.antt =====
-- The chain of rules behind `iptables` as an interface: how a chain answers to the commands of the
-- agent, and the lists of rules that this leaves.
mod Counts
pub mod Yields
pub mod Operations
pub mod Requests
pub use Counts.{without}
unfoldable pub use Counts.{count, remove}
use wardnode.Base.{ℕ, Bool, true, false, ◌≡◌, List, ◌∷◌, any}
use wardnode.HostAgent.{Arg, Call, iptables, Exit, exited, Host}
use wardnode.HostAgent.Ports.{lo_rule, drop_rule, raw_delete, raw_insert, raw_check}

-- The program ran to its end with this success.
abbrev pub IsExit : Bool → Exit → Type 0
IsExit b e = (output : Arg) × (e ≡ exited b output)

-- The raw table's PREROUTING chain of a host on which iptables works, as its manual says: -I 1 puts
-- a rule first, -D takes the first equal rule away and fails if there is none, -C tells whether
-- there is one. Rules are compared as iptables reads them, not as they are written; and an ACCEPT
-- is not a DROP.
pub record Chain (host : Host) : Type 1 where
  pub Rule : Type 0
  pub read : List Arg → Rule
  pub equal : Rule → Rule → Bool
  pub equal_refl : (r : Rule) → equal r r ≡ true
  pub equal_sound : (r s : Rule) → equal r s ≡ true → r ≡ s
  pub apart : (p q : Arg) → equal (read (lo_rule p)) (read (drop_rule q)) ≡ false
  pub rules : host.System → List Rule
  pub insert_exit :
      (r : List Arg) (s : host.System) → IsExit true (host.run (iptables (raw_insert r)) s).0
  pub insert_rules :
      (r : List Arg) (s : host.System)
      → rules (host.run (iptables (raw_insert r)) s).1 ≡ read r ∷ rules s
  pub delete_exit :
      (r : List Arg) (s : host.System)
      → IsExit (any (equal (read r)) (rules s)) (host.run (iptables (raw_delete r)) s).0
  pub delete_rules :
      (r : List Arg) (s : host.System)
      → rules (host.run (iptables (raw_delete r)) s).1 ≡ remove (equal (read r)) (rules s)
  pub check_exit :
      (r : List Arg) (s : host.System)
      → IsExit (any (equal (read r)) (rules s)) (host.run (iptables (raw_check r)) s).0
  pub check_rules :
      (r : List Arg) (s : host.System) → rules (host.run (iptables (raw_check r)) s).1 ≡ rules s
  -- The marker file can be written.
  pub writable : (s : host.System) → host.can_write s ≡ true
