-- ===== src/Proxy/SyslogForwarder/Targets.antt =====
-- Which targets the guard lets through.
use wardnode.Base.{String, ◌≡◌, refl, false, Option, none, some, List, [], ◌∷◌, arith, any, All}
use wardnode.Ip.{IpLibrary}
use wardnode.Proxy.SyslogForwarder.{allowed, is_barred, is_safe_syslog_target}

module _ (lib : IpLibrary) where
  open lib use {
    Address, ip_address, is_loopback, is_link_local, is_reserved, is_unspecified, is_multicast,
  }

  -- An answer that is an address is none of the five kinds.
  abbrev pub IsPermitted : String → Type 0
  IsPermitted s =
      (a : Address)
      → ip_address s ≡ some a
      → (is_loopback a ≡ false)
        × (is_link_local a ≡ false)
        × (is_reserved a ≡ false)
        × (is_unspecified a ≡ false)
        × (is_multicast a ≡ false)

  is_barred-IsPermitted : (s : String) → is_barred lib (ip_address s) ≡ false → IsPermitted s
  unfolding is_barred
  is_barred-IsPermitted s h a e = ground (arith, e)

  any-All :
      (xs : List String) → any (λ t. is_barred lib (ip_address t)) xs ≡ false → All IsPermitted xs
  unfolding any
  any-All [] h = tt
  any-All (x ∷ xs) h = (is_barred-IsPermitted x (ground arith), any-All xs (ground arith))

  -- A target is allowed only if its name resolves to at least one answer and none of the answers,
  -- not just the first, is a loopback, link-local, reserved, unspecified or multicast address.
  pub is_safe_syslog_target-allowed :
      (answer : Option (List String))
      → is_safe_syslog_target lib answer ≡ allowed
      → (first : String) × (rest : List String) × (answer ≡ some (first ∷ rest))
        × All IsPermitted (first ∷ rest)
  unfolding is_safe_syslog_target
  is_safe_syslog_target-allowed none h = cc
  is_safe_syslog_target-allowed (some []) h = cc
  is_safe_syslog_target-allowed (some (s ∷ rest)) h =
      (s, rest, refl, any-All (s ∷ rest) (ground arith))
