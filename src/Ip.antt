-- ===== src/Ip.antt =====
-- Python's `ipaddress` module, as far as the program calls it: `ip_address(text)`, `str(address)`
-- and the `is_*` properties. It is an interface: every component that handles addresses takes it
-- as a parameter, and `Ip/Samples.antt` is a small
-- implementation for the concrete cases.
pub mod Samples
use wardnode.Base.{String, ◌≡◌, Bool, ◌||◌, Option, none, some, ap}

pub record IpLibrary : Type 1 where
  pub Address : Type 0
  -- `none` is `ValueError`.
  pub ip_address : String → Option Address
  pub to_text : Address → String
  pub is_private : Address → Bool
  pub is_loopback : Address → Bool
  pub is_link_local : Address → Bool
  pub is_reserved : Address → Bool
  pub is_unspecified : Address → Bool
  pub is_multicast : Address → Bool
  -- `str(address)` is the canonical form, which `ip_address` reads back.
  pub ip_address-to_text : (a : Address) → ip_address (to_text a) ≡ some a
  -- The empty text is no address.
  pub ip_address-empty : ip_address "" ≡ none

module _ (lib : IpLibrary) where
  open lib use {
    Address, ip_address, to_text, ip_address-to_text, is_private, is_loopback, is_link_local,
    is_reserved, is_unspecified, is_multicast,
  }

  -- The six properties that both `_is_protected_range` and `is_public_ip` combine.
  unfoldable pub is_special : Address → Bool
  is_special a =
      is_loopback a
      || is_private a
      || is_link_local a
      || is_reserved a
      || is_unspecified a
      || is_multicast a

  -- Two addresses with one canonical form are one address.
  pub to_text_injective : (a b : Address) → to_text a ≡ to_text b → a ≡ b
  to_text_injective a b e = cc (ip_address-to_text a, ip_address-to_text b, ap ip_address e)
