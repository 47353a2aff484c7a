-- ===== src/Ip/Samples.antt =====
-- An implementation of the address interface with five addresses, one of them with two spellings,
-- on which the theorems are evaluated.
use wardnode.Base.{String, ◌≡◌, refl, Bool, true, false, Option, none, some, ◌==◌, if◌then◌else◌}
use wardnode.Ip.{IpLibrary}

pub data Sample : Type 0 where
  google cloudflare_v6 lan loopback admin : Sample

unfoldable pub parse : String → Option Sample
parse s =
    if s == "8.8.8.8"
    then some google
    else if s == "2606:4700:4700::1111"
    then some cloudflare_v6
    else if s == "2606:4700:4700:0:0:0:0:1111"
    then some cloudflare_v6
    else if s == "10.0.0.7"
    then some lan
    else if s == "127.0.0.1"
    then some loopback
    else if s == "9.9.9.9"
    then some admin
    else none

unfoldable pub spell : Sample → String
spell google = "8.8.8.8"
spell cloudflare_v6 = "2606:4700:4700::1111"
spell lan = "10.0.0.7"
spell loopback = "127.0.0.1"
spell admin = "9.9.9.9"

pub parse-spell : (a : Sample) → parse (spell a) ≡ some a
unfolding parse spell
parse-spell google = refl
parse-spell cloudflare_v6 = refl
parse-spell lan = refl
parse-spell loopback = refl
parse-spell admin = refl

pub parse-empty : parse "" ≡ none
unfolding parse
parse-empty = refl

abbrev private : Sample → Bool
private lan = true
private loopback = true
private _ = false

abbrev loops_back : Sample → Bool
loops_back loopback = true
loops_back _ = false

abbrev pub samples : IpLibrary
samples = record {
  Address = Sample;
  ip_address = parse;
  to_text = spell;
  is_private = private;
  is_loopback = loops_back;
  is_link_local = λ a. false;
  is_reserved = λ a. false;
  is_unspecified = λ a. false;
  is_multicast = λ a. false;
  ip_address-to_text = parse-spell;
  ip_address-empty = parse-empty;
}
