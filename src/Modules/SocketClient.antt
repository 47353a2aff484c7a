-- ===== src/Modules/SocketClient.antt =====
-- app/modules/socket_client.py: what the console asks the firewall agent and how it checks an
-- address before asking. The agent's reply is a parameter: `send_command` turns every failure of
-- the socket into a reply that is not ok.
pub mod Fields
pub mod Characters
pub mod Frames
use wardnode.Base.{
  ℕ, ◌+◌, ◌-◌, ◌*◌, String, Bool, true, false, ◌&&◌, ◌||◌, List, [], ◌∷◌, map, leb, ◌=?◌,
  if◌then◌else◌, ◌≡◌, refl,
}
use wardnode.Text.{codes, contains, is_digit, to_lower}

pub record Reply : Type 0 where
  pub ok : Bool
  pub output : String

-- The commands that the modelled code sends.
pub data Request : Type 0 where
  status check_defaults : Request
  deny_ip : String → Request

abbrev pub Agent : Type 0
Agent = Request → Reply

pub record UfwState : Type 0 where
  pub reachable : Bool
  pub active : Bool
  pub initialized : Bool
  pub status_output : String
  pub defaults_output : String

-- `text in output.lower()`
mentions : String → String → Bool
mentions text output = contains (codes text) (map to_lower (codes output))

-- `get_ufw_state`
unfoldable pub get_ufw_state : Agent → UfwState
unfolding mentions
get_ufw_state send_command =
    let state = send_command status in
    let defaults = send_command check_defaults in
    if state.ok
    then record {
      reachable = true;
      active = mentions "status: active" defaults.output;
      initialized = mentions "deny (incoming)" defaults.output;
      status_output = state.output;
      defaults_output = defaults.output;
    }
    else record {
      reachable = false;
      active = false;
      initialized = false;
      status_output = "";
      defaults_output = "";
    }

-- `ufw_is_operational`
unfoldable pub ufw_is_operational : Agent → Bool
unfolding get_ufw_state
ufw_is_operational send_command =
    let st = get_ufw_state send_command in st.reachable && st.active && st.initialized

-- `$` in a Python regular expression also matches before a newline that ends the text.
abbrev at_end : List ℕ → Bool
at_end [] = true
at_end (c ∷ []) = c =? 10
at_end (c ∷ d ∷ s) = false

-- `(/(?:[12]?\d|3[012]))?$`
abbrev prefix_length : List ℕ → Bool
prefix_length [] = true
prefix_length (slash ∷ []) = slash =? 10
prefix_length (slash ∷ d ∷ s) =
    slash =? b'/'
    && ((is_digit d && at_end s) || elim s [
      | [] ↦ false
      | e ∷ t ↦
          ((d =? b'1' || d =? b'2') && is_digit e && at_end t)
          || (d =? b'3' && leb b'0' e && leb e b'2' && at_end t)
    ])

-- `(\d{1,3}\.){k}\d{1,3}` and what follows: `dots` are still to come, `width` digits of the octet
-- with the value `octet` are read. The flag that comes back with the match is `0 <= int(o) <= 255`
-- for all octets.
pub data Match : Type 0 where
  no_match : Match
  matched : Bool → Match

also : Bool → Match → Match
also ok no_match = no_match
also ok (matched rest) = matched (ok && rest)

octets : ℕ → ℕ → ℕ → List ℕ → Match
unfolding is_digit also
octets dots width octet [] = if dots =? 0 && leb 1 width then matched (leb octet 255) else no_match
octets dots width octet (c ∷ s) = elim (is_digit c) [
  | true ↦ if leb 3 width then no_match else octets dots (width + 1) (octet * 10 + (c - b'0')) s
  | false ↦ elim (c =? b'.' && leb 1 width && leb 1 dots) [
    | true ↦ also (leb octet 255) (octets (dots - 1) 0 0 s)
    | false ↦
        if dots =? 0 && leb 1 width && prefix_length (c ∷ s)
        then matched (leb octet 255)
        else no_match
  ]
]

unfoldable pub is_hex_or_colon : ℕ → Bool
unfolding is_digit
is_hex_or_colon c =
    is_digit c || (leb b'a' c && leb c b'f') || (leb b'A' c && leb c b'F') || c =? b':'

-- `(/\d{1,3})?$`
short_prefix : List ℕ → Bool
unfolding is_digit
short_prefix [] = true
short_prefix (a ∷ []) = a =? 10
short_prefix (a ∷ b ∷ []) = a =? b'/' && is_digit b
short_prefix (a ∷ b ∷ c ∷ []) = a =? b'/' && is_digit b && (is_digit c || c =? 10)
short_prefix (a ∷ b ∷ c ∷ d ∷ s) =
    a =? b'/' && is_digit b && is_digit c && ((is_digit d && at_end s) || at_end (d ∷ s))

-- `^[0-9a-fA-F:]+(/\d{1,3})?$`, the first character read.
v6_tail : List ℕ → Bool
unfolding is_hex_or_colon short_prefix
v6_tail [] = true
v6_tail (c ∷ s) = let rest = v6_tail s in if is_hex_or_colon c then rest else short_prefix (c ∷ s)

matches_v6 : List ℕ → Bool
unfolding v6_tail
matches_v6 [] = false
matches_v6 (c ∷ s) = is_hex_or_colon c && v6_tail s

abbrev decide : Match → Bool → Bool
decide no_match v6 = v6
decide (matched in_range) v6 = in_range

-- The test of an address, on its code points.
unfoldable pub is_address : List ℕ → Bool
unfolding octets matches_v6
is_address ip = decide (octets 3 0 0 ip) (matches_v6 ip)

-- `valid_ip`
unfoldable pub valid_ip : String → Bool
unfolding is_address
valid_ip ip = is_address (codes ip)

valid_ip_samples :
    map valid_ip (
      "8.8.8.8" ∷ "256.1.1.1" ∷ "1.2.3" ∷ "10.0.0.0/8" ∷ "1.2.3.4/33" ∷ "::1" ∷ "fe80::/64" ∷ "x"
      ∷ [])
    ≡ true ∷ false ∷ false ∷ true ∷ false ∷ true ∷ true ∷ false ∷ []
unfolding valid_ip
valid_ip_samples = refl
