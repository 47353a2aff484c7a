-- ===== src/Proxy/SyslogForwarder.antt =====
-- app/proxy/syslog_forwarder.py: the frame of a syslog message, the severities and the guard on
-- the target. A text is the list of its code points, since the frame is cut by its bytes.
pub mod Frames
pub mod Targets
mod Tests
use wardnode.Base.{
  ℕ, zero, suc, ◌+◌, ◌-◌, ◌*◌, ◌/◌, ◌%◌, String, Bool, true, false, not, ◌&&◌, ◌||◌, Option, none,
  some, List, [], ◌∷◌, ◌++◌, ltb, leb, ◌=?◌, ◌==◌, if◌then◌else◌, take, any,
}
use wardnode.Text.{codes}
use wardnode.Ip.{IpLibrary}

abbrev pub max_msg_bytes : ℕ
max_msg_bytes = 8192

abbrev pub facility_codes : List (String × ℕ)
facility_codes =
    ("kern", 0)
    ∷ ("user", 1)
    ∷ ("mail", 2)
    ∷ ("daemon", 3)
    ∷ ("auth", 4)
    ∷ ("syslog", 5)
    ∷ ("lpr", 6)
    ∷ ("news", 7)
    ∷ ("uucp", 8)
    ∷ ("cron", 9)
    ∷ ("local0", 16)
    ∷ ("local1", 17)
    ∷ ("local2", 18)
    ∷ ("local3", 19)
    ∷ ("local4", 20)
    ∷ ("local5", 21)
    ∷ ("local6", 22)
    ∷ ("local7", 23)
    ∷ []

-- `table.get(name, default)`
unfoldable pub code_of : List (String × ℕ) → String → ℕ → ℕ
code_of [] name default = default
code_of ((k, v) ∷ table) name default = if k == name then v else code_of table name default

-- `FACILITY_CODES.get(name, 23)`
unfoldable pub facility_code : String → ℕ
facility_code name = code_of facility_codes name 23

-- `severity_from_audit`, on the severity in lower case; `none` is a missing one.
unfoldable pub severity_from_audit : Option String → ℕ
severity_from_audit none = 6
severity_from_audit (some s) =
    if s == "critical" then 2 else if s == "error" then 3 else if s == "warning" then 4 else 6

-- `severity_from_modsec`, on the upper-case text of `messages[0].details.severity`; `none` stands
-- for JSON that has no messages or is no object there.
unfoldable pub severity_from_modsec : Option String → ℕ
severity_from_modsec none = 4
severity_from_modsec (some s) =
    if s == "EMERGENCY" || s == "ALERT" || s == "CRITICAL" || s == "0" || s == "1" || s == "2"
    then 2
    else if s == "ERROR" || s == "3"
    then 3
    else if s == "NOTICE" || s == "INFO" || s == "DEBUG" || s == "5" || s == "6" || s == "7"
    then 6
    else 4

-- The number of bytes of a code point in UTF-8.
unfoldable pub utf8_size : ℕ → ℕ
utf8_size c = if ltb c 0x80 then 1 else if ltb c 0x800 then 2 else if ltb c 0x10000 then 3 else 4

unfoldable pub byte_length : List ℕ → ℕ
byte_length [] = 0
byte_length (c ∷ s) = utf8_size c + byte_length s

-- `enc[:limit].decode("utf-8", "ignore")`: the characters that lie within the first bytes whole.
unfoldable pub take_bytes : ℕ → List ℕ → List ℕ
take_bytes limit [] = []
take_bytes limit (c ∷ s) =
    let rest = take_bytes (limit - utf8_size c) s in
    if leb (utf8_size c) limit then c ∷ rest else []

-- `message.translate({0x00: None, 0x0d: 0x20, 0x0a: 0x20})`
unfoldable pub sanitize : List ℕ → List ℕ
sanitize [] = []
sanitize (c ∷ s) =
    let rest = sanitize s in
    if c =? 0 then rest else if c =? 13 || c =? 10 then 32 ∷ rest else c ∷ rest

unfoldable pub body : List ℕ → List ℕ
body message =
    let safe = sanitize message in
    if ltb max_msg_bytes (byte_length safe)
    then take_bytes max_msg_bytes safe ++ codes " [truncated]"
    else safe

underscores : List ℕ → List ℕ
underscores [] = []
underscores (c ∷ s) = (if c =? 32 then b'_' else c) ∷ underscores s

or_nil : List ℕ → List ℕ
or_nil [] = b'-' ∷ []
or_nil (c ∷ s) = c ∷ s

-- `(value or "-").replace(" ", "_")[:width]`
unfoldable pub header_field : ℕ → List ℕ → List ℕ
unfolding underscores or_nil
header_field width value = take width (underscores (or_nil value))

-- A number in decimals, on fuel above the number.
unfoldable pub number_text : ℕ → ℕ → List ℕ
number_text zero n = []
number_text (suc fuel) n =
    let rest = number_text fuel (n / 10) in
    if ltb n 10 then (n + 48) ∷ [] else rest ++ ((n % 10 + 48) ∷ [])

-- A lone surrogate, which UTF-8 does not encode.
unfoldable pub is_surrogate : ℕ → Bool
is_surrogate c = leb 0xD800 c && leb c 0xDFFF

-- `build_rfc5424`, the time already formatted; `none` is the exception of `encode`.
unfoldable pub build_rfc5424 :
    ℕ → ℕ → String → List ℕ → List ℕ → List ℕ → List ℕ → List ℕ → Option (List ℕ)
unfolding number_text header_field body sanitize any is_surrogate
build_rfc5424 facility severity timestamp hostname appname procid msgid message =
    let pri = facility * 8 + severity in
    if any is_surrogate (sanitize message)
    then none
    else some (
        b'<'
        ∷ (number_text (suc pri) pri
            ++ (codes ">1 "
                ++ (codes timestamp
                    ++ (32
                        ∷ (header_field 255 hostname
                            ++ (32
                                ∷ (header_field 48 appname
                                    ++ (32
                                        ∷ (header_field 128 procid
                                            ++ (32
                                                ∷ (header_field 32 msgid
                                                    ++ (codes " - " ++ body message)))))))))))))

pub data Refusal : Type 0 where
  unresolved no_address forbidden : Refusal

pub data Target : Type 0 where
  allowed : Target
  refused : Refusal → Target

module _ (lib : IpLibrary) where
  open lib use {
    Address, ip_address, is_loopback, is_link_local, is_reserved, is_unspecified, is_multicast,
  }

  -- The properties that bar an address; the private ranges are allowed.
  unfoldable pub is_barred : Option Address → Bool
  is_barred none = false
  is_barred (some a) =
      is_loopback a || is_link_local a || is_reserved a || is_unspecified a || is_multicast a

  abbrev resolved_target : List String → Target
  resolved_target [] = refused no_address
  resolved_target (s ∷ rest) =
      if any (λ t. is_barred (ip_address t)) (s ∷ rest) then refused forbidden else allowed

  -- `is_safe_syslog_target`, on what `getaddrinfo` answers; `none` is its error.
  unfoldable pub is_safe_syslog_target : Option (List String) → Target
  is_safe_syslog_target none = refused unresolved
  is_safe_syslog_target (some found) = resolved_target found
