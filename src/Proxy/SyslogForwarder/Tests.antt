-- ===== src/Proxy/SyslogForwarder/Tests.antt =====
-- Frames and targets of samples, and the theorems at those inputs.
use wardnode.Base.{ℕ, ◌≤◌, String, none, some, List, [], ◌∷◌, ◌++◌, ◌≡◌, refl, arith, any, All}
use wardnode.Text.{codes}
use wardnode.Ip.Samples.{samples, parse}
use wardnode.Proxy.SyslogForwarder.{
  facility_code, utf8_size, byte_length, sanitize, body, number_text, is_surrogate, header_field,
  build_rfc5424, max_msg_bytes, allowed, is_barred, is_safe_syslog_target,
}
use wardnode.Proxy.SyslogForwarder.Frames.{IsEncodable, IsWellFormed, build_rfc5424-IsWellFormed}
use wardnode.Proxy.SyslogForwarder.Targets.{IsPermitted, is_safe_syslog_target-allowed}

-- A line feed followed by a forged frame.
abbrev forged : List ℕ
forged = 97 ∷ 10 ∷ codes "<0>1 x"

one_line : body forged ≡ 97 ∷ 32 ∷ codes "<0>1 x"
unfolding body sanitize byte_length utf8_size
one_line = refl

forged-IsEncodable : IsEncodable forged
forged-IsEncodable = ground arith

build_rfc5424-IsWellFormed_example :
    (text : List ℕ) × (build_rfc5424
        (facility_code "auth")
        2
        "2026-01-02T03:04:05Z"
        (codes "ward node")
        []
        (codes "7")
        (codes "WAF")
        forged
      ≡ some text)
    × IsWellFormed (facility_code "auth") 2 "2026-01-02T03:04:05Z" text
build_rfc5424-IsWellFormed_example =
    build_rfc5424-IsWellFormed "auth" "2026-01-02T03:04:05Z" 2 (codes "ward node") [] (codes "7")
      (codes "WAF") forged (omega arith) forged-IsEncodable

frame_test :
    build_rfc5424 4 2 "T" (codes "ward node") [] (codes "7") (codes "WAF") forged
    ≡ some (codes "<34>1 T ward_node - 7 WAF - a <0>1 x")
unfolding build_rfc5424 number_text header_field body sanitize byte_length utf8_size any
    is_surrogate
frame_test = refl

-- A lone surrogate is not encoded.
surrogate_test : build_rfc5424 4 2 "T" [] [] [] [] (0xD800 ∷ []) ≡ none
unfolding build_rfc5424 sanitize any is_surrogate
surrogate_test = refl

-- A line feed of the host's name stays in the frame.
host_test :
    build_rfc5424 4 2 "T" (97 ∷ 10 ∷ []) [] [] [] (codes "x")
    ≡ some (codes "<34>1 T a" ++ (10 ∷ codes " - - - - x"))
unfolding build_rfc5424 number_text header_field body sanitize byte_length utf8_size any
    is_surrogate
host_test = refl

short : byte_length (codes "attack") ≤ max_msg_bytes
unfolding byte_length utf8_size
short = omega arith

lan_allowed : is_safe_syslog_target samples (some ("10.0.0.7" ∷ "8.8.8.8" ∷ [])) ≡ allowed
unfolding is_safe_syslog_target any is_barred parse
lan_allowed = refl

is_safe_syslog_target-allowed_example :
    (first : String) × (rest : List String) × (some ("10.0.0.7" ∷ "8.8.8.8" ∷ [])
      ≡ some (first ∷ rest))
    × All (IsPermitted samples) (first ∷ rest)
is_safe_syslog_target-allowed_example =
    is_safe_syslog_target-allowed samples (some ("10.0.0.7" ∷ "8.8.8.8" ∷ [])) lan_allowed
