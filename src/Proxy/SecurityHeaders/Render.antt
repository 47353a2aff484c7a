-- ===== src/Proxy/SecurityHeaders/Render.antt =====
-- app/proxy/services.py: `_render_security_headers`, and the quoting of a value.
use wardnode.Base.{
  ℕ, String, Bool, true, not, ◌&&◌, Option, none, some, List, [], ◌∷◌, ◌++◌, any, ◌=?◌, ◌==◌,
  if◌then◌else◌,
}
use wardnode.Text.{same, codes, to_lower}
use wardnode.Proxy.SecurityHeaders.{Header, lower, ensure_site_security_headers}

-- `_escape_nginx_header_value`: the two replacements, one after the other.
unfoldable pub replace_char : ℕ → List ℕ → List ℕ
replace_char c [] = []
replace_char c (d ∷ s) =
    let rest = replace_char c s in if d =? c then b'\\' ∷ d ∷ rest else d ∷ rest

unfoldable pub escape_nginx_header_value : List ℕ → List ℕ
unfolding replace_char
escape_nginx_header_value value = replace_char b'"' (replace_char b'\\' value)

-- `_HSTS_VALUES`
abbrev pub hsts_values : List (String × String)
hsts_values =
    ("1y", "max-age=31536000")
    ∷ ("1y-sub", "max-age=31536000; includeSubDomains")
    ∷ ("1y-sub-preload", "max-age=31536000; includeSubDomains; preload")
    ∷ []

unfoldable pub hsts_value : List (String × String) → String → Option String
hsts_value [] mode = none
hsts_value ((m, v) ∷ rest) mode = if m == mode then some v else hsts_value rest mode

-- `_DEDUP_SECURITY_HEADERS`
abbrev pub dedup_headers : List String
dedup_headers =
    "strict-transport-security" ∷ "content-security-policy" ∷ "content-security-policy-report-only"
    ∷ "x-frame-options" ∷ "x-content-type-options" ∷ "referrer-policy" ∷ "permissions-policy"
    ∷ "x-xss-protection" ∷ "x-permitted-cross-domain-policies" ∷ "cross-origin-opener-policy"
    ∷ "cross-origin-resource-policy" ∷ "cross-origin-embedder-policy" ∷ []

abbrev pub hsts_name : List ℕ
hsts_name = codes "Strict-Transport-Security"

-- A line of the configuration: its name, with a value and whether it is sent always.
pub data Line : Type 0 where
  hide : List ℕ → Line
  add : List ℕ → List ℕ → Bool → Line

abbrev pub line_text : Line → List ℕ
line_text (hide name) = codes "    proxy_hide_header " ++ (name ++ codes ";")
line_text (add name value always) =
    codes "    add_header "
    ++ (name
        ++ (codes " \""
            ++ (escape_nginx_header_value value
                ++ (codes "\"" ++ codes (if always then " always;" else ";")))))

-- Whether a header of the table is written, under the mode of the site.
abbrev pub is_written : String → Header → Bool
is_written mode h =
    h.enabled
    && not (same (codes "strict-transport-security") (lower h.name) && not (mode == "off"))

abbrev pub is_dedup : List ℕ → Bool
is_dedup name = any (λ d. same (codes d) (lower name)) dedup_headers

unfoldable pub hide_lines : String → List Header → List Line
unfolding same to_lower any
hide_lines mode [] = []
hide_lines mode (h ∷ hs) =
    let rest = hide_lines mode hs in
    if is_written mode h && is_dedup h.name then hide h.name ∷ rest else rest

unfoldable pub add_lines : String → List Header → List Line
unfolding same to_lower
add_lines mode [] = []
add_lines mode (h ∷ hs) =
    let rest = add_lines mode hs in
    if is_written mode h then add h.name h.value h.always ∷ rest else rest

-- The lines of the mode come first; their values have nothing to escape.
abbrev pub mode_hide : Option String → List Line
mode_hide none = []
mode_hide (some v) = hide hsts_name ∷ []

abbrev pub mode_add : Option String → List Line
mode_add none = []
mode_add (some v) = add hsts_name (codes v) true ∷ []

unfoldable pub header_lines : String → List Header → List Line
unfolding hsts_value hide_lines add_lines
header_lines mode headers =
    (mode_hide (hsts_value hsts_values mode) ++ hide_lines mode headers)
    ++ (mode_add (hsts_value hsts_values mode) ++ add_lines mode headers)

unfoldable pub join_lines : List Line → List ℕ
unfolding escape_nginx_header_value
join_lines [] = []
join_lines (l ∷ []) = line_text l
join_lines (l ∷ m ∷ ls) = line_text l ++ (10 ∷ join_lines (m ∷ ls))

-- `_render_security_headers`
unfoldable pub render_security_headers : Bool → String → List Header → List ℕ
unfolding ensure_site_security_headers header_lines join_lines
render_security_headers is_console mode headers =
    join_lines (header_lines mode (ensure_site_security_headers is_console headers))
