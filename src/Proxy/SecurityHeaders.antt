-- ===== src/Proxy/SecurityHeaders.antt =====
-- app/proxy/security_headers.py and the lines that app/proxy/services.py writes of them. Texts are
-- lists of code points.
pub mod Render
pub mod Ensured
pub mod Valid
pub mod Lines
mod Tests
use wardnode.Base.{
  ℕ, suc, ◌+◌, String, Bool, true, false, not, ◌&&◌, ◌||◌, Option, none, some, List, [], ◌∷◌, ◌++◌,
  map, any, all, ltb, leb, length, ◌=?◌, if◌then◌else◌,
}
use wardnode.Text.{same, codes, to_lower, is_lower, is_upper, is_digit}

-- The columns of `SecurityHeader`.
pub record Header : Type 0 where
  pub name : List ℕ
  pub value : List ℕ
  pub enabled : Bool
  pub always : Bool
  pub position : ℕ
  pub is_default : Bool

abbrev pub console_csp : List ℕ
console_csp =
    codes "default-src 'self'; "
    ++ (codes
          "script-src 'self' 'unsafe-inline' 'unsafe-eval' https://cdn.jsdelivr.net https://unpkg.com; "
        ++ (codes
              "style-src 'self' 'unsafe-inline' https://cdn.jsdelivr.net https://fonts.googleapis.com; "
            ++ (codes "font-src 'self' https://fonts.gstatic.com https://cdn.jsdelivr.net data:; "
                ++ codes "img-src 'self' data:; connect-src 'self'; frame-ancestors 'none'")))

abbrev pub site_csp : List ℕ
site_csp =
    codes
      "default-src 'self'; img-src 'self' data:; style-src 'self' 'unsafe-inline'; frame-ancestors 'none'"

-- `_STALE_CONSOLE_CSP_VALUES`
abbrev pub stale_values : List (List ℕ)
stale_values = codes "default-src 'self'" ∷ site_csp ∷ []

abbrev pub default_header : String → List ℕ → Bool → ℕ → Header
default_header name value enabled position = record {
  name = codes name;
  value = value;
  enabled = enabled;
  always = true;
  position = position;
  is_default = true;
}

-- `DEFAULT_SECURITY_HEADERS`, with their positions; the last is the console's own for the console.
abbrev pub default_headers : Bool → List Header
default_headers is_console =
    default_header "X-Content-Type-Options" (codes "nosniff") true 1
    ∷ default_header "X-Frame-Options" (codes "DENY") true 2
    ∷ default_header "Referrer-Policy" (codes "strict-origin-when-cross-origin") true 3
    ∷ default_header "Permissions-Policy" (codes "camera=(), microphone=(), geolocation=()") true 4
    ∷ default_header "X-XSS-Protection" (codes "1; mode=block") true 5
    ∷ default_header "Strict-Transport-Security" (codes "max-age=31536000; includeSubDomains") false
        6
    ∷ default_header "Content-Security-Policy" (if is_console then console_csp else site_csp) false
        7
    ∷ []

abbrev pub lower : List ℕ → List ℕ
lower s = map to_lower s

unfoldable pub has_name : List ℕ → List Header → Bool
unfolding any to_lower same
has_name name headers = any (λ h. same (lower name) (lower h.name)) headers

-- The defaults that the site does not have.
unfoldable pub missing : List Header → List Header → List Header
missing [] headers = []
missing (d ∷ ds) headers =
    let rest = missing ds headers in if has_name d.name headers then rest else d ∷ rest

-- The policy of the console that an earlier version made: the last header of that name, as the
-- dictionary of the existing ones has it.
abbrev pub csp_name : List ℕ
csp_name = codes "Content-Security-Policy"

abbrev pub refreshed : Header → Header
refreshed h =
    if h.is_default && any (λ v. same v h.value) stale_values
    then record h { value = console_csp }
    else h

unfoldable pub refresh_csp : List Header → List Header
refresh_csp [] = []
refresh_csp (h ∷ hs) =
    let rest = refresh_csp hs in
    if same (lower csp_name) (lower h.name) && not (has_name csp_name hs)
    then refreshed h ∷ hs
    else h ∷ rest

-- The order in which the database gives the headers back.
unfoldable pub insert_header : Header → List Header → List Header
insert_header h [] = h ∷ []
insert_header h (x ∷ xs) =
    let rest = insert_header h xs in if leb h.position x.position then h ∷ x ∷ xs else x ∷ rest

unfoldable pub by_position : List Header → List Header
unfolding insert_header
by_position [] = []
by_position (h ∷ hs) = insert_header h (by_position hs)

-- `ensure_site_security_headers`
unfoldable pub ensure_site_security_headers : Bool → List Header → List Header
unfolding missing refresh_csp has_name by_position
ensure_site_security_headers is_console headers = by_position (
    (if is_console then refresh_csp headers else headers)
    ++ missing (default_headers is_console) headers)

-- `validate_security_header`
pub data Problem : Type 0 where
  no_name bad_name no_value bad_value long_name long_value : Problem

-- `HEADER_NAME_RE`: the end may stand before a line feed.
unfoldable pub is_name_char : ℕ → Bool
unfolding is_lower is_upper is_digit
is_name_char c =
    is_lower c || is_upper c || is_digit c || any (λ d. c =? d) (codes "!#$%&'*+.^_`|~-")

unfoldable pub name_rest : List ℕ → Bool
unfolding is_name_char
name_rest [] = true
name_rest (c ∷ []) = is_name_char c || c =? 10
name_rest (c ∷ d ∷ s) = is_name_char c && name_rest (d ∷ s)

abbrev pub matches_name : List ℕ → Bool
matches_name [] = false
matches_name (c ∷ s) = is_name_char c && name_rest s

-- `INVALID_VALUE_RE`
unfoldable pub is_invalid : ℕ → Bool
is_invalid c = leb c 8 || (leb 10 c && leb c 31) || c =? 127

abbrev pub problem_if : Bool → Problem → List Problem
problem_if true p = p ∷ []
problem_if false p = []

abbrev pub name_problems : List ℕ → List Problem
name_problems [] = no_name ∷ []
name_problems (c ∷ s) = problem_if (not (matches_name (c ∷ s))) bad_name

abbrev pub value_problems : List ℕ → List Problem
value_problems [] = no_value ∷ []
value_problems (c ∷ s) = problem_if (any is_invalid (c ∷ s)) bad_value

unfoldable pub validate_security_header : List ℕ → List ℕ → List Problem
unfolding any name_rest is_invalid
validate_security_header name value =
    name_problems name
    ++ (value_problems value
        ++ (problem_if (ltb 120 (length name)) long_name
            ++ problem_if (ltb 1000 (length value)) long_value))
