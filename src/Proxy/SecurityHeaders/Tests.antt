-- ===== src/Proxy/SecurityHeaders/Tests.antt =====
-- Headers of a site.
use wardnode.Base.{ℕ, true, false, ◌≡◌, ◌↔◌, refl, List, [], ◌∷◌, All}
use wardnode.Text.{codes}
use wardnode.Proxy.SecurityHeaders.{Header, ensure_site_security_headers, validate_security_header}
use wardnode.Proxy.SecurityHeaders.Render.{line_text, escape_nginx_header_value, replace_char, add}
use wardnode.Proxy.SecurityHeaders.Ensured.{HasName, ensure_site_security_headers_complete}
use wardnode.Proxy.SecurityHeaders.Valid.{IsAllowed, validate_security_header_iff}

abbrev a_header : Header
a_header = record {
  name = codes "X-Note";
  value = codes "say \"hi\"";
  enabled = true;
  always = true;
  position = 9;
  is_default = false;
}

line_test :
    line_text (add a_header.name a_header.value true)
    ≡ codes "    add_header X-Note \"say \\\"hi\\\"\" always;"
unfolding escape_nginx_header_value replace_char
line_test = refl

ensure_site_security_headers_complete_example :
    All
      (λ n. HasName (codes n) (ensure_site_security_headers true (a_header ∷ [])))
      ("X-Content-Type-Options" ∷ "X-Frame-Options" ∷ "Referrer-Policy" ∷ "Permissions-Policy"
        ∷ "X-XSS-Protection" ∷ "Strict-Transport-Security" ∷ "Content-Security-Policy" ∷ [])
    × ((name : List ℕ)
        → HasName name (a_header ∷ [])
        → HasName name (ensure_site_security_headers true (a_header ∷ [])))
ensure_site_security_headers_complete_example =
    ensure_site_security_headers_complete true (a_header ∷ [])

validate_security_header_iff_example :
    (validate_security_header (codes "X-Note") (codes "hello") ≡ [])
    ↔ IsAllowed (codes "X-Note") (codes "hello")
validate_security_header_iff_example = validate_security_header_iff (codes "X-Note") (codes "hello")
