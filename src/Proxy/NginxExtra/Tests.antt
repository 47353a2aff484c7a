-- ===== src/Proxy/NginxExtra/Tests.antt =====
-- Snippets, accepted and refused.
use wardnode.Base.{ℕ, Bool, true, ◌||◌, ◌≡◌, refl, none, some, List, [], ◌∷◌, any, all, keep}
use wardnode.Text.{codes, same, trim, trim_left, trim_right, is_space, is_digit, is_lower, is_upper}
use wardnode.Proxy.CustomRules.{split_lines, is_break}
use wardnode.Proxy.NginxExtra.{
  server, disallowed, before_semicolon, first_word, word, count_char, lines_problems,
  validate_snippet_lines, validate_nginx_extra_config,
}
use wardnode.Proxy.NginxExtra.Accepted.{
  IsAcceptedSnippet, validate_nginx_extra_config-IsAcceptedSnippet,
}

abbrev alnum : ℕ → Bool
alnum c = is_digit c || is_lower c || is_upper c

refused_test :
    validate_snippet_lines alnum server (codes "return 301 x;") ≡ some (disallowed server 1 ∷ [])
unfolding validate_snippet_lines lines_problems split_lines is_break any all keep same
    before_semicolon first_word word count_char trim trim_left trim_right is_space is_digit is_lower
    is_upper
refused_test = refl

-- The second directive of a line is not looked at.
second_test : validate_snippet_lines alnum server (codes "gzip on; return 301 x;") ≡ some []
unfolding validate_snippet_lines lines_problems split_lines is_break any all keep same
    before_semicolon first_word word count_char trim trim_left trim_right is_space is_digit is_lower
    is_upper
second_test = refl

-- A line that is a semicolon raises an exception.
semicolon_test : validate_snippet_lines alnum server (codes ";") ≡ none
unfolding validate_snippet_lines lines_problems split_lines is_break any same before_semicolon
    first_word trim trim_left trim_right is_space
semicolon_test = refl

gzip_valid : validate_nginx_extra_config alnum (some (λ s l. true)) (codes "gzip on;") [] ≡ some []
unfolding validate_nginx_extra_config validate_snippet_lines lines_problems split_lines is_break any
    all keep same before_semicolon first_word word count_char trim trim_left trim_right is_space
    is_digit is_lower is_upper
gzip_valid = refl

validate_nginx_extra_config-IsAcceptedSnippet_example :
    IsAcceptedSnippet alnum (codes "gzip on;")
    × (IsAcceptedSnippet alnum []
        × ((takes : List ℕ → List ℕ → Bool)
            → some (λ (s l : List ℕ). true) ≡ some takes
            → takes (codes "gzip on;") [] ≡ true))
validate_nginx_extra_config-IsAcceptedSnippet_example =
    validate_nginx_extra_config-IsAcceptedSnippet alnum (some (λ s l. true)) (codes "gzip on;") []
      gzip_valid
