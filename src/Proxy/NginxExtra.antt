-- ===== src/Proxy/NginxExtra.antt =====
-- app/proxy/nginx_extra.py: the checks of the directives that an administrator adds to a site.
-- Texts are lists of code points; which characters `isalnum` takes and what `nginx -t` answers, if
-- there is an nginx, are parameters.
pub mod Plain
pub mod Accepted
mod Tests
use wardnode.Base.{
  ℕ, suc, ◌+◌, ◌%◌, String, Bool, true, false, not, ◌&&◌, ◌||◌, Option, none, some, List, [], ◌∷◌,
  ◌++◌, any, all, keep, ltb, length, ◌=?◌, if◌then◌else◌,
}
use wardnode.Base.Options.{◌>>=◌}
use wardnode.Text.{same, codes, trim, is_space}
use wardnode.Proxy.CustomRules.{split_lines}

abbrev pub max_snippet_length : ℕ
max_snippet_length = 8000

-- `DISALLOWED_DIRECTIVES`
abbrev pub disallowed_directives : List String
disallowed_directives =
    "include" ∷ "load_module" ∷ "daemon" ∷ "master_process" ∷ "pid" ∷ "user" ∷ "worker_processes"
    ∷ "events" ∷ "http" ∷ "server" ∷ "location" ∷ "upstream" ∷ "map" ∷ "geo" ∷ "root" ∷ "alias"
    ∷ "ssl_certificate_key" ∷ "proxy_pass" ∷ "proxy_redirect" ∷ "mirror" ∷ "return" ∷ "rewrite"
    ∷ "sub_filter" ∷ "internal" ∷ "add_header" ∷ "error_page" ∷ []

pub data Context : Type 0 where
  server location : Context

pub data Problem : Type 0 where
  too_long : Context → Problem
  braces no_semicolon control bad_directive disallowed quotes : Context → ℕ → Problem
  nginx_failed : Problem

-- The line without its last character, if that is a semicolon.
unfoldable pub before_semicolon : List ℕ → Option (List ℕ)
before_semicolon [] = none
before_semicolon (c ∷ []) = if c =? b';' then some [] else none
before_semicolon (c ∷ d ∷ s) = before_semicolon (d ∷ s) >>= λ t. some (c ∷ t)

-- `line.split(maxsplit=1)[0]`; without a word it raises `IndexError`.
unfoldable pub word : List ℕ → List ℕ
word [] = []
word (c ∷ s) = let rest = word s in if is_space c then [] else c ∷ rest

unfoldable pub first_word : List ℕ → Option (List ℕ)
unfolding word
first_word [] = none
first_word (c ∷ s) = let rest = first_word s in if is_space c then rest else some (word (c ∷ s))

unfoldable pub count_char : ℕ → List ℕ → ℕ
count_char q [] = 0
count_char q (c ∷ s) = let rest = count_char q s in if c =? q then suc rest else rest

abbrev pub is_brace : ℕ → Bool
is_brace c = c =? b'{' || c =? b'}'

abbrev pub is_control : ℕ → Bool
is_control c = ltb c 32 && not (c =? 9)

abbrev pub is_balanced : List ℕ → Bool
is_balanced line = count_char b'"' line % 2 =? 0 && count_char b'\'' line % 2 =? 0

abbrev pub is_disallowed : List ℕ → Bool
is_disallowed directive = any (λ d. same (codes d) directive) disallowed_directives

abbrev pub problem_if : Bool → Problem → List Problem
problem_if true p = p ∷ []
problem_if false p = []

-- Blank lines and comments are left out.
abbrev pub is_skipped : List ℕ → Bool
is_skipped [] = true
is_skipped (c ∷ s) = c =? b'#'

module _ (alnum : ℕ → Bool) where
  -- `directive.replace("_", "").isalnum()`
  abbrev pub is_word : List ℕ → Bool
  is_word [] = false
  is_word (c ∷ s) = all alnum (c ∷ s)

  abbrev pub is_directive : List ℕ → Bool
  is_directive directive = is_word (keep (λ c. not (c =? b'_')) directive)

  abbrev pub directive_problems : Context → ℕ → List ℕ → Option (List ℕ) → Option (List Problem)
  directive_problems context n line none = none
  directive_problems context n line (some directive) = some (
      problem_if (not (is_directive directive)) (bad_directive context n)
      ++ (problem_if (is_disallowed directive) (disallowed context n)
          ++ problem_if (not (is_balanced line)) (quotes context n)))

  -- The checks of a line, `none` is an exception; `raw` is the line as it stands.
  abbrev pub content_problems :
      Context → ℕ → List ℕ → List ℕ → Option (List ℕ) → Option (List Problem)
  content_problems context n raw line none = some (no_semicolon context n ∷ [])
  content_problems context n raw line (some content) =
      if any is_control raw
      then some (control context n ∷ [])
      else directive_problems context n line (first_word content)

  abbrev pub line_problems : Context → ℕ → List ℕ → List ℕ → Option (List Problem)
  line_problems context n raw line =
      if is_skipped line
      then some []
      else (if any is_brace line
          then some (braces context n ∷ [])
          else content_problems context n raw line (before_semicolon line))

  unfoldable pub lines_problems : Context → ℕ → List (List ℕ) → Option (List Problem)
  unfolding any all keep same before_semicolon first_word count_char trim
  lines_problems context n [] = some []
  lines_problems context n (raw ∷ rest) = do
    here ← line_problems context n raw (trim raw)
    later ← lines_problems context (suc n) rest
    some (here ++ later)

  -- `_validate_snippet_lines`
  unfoldable pub validate_snippet_lines : Context → List ℕ → Option (List Problem)
  unfolding lines_problems split_lines
  validate_snippet_lines context snippet =
      if ltb max_snippet_length (length snippet)
      then some (too_long context ∷ [])
      else lines_problems context 1 (split_lines false snippet)

  -- `validate_nginx_extra_config`; `nginx` is absent, or answers whether it takes the two snippets.
  abbrev pub nginx_problems :
      Option (List ℕ → List ℕ → Bool) → List ℕ → List ℕ → List Problem → List Problem
  nginx_problems nginx server_snippet location_snippet (p ∷ ps) = p ∷ ps
  nginx_problems none server_snippet location_snippet [] = []
  nginx_problems (some takes) server_snippet location_snippet [] =
      problem_if (not (takes server_snippet location_snippet)) nginx_failed

  unfoldable pub validate_nginx_extra_config :
      Option (List ℕ → List ℕ → Bool) → List ℕ → List ℕ → Option (List Problem)
  unfolding validate_snippet_lines
  validate_nginx_extra_config nginx server_snippet location_snippet = do
    a ← validate_snippet_lines server server_snippet
    b ← validate_snippet_lines location location_snippet
    some (nginx_problems nginx server_snippet location_snippet (a ++ b))
