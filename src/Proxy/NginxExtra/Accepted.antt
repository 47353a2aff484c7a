-- ===== src/Proxy/NginxExtra/Accepted.antt =====
-- The lines of a snippet that is accepted.
use wardnode.Base.{
  ℕ, suc, ◌≤◌, Bool, true, false, not, ◌≡◌, ◌≢◌, ◌⊎◌, refl, sym, ap, ◌∙◌, Option, none, some, List,
  [], ◌∷◌, ◌++◌, any, ltb, length, All, Bool-cases, inl, inr, arith,
}
use wardnode.Base.Options.{bind_some}
use wardnode.Text.{codes, trim}
use wardnode.Proxy.CustomRules.{split_lines}
use wardnode.Proxy.NginxExtra.Plain.{
  IsUnbraced, IsPrintable, IsFirst, IsDirective, ArePaired, IsSkipped, is_skipped-IsSkipped,
  is_brace-IsUnbraced, is_control-IsPrintable, before_semicolon-parts, first_word-IsFirst,
  is_directive-IsDirective, any-names, is_balanced-ArePaired,
}
use wardnode.Proxy.NginxExtra.{
  disallowed_directives, max_snippet_length, Context, server, location, Problem, too_long, braces,
  control, bad_directive, disallowed, quotes, before_semicolon, first_word, is_brace, is_control,
  is_balanced, is_disallowed, problem_if, is_skipped, is_directive, directive_problems,
  content_problems, line_problems, lines_problems, validate_snippet_lines, nginx_failed,
  nginx_problems, validate_nginx_extra_config,
}

module _ (alnum : ℕ → Bool) where
  -- A line with a directive: no brace, a semicolon at the end, a first word that is a directive and
  -- none of the forbidden ones, quotes in pairs, and no character below 32 but the tabulator.
  pub record IsPlainLine (raw : List ℕ) : Type 0 where
    pub no_braces : All IsUnbraced (trim raw)
    pub content : List ℕ
    pub ends : trim raw ≡ content ++ (b';' ∷ [])
    pub no_control : All IsPrintable raw
    pub directive : List ℕ
    pub starts : IsFirst content directive
    pub form : IsDirective alnum directive
    pub allowed :
        All
          (λ d. directive ≢ codes d)
          ("include" ∷ "load_module" ∷ "daemon" ∷ "master_process" ∷ "pid" ∷ "user"
            ∷ "worker_processes" ∷ "events" ∷ "http" ∷ "server" ∷ "location" ∷ "upstream" ∷ "map"
            ∷ "geo" ∷ "root" ∷ "alias" ∷ "ssl_certificate_key" ∷ "proxy_pass" ∷ "proxy_redirect"
            ∷ "mirror" ∷ "return" ∷ "rewrite" ∷ "sub_filter" ∷ "internal" ∷ "add_header"
            ∷ "error_page" ∷ [])
    pub paired : ArePaired b'"' (trim raw) × ArePaired b'\'' (trim raw)

  abbrev pub IsAcceptedLine : List ℕ → Type 0
  IsAcceptedLine raw = IsSkipped (trim raw) ⊎ IsPlainLine raw

  problem_if-nil : (b : Bool) (p : Problem) → problem_if b p ≡ [] → b ≡ false
  problem_if-nil true p h = cc
  problem_if-nil false p h = refl

  append_nil : (a b : List Problem) → (a ++ b) ≡ [] → (a ≡ []) × (b ≡ [])
  append_nil [] b h = (refl, h)
  append_nil (p ∷ a) b h = cc

  some_injective : {a b : List Problem} → some a ≡ some b → a ≡ b
  some_injective {a} {b} h = cc

  negated_false : (b : Bool) → not b ≡ false → b ≡ true
  negated_false true h = refl
  negated_false false h = sym h

  module _ (context : Context) (n : ℕ) (raw : List ℕ)
      (unbraced : any is_brace (trim raw) ≡ false) where
    directive_problems-IsPlainLine :
        (content : List ℕ) (o : Option (List ℕ))
        → before_semicolon (trim raw) ≡ some content
        → any is_control raw ≡ false
        → first_word content ≡ o
        → directive_problems alnum context n (trim raw) o ≡ some []
        → IsPlainLine raw
    directive_problems-IsPlainLine content none e c f h = cc
    directive_problems-IsPlainLine content (some directive) e c f h =
        let a =
          append_nil (problem_if (not (is_directive alnum directive)) (bad_directive context n)) _
            (some_injective h) in
        let b = append_nil (problem_if (is_disallowed directive) (disallowed context n)) _ a.1 in
        record {
          no_braces = is_brace-IsUnbraced (trim raw) unbraced;
          content = content;
          ends = before_semicolon-parts (trim raw) content e;
          no_control = is_control-IsPrintable raw c;
          directive = directive;
          starts = first_word-IsFirst content directive f;
          form = is_directive-IsDirective alnum directive (
              negated_false (is_directive alnum directive) (
                problem_if-nil (not (is_directive alnum directive)) (bad_directive context n) a.0));
          allowed =
              any-names directive disallowed_directives
                (problem_if-nil (is_disallowed directive) (disallowed context n) b.0);
          paired = is_balanced-ArePaired (trim raw) (
              negated_false (is_balanced (trim raw))
                (problem_if-nil (not (is_balanced (trim raw))) (quotes context n) b.1));
        }

    content_problems-IsPlainLine :
        (o : Option (List ℕ))
        → before_semicolon (trim raw) ≡ o
        → content_problems alnum context n raw (trim raw) o ≡ some []
        → IsPlainLine raw
    content_problems-IsPlainLine none e h = cc
    content_problems-IsPlainLine (some content) e h = elim (Bool-cases (any is_control raw)) [
      | inl c ↦ absurd (some_problem (rw c at h))
      | inr c ↦ directive_problems-IsPlainLine content (first_word content) e c refl (rw c at h)
    ]
      where
        some_problem : some (control context n ∷ []) ≡ some [] → ⊥
        some_problem h = cc

  line_problems-IsAcceptedLine :
      (context : Context) (n : ℕ) (raw : List ℕ)
      → line_problems alnum context n raw (trim raw) ≡ some []
      → IsAcceptedLine raw
  line_problems-IsAcceptedLine context n raw h = elim (Bool-cases (is_skipped (trim raw))) [
    | inl s ↦ inl (is_skipped-IsSkipped (trim raw) s)
    | inr s ↦ elim (Bool-cases (any is_brace (trim raw))) [
      | inl b ↦ absurd (some_problem (rw (s, b) at h))
      | inr b ↦ inr (
          content_problems-IsPlainLine context n raw b (before_semicolon (trim raw)) refl
            (rw (s, b) at h))
    ]
  ]
    where
      some_problem : some (braces context n ∷ []) ≡ some [] → ⊥
      some_problem h = cc

  lines_problems-All :
      (context : Context) (n : ℕ) (raws : List (List ℕ))
      → lines_problems alnum context n raws ≡ some []
      → All IsAcceptedLine raws
  unfolding lines_problems
  lines_problems-All context n [] h = tt
  lines_problems-All context n (raw ∷ rest) h =
      let a = bind_some (line_problems alnum context n raw (trim raw)) _ [] h in
      let b = bind_some (lines_problems alnum context (suc n) rest) _ [] a.1.1 in
      let c = append_nil a.0 b.0 (some_injective b.1.1) in
      (
        line_problems-IsAcceptedLine context n raw (a.1.0 ∙ ap some c.0),
        lines_problems-All context (suc n) rest (b.1.0 ∙ ap some c.1),
      )

  pub record IsAcceptedSnippet (snippet : List ℕ) : Type 0 where
    pub short : length snippet ≤ max_snippet_length
    pub lines : All IsAcceptedLine (split_lines false snippet)

  validate_snippet_lines-IsAcceptedSnippet :
      (context : Context) (snippet : List ℕ)
      → validate_snippet_lines alnum context snippet ≡ some []
      → IsAcceptedSnippet snippet
  unfolding validate_snippet_lines
  validate_snippet_lines-IsAcceptedSnippet context snippet h =
      elim (Bool-cases (ltb max_snippet_length (length snippet))) [
        | inl e ↦ absurd (some_problem (rw e at h))
        | inr e ↦ record {
          short = ground (arith, e);
          lines = lines_problems-All context 1 (split_lines false snippet) (rw e at h);
        }
      ]
    where
      some_problem : some (too_long context ∷ []) ≡ some [] → ⊥
      some_problem h = cc

  -- What nginx answers, where there is one.
  abbrev answer : List ℕ → List ℕ → Option (List ℕ → List ℕ → Bool) → Bool
  answer s l none = false
  answer s l (some takes) = takes s l

  nginx_problems-nil :
      (s l : List ℕ) (o : Option (List ℕ → List ℕ → Bool)) (ps : List Problem)
      → nginx_problems alnum o s l ps ≡ []
      → (ps ≡ []) × ((takes : List ℕ → List ℕ → Bool) → o ≡ some takes → takes s l ≡ true)
  nginx_problems-nil s l o (p ∷ ps) h = cc
  nginx_problems-nil s l none [] h = (refl, λ takes e. cc)
  nginx_problems-nil s l (some f) [] h = (
    refl,
    λ takes e.
        ap (answer s l) (sym e)
        ∙ negated_false (f s l) (problem_if-nil (not (f s l)) nginx_failed h),
  )

  -- If the two snippets of a site are found without a problem, then neither has more than 8000
  -- characters, and every line of both is, but for white space around it, blank, a comment, or one
  -- that has no brace, ends in a semicolon, has for its first word letters, digits and underscores
  -- and none of the forbidden directives, and has both kinds of quotes in pairs; such a line has no
  -- character below 32 but the tabulator. And nginx, if there is one, takes the two.
  pub validate_nginx_extra_config-IsAcceptedSnippet :
      (nginx : Option (List ℕ → List ℕ → Bool)) (server_snippet location_snippet : List ℕ)
      → validate_nginx_extra_config alnum nginx server_snippet location_snippet ≡ some []
      → IsAcceptedSnippet server_snippet
        × (IsAcceptedSnippet location_snippet
            × ((takes : List ℕ → List ℕ → Bool)
                → nginx ≡ some takes
                → takes server_snippet location_snippet ≡ true))
  unfolding validate_nginx_extra_config
  validate_nginx_extra_config-IsAcceptedSnippet nginx server_snippet location_snippet h =
      let a = bind_some (validate_snippet_lines alnum server server_snippet) _ [] h in
      let b = bind_some (validate_snippet_lines alnum location location_snippet) _ [] a.1.1 in
      let c =
        nginx_problems-nil server_snippet location_snippet nginx (a.0 ++ b.0)
          (some_injective b.1.1) in
      let d = append_nil a.0 b.0 c.0 in
      (
        validate_snippet_lines-IsAcceptedSnippet server server_snippet (a.1.0 ∙ ap some d.0),
        (
          validate_snippet_lines-IsAcceptedSnippet location location_snippet (b.1.0 ∙ ap some d.1),
          c.1,
        ),
      )
