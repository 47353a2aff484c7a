-- ===== src/Proxy/SecurityHeaders/Valid.antt =====
-- What the checks let through.
use wardnode.Base.{
  ℕ, ◌≤◌, Bool, true, false, not, ◌≡◌, ◌≢◌, ◌⊎◌, inl, inr, ◌↔◌, refl, sym, ap, List, [], ◌∷◌, ◌++◌,
  append-nil, any, length, ltb, All, Bool-cases, arith,
}
use wardnode.Text.{codes, is_lower, is_upper, is_digit}
use wardnode.Proxy.SecurityHeaders.{
  is_name_char, name_rest, Problem, bad_name, bad_value, long_name, long_value, matches_name,
  is_invalid, problem_if, name_problems, value_problems, validate_security_header,
}

abbrev pub IsAmong : ℕ → List ℕ → Type 0
IsAmong c [] = ⊥
IsAmong c (d ∷ ds) = (c ≡ d) ⊎ IsAmong c ds

-- A small letter, a capital, a digit, or one of the signs of a token.
abbrev pub IsTokenChar : ℕ → Type 0
IsTokenChar c =
    (97 ≤ c) × (c ≤ 122)
    ⊎ ((65 ≤ c) × (c ≤ 90) ⊎ ((48 ≤ c) × (c ≤ 57) ⊎ IsAmong c (codes "!#$%&'*+-.^_`|~")))

-- The tabulator, or a character that is neither below 32 nor DEL.
abbrev pub IsValueChar : ℕ → Type 0
IsValueChar c = (c ≡ 9) ⊎ ((32 ≤ c) × (c ≢ 127))

-- A name of token characters, after which a line feed may stand.
pub record IsName (name : List ℕ) : Type 0 where
  pub first : ℕ
  pub rest : List ℕ
  pub end : List ℕ
  pub parts : name ≡ first ∷ (rest ++ end)
  pub ended : (end ≡ []) ⊎ (end ≡ 10 ∷ [])
  pub token : All IsTokenChar (first ∷ rest)

pub record IsAllowed (name value : List ℕ) : Type 0 where
  pub name_form : IsName name
  pub name_short : length name ≤ 120
  pub value_present : 1 ≤ length value
  pub value_clean : All IsValueChar value
  pub value_short : length value ≤ 1000

is_name_char-IsTokenChar : (c : ℕ) → is_name_char c ≡ true → IsTokenChar c
unfolding is_name_char any is_lower is_upper is_digit
is_name_char-IsTokenChar c h = ground (arith, h)

IsTokenChar-is_name_char : (c : ℕ) → IsTokenChar c → is_name_char c ≡ true
unfolding is_name_char any is_lower is_upper is_digit
IsTokenChar-is_name_char c h = ground (arith, h)

is_invalid-IsValueChar : (c : ℕ) → is_invalid c ≡ false → IsValueChar c
unfolding is_invalid
is_invalid-IsValueChar c h = ground (arith, h)

IsValueChar-is_invalid : (c : ℕ) → IsValueChar c → is_invalid c ≡ false
unfolding is_invalid
IsValueChar-is_invalid c h = ground (arith, h)

clean-All : (value : List ℕ) → any is_invalid value ≡ false → All IsValueChar value
unfolding any
clean-All [] h = tt
clean-All (c ∷ s) h = elim (Bool-cases (is_invalid c)) [
  | inl e ↦ absurd (ground (arith, e, h))
  | inr e ↦ (is_invalid-IsValueChar c e, clean-All s (ground (arith, e, h)))
]

All-clean : (value : List ℕ) → All IsValueChar value → any is_invalid value ≡ false
unfolding any
All-clean [] h = refl
All-clean (c ∷ s) h = ground (arith, IsValueChar-is_invalid c h.0, All-clean s h.1)

-- What may follow the first character of a name.
record IsRest (s : List ℕ) : Type 0 where
  rest : List ℕ
  end : List ℕ
  parts : s ≡ rest ++ end
  ended : (end ≡ []) ⊎ (end ≡ 10 ∷ [])
  token : All IsTokenChar rest

IsRest-step : (c : ℕ) (s : List ℕ) → IsTokenChar c → IsRest s → IsRest (c ∷ s)
IsRest-step c s t h = record {
  rest = c ∷ h.rest;
  end = h.end;
  parts = ap (λ u. c ∷ u) h.parts;
  ended = h.ended;
  token = (t, h.token);
}

name_rest-IsRest : (s : List ℕ) → name_rest s ≡ true → IsRest s
unfolding name_rest
name_rest-IsRest [] h = record { rest = []; end = []; parts = refl; ended = inl refl; token = tt }
name_rest-IsRest (c ∷ []) h = elim (Bool-cases (is_name_char c)) [
  | inl e ↦
      IsRest-step c [] (is_name_char-IsTokenChar c e)
        (record { rest = []; end = []; parts = refl; ended = inl refl; token = tt })
  | inr e ↦
      let line_feed : c ≡ 10 = ground (arith, e, h) in
      record {
        rest = [];
        end = c ∷ [];
        parts = refl;
        ended = inr (ap (λ d. d ∷ []) line_feed);
        token = tt;
      }
]
name_rest-IsRest (c ∷ d ∷ s) h = elim (Bool-cases (is_name_char c)) [
  | inl e ↦
      IsRest-step c (d ∷ s) (is_name_char-IsTokenChar c e)
        (name_rest-IsRest (d ∷ s) (ground (arith, e, h)))
  | inr e ↦ absurd (ground (arith, e, h))
]

rest_token : (rest : List ℕ) → All IsTokenChar rest → name_rest rest ≡ true
unfolding name_rest
rest_token [] h = refl
rest_token (c ∷ []) h = ground (arith, IsTokenChar-is_name_char c h.0)
rest_token (c ∷ d ∷ s) h = ground (arith, IsTokenChar-is_name_char c h.0, rest_token (d ∷ s) h.1)

rest_line_feed : (rest : List ℕ) → All IsTokenChar rest → name_rest (rest ++ (10 ∷ [])) ≡ true
unfolding name_rest
rest_line_feed [] h = ground arith
rest_line_feed (c ∷ []) h = ground (arith, IsTokenChar-is_name_char c h.0)
rest_line_feed (c ∷ d ∷ s) h =
    ground (arith, IsTokenChar-is_name_char c h.0, rest_line_feed (d ∷ s) h.1)

rest_ended :
    (rest end : List ℕ)
    → (end ≡ []) ⊎ (end ≡ 10 ∷ [])
    → All IsTokenChar rest
    → name_rest (rest ++ end) ≡ true
rest_ended rest end (inl e) h = rw (e, append-nil) (rest_token rest h)
rest_ended rest end (inr e) h = rw e (rest_line_feed rest h)

matches_name-IsName : (name : List ℕ) → matches_name name ≡ true → IsName name
matches_name-IsName [] h = cc
matches_name-IsName (c ∷ s) h = elim (Bool-cases (is_name_char c)) [
  | inl e ↦
      let r = name_rest-IsRest s (ground (arith, e, h)) in
      record {
        first = c;
        rest = r.rest;
        end = r.end;
        parts = ap (λ u. c ∷ u) r.parts;
        ended = r.ended;
        token = (is_name_char-IsTokenChar c e, r.token);
      }
  | inr e ↦ absurd (ground (arith, e, h))
]

IsName-matches_name : (name : List ℕ) → IsName name → matches_name name ≡ true
IsName-matches_name name h = rw h.parts (
    ground (
      arith,
      IsTokenChar-is_name_char h.first h.token.0,
      rest_ended h.rest h.end h.ended h.token.1,
    ))

append_nil : (a b : List Problem) → (a ++ b) ≡ [] → (a ≡ []) × (b ≡ [])
append_nil [] b h = (refl, h)
append_nil (p ∷ a) b h = cc

problem_if-nil : (b : Bool) (p : Problem) → problem_if b p ≡ [] → b ≡ false
problem_if-nil true p h = cc
problem_if-nil false p h = refl

name_problems-nil : (name : List ℕ) → name_problems name ≡ [] → matches_name name ≡ true
name_problems-nil [] h = cc
name_problems-nil (c ∷ s) h =
    not_false (matches_name (c ∷ s)) (problem_if-nil (not (matches_name (c ∷ s))) bad_name h)
  where
    not_false : (b : Bool) → not b ≡ false → b ≡ true
    not_false true h = refl
    not_false false h = sym h

value_problems-nil :
    (value : List ℕ)
    → value_problems value ≡ []
    → (1 ≤ length value) × (any is_invalid value ≡ false)
value_problems-nil [] h = cc
value_problems-nil (c ∷ s) h = (omega arith, problem_if-nil (any is_invalid (c ∷ s)) bad_value h)

name_problems_none : (name : List ℕ) → matches_name name ≡ true → name_problems name ≡ []
name_problems_none [] h = cc
name_problems_none (c ∷ s) h = ap (λ b. problem_if (not b) bad_name) h

value_problems_none :
    (value : List ℕ) → 1 ≤ length value → any is_invalid value ≡ false → value_problems value ≡ []
value_problems_none [] k h = absurd (not_below k)
  where
    not_below : 1 ≤ 0 → ⊥
    not_below k = omega (arith, k)
value_problems_none (c ∷ s) k h = ap (λ b. problem_if b bad_value) h

too_long : (m n : ℕ) → ltb m n ≡ false → n ≤ m
too_long m n h = ground arith

short_enough : (m n : ℕ) → n ≤ m → ltb m n ≡ false
short_enough m n h = ground arith

-- The checks of a header find nothing exactly when its name is one or more letters and digits of
-- ASCII and signs of a token, with a line feed after them at most, and has at most 120 characters,
-- and its value has between 1 and 1000 characters, each the tabulator or neither below 32 nor DEL.
pub validate_security_header_iff :
    (name value : List ℕ) → (validate_security_header name value ≡ []) ↔ IsAllowed name value
unfolding validate_security_header
validate_security_header_iff name value = (
  (λ h.
      let a = append_nil (name_problems name) _ h in
      let b = append_nil (value_problems value) _ a.1 in
      let c = append_nil (problem_if (ltb 120 (length name)) long_name) _ b.1 in
      let v = value_problems-nil value b.0 in
      record {
        name_form = matches_name-IsName name (name_problems-nil name a.0);
        name_short =
            too_long 120 (length name) (problem_if-nil (ltb 120 (length name)) long_name c.0);
        value_present = v.0;
        value_clean = clean-All value v.1;
        value_short =
            too_long 1000 (length value) (problem_if-nil (ltb 1000 (length value)) long_value c.1);
      }),
  λ k.
      rw
        (
          name_problems_none name (IsName-matches_name name k.name_form),
          value_problems_none value k.value_present (All-clean value k.value_clean),
          short_enough 120 (length name) k.name_short,
          short_enough 1000 (length value) k.value_short,
        )
        refl,
)
