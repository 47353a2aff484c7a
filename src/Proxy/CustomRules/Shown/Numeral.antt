-- ===== src/Proxy/CustomRules/Shown/Numeral.antt =====
-- The number that follows a colon.
use wardnode.Base.{
  ℕ, ◌+◌, ◌-◌, ◌*◌, ◌≤◌, ◌<◌, true, false, ◌≡◌, ◌⊎◌, inl, inr, refl, sym, ap, ◌∙◌, none, some, List,
  [], ◌∷◌, ◌++◌, ◌=?◌, Bool-cases, arith,
}
use wardnode.Text.{trim_left, is_digit}
use wardnode.Proxy.CustomRules.{digits_value, number_at, without_quote, id_at}
use wardnode.Proxy.CustomRules.Shown.{AreBlank, value, AreDigits, IsEnded}
use wardnode.Proxy.CustomRules.Shown.Label.{trim_left-parts, numbers_injective}

-- A run of digits with its value.
record IsRun (n : ℕ) (s : List ℕ) : Type 0 where
  digits : List ℕ
  rest : List ℕ
  parts : s ≡ digits ++ rest
  numeral : AreDigits digits
  number : value n digits ≡ digits_value n s
  ended : IsEnded rest

digit_bounds : (c : ℕ) → is_digit c ≡ true → (48 ≤ c) × (c ≤ 57)
unfolding is_digit
digit_bounds c h = ground (arith, h)

other_bounds : (c : ℕ) → is_digit c ≡ false → (c < 48) ⊎ (57 < c)
unfolding is_digit
other_bounds c h = ground (arith, h)

digits_value-IsRun : (n : ℕ) (s : List ℕ) → IsRun n s
unfolding digits_value
digits_value-IsRun n [] = record {
  digits = [];
  rest = [];
  parts = refl;
  numeral = tt;
  number = refl;
  ended = tt;
}
digits_value-IsRun n (c ∷ s) = elim (Bool-cases (is_digit c)) [
  | inl e ↦
      let r = digits_value-IsRun (n * 10 + (c - 48)) s in
      record {
        digits = c ∷ r.digits;
        rest = r.rest;
        parts = ap (λ u. c ∷ u) r.parts;
        numeral = (digit_bounds c e, r.numeral);
        number = rw e r.number;
        ended = r.ended;
      }
  | inr e ↦ record {
    digits = [];
    rest = c ∷ s;
    parts = refl;
    numeral = tt;
    number = rw e refl;
    ended = other_bounds c e;
  }
]

-- What follows the colon.
pub record IsNumbered (t : List ℕ) (n : ℕ) : Type 0 where
  pub spaces : List ℕ
  pub quote : List ℕ
  pub first : ℕ
  pub digits : List ℕ
  pub rest : List ℕ
  pub parts : t ≡ spaces ++ (quote ++ (first ∷ (digits ++ rest)))
  pub blank : AreBlank spaces
  pub quoted : (quote ≡ []) ⊎ (quote ≡ b'\'' ∷ [])
  pub numeral : AreDigits (first ∷ digits)
  pub number : value 0 (first ∷ digits) ≡ n
  pub ended : IsEnded rest

without_quote-parts :
    (s : List ℕ)
    → (quote : List ℕ) × (s ≡ quote ++ without_quote s) × ((quote ≡ []) ⊎ (quote ≡ b'\'' ∷ []))
without_quote-parts [] = ([], refl, inl refl)
without_quote-parts (c ∷ s) = elim (Bool-cases (c =? b'\'')) [
  | inl e ↦
      let quote : c ≡ b'\'' = ground (arith, e) in rw e (c ∷ [], refl, inr (ap (λ d. d ∷ []) quote))
  | inr e ↦ rw e ([], refl, inl refl)
]

number_at-first :
    (s : List ℕ) (n : ℕ)
    → number_at s ≡ some n
    → (c : ℕ) × (u : List ℕ) × (s ≡ c ∷ u) × (is_digit c ≡ true) × (digits_value 0 s ≡ n)
number_at-first [] n h = cc
number_at-first (c ∷ s) n h = elim (Bool-cases (is_digit c)) [
  | inl e ↦ (c, s, refl, e, numbers_injective (rw e at h))
  | inr e ↦ absurd (no_number (rw e at h))
]
  where
    no_number : none ≡ some n → ⊥
    no_number h = cc

step_value :
    (c : ℕ) (u : List ℕ)
    → is_digit c ≡ true
    → digits_value 0 (c ∷ u) ≡ digits_value (0 * 10 + (c - 48)) u
unfolding digits_value
step_value c u e = rw e refl

pub id_at-IsNumbered : (t : List ℕ) (n : ℕ) → id_at (some t) ≡ some n → IsNumbered t n
id_at-IsNumbered t n h =
    let b = trim_left-parts t in
    let q = without_quote-parts (trim_left t) in
    let f = number_at-first (without_quote (trim_left t)) n h in
    let r = digits_value-IsRun (0 * 10 + (f.0 - 48)) f.1 in
    record {
      spaces = b.0;
      quote = q.0;
      first = f.0;
      digits = r.digits;
      rest = r.rest;
      parts =
          b.1
          ∙ (ap (λ x. b.0 ++ x) q.1
              ∙ (ap (λ x. b.0 ++ (q.0 ++ x)) f.2 ∙ ap (λ x. b.0 ++ (q.0 ++ (f.0 ∷ x))) r.parts));
      blank = b.2;
      quoted = q.2;
      numeral = (digit_bounds f.0 f.3, r.numeral);
      number = r.number ∙ (sym (step_value f.0 f.1 f.3) ∙ (ap (digits_value 0) (sym f.2) ∙ f.4));
      ended = r.ended;
    }
