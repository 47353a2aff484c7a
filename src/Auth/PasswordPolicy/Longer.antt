-- ===== src/Auth/PasswordPolicy/Longer.antt =====
-- What makes a password valid, and that more characters never harm it.
use wardnode.Base.{
  ℕ, ◌≤◌, ◌<◌, ◌≡◌, ◌⊎◌, ◌↔◌, inl, inr, Bool, true, List, [], ◌∷◌, any, length, Bool-cases, arith,
}
use wardnode.Text.{is_digit, is_upper, is_lower}
use wardnode.Auth.PasswordPolicy.{failed, is_symbol, password_errors, is_valid_password}

-- A character of the text has the property.
abbrev pub HasChar : (ℕ → Type 0) → List ℕ → Type 0
HasChar P [] = ⊥
HasChar P (c ∷ s) = P c ⊎ HasChar P s

abbrev pub IsCapital : ℕ → Type 0
IsCapital c = (65 ≤ c) × (c ≤ 90)

abbrev pub IsSmall : ℕ → Type 0
IsSmall c = (97 ≤ c) × (c ≤ 122)

-- Neither a letter nor a digit of ASCII.
abbrev pub IsSign : ℕ → Type 0
IsSign c = (c < 48) ⊎ (((57 < c) × (c < 65)) ⊎ (((90 < c) × (c < 97)) ⊎ (122 < c)))

any-HasChar :
    (t : ℕ → Bool) (P : ℕ → Type 0)
    → ((c : ℕ) → t c ≡ true → P c)
    → (p : List ℕ) → any t p ≡ true
    → HasChar P p
unfolding any
any-HasChar t P f [] h = cc
any-HasChar t P f (c ∷ p) h = elim (Bool-cases (t c)) [
  | inl e ↦ inl (f c e)
  | inr e ↦ inr (any-HasChar t P f p (ground (arith, e, h)))
]

HasChar-any :
    (t : ℕ → Bool) (P : ℕ → Type 0)
    → ((c : ℕ) → P c → t c ≡ true)
    → (p : List ℕ) → HasChar P p
    → any t p ≡ true
unfolding any
HasChar-any t P f [] h = absurd h
HasChar-any t P f (c ∷ p) (inl k) = ground (arith, f c k)
HasChar-any t P f (c ∷ p) (inr m) = ground (arith, HasChar-any t P f p m)

capital : (c : ℕ) → is_upper c ≡ true → IsCapital c
unfolding is_upper
capital c h = ground (arith, h)

is_capital : (c : ℕ) → IsCapital c → is_upper c ≡ true
unfolding is_upper
is_capital c h = ground (arith, h)

small : (c : ℕ) → is_lower c ≡ true → IsSmall c
unfolding is_lower
small c h = ground (arith, h)

is_small : (c : ℕ) → IsSmall c → is_lower c ≡ true
unfolding is_lower
is_small c h = ground (arith, h)

sign : (c : ℕ) → is_symbol c ≡ true → IsSign c
unfolding is_upper is_lower is_digit
sign c h = ground (arith, h)

is_sign : (c : ℕ) → IsSign c → is_symbol c ≡ true
unfolding is_upper is_lower is_digit
is_sign c h = ground (arith, h)

module _ (decimal : ℕ → Bool) where
  -- Each requirement as its test has it.
  record PassesAll (p : List ℕ) : Type 0 where
    long : 12 ≤ length p
    upper : any is_upper p ≡ true
    lower : any is_lower p ≡ true
    digit : any decimal p ≡ true
    symbol : any is_symbol p ≡ true

  is_valid_password_sound : (p : List ℕ) → is_valid_password decimal p ≡ true → PassesAll p
  unfolding is_valid_password password_errors failed
  is_valid_password_sound p h = record {
    long = ground (arith, h);
    upper = ground (arith, h);
    lower = ground (arith, h);
    digit = ground (arith, h);
    symbol = ground (arith, h);
  }

  is_valid_password_complete : (p : List ℕ) → PassesAll p → is_valid_password decimal p ≡ true
  unfolding is_valid_password password_errors failed
  is_valid_password_complete p h = ground (arith, h.long, h.upper, h.lower, h.digit, h.symbol)

  -- At least twelve characters, and one of each kind.
  pub record IsStrong (p : List ℕ) : Type 0 where
    pub long : 12 ≤ length p
    pub capital_letter : HasChar IsCapital p
    pub small_letter : HasChar IsSmall p
    pub digit : HasChar (λ c. decimal c ≡ true) p
    pub symbol : HasChar IsSign p

  -- A password is valid exactly if it has at least 12 characters and among them a capital letter and
  -- a small letter of ASCII, a character that `\d` takes, and one that is neither a letter nor a digit
  -- of ASCII.
  pub is_valid_password_iff : (p : List ℕ) → (is_valid_password decimal p ≡ true) ↔ IsStrong p
  is_valid_password_iff p = (
    (λ h.
        let k = is_valid_password_sound p h in
        record {
          long = k.long;
          capital_letter = any-HasChar is_upper IsCapital capital p k.upper;
          small_letter = any-HasChar is_lower IsSmall small p k.lower;
          digit = any-HasChar decimal (λ c. decimal c ≡ true) (λ c e. e) p k.digit;
          symbol = any-HasChar is_symbol IsSign sign p k.symbol;
        }),
    λ k. is_valid_password_complete p (record {
      long = k.long;
      upper = HasChar-any is_upper IsCapital is_capital p k.capital_letter;
      lower = HasChar-any is_lower IsSmall is_small p k.small_letter;
      digit = HasChar-any decimal (λ c. decimal c ≡ true) (λ c e. e) p k.digit;
      symbol = HasChar-any is_symbol IsSign is_sign p k.symbol;
    }),
  )
