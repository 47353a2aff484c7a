-- ===== src/Proxy/CustomRules/Shown.antt =====
-- What the two regular expressions look for, told by the parts of the text.
pub mod Ctl
pub mod Label
pub mod Numeral
pub mod Id
use wardnode.Base.{
  ℕ, ◌+◌, ◌-◌, ◌*◌, ◌≤◌, ◌<◌, Bool, true, false, ◌≡◌, ◌≢◌, ◌⊎◌, inl, inr, refl, sym, ap, ◌∙◌, subst,
  Option, none, some, List, [], ◌∷◌, ◌++◌, ◌=?◌, All, Bool-cases, Option-cases, arith,
}
use wardnode.Text.{codes, trim_left, is_space, is_digit, is_upper, to_lower}
use wardnode.Proxy.CustomRules.{
  is_word, after_word, after_colon, found_at, has_ctl, digits_value, number_at, without_quote,
  id_at, rule_id,
}

-- Neither a letter nor a digit of ASCII nor an underscore.
abbrev pub IsOther : ℕ → Type 0
IsOther c = (c ≢ 95) × ((c < 48) ⊎ (57 < c)) × ((c < 65) ⊎ (90 < c)) × ((c < 97) ⊎ (122 < c))

-- A word can begin after this text.
abbrev pub IsOpen : List ℕ → Type 0
IsOpen [] = Unit
IsOpen (c ∷ []) = IsOther c
IsOpen (c ∷ d ∷ s) = IsOpen (d ∷ s)

abbrev pub AreBlank : List ℕ → Type 0
AreBlank s = All (λ c. is_space c ≡ true) s

-- The text has no `ctl`, in small letters, with a colon after it but for white space, unless in the
-- middle of a word.
abbrev pub HasNoCtl : List ℕ → Type 0
HasNoCtl s =
    (before spaces after : List ℕ)
    → s ≡ before ++ (codes "ctl" ++ (spaces ++ (b':' ∷ after)))
    → IsOpen before
    → AreBlank spaces
    → ⊥

abbrev pub value : ℕ → List ℕ → ℕ
value n [] = n
value n (c ∷ s) = value (n * 10 + (c - 48)) s

abbrev pub AreDigits : List ℕ → Type 0
AreDigits s = All (λ c. (48 ≤ c) × (c ≤ 57)) s

-- Nothing, or a text that does not begin with a digit.
abbrev pub IsEnded : List ℕ → Type 0
IsEnded [] = Unit
IsEnded (c ∷ s) = (c < 48) ⊎ (57 < c)

-- Somewhere the text has `id` in any case as the end of a word that it begins, a colon, perhaps a
-- single quote, and the digits of the number, with white space between.
pub record IsShown (s : List ℕ) (n : ℕ) : Type 0 where
  pub before : List ℕ
  pub i : ℕ
  pub d : ℕ
  pub spaces : List ℕ
  pub more_spaces : List ℕ
  pub quote : List ℕ
  pub first : ℕ
  pub digits : List ℕ
  pub rest : List ℕ
  pub parts :
      s
      ≡ before
        ++ (i ∷ d ∷ (spaces ++ (b':' ∷ (more_spaces ++ (quote ++ (first ∷ (digits ++ rest)))))))
  pub open_before : IsOpen before
  pub letters : ((i ≡ b'i') ⊎ (i ≡ b'I')) × ((d ≡ b'd') ⊎ (d ≡ b'D'))
  pub blank : AreBlank spaces × AreBlank more_spaces
  pub quoted : (quote ≡ []) ⊎ (quote ≡ b'\'' ∷ [])
  pub numeral : AreDigits (first ∷ digits)
  pub number : value 0 (first ∷ digits) ≡ n
  pub ended : IsEnded rest

-- The same with what stands before the text: whether a word character does.
abbrev pub OpenFrom : Bool → List ℕ → Type 0
OpenFrom after [] = after ≡ false
OpenFrom after (c ∷ s) = OpenFrom (is_word c) s

is_word-IsOther : (c : ℕ) → is_word c ≡ false → IsOther c
unfolding is_digit
is_word-IsOther c h = ground (arith, h)

IsOther-is_word : (c : ℕ) → IsOther c → is_word c ≡ false
unfolding is_digit
IsOther-is_word c h = ground (arith, h)

pub OpenFrom-IsOpen : (b : Bool) (s : List ℕ) → OpenFrom b s → IsOpen s
OpenFrom-IsOpen b [] h = tt
OpenFrom-IsOpen b (c ∷ []) h = is_word-IsOther c h
OpenFrom-IsOpen b (c ∷ d ∷ s) h = OpenFrom-IsOpen (is_word c) (d ∷ s) h

pub IsOpen-OpenFrom : (s : List ℕ) → IsOpen s → OpenFrom false s
IsOpen-OpenFrom [] h = refl
IsOpen-OpenFrom (c ∷ []) h = IsOther-is_word c h
IsOpen-OpenFrom (c ∷ d ∷ s) h = IsOpen-OpenFrom (d ∷ s) h
