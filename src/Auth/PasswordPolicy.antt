-- ===== src/Auth/PasswordPolicy.antt =====
-- app/auth/password_policy.py, on the code points of a password. Which characters `\d` takes is a
-- parameter: in Python they are the decimal digits of every script.
pub mod Longer
mod Tests
use wardnode.Base.{
  ℕ, String, Bool, true, false, not, ◌||◌, List, [], ◌∷◌, ◌++◌, any, length, leb, if◌then◌else◌,
}
use wardnode.Text.{is_digit, is_upper, is_lower}

-- `MIN_LENGTH`
abbrev pub min_length : ℕ
min_length = 12

abbrev pub is_symbol : ℕ → Bool
is_symbol c = not (is_upper c || is_lower c || is_digit c)

unfoldable pub failed : List (String × (List ℕ → Bool)) → List ℕ → List String
failed [] p = []
failed ((id, test) ∷ rest) p = let later = failed rest p in if test p then later else id ∷ later

abbrev pub is_empty : List String → Bool
is_empty [] = true
is_empty (e ∷ es) = false

module _ (decimal : ℕ → Bool) where
  -- `REQUIREMENTS`: the identifiers and their tests
  abbrev pub requirements : List (String × (List ℕ → Bool))
  requirements =
      ("length", λ p. leb min_length (length p))
      ∷ ("upper", λ p. any is_upper p)
      ∷ ("lower", λ p. any is_lower p)
      ∷ ("digit", λ p. any decimal p)
      ∷ ("symbol", λ p. any is_symbol p)
      ∷ []

  -- `password_errors`, with the identifiers in place of the labels
  unfoldable pub password_errors : List ℕ → List String
  unfolding failed is_upper is_lower is_digit
  password_errors p = failed requirements p

  -- `is_valid_password`
  unfoldable pub is_valid_password : List ℕ → Bool
  unfolding password_errors
  is_valid_password p = is_empty (password_errors p)
