-- ===== src/Auth/PasswordPolicy/Tests.antt =====
-- Passwords of samples, and the theorems at those inputs.
use wardnode.Base.{◌||◌, ◌=?◌, ◌++◌, ◌≡◌, ◌↔◌, refl, true, [], ◌∷◌, any}
use wardnode.Text.{codes, is_digit, is_upper, is_lower}
use wardnode.Auth.PasswordPolicy.{failed, password_errors, is_valid_password}
use wardnode.Auth.PasswordPolicy.Longer.{IsStrong, is_valid_password_iff}

two_missing : password_errors is_digit (codes "password1234") ≡ "upper" ∷ "symbol" ∷ []
unfolding password_errors failed is_digit is_upper is_lower any
two_missing = refl

-- A digit of another script serves where `\d` takes it, and is a symbol besides.
arabic :
    is_valid_password (λ c. is_digit c || c =? 0x0663) (codes "Password-abc" ++ (0x0663 ∷ []))
    ≡ true
unfolding is_valid_password password_errors failed is_digit is_upper is_lower any
arabic = refl

is_valid_password_iff_example :
    (is_valid_password is_digit (codes "Passw0rd-123") ≡ true)
    ↔ IsStrong is_digit (codes "Passw0rd-123")
is_valid_password_iff_example = is_valid_password_iff is_digit (codes "Passw0rd-123")
