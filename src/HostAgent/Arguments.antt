-- ===== src/HostAgent/Arguments.antt =====
-- Equality of arguments and of rules as they are written.
use wardnode.Base.{Bool, true, false, ◌&&◌, ◌≡◌, refl, List, [], ◌∷◌, arith}
use wardnode.Text.{same}
use wardnode.Text.Laws.{same_refl, same_sound}
use wardnode.HostAgent.{Arg}

unfoldable pub same_rule : List Arg → List Arg → Bool
same_rule [] [] = true
same_rule [] (b ∷ s) = false
same_rule (a ∷ r) [] = false
same_rule (a ∷ r) (b ∷ s) = same a b && same_rule r s

pub same_rule_refl : (r : List Arg) → same_rule r r ≡ true
unfolding same_rule
same_rule_refl [] = refl
same_rule_refl (a ∷ r) = ground (arith, same_refl a, same_rule_refl r)

pub same_rule_sound : (r s : List Arg) → same_rule r s ≡ true → r ≡ s
unfolding same_rule
same_rule_sound [] [] h = refl
same_rule_sound [] (b ∷ s) h = ground (arith, h)
same_rule_sound (a ∷ r) [] h = ground (arith, h)
same_rule_sound (a ∷ r) (b ∷ s) h = ground (arith, h, same_sound a b, same_rule_sound r s)
