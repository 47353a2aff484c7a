-- ===== src/Text/Laws.antt =====
-- Facts about `strip` and the equality of texts.
use wardnode.Base.{ℕ, true, ◌≡◌, refl, List, [], ◌∷◌, arith}
use wardnode.Text.{strip, same}

pub strip-empty : strip "" ≡ ""
unfolding strip
strip-empty = refl

pub same_sound : (s t : List ℕ) → same s t ≡ true → s ≡ t
unfolding same
same_sound [] [] h = refl
same_sound [] (d ∷ t) h = ground (arith, h)
same_sound (c ∷ s) [] h = ground (arith, h)
same_sound (c ∷ s) (d ∷ t) h = ground (arith, h, same_sound s t)

pub same_refl : (s : List ℕ) → same s s ≡ true
unfolding same
same_refl [] = refl
same_refl (c ∷ s) = ground (arith, same_refl s)
