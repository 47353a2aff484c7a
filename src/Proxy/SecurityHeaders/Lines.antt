-- ===== src/Proxy/SecurityHeaders/Lines.antt =====
-- Which lines are written for the headers of a site.
use wardnode.Base.{
  ℕ, ◌+◌, String, Bool, true, false, not, ◌&&◌, ◌≡◌, refl, sym, ap, ◌∙◌, Option, none, some, List,
  [], ◌∷◌, ◌++◌, any, ◌==◌, eq_iff, if◌then◌else◌, All, All-append, Bool-cases, inl, inr, arith,
}
use wardnode.Text.{same, codes, to_lower}
use wardnode.Proxy.SecurityHeaders.{Header, lower}
use wardnode.Proxy.SecurityHeaders.Render.{
  hsts_values, hsts_value, Line, hide, add, is_written, is_dedup, hide_lines, add_lines, mode_hide,
  mode_add, header_lines,
}

-- Which headers a line hides.
abbrev pub IsHidden : Line → Type 0
IsHidden (hide name) = is_dedup name ≡ true
IsHidden (add name value always) = Unit

and_second : (a b : Bool) → (a && b) ≡ true → b ≡ true
and_second a b h = ground (arith, h)

hide_lines-IsHidden : (mode : String) (hs : List Header) → All IsHidden (hide_lines mode hs)
unfolding hide_lines
hide_lines-IsHidden mode [] = tt
hide_lines-IsHidden mode (h ∷ hs) = elim (Bool-cases (is_written mode h && is_dedup h.name)) [
  | inl e ↦ rw e (and_second (is_written mode h) (is_dedup h.name) e, hide_lines-IsHidden mode hs)
  | inr e ↦ rw e (hide_lines-IsHidden mode hs)
]

add_lines-IsHidden : (mode : String) (hs : List Header) → All IsHidden (add_lines mode hs)
unfolding add_lines
add_lines-IsHidden mode [] = tt
add_lines-IsHidden mode (h ∷ hs) = elim (Bool-cases (is_written mode h)) [
  | inl e ↦ rw e (tt, add_lines-IsHidden mode hs)
  | inr e ↦ rw e (add_lines-IsHidden mode hs)
]

mode_hide-IsHidden : (o : Option String) → All IsHidden (mode_hide o)
unfolding any same to_lower
mode_hide-IsHidden none = tt
mode_hide-IsHidden (some v) = (refl, tt)

mode_add-IsHidden : (o : Option String) → All IsHidden (mode_add o)
mode_add-IsHidden none = tt
mode_add-IsHidden (some v) = (tt, tt)

-- Whatever headers a site has, only headers of the list of known security headers are hidden from
-- what the upstream sends.
pub header_lines-IsHidden : (mode : String) (hs : List Header) → All IsHidden (header_lines mode hs)
unfolding header_lines
header_lines-IsHidden mode hs =
    let o = hsts_value hsts_values mode in
    All-append IsHidden (mode_hide o ++ hide_lines mode hs) (mode_add o ++ add_lines mode hs)
      (All-append IsHidden (mode_hide o) (hide_lines mode hs) (mode_hide-IsHidden o)
        (hide_lines-IsHidden mode hs))
      (All-append IsHidden (mode_add o) (add_lines mode hs) (mode_add-IsHidden o)
        (add_lines-IsHidden mode hs))

-- The lines that add the header of strict transport security.
abbrev pub adds_hsts : Line → Bool
adds_hsts (hide name) = false
adds_hsts (add name value always) = same (codes "strict-transport-security") (lower name)

unfoldable pub hsts_count : List Line → ℕ
hsts_count [] = 0
hsts_count (l ∷ ls) = let rest = hsts_count ls in if adds_hsts l then 1 + rest else rest

hsts_count-append : (a b : List Line) → hsts_count (a ++ b) ≡ hsts_count a + hsts_count b
unfolding hsts_count
hsts_count-append [] b = omega arith
hsts_count-append (l ∷ a) b = ground (arith, hsts_count-append a b)

hsts_count-hide : (mode : String) (hs : List Header) → hsts_count (hide_lines mode hs) ≡ 0
unfolding hsts_count hide_lines
hsts_count-hide mode [] = refl
hsts_count-hide mode (h ∷ hs) = elim (Bool-cases (is_written mode h && is_dedup h.name)) [
  | inl e ↦ rw e (hsts_count-hide mode hs)
  | inr e ↦ rw e (hsts_count-hide mode hs)
]

written_other :
    (enabled hsts off : Bool)
    → off ≡ false
    → (enabled && not (hsts && not off)) ≡ true
    → hsts ≡ false
written_other enabled hsts off q e = ground (arith, q, e)

hsts_count-add :
    (mode : String) (hs : List Header)
    → (mode == "off") ≡ false
    → hsts_count (add_lines mode hs) ≡ 0
unfolding hsts_count add_lines
hsts_count-add mode [] q = refl
hsts_count-add mode (h ∷ hs) q = elim (Bool-cases (is_written mode h)) [
  | inl e ↦
      let other =
        written_other h.enabled (same (codes "strict-transport-security") (lower h.name))
          (mode == "off") q e in
      rw (e, hsts_count, other) (hsts_count-add mode hs q)
  | inr e ↦ rw e (hsts_count-add mode hs q)
]

mode_once :
    (o : Option String) (v : String)
    → o ≡ some v
    → (hsts_count (mode_hide o) ≡ 0) × (hsts_count (mode_add o) ≡ 1)
unfolding hsts_count same to_lower
mode_once none v h = absurd (none_some h)
  where
    none_some : none ≡ some v → ⊥
    none_some h = cc
mode_once (some w) v h = (refl, refl)

hsts_value-off : (mode v : String) → hsts_value hsts_values mode ≡ some v → (mode == "off") ≡ false
unfolding hsts_value
hsts_value-off mode v h = elim (Bool-cases (mode == "off")) [
  | inl e ↦ absurd (none_some (ap (hsts_value hsts_values) (sym ((eq_iff mode "off").0 e)) ∙ h))
  | inr e ↦ e
]
  where
    none_some : none ≡ some v → ⊥
    none_some h = cc

-- A site whose mode sets strict transport security sends that header once, whatever its table of
-- headers holds: the line of the mode is the only one that adds it.
pub header_lines_once :
    (mode v : String) (hs : List Header)
    → hsts_value hsts_values mode ≡ some v
    → hsts_count (header_lines mode hs) ≡ 1
unfolding header_lines
header_lines_once mode v hs h =
    let o = hsts_value hsts_values mode in
    let once = mode_once o v h in
    omega (
      arith,
      once.0,
      once.1,
      hsts_count-append (mode_hide o ++ hide_lines mode hs) (mode_add o ++ add_lines mode hs),
      hsts_count-append (mode_hide o) (hide_lines mode hs),
      hsts_count-append (mode_add o) (add_lines mode hs),
      hsts_count-hide mode hs,
      hsts_count-add mode hs (hsts_value-off mode v h),
    )
