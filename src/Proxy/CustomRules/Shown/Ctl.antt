-- ===== src/Proxy/CustomRules/Shown/Ctl.antt =====
-- The search for `ctl:` finds what there is.
use wardnode.Base.{
  ℕ, Bool, true, false, ◌≡◌, inl, inr, refl, sym, ap, subst, some, List, [], ◌∷◌, ◌++◌,
  Option-cases,
}
use wardnode.Text.{codes, trim_left, is_space, is_upper, to_lower}
use wardnode.Proxy.CustomRules.{is_word, after_word, found_at, has_ctl}
use wardnode.Proxy.CustomRules.Shown.{AreBlank, HasNoCtl, OpenFrom, IsOpen-OpenFrom}

colon_blank : is_space b':' ≡ false
unfolding is_space
colon_blank = refl

trim_left-blank :
    (spaces after : List ℕ) → AreBlank spaces → trim_left (spaces ++ (b':' ∷ after)) ≡ b':' ∷ after
unfolding trim_left
trim_left-blank [] after h = rw colon_blank refl
trim_left-blank (c ∷ spaces) after h = rw (h.0) (trim_left-blank spaces after h.1)

found_at-ctl :
    (spaces after : List ℕ)
    → AreBlank spaces
    → found_at (codes "ctl") false (codes "ctl" ++ (spaces ++ (b':' ∷ after))) ≡ some after
unfolding found_at after_word to_lower is_upper
found_at-ctl spaces after h = rw (trim_left-blank spaces after h) refl

has_ctl_here :
    (after : Bool) (c : ℕ) (s t : List ℕ)
    → found_at (codes "ctl") after (c ∷ s) ≡ some t
    → has_ctl after (c ∷ s) ≡ true
unfolding has_ctl
has_ctl_here after c s t e = rw (has_ctl, e) refl

has_ctl_later :
    (after : Bool) (c : ℕ) (s : List ℕ)
    → has_ctl (is_word c) s ≡ true
    → has_ctl after (c ∷ s) ≡ true
unfolding has_ctl
has_ctl_later after c s h = elim (Option-cases (found_at (codes "ctl") after (c ∷ s))) [
  | inl e ↦ rw (has_ctl, e) h
  | inr (t, e) ↦ has_ctl_here after c s t e
]

has_ctl-found :
    (after : Bool) (before spaces rest : List ℕ)
    → OpenFrom after before
    → AreBlank spaces
    → has_ctl after (before ++ (codes "ctl" ++ (spaces ++ (b':' ∷ rest)))) ≡ true
has_ctl-found after [] spaces rest h k =
    subst (λ b. has_ctl b (codes "ctl" ++ (spaces ++ (b':' ∷ rest))) ≡ true) (sym h)
      (has_ctl_here false b'c' (codes "tl" ++ (spaces ++ (b':' ∷ rest))) rest
        (found_at-ctl spaces rest k))
has_ctl-found after (c ∷ before) spaces rest h k =
    has_ctl_later after c (before ++ (codes "ctl" ++ (spaces ++ (b':' ∷ rest))))
      (has_ctl-found (is_word c) before spaces rest h k)

pub has_ctl-HasNoCtl : (s : List ℕ) → has_ctl false s ≡ false → HasNoCtl s
has_ctl-HasNoCtl s h before spaces after parts open_before blank =
    let found =
      has_ctl-found false before spaces after (IsOpen-OpenFrom before open_before) blank in
    cc (h, found, ap (has_ctl false) parts)
