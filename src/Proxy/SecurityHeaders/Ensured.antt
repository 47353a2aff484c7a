-- ===== src/Proxy/SecurityHeaders/Ensured.antt =====
-- The defaults are there once they are ensured.
use wardnode.Base.{
  ℕ, Bool, true, false, not, ◌&&◌, ◌||◌, ◌≡◌, refl, sym, ap, ◌∙◌, subst, List, [], ◌∷◌, ◌++◌, any,
  map, ◌⊎◌, All, All-map, Bool-cases, inl, inr, arith,
}
use wardnode.Text.{same, codes, to_lower}
use wardnode.Text.Laws.{same_refl, same_sound}
use wardnode.Proxy.SecurityHeaders.{
  Header, default_headers, lower, has_name, missing, refreshed, refresh_csp, csp_name, stale_values,
  insert_header, by_position, ensure_site_security_headers,
}

module _ (name : List ℕ) where
  has_name-append :
      (a b : List Header) → has_name name (a ++ b) ≡ (has_name name a || has_name name b)
  unfolding has_name any
  has_name-append [] b = refl
  has_name-append (h ∷ a) b = ground (arith, has_name-append a b)

  has_name-insert :
      (h : Header) (hs : List Header) → has_name name (insert_header h hs) ≡ has_name name (h ∷ hs)
  unfolding has_name any insert_header
  has_name-insert h [] = refl
  has_name-insert h (x ∷ xs) = ground (arith, has_name-insert h xs)

  has_name-sorted : (hs : List Header) → has_name name (by_position hs) ≡ has_name name hs
  unfolding has_name any by_position
  has_name-sorted [] = refl
  has_name-sorted (h ∷ hs) =
      has_name-insert h (by_position hs)
      ∙ ap (λ b. same (lower name) (lower h.name) || b) (has_name-sorted hs)

  refreshed-name : (h : Header) → (refreshed h).name ≡ h.name
  refreshed-name h = elim (Bool-cases (h.is_default && any (λ v. same v h.value) stale_values)) [
    | inl e ↦ rw e refl
    | inr e ↦ rw e refl
  ]

  has_name-refresh : (hs : List Header) → has_name name (refresh_csp hs) ≡ has_name name hs
  unfolding has_name any refresh_csp
  has_name-refresh [] = refl
  has_name-refresh (h ∷ hs) =
      elim (Bool-cases (same (lower csp_name) (lower h.name) && not (has_name csp_name hs))) [
        | inl e ↦
            rw e (ap (λ n. same (lower name) (lower n) || has_name name hs) (refreshed-name h))
        | inr e ↦ rw e (ap (λ b. same (lower name) (lower h.name) || b) (has_name-refresh hs))
      ]

  has_name-ensure :
      (is_console : Bool) (hs : List Header)
      → has_name name (ensure_site_security_headers is_console hs)
        ≡ (has_name name hs || has_name name (missing (default_headers is_console) hs))
  unfolding ensure_site_security_headers
  has_name-ensure true hs =
      has_name-sorted (refresh_csp hs ++ missing (default_headers true) hs)
      ∙ (has_name-append (refresh_csp hs) (missing (default_headers true) hs)
          ∙ ap (λ b. b || has_name name (missing (default_headers true) hs)) (has_name-refresh hs))
  has_name-ensure false hs =
      has_name-sorted (hs ++ missing (default_headers false) hs)
      ∙ has_name-append hs (missing (default_headers false) hs)

own_name : (d : Header) (rest : List Header) → has_name d.name (d ∷ rest) ≡ true
unfolding has_name any
own_name d rest = ground (arith, same_refl (lower d.name))

later_name :
    (x d : Header) (rest : List Header) (b : Bool)
    → (b || has_name x.name rest) ≡ true
    → (b || has_name x.name (d ∷ rest)) ≡ true
unfolding has_name any
later_name x d rest b h = ground (arith, h)

missing_skip :
    (d : Header) (ds hs : List Header)
    → has_name d.name hs ≡ true
    → missing (d ∷ ds) hs ≡ missing ds hs
unfolding missing
missing_skip d ds hs e = rw e refl

missing_take :
    (d : Header) (ds hs : List Header)
    → has_name d.name hs ≡ false
    → missing (d ∷ ds) hs ≡ d ∷ missing ds hs
unfolding missing
missing_take d ds hs e = rw e refl

-- Each of these headers is there, or in the list.
abbrev IsCovered : List Header → List Header → List Header → Type 0
IsCovered hs added ds = All (λ d. (has_name d.name hs || has_name d.name added) ≡ true) ds

or_left : (a b : Bool) → a ≡ true → (a || b) ≡ true
or_left a b h = ground (arith, h)

or_right : (a b : Bool) → b ≡ true → (a || b) ≡ true
or_right a b h = ground (arith, h)

missing_all : (ds hs : List Header) → IsCovered hs (missing ds hs) ds
missing_all [] hs = tt
missing_all (d ∷ ds) hs = elim (Bool-cases (has_name d.name hs)) [
  | inl e ↦
      subst (λ m. IsCovered hs m (d ∷ ds)) (sym (missing_skip d ds hs e))
        (or_left (has_name d.name hs) (has_name d.name (missing ds hs)) e, missing_all ds hs)
  | inr e ↦
      subst (λ m. IsCovered hs m (d ∷ ds)) (sym (missing_take d ds hs e))
        (
          or_right (has_name d.name hs) (has_name d.name (d ∷ missing ds hs))
              (own_name d (missing ds hs)),
          All-map (λ x. (has_name x.name hs || has_name x.name (missing ds hs)) ≡ true)
              (λ x. (has_name x.name hs || has_name x.name (d ∷ missing ds hs)) ≡ true)
              (λ x. later_name x d (missing ds hs) (has_name x.name hs)) ds (missing_all ds hs),
        )
]

-- A header has the name, in any case.
abbrev pub HasName : List ℕ → List Header → Type 0
HasName name [] = ⊥
HasName name (h ∷ hs) = (map to_lower name ≡ map to_lower h.name) ⊎ HasName name hs

has_name-HasName : (name : List ℕ) (hs : List Header) → has_name name hs ≡ true → HasName name hs
unfolding has_name any
has_name-HasName name [] h = cc
has_name-HasName name (x ∷ hs) h = elim (Bool-cases (same (lower name) (lower x.name))) [
  | inl e ↦ inl (same_sound (lower name) (lower x.name) e)
  | inr e ↦ inr (has_name-HasName name hs (ground (arith, e, h)))
]

HasName-has_name : (name : List ℕ) (hs : List Header) → HasName name hs → has_name name hs ≡ true
unfolding has_name any
HasName-has_name name [] h = absurd h
HasName-has_name name (x ∷ hs) (inl e) =
    let found : same (lower name) (lower x.name) ≡ true =
      subst (λ n. same (lower name) n ≡ true) e (same_refl (lower name)) in
    ground (arith, found)
HasName-has_name name (x ∷ hs) (inr m) = ground (arith, HasName-has_name name hs m)

-- Once the defaults are ensured there is a header of each of the seven names, in any case, and a
-- name that was there is there still.
pub ensure_site_security_headers_complete :
    (is_console : Bool) (hs : List Header)
    → All
        (λ n. HasName (codes n) (ensure_site_security_headers is_console hs))
        ("X-Content-Type-Options" ∷ "X-Frame-Options" ∷ "Referrer-Policy" ∷ "Permissions-Policy"
          ∷ "X-XSS-Protection" ∷ "Strict-Transport-Security" ∷ "Content-Security-Policy" ∷ [])
      × ((name : List ℕ)
          → HasName name hs
          → HasName name (ensure_site_security_headers is_console hs))
ensure_site_security_headers_complete is_console hs = (
  All-map
      (λ d.
        (has_name d.name hs || has_name d.name (missing (default_headers is_console) hs)) ≡ true)
      (λ d. HasName d.name (ensure_site_security_headers is_console hs))
      (λ d h.
        has_name-HasName d.name (ensure_site_security_headers is_console hs)
          (has_name-ensure d.name is_console hs ∙ h))
      (default_headers is_console) (missing_all (default_headers is_console) hs),
  λ name h.
      has_name-HasName name (ensure_site_security_headers is_console hs)
        (ground (arith, has_name-ensure name is_console hs, HasName-has_name name hs h)),
)
