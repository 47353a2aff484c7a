-- ===== src/HostAgent/Chain/Counts.antt =====
-- How often a test holds in a list, and the list without what passes it.
use wardnode.Base.{
  ℕ, suc, ◌-◌, ◌≤◌, Bool, true, false, not, ◌≡◌, refl, ap, List, [], ◌∷◌, any, keep, if◌then◌else◌,
  Bool-cases, inl, inr, arith,
}

module _ {A : Type 0} where
  unfoldable pub count : (A → Bool) → List A → ℕ
  count t [] = 0
  count t (x ∷ xs) = let rest = count t xs in if t x then suc rest else rest

  abbrev pub without : (A → Bool) → List A → List A
  without t xs = keep (λ x. not (t x)) xs

  -- Without the first that passes the test.
  unfoldable pub remove : (A → Bool) → List A → List A
  remove t [] = []
  remove t (x ∷ xs) = let rest = remove t xs in if t x then xs else x ∷ rest

  module _ (t : A → Bool) where
    pub count-remove : (xs : List A) → count t (remove t xs) ≡ count t xs - 1
    unfolding count remove
    count-remove [] = refl
    count-remove (x ∷ xs) = elim (Bool-cases (t x)) [
      | inl e ↦ rw e (omega arith)
      | inr e ↦ rw (e, count, e) (count-remove xs)
    ]

    pub without-remove : (xs : List A) → without t (remove t xs) ≡ without t xs
    unfolding remove keep
    without-remove [] = refl
    without-remove (x ∷ xs) = elim (Bool-cases (t x)) [
      | inl e ↦ rw (e) refl
      | inr e ↦ rw (e, keep, e) (ap (λ r. x ∷ r) (without-remove xs))
    ]

    pub any-count : (xs : List A) → any t xs ≡ false → count t xs ≡ 0
    unfolding any count
    any-count [] h = refl
    any-count (x ∷ xs) h = ground (arith, h, any-count xs)

    pub any-count_some : (xs : List A) → any t xs ≡ true → 1 ≤ count t xs
    unfolding any count
    any-count_some [] h = ground (arith, h)
    any-count_some (x ∷ xs) h = ground (arith, h, any-count_some xs)

    pub count_none : (xs : List A) → count t xs ≡ 0 → without t xs ≡ xs
    unfolding count keep
    count_none [] h = refl
    count_none (x ∷ xs) h = elim (Bool-cases (t x)) [
      | inl e ↦ absurd (omega (arith, (rw (count, e) at h)))
      | inr e ↦ rw e (ap (λ r. x ∷ r) (count_none xs (rw (count, e) at h)))
    ]

    pub count-without_self : (xs : List A) → count t (without t xs) ≡ 0
    unfolding count keep
    count-without_self [] = refl
    count-without_self (x ∷ xs) = elim (Bool-cases (t x)) [
      | inl e ↦ rw e (count-without_self xs)
      | inr e ↦ rw (e, count, e) (count-without_self xs)
    ]

    pub any-without_self : (xs : List A) → any t (without t xs) ≡ false
    unfolding any keep
    any-without_self [] = refl
    any-without_self (x ∷ xs) = elim (Bool-cases (t x)) [
      | inl e ↦ rw e (any-without_self xs)
      | inr e ↦ rw (e, any, e) (any-without_self xs)
    ]

  module _ (t u : A → Bool) where
    pub count-without_le : (xs : List A) → count t (without u xs) ≤ count t xs
    unfolding count keep
    count-without_le [] = omega arith
    count-without_le (x ∷ xs) = ground (arith, count-without_le xs)

    -- What passes the one test passes not the other.
    pub any-without_apart :
        ((x : A) → t x ≡ true → u x ≡ false) → (xs : List A) → any t (without u xs) ≡ any t xs
    unfolding any keep
    any-without_apart h [] = refl
    any-without_apart h (x ∷ xs) = ground (arith, h x, any-without_apart h xs)
