-- ===== src/Proxy/CustomRules/Shown/Label.antt =====
-- The search for a word with a colon: what it finds of `id:`.
use wardnode.Base.{
  ℕ, Bool, true, false, ◌≡◌, ◌⊎◌, inl, inr, refl, ap, ◌∙◌, Option, none, some, List, [], ◌∷◌, ◌++◌,
  ◌=?◌, Bool-cases, arith,
}
use wardnode.Text.{codes, trim_left, is_space, is_upper, to_lower}
use wardnode.Proxy.CustomRules.{after_word, after_colon, found_at}
use wardnode.Proxy.CustomRules.Shown.{AreBlank}

-- White space at the start, and what is left.
pub trim_left-parts :
    (s : List ℕ) → (spaces : List ℕ) × (s ≡ spaces ++ trim_left s) × AreBlank spaces
unfolding trim_left
trim_left-parts [] = ([], refl, tt)
trim_left-parts (c ∷ s) = elim (Bool-cases (is_space c)) [
  | inl e ↦ let r = trim_left-parts s in rw e (c ∷ r.0, ap (λ u. c ∷ u) r.1, (e, r.2))
  | inr e ↦ rw e ([], refl, tt)
]

texts_injective : {a b : List ℕ} → some a ≡ some b → a ≡ b
texts_injective {a} {b} h = cc

pub numbers_injective : {a b : ℕ} → some a ≡ some b → a ≡ b
numbers_injective {a} {b} h = cc

after_colon-parts : (s t : List ℕ) → after_colon s ≡ some t → s ≡ b':' ∷ t
after_colon-parts [] t h = cc
after_colon-parts (c ∷ s) t h = elim (Bool-cases (c =? b':')) [
  | inl e ↦
      let colon : c ≡ b':' = ground (arith, e) in
      let same : s ≡ t = texts_injective (rw e at h) in cc
  | inr e ↦ absurd (no_text (rw e at h))
]
  where
    no_text : none ≡ some t → ⊥
    no_text h = cc

-- The two letters of `id`.
record IsWordId (s t : List ℕ) : Type 0 where
  i : ℕ
  d : ℕ
  parts : s ≡ i ∷ d ∷ t
  letters : ((i ≡ b'i') ⊎ (i ≡ b'I')) × ((d ≡ b'd') ⊎ (d ≡ b'D'))

letter_i : (c : ℕ) → (to_lower c =? b'i') ≡ true → (c ≡ b'i') ⊎ (c ≡ b'I')
unfolding to_lower is_upper
letter_i c h = ground (arith, h)

letter_d : (c : ℕ) → (to_lower c =? b'd') ≡ true → (c ≡ b'd') ⊎ (c ≡ b'D')
unfolding to_lower is_upper
letter_d c h = ground (arith, h)

after_word-id : (s t : List ℕ) → after_word (codes "id") s ≡ some t → IsWordId s t
unfolding after_word
after_word-id [] t h = cc
after_word-id (c ∷ []) t h = elim (Bool-cases (to_lower c =? b'i')) [
  | inl e ↦ absurd (no_text (rw e at h))
  | inr e ↦ absurd (no_text (rw e at h))
]
  where
    no_text : none ≡ some t → ⊥
    no_text h = cc
after_word-id (c ∷ d ∷ s) t h = elim (Bool-cases (to_lower c =? b'i')) [
  | inr e ↦ absurd (no_text (rw e at h))
  | inl e ↦ elim (Bool-cases (to_lower d =? b'd')) [
    | inr f ↦ absurd (no_text (rw (e, f) at h))
    | inl f ↦ record {
      i = c;
      d = d;
      parts = ap (λ u. c ∷ d ∷ u) (texts_injective (rw (e, f) at h));
      letters = (letter_i c e, letter_d d f);
    }
  ]
]
  where
    no_text : none ≡ some t → ⊥
    no_text h = cc

-- The word with its colon.
pub record IsLabel (s t : List ℕ) : Type 0 where
  pub i : ℕ
  pub d : ℕ
  pub spaces : List ℕ
  pub parts : s ≡ i ∷ d ∷ (spaces ++ (b':' ∷ t))
  pub letters : ((i ≡ b'i') ⊎ (i ≡ b'I')) × ((d ≡ b'd') ⊎ (d ≡ b'D'))
  pub blank : AreBlank spaces

after_word-IsLabel :
    (s : List ℕ) (o : Option (List ℕ)) (t : List ℕ)
    → after_word (codes "id") s ≡ o
    → elim o [ none ↦ none | some u ↦ after_colon (trim_left u) ] ≡ some t
    → IsLabel s t
after_word-IsLabel s none t e h = cc
after_word-IsLabel s (some u) t e h =
    let w = after_word-id s u e in
    let b = trim_left-parts u in
    let colon = after_colon-parts (trim_left u) t h in
    record {
      i = w.i;
      d = w.d;
      spaces = b.0;
      parts = w.parts ∙ (ap (λ x. w.i ∷ w.d ∷ x) b.1 ∙ ap (λ x. w.i ∷ w.d ∷ (b.0 ++ x)) colon);
      letters = w.letters;
      blank = b.2;
    }

pub found_at-IsLabel :
    (after : Bool) (s t : List ℕ)
    → found_at (codes "id") after s ≡ some t
    → (after ≡ false) × IsLabel s t
unfolding found_at
found_at-IsLabel true s t h = cc
found_at-IsLabel false s t h = (refl, after_word-IsLabel s (after_word (codes "id") s) t refl h)
