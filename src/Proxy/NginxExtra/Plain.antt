-- ===== src/Proxy/NginxExtra/Plain.antt =====
-- The lines of a snippet told by their characters, and how the tests of a line answer to that.
use wardnode.Base.{
  ℕ, ◌%◌, ◌≤◌, String, Bool, true, false, not, ◌≡◌, ◌≢◌, ◌⊎◌, inl, inr, refl, ap, sym, subst, none,
  some, List, [], ◌∷◌, ◌++◌, any, all, keep, length, ◌=?◌, All, Bool-cases, arith,
}
use wardnode.Base.Options.{bind_some}
use wardnode.Text.{codes, same, is_space}
use wardnode.Text.Laws.{same_refl}
use wardnode.Proxy.NginxExtra.{
  before_semicolon, word, first_word, count_char, is_brace, is_control, is_balanced, is_word,
  is_directive, is_skipped,
}

abbrev pub IsUnbraced : ℕ → Type 0
IsUnbraced c = (c ≢ b'{') × (c ≢ b'}')

-- The tabulator or no character below 32; DEL is one of these.
abbrev pub IsPrintable : ℕ → Type 0
IsPrintable c = (c ≡ 9) ⊎ (32 ≤ c)

abbrev pub HasChar : (ℕ → Type 0) → List ℕ → Type 0
HasChar P [] = ⊥
HasChar P (c ∷ s) = P c ⊎ HasChar P s

-- Nothing, or a text that begins with white space.
abbrev pub IsApart : List ℕ → Type 0
IsApart [] = Unit
IsApart (c ∷ s) = is_space c ≡ true

-- The first word of a text: white space, the word without any, and what is apart from it.
pub record IsFirst (s directive : List ℕ) : Type 0 where
  pub spaces : List ℕ
  pub rest : List ℕ
  pub parts : s ≡ spaces ++ (directive ++ rest)
  pub blank : All (λ c. is_space c ≡ true) spaces
  pub unbroken : All (λ c. is_space c ≡ false) directive
  pub apart : IsApart rest

-- The quotes of a kind are in pairs.
abbrev pub ArePaired : ℕ → List ℕ → Type 0
ArePaired q s = length (keep (λ c. c =? q) s) % 2 ≡ 0

abbrev pub IsSkipped : List ℕ → Type 0
IsSkipped line = (line ≡ []) ⊎ ((s : List ℕ) × (line ≡ b'#' ∷ s))

pub is_skipped-IsSkipped : (line : List ℕ) → is_skipped line ≡ true → IsSkipped line
is_skipped-IsSkipped [] h = inl refl
is_skipped-IsSkipped (c ∷ s) h =
    let hash : c ≡ b'#' = ground (arith, h) in inr (s, ap (λ d. d ∷ s) hash)

pub is_brace-IsUnbraced : (s : List ℕ) → any is_brace s ≡ false → All IsUnbraced s
unfolding any
is_brace-IsUnbraced [] h = tt
is_brace-IsUnbraced (c ∷ s) h = (ground (arith, h), is_brace-IsUnbraced s (ground (arith, h)))

pub is_control-IsPrintable : (s : List ℕ) → any is_control s ≡ false → All IsPrintable s
unfolding any
is_control-IsPrintable [] h = tt
is_control-IsPrintable (c ∷ s) h = (ground (arith, h), is_control-IsPrintable s (ground (arith, h)))

texts_injective : {a b : List ℕ} → some a ≡ some b → a ≡ b
texts_injective {a} {b} h = cc

pub before_semicolon-parts :
    (s content : List ℕ) → before_semicolon s ≡ some content → s ≡ content ++ (b';' ∷ [])
unfolding before_semicolon
before_semicolon-parts [] content h = cc
before_semicolon-parts (c ∷ []) content h = elim (Bool-cases (c =? b';')) [
  | inl e ↦
      let semicolon : c ≡ b';' = ground (arith, e) in
      let empty : [] ≡ content = texts_injective (rw e at h) in
      subst (λ t. c ∷ [] ≡ t ++ (b';' ∷ [])) empty (ap (λ d. d ∷ []) semicolon)
  | inr e ↦ absurd (no_content (rw e at h))
]
  where
    no_content : none ≡ some content → ⊥
    no_content h = cc
before_semicolon-parts (c ∷ d ∷ s) content h =
    let t = bind_some (before_semicolon (d ∷ s)) _ content h in
    subst (λ u. c ∷ d ∷ s ≡ u ++ (b';' ∷ [])) (texts_injective (t.1.1))
      (ap (λ u. c ∷ u) (before_semicolon-parts (d ∷ s) t.0 t.1.0))

-- A word with what is left after it.
word-parts :
    (s : List ℕ)
    → (rest : List ℕ) × (s ≡ word s ++ rest) × All (λ c. is_space c ≡ false) (word s) × IsApart rest
unfolding word
word-parts [] = ([], refl, tt, tt)
word-parts (c ∷ s) = elim (Bool-cases (is_space c)) [
  | inl e ↦ rw e (c ∷ s, refl, tt, e)
  | inr e ↦ let r = word-parts s in rw e (r.0, ap (λ u. c ∷ u) r.1, (e, r.2), r.3)
]

pub first_word-IsFirst :
    (s directive : List ℕ) → first_word s ≡ some directive → IsFirst s directive
unfolding first_word
first_word-IsFirst [] directive h = cc
first_word-IsFirst (c ∷ s) directive h = elim (Bool-cases (is_space c)) [
  | inl e ↦
      let r = first_word-IsFirst s directive (rw e at h) in
      record {
        spaces = c ∷ r.spaces;
        rest = r.rest;
        parts = ap (λ u. c ∷ u) r.parts;
        blank = (e, r.blank);
        unbroken = r.unbroken;
        apart = r.apart;
      }
  | inr e ↦
      let w = word-parts s in
      let same_word : c ∷ word s ≡ directive = texts_injective (rw e at h) in
      record {
        spaces = [];
        rest = w.0;
        parts = subst (λ u. c ∷ s ≡ u ++ w.0) same_word (ap (λ u. c ∷ u) w.1);
        blank = tt;
        unbroken = subst (λ u. All (λ c. is_space c ≡ false) u) same_word (e, w.2);
        apart = w.3;
      }
]

module _ (alnum : ℕ → Bool) where
  -- Letters, digits and underscores, not only the last of these.
  abbrev pub IsDirective : List ℕ → Type 0
  IsDirective s = All (λ c. (c ≡ b'_') ⊎ (alnum c ≡ true)) s × HasChar (λ c. alnum c ≡ true) s

  is_word-all : (s : List ℕ) → is_word alnum s ≡ true → all alnum s ≡ true
  is_word-all [] h = cc
  is_word-all (c ∷ s) h = h

  all-characters :
      (s : List ℕ)
      → all alnum (keep (λ c. not (c =? b'_')) s) ≡ true
      → All (λ c. (c ≡ b'_') ⊎ (alnum c ≡ true)) s
  unfolding all keep
  all-characters [] h = tt
  all-characters (c ∷ s) h = elim (Bool-cases (c =? b'_')) [
    | inl e ↦ (inl (ground (arith, e)), all-characters s (rw e at h))
    | inr e ↦
        let both : all alnum (c ∷ keep (λ d. not (d =? b'_')) s) ≡ true = rw e at h in
        (inr (ground (arith, both)), all-characters s (ground (arith, both)))
  ]

  word-HasChar :
      (s : List ℕ)
      → is_word alnum (keep (λ c. not (c =? b'_')) s) ≡ true
      → HasChar (λ c. alnum c ≡ true) s
  unfolding all keep
  word-HasChar [] h = cc
  word-HasChar (c ∷ s) h = elim (Bool-cases (c =? b'_')) [
    | inl e ↦ inr (word-HasChar s (rw e at h))
    | inr e ↦
        let both : all alnum (c ∷ keep (λ d. not (d =? b'_')) s) ≡ true = rw e at h in
        inl (ground (arith, both))
  ]

  pub is_directive-IsDirective : (s : List ℕ) → is_directive alnum s ≡ true → IsDirective s
  is_directive-IsDirective s h =
      (all-characters s (is_word-all (keep (λ c. not (c =? b'_')) s) h), word-HasChar s h)

pub any-names :
    (directive : List ℕ) (names : List String)
    → any (λ d. same (codes d) directive) names ≡ false
    → All (λ d. directive ≢ codes d) names
unfolding any
any-names directive [] h = tt
any-names directive (d ∷ names) h = (
  λ e.
      let found : same (codes d) directive ≡ true =
        subst (λ t. same (codes d) t ≡ true) (sym e) (same_refl (codes d)) in
      absurd (ground (arith, found, h)),
  any-names directive names (ground (arith, h)),
)

count_char-length : (q : ℕ) (s : List ℕ) → count_char q s ≡ length (keep (λ c. c =? q) s)
unfolding count_char keep
count_char-length q [] = refl
count_char-length q (c ∷ s) = ground (arith, count_char-length q s)

pub is_balanced-ArePaired :
    (s : List ℕ) → is_balanced s ≡ true → ArePaired b'"' s × ArePaired b'\'' s
is_balanced-ArePaired s h =
    let double : count_char b'"' s % 2 ≡ 0 = ground (arith, h) in
    let single : count_char b'\'' s % 2 ≡ 0 = ground (arith, h) in
    (
      subst (λ n. n % 2 ≡ 0) (count_char-length b'"' s) double,
      subst (λ n. n % 2 ≡ 0) (count_char-length b'\'' s) single,
    )
