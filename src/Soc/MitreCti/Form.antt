-- ===== src/Soc/MitreCti/Form.antt =====
-- The form of an id, told by its characters.
use wardnode.Base.{
  ℕ, String, Bool, true, ◌&&◌, ◌≡◌, ◌⊎◌, inl, inr, refl, ap, ◌∙◌, List, [], ◌∷◌, ◌++◌, ◌=?◌,
  Bool-cases, arith,
}
use wardnode.Text.{codes}
use wardnode.Soc.MitreCti.{id_end, id_tail, matches_id, is_technique_id}

id_end-form : (s : List ℕ) → id_end s ≡ true → (s ≡ []) ⊎ (s ≡ 10 ∷ [])
id_end-form [] h = inl refl
id_end-form (c ∷ []) h =
    let line_feed : c ≡ 10 = ground (arith, h) in inr (ap (λ d. d ∷ []) line_feed)
id_end-form (c ∷ d ∷ s) h = cc

module _ (digit : ℕ → Bool) where
  -- Nothing, or a dot and three digits.
  abbrev pub IsSub : List ℕ → Type 0
  IsSub [] = Unit
  IsSub (p ∷ a ∷ b ∷ c ∷ []) = (p ≡ b'.') × (digit a ≡ true) × (digit b ≡ true) × (digit c ≡ true)
  IsSub _ = ⊥

  record IsTail (s : List ℕ) : Type 0 where
    sub : List ℕ
    end : List ℕ
    parts : s ≡ sub ++ end
    form : IsSub sub
    ended : (end ≡ []) ⊎ (end ≡ 10 ∷ [])

  -- T and four digits, perhaps a dot and three more, and a line feed after them at most.
  pub record HasIdForm (id : String) : Type 0 where
    pub first : ℕ
    pub second : ℕ
    pub third : ℕ
    pub fourth : ℕ
    pub sub : List ℕ
    pub end : List ℕ
    pub parts : codes id ≡ b'T' ∷ first ∷ second ∷ third ∷ fourth ∷ (sub ++ end)
    pub digits :
        (digit first ≡ true) × (digit second ≡ true) × (digit third ≡ true) × (digit fourth ≡ true)
    pub form : IsSub sub
    pub ended : (end ≡ []) ⊎ (end ≡ 10 ∷ [])

  whole : (s : List ℕ) → id_end s ≡ true → IsTail s
  whole s h = record { sub = []; end = s; parts = refl; form = tt; ended = id_end-form s h }

  id_tail-IsTail : (s : List ℕ) → id_tail digit s ≡ true → IsTail s
  id_tail-IsTail [] h = whole [] h
  id_tail-IsTail (p ∷ []) h = whole (p ∷ []) h
  id_tail-IsTail (p ∷ a ∷ []) h = whole (p ∷ a ∷ []) h
  id_tail-IsTail (p ∷ a ∷ b ∷ []) h = whole (p ∷ a ∷ b ∷ []) h
  id_tail-IsTail (p ∷ a ∷ b ∷ c ∷ s) h =
      elim (Bool-cases (p =? b'.' && digit a && digit b && digit c && id_end s)) [
        | inl e ↦ record {
          sub = p ∷ a ∷ b ∷ c ∷ [];
          end = s;
          parts = refl;
          form = (ground (arith, e), ground (arith, e), ground (arith, e), ground (arith, e));
          ended = id_end-form s (ground (arith, e));
        }
        | inr e ↦ whole (p ∷ a ∷ b ∷ c ∷ s) (ground (arith, e, h))
      ]

  matches_id-HasIdForm :
      (id : String) (l : List ℕ) → codes id ≡ l → matches_id digit l ≡ true → HasIdForm id
  matches_id-HasIdForm id [] e h = cc
  matches_id-HasIdForm id (t ∷ []) e h = cc
  matches_id-HasIdForm id (t ∷ a ∷ []) e h = cc
  matches_id-HasIdForm id (t ∷ a ∷ b ∷ []) e h = cc
  matches_id-HasIdForm id (t ∷ a ∷ b ∷ c ∷ []) e h = cc
  matches_id-HasIdForm id (t ∷ a ∷ b ∷ c ∷ d ∷ s) e h =
      let letter : t ≡ b'T' = ground (arith, h) in
      let tail = id_tail-IsTail s (ground (arith, h)) in
      record {
        first = a;
        second = b;
        third = c;
        fourth = d;
        sub = tail.sub;
        end = tail.end;
        parts =
            e
            ∙ (ap (λ x. x ∷ a ∷ b ∷ c ∷ d ∷ s) letter
                ∙ ap (λ u. b'T' ∷ a ∷ b ∷ c ∷ d ∷ u) tail.parts);
        digits = (ground (arith, h), ground (arith, h), ground (arith, h), ground (arith, h));
        form = tail.form;
        ended = tail.ended;
      }

  pub is_technique_id-HasIdForm : (id : String) → is_technique_id digit id ≡ true → HasIdForm id
  unfolding is_technique_id
  is_technique_id-HasIdForm id h = matches_id-HasIdForm id (codes id) refl h
