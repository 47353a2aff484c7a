-- ===== src/Soc/Schema/Normal.antt =====
-- The form of every analysis that is kept.
use wardnode.Base.{
  ℕ, suc, ◌≤◌, String, Bool, true, false, ◌≡◌, refl, Option, none, some, List, [], ◌∷◌, any, length,
  length-take, ◌==◌, All, arith,
}
use wardnode.Base.Options.{◌>>=◌}
use wardnode.Text.{codes, clamp, PyInt, pos, negsuc, int}
use wardnode.Json.{
  Json, Fields, truncated, not_a_number, infinite, null, flag, number, fraction, text, items,
  object, list_of, in_texts,
}
use wardnode.Soc.MitreCti.Form.{HasIdForm}
use wardnode.Soc.Schema.{
  Hypothesis, Recommendation, Ioc, Analysis, coerce_str, int_or_zero, coerce_confidence, elements,
  prepend_some, collect, text_or, one_of,
}

-- What a result is, if there is one.
abbrev pub Gives {ℓ κ} : {A : Type ℓ} → (A → Type κ) → Option A → Type κ
Gives P none = Unit
Gives P (some a) = P a

pub bind-Gives {ℓ κ λ' μ} :
    {A : Type ℓ} {B : Type κ} (P : A → Type λ') (Q : B → Type μ) (o : Option A) (f : A → Option B)
    → Gives P o
    → ((a : A) → P a → Gives Q (f a))
    → Gives Q (o >>= f)
bind-Gives P Q none f h k = tt
bind-Gives P Q (some a) f h k = k a h

-- A name of the list.
abbrev pub IsOneOf : List String → String → Type 0
IsOneOf names s = any (λ n. n == s) names ≡ true

pub record IsHypothesis (h : Hypothesis) : Type 0 where
  pub not_empty : 1 ≤ length h.statement
  pub short : length h.statement ≤ 1000
  pub percent : h.confidence ≤ 100

pub record IsRecommendation (r : Recommendation) : Type 0 where
  pub not_empty : 1 ≤ length r.statement
  pub short : length r.statement ≤ 1000
  pub priority : IsOneOf ("alta" ∷ "media" ∷ "baja" ∷ []) r.priority
  pub action_type :
      IsOneOf ("bloquear_ip" ∷ "ajustar_regla" ∷ "investigar" ∷ "monitorear" ∷ []) r.action_type

pub record IsIoc (i : Ioc) : Type 0 where
  pub kind : IsOneOf ("ip" ∷ "domain" ∷ "url" ∷ "path" ∷ "user_agent" ∷ "hash" ∷ []) i.kind
  pub not_empty : 1 ≤ length i.value
  pub short : length i.value ≤ 500

-- At most ten elements, each with the property.
abbrev pub IsShortList {ℓ κ} : {A : Type ℓ} → (A → Type κ) → List A → Type κ
IsShortList P l = (length l ≤ 10) × All P l

pub record IsNormal (digit : ℕ → Bool) (a : Analysis) : Type 0 where
  pub summary : length a.summary ≤ 1000
  pub explanation : length a.explanation ≤ 5000
  pub severity : IsOneOf ("critical" ∷ "high" ∷ "medium" ∷ "low" ∷ []) a.severity_suggested
  pub percent : a.confidence ≤ 100
  pub hypotheses : IsShortList IsHypothesis a.hypotheses
  pub recommendations : IsShortList IsRecommendation a.recommendations
  pub techniques : IsShortList (λ t. HasIdForm digit t.id) a.mitre_techniques
  pub iocs : IsShortList IsIoc a.iocs

pub coerce_str-bound : (j : Json) (n : ℕ) → length (coerce_str j n) ≤ n
coerce_str-bound (text s) n = omega (arith, length-take n (codes s))
coerce_str-bound _ n = omega arith

pub clamp-bound : (n : PyInt) → clamp 0 100 n ≤ 100
clamp-bound (pos n) = omega arith
clamp-bound (negsuc n) = omega arith

int_or_zero-bound : (o : Option PyInt) → int_or_zero o ≤ 100
int_or_zero-bound none = omega arith
int_or_zero-bound (some n) = clamp-bound n

pub coerce_confidence-bound : (j : Json) → Gives (λ n. n ≤ 100) (coerce_confidence j)
unfolding coerce_confidence
coerce_confidence-bound (number n) = clamp-bound n
coerce_confidence-bound (flag true) = omega arith
coerce_confidence-bound (flag false) = omega arith
coerce_confidence-bound (fraction z (truncated n)) = clamp-bound n
coerce_confidence-bound (fraction z not_a_number) = omega arith
coerce_confidence-bound (fraction z infinite) = tt
coerce_confidence-bound (text s) = int_or_zero-bound (int s)
coerce_confidence-bound _ = omega arith

pub some_injective : {a b : Bool} → some a ≡ some b → a ≡ b
some_injective {a} {b} h = cc

pub itself {ℓ} : {A : Type ℓ} (o : Option A) → Gives (λ a. o ≡ some a) o
itself none = tt
itself (some a) = refl

module _ (names : List String) (default : String) (listed : IsOneOf names default) where
  text_or-IsOneOf :
      (found : Bool) (s : String)
      → any (λ n. n == s) names ≡ found
      → IsOneOf names (text_or found (text s) default)
  text_or-IsOneOf true s h = h
  text_or-IsOneOf false s h = listed

  pub one_of-IsOneOf : (j : Json) → Gives (IsOneOf names) (one_of names j default)
  unfolding in_texts
  one_of-IsOneOf (text s) = text_or-IsOneOf (any (λ n. n == s) names) s refl
  one_of-IsOneOf (items js) = tt
  one_of-IsOneOf (object fs) = tt
  one_of-IsOneOf null = listed
  one_of-IsOneOf (flag b) = listed
  one_of-IsOneOf (number n) = listed
  one_of-IsOneOf (fraction z n) = listed

module _ {A : Type 0} (P : A → Type 0) where
  prepend_some-All :
      (o : Option A) (rest : List A) (n : ℕ)
      → Gives P o
      → (length rest ≤ n) × All P rest
      → (length (prepend_some o rest) ≤ suc n) × All P (prepend_some o rest)
  prepend_some-All none rest n h k = (omega (arith, k.0), k.1)
  prepend_some-All (some a) rest n h k = (omega (arith, k.0), (h, k.1))

  module _ (f : Fields → Option (Option A)) (given : (fs : Fields) → Gives (Gives P) (f fs)) where
    skip :
        (js : List Json)
        → Gives (λ l. (length l ≤ length js) × All P l) (collect f js)
        → Gives (λ l. (length l ≤ suc (length js)) × All P l) (collect f js)
    skip js h = widen (collect f js) h
      where
        widen :
            (o : Option (List A))
            → Gives (λ l. (length l ≤ length js) × All P l) o
            → Gives (λ l. (length l ≤ suc (length js)) × All P l) o
        widen none h = tt
        widen (some l) h = (omega (arith, h.0), h.1)

    collect-All : (js : List Json) → Gives (λ l. (length l ≤ length js) × All P l) (collect f js)
    unfolding collect
    collect-All [] = (omega arith, tt)
    collect-All (object fs ∷ js) = bind-Gives (Gives P) _ (f fs) _ (given fs) (λ a h.
        bind-Gives (λ l. (length l ≤ length js) × All P l) _ (collect f js) _ (collect-All js)
          (λ rest k. prepend_some-All a rest (length js) h k))
    collect-All (null ∷ js) = skip js (collect-All js)
    collect-All (flag b ∷ js) = skip js (collect-All js)
    collect-All (number n ∷ js) = skip js (collect-All js)
    collect-All (fraction z n ∷ js) = skip js (collect-All js)
    collect-All (text s ∷ js) = skip js (collect-All js)
    collect-All (items l ∷ js) = skip js (collect-All js)

    elements-bound : (j : Json) → length (elements j) ≤ 10
    elements-bound (items js) = omega (arith, length-take 10 (list_of js))
    elements-bound _ = omega arith

    pub collect-IsShortList : (j : Json) → Gives (IsShortList P) (collect f (elements j))
    collect-IsShortList j = shorten (collect f (elements j)) (collect-All (elements j))
      where
        shorten :
            (o : Option (List A))
            → Gives (λ l. (length l ≤ length (elements j)) × All P l) o
            → Gives (IsShortList P) o
        shorten none h = tt
        shorten (some l) h = (omega (arith, h.0, elements-bound j), h.1)
