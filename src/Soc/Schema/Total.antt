-- ===== src/Soc/Schema/Total.antt =====
-- When an answer can be read without an exception.
use wardnode.Base.{
  ℕ, String, Bool, true, false, ◌&&◌, ◌≡◌, refl, ap, ◌∙◌, Option, some, List, [], ◌∷◌, length, ◌=?◌,
  if◌then◌else◌, All, arith,
}
use wardnode.Base.Options.{◌>>=◌}
use wardnode.Json.{
  Json, Fields, truncated, not_a_number, infinite, null, flag, number, fraction, text, items,
  object, get_or, in_texts,
}
use wardnode.Soc.MitreCti.{Row}
use wardnode.Soc.Schema.{
  severities, priorities, action_types, ioc_types, coerce_str, coerce_confidence, elements, collect,
  one_of, hypothesis, recommendation, ioc, technique, normalize_fields, coerce_hypotheses,
  coerce_recommendations, coerce_mitre, coerce_iocs,
}

-- A number that is not infinite; a value that a set can be asked for.
unfoldable pub is_finite : Json → Bool
is_finite (fraction z infinite) = false
is_finite _ = true

unfoldable pub is_hashable : Json → Bool
is_hashable (items js) = false
is_hashable (object fs) = false
is_hashable _ = true

abbrev pub IsTameItem : (Fields → Bool) → Json → Type 0
IsTameItem t (object fs) = t fs ≡ true
IsTameItem t _ = Unit

-- A dictionary without infinite confidences, and without lists and dictionaries where one of some
-- words is expected.
pub record IsTame (fs : Fields) : Type 0 where
  pub severity : is_hashable (get_or fs "severity_suggested" null) ≡ true
  pub percent : is_finite (get_or fs "confidence" null) ≡ true
  pub hypotheses :
      All
        (IsTameItem (λ o. is_finite (get_or o "confidence" null)))
        (elements (get_or fs "hypotheses" null))
  pub recommendations :
      All
        (IsTameItem (λ o.
          is_hashable (get_or o "priority" null) && is_hashable (get_or o "action_type" null)))
        (elements (get_or fs "recommendations" null))
  pub iocs :
      All (IsTameItem (λ o. is_hashable (get_or o "type" null))) (elements (get_or fs "iocs" null))

abbrev pub IsSome {ℓ} : {A : Type ℓ} → Option A → Type ℓ
IsSome {A} o = (a : A) × (o ≡ some a)

pub bind-IsSome {ℓ κ} :
    {A : Type ℓ} {B : Type κ} (o : Option A) (f : A → Option B)
    → IsSome o
    → ((a : A) → IsSome (f a))
    → IsSome (o >>= f)
bind-IsSome o f h k = let rest = k h.0 in (rest.0, ap (λ x. x >>= f) h.1 ∙ rest.1)

coerce_confidence-IsSome : (j : Json) → is_finite j ≡ true → IsSome (coerce_confidence j)
unfolding coerce_confidence is_finite
coerce_confidence-IsSome null h = (_, refl)
coerce_confidence-IsSome (flag b) h = (_, refl)
coerce_confidence-IsSome (number n) h = (_, refl)
coerce_confidence-IsSome (fraction z (truncated n)) h = (_, refl)
coerce_confidence-IsSome (fraction z not_a_number) h = (_, refl)
coerce_confidence-IsSome (fraction z infinite) h = ground (arith, h)
coerce_confidence-IsSome (text s) h = (_, refl)
coerce_confidence-IsSome (items js) h = (_, refl)
coerce_confidence-IsSome (object fs) h = (_, refl)

in_texts-IsSome :
    (names : List String) (j : Json) → is_hashable j ≡ true → IsSome (in_texts names j)
unfolding in_texts is_hashable
in_texts-IsSome names null h = (_, refl)
in_texts-IsSome names (flag b) h = (_, refl)
in_texts-IsSome names (number n) h = (_, refl)
in_texts-IsSome names (fraction z n) h = (_, refl)
in_texts-IsSome names (text s) h = (_, refl)
in_texts-IsSome names (items js) h = ground (arith, h)
in_texts-IsSome names (object fs) h = ground (arith, h)

one_of-IsSome :
    (names : List String) (j : Json) (default : String)
    → is_hashable j ≡ true
    → IsSome (one_of names j default)
one_of-IsSome names j default h =
    bind-IsSome (in_texts names j) _ (in_texts-IsSome names j h) (λ found. (_, refl))

module _ {A : Type 0} (f : Fields → Option (Option A)) (t : Fields → Bool)
    (total : (fs : Fields) → t fs ≡ true → IsSome (f fs)) where
  collect-IsSome : (js : List Json) → All (IsTameItem t) js → IsSome (collect f js)
  unfolding collect
  collect-IsSome [] h = ([], refl)
  collect-IsSome (object fs ∷ js) h =
      bind-IsSome (f fs) _ (total fs h.0)
        (λ a. bind-IsSome (collect f js) _ (collect-IsSome js h.1) (λ rest. (_, refl)))
  collect-IsSome (null ∷ js) h = collect-IsSome js h.1
  collect-IsSome (flag b ∷ js) h = collect-IsSome js h.1
  collect-IsSome (number n ∷ js) h = collect-IsSome js h.1
  collect-IsSome (fraction z n ∷ js) h = collect-IsSome js h.1
  collect-IsSome (text s ∷ js) h = collect-IsSome js h.1
  collect-IsSome (items l ∷ js) h = collect-IsSome js h.1

if-IsSome {ℓ} :
    {A : Type ℓ} (b : Bool) (x y : Option A) → IsSome x → IsSome y → IsSome (if b then x else y)
if-IsSome true x y h k = h
if-IsSome false x y h k = k

hypothesis-IsSome :
    (fs : Fields) → is_finite (get_or fs "confidence" null) ≡ true → IsSome (hypothesis fs)
hypothesis-IsSome fs h =
    if-IsSome (length (coerce_str (get_or fs "text" null) 1000) =? 0) _ _ (_, refl)
      (bind-IsSome (coerce_confidence (get_or fs "confidence" null)) _
        (coerce_confidence-IsSome (get_or fs "confidence" null) h) (λ n. (_, refl)))

both : (a b : Bool) → (a && b) ≡ true → (a ≡ true) × (b ≡ true)
both a b h = (ground (arith, h), ground (arith, h))

recommendation-IsSome :
    (fs : Fields)
    → (is_hashable (get_or fs "priority" null) && is_hashable (get_or fs "action_type" null)) ≡ true
    → IsSome (recommendation fs)
recommendation-IsSome fs h =
    let hs =
      both (is_hashable (get_or fs "priority" null)) (is_hashable (get_or fs "action_type" null))
        h in
    if-IsSome (length (coerce_str (get_or fs "text" null) 1000) =? 0) _ _ (_, refl)
      (bind-IsSome (one_of priorities (get_or fs "priority" null) "media") _
        (one_of-IsSome priorities (get_or fs "priority" null) "media" hs.0)
        (λ p.
          bind-IsSome (one_of action_types (get_or fs "action_type" null) "investigar") _
            (one_of-IsSome action_types (get_or fs "action_type" null) "investigar" hs.1)
            (λ a. (_, refl))))

ioc-IsSome : (fs : Fields) → is_hashable (get_or fs "type" null) ≡ true → IsSome (ioc fs)
ioc-IsSome fs h =
    bind-IsSome (in_texts ioc_types (get_or fs "type" null)) _
      (in_texts-IsSome ioc_types (get_or fs "type" null) h) (λ found. (_, refl))

any_item : (js : List Json) → All (IsTameItem (λ o. true)) js
any_item [] = tt
any_item (object fs ∷ js) = (refl, any_item js)
any_item (null ∷ js) = (tt, any_item js)
any_item (flag b ∷ js) = (tt, any_item js)
any_item (number n ∷ js) = (tt, any_item js)
any_item (fraction z n ∷ js) = (tt, any_item js)
any_item (text s ∷ js) = (tt, any_item js)
any_item (items l ∷ js) = (tt, any_item js)

pub normalize_fields-IsSome :
    (decimal : ℕ → Option ℕ) (rows : Option (List Row)) (fs : Fields)
    → IsTame fs
    → IsSome (normalize_fields decimal rows fs)
unfolding normalize_fields
normalize_fields-IsSome decimal rows fs h =
    bind-IsSome (one_of severities (get_or fs "severity_suggested" null) "medium") _
      (one_of-IsSome severities (get_or fs "severity_suggested" null) "medium" h.severity)
      (λ a.
        bind-IsSome (coerce_confidence (get_or fs "confidence" null)) _
          (coerce_confidence-IsSome (get_or fs "confidence" null) h.percent)
          (λ b.
            bind-IsSome (coerce_hypotheses (get_or fs "hypotheses" null)) _
              (collect-IsSome hypothesis (λ o. is_finite (get_or o "confidence" null))
                hypothesis-IsSome (elements (get_or fs "hypotheses" null)) h.hypotheses)
              (λ c.
                bind-IsSome (coerce_recommendations (get_or fs "recommendations" null)) _
                  (collect-IsSome recommendation _ recommendation-IsSome
                    (elements (get_or fs "recommendations" null)) h.recommendations)
                  (λ d.
                    bind-IsSome (coerce_mitre decimal rows (get_or fs "mitre_techniques" null)) _
                      (collect-IsSome (technique decimal rows) (λ o. true) (λ o k. (_, refl))
                        (elements (get_or fs "mitre_techniques" null))
                        (any_item (elements (get_or fs "mitre_techniques" null))))
                      (λ e.
                        bind-IsSome (coerce_iocs (get_or fs "iocs" null)) _
                          (collect-IsSome ioc (λ o. is_hashable (get_or o "type" null)) ioc-IsSome
                            (elements (get_or fs "iocs" null)) h.iocs)
                          (λ i. (_, refl)))))))
