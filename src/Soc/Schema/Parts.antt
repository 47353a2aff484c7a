-- ===== src/Soc/Schema/Parts.antt =====
-- Every part of what is read from a dictionary has its form.
use wardnode.Base.{
  ℕ, ◌≤◌, String, Bool, true, false, ◌≡◌, refl, Option, none, some, List, any, length, ◌=?◌,
  Bool-cases, inl, inr, arith,
}
use wardnode.Json.{
  Json, Fields, null, flag, number, fraction, text, items, object, get_or, in_texts,
}
use wardnode.Soc.MitreCti.{Row, is_technique_id, lookup_technique, is_table_empty}
use wardnode.Soc.MitreCti.Form.{HasIdForm, is_technique_id-HasIdForm}
use wardnode.Soc.Schema.{
  Technique, severities, priorities, action_types, ioc_types, coerce_str, coerce_confidence, one_of,
  hypothesis, recommendation, ioc_of, ioc, known_technique, named_technique, technique_of,
  technique, normalize_fields, coerce_hypotheses, coerce_recommendations, coerce_mitre, coerce_iocs,
  is_decimal,
}
use wardnode.Soc.Schema.Normal.{
  Gives, bind-Gives, IsOneOf, IsHypothesis, IsRecommendation, IsIoc, IsShortList, IsNormal,
  coerce_str-bound, coerce_confidence-bound, one_of-IsOneOf, collect-IsShortList, some_injective,
  itself,
}

hypothesis-Gives : (fs : Fields) → Gives (Gives IsHypothesis) (hypothesis fs)
hypothesis-Gives fs = elim (Bool-cases (length (coerce_str (get_or fs "text" null) 1000) =? 0)) [
  | inl e ↦ rw e tt
  | inr e ↦ rw e (
      bind-Gives (λ n. n ≤ 100) _ (coerce_confidence (get_or fs "confidence" null)) _
        (coerce_confidence-bound (get_or fs "confidence" null))
        (λ n h. record {
          not_empty = ground (arith, e);
          short = coerce_str-bound (get_or fs "text" null) 1000;
          percent = h;
        }))
]

recommendation-Gives : (fs : Fields) → Gives (Gives IsRecommendation) (recommendation fs)
unfolding any
recommendation-Gives fs =
    elim (Bool-cases (length (coerce_str (get_or fs "text" null) 1000) =? 0)) [
      | inl e ↦ rw e tt
      | inr e ↦ rw e (
          bind-Gives (IsOneOf priorities) _ (one_of priorities (get_or fs "priority" null) "media")
            _ (one_of-IsOneOf priorities "media" refl (get_or fs "priority" null))
            (λ p h.
              bind-Gives (IsOneOf action_types) _
                (one_of action_types (get_or fs "action_type" null) "investigar") _
                (one_of-IsOneOf action_types "investigar" refl (get_or fs "action_type" null))
                (λ a k. record {
                  not_empty = ground (arith, e);
                  short = coerce_str-bound (get_or fs "text" null) 1000;
                  priority = h;
                  action_type = k;
                })))
    ]

ioc_of-Gives :
    (found : Bool) (j : Json) (value : List ℕ)
    → in_texts ioc_types j ≡ some found
    → length value ≤ 500
    → Gives IsIoc (ioc_of found j value)
unfolding in_texts
ioc_of-Gives true (text kind) value h k = elim (Bool-cases (length value =? 0)) [
  | inl e ↦ rw e tt
  | inr e ↦ rw e (record { kind = some_injective h; not_empty = ground (arith, e); short = k })
]
ioc_of-Gives true null value h k = tt
ioc_of-Gives true (flag b) value h k = tt
ioc_of-Gives true (number n) value h k = tt
ioc_of-Gives true (fraction z n) value h k = tt
ioc_of-Gives true (items js) value h k = tt
ioc_of-Gives true (object fs) value h k = tt
ioc_of-Gives false j value h k = tt

ioc-Gives : (fs : Fields) → Gives (Gives IsIoc) (ioc fs)
ioc-Gives fs =
    bind-Gives (λ found. in_texts ioc_types (get_or fs "type" null) ≡ some found) _
      (in_texts ioc_types (get_or fs "type" null)) _
      (itself (in_texts ioc_types (get_or fs "type" null)))
      (λ found h.
        ioc_of-Gives found (get_or fs "type" null) (coerce_str (get_or fs "value" null) 500) h
          (coerce_str-bound (get_or fs "value" null) 500))

module _ (decimal : ℕ → Option ℕ) (rows : Option (List Row)) where
  abbrev IsTechnique : Technique → Type 0
  IsTechnique t = HasIdForm (is_decimal decimal) t.id

  known_technique-Gives :
      (id : String) (row : Option Row)
      → HasIdForm (is_decimal decimal) id
      → Gives IsTechnique (known_technique id row)
  known_technique-Gives id none h = tt
  known_technique-Gives id (some row) h = h

  named_technique-Gives :
      (table : Option (List Row)) (fs : Fields) (id : String)
      → HasIdForm (is_decimal decimal) id
      → Gives IsTechnique (named_technique table fs id)
  named_technique-Gives none fs id h = h
  named_technique-Gives (some table) fs id h = elim (Bool-cases (is_table_empty table)) [
    | inl e ↦ rw e h
    | inr e ↦ rw e (known_technique-Gives id (lookup_technique table id) h)
  ]

  technique_of-Gives : (fs : Fields) (j : Json) → Gives IsTechnique (technique_of decimal rows fs j)
  technique_of-Gives fs (text id) = elim (Bool-cases (is_technique_id (is_decimal decimal) id)) [
    | inl e ↦
        rw e
          (named_technique-Gives rows fs id (is_technique_id-HasIdForm (is_decimal decimal) id e))
    | inr e ↦ rw e tt
  ]
  technique_of-Gives fs null = tt
  technique_of-Gives fs (flag b) = tt
  technique_of-Gives fs (number n) = tt
  technique_of-Gives fs (fraction z n) = tt
  technique_of-Gives fs (items js) = tt
  technique_of-Gives fs (object o) = tt

  pub normalize_fields-Gives :
      (fs : Fields) → Gives (IsNormal (is_decimal decimal)) (normalize_fields decimal rows fs)
  unfolding normalize_fields any
  normalize_fields-Gives fs =
      bind-Gives (IsOneOf severities) _
        (one_of severities (get_or fs "severity_suggested" null) "medium") _
        (one_of-IsOneOf severities "medium" refl (get_or fs "severity_suggested" null))
        (λ severity a.
          bind-Gives (λ n. n ≤ 100) _ (coerce_confidence (get_or fs "confidence" null)) _
            (coerce_confidence-bound (get_or fs "confidence" null))
            (λ confidence b.
              bind-Gives (IsShortList IsHypothesis) _
                (coerce_hypotheses (get_or fs "hypotheses" null)) _
                (collect-IsShortList IsHypothesis hypothesis hypothesis-Gives
                  (get_or fs "hypotheses" null))
                (λ hs c.
                  bind-Gives (IsShortList IsRecommendation) _
                    (coerce_recommendations (get_or fs "recommendations" null)) _
                    (collect-IsShortList IsRecommendation recommendation recommendation-Gives
                      (get_or fs "recommendations" null))
                    (λ rs d.
                      bind-Gives (IsShortList IsTechnique) _
                        (coerce_mitre decimal rows (get_or fs "mitre_techniques" null)) _
                        (collect-IsShortList IsTechnique (technique decimal rows)
                          (λ o. technique_of-Gives o (get_or o "id" null))
                          (get_or fs "mitre_techniques" null))
                        (λ ts e.
                          bind-Gives (IsShortList IsIoc) _ (coerce_iocs (get_or fs "iocs" null)) _
                            (collect-IsShortList IsIoc ioc ioc-Gives (get_or fs "iocs" null))
                            (λ is i. record {
                              summary = coerce_str-bound (get_or fs "summary" null) 1000;
                              explanation = coerce_str-bound (get_or fs "explanation" null) 5000;
                              severity = a;
                              percent = b;
                              hypotheses = c;
                              recommendations = d;
                              techniques = e;
                              iocs = i;
                            }))))))
