-- ===== src/Soc/Schema/Tests.antt =====
-- Answers of a model, and what is kept of them.
use wardnode.Base.{
  ℕ, ◌-◌, false, ◌≡◌, refl, subst, Option, none, some, List, [], ◌∷◌, if◌then◌else◌,
}
use wardnode.Text.{same, codes, is_digit, is_lower, is_upper}
use wardnode.Json.{
  Fields, field, no_fields, item, no_items, infinite, number, fraction, text, items, object, get_or,
  in_texts,
}
use wardnode.Text.{pos}
use wardnode.Soc.Schema.{
  Recommendation, Analysis, empty_analysis, coerce_confidence, collect, normalize_fields,
}
use wardnode.Soc.Schema.Salvage.{Loaded, loaded, value_error, parse_json, normalize_llm_output}
use wardnode.Soc.Schema.Total.{IsTame, IsSome, is_finite, is_hashable}
use wardnode.Soc.Schema.Answers.{normalize_llm_output-IsSome}

abbrev decimal : ℕ → Option ℕ
decimal c = if is_digit c then some (c - b'0') else none

abbrev a_step : Fields
a_step =
    field "text" (text "bloquear")
      (field "priority" (text "urgente") (field "action_type" (text "bloquear_ip") no_fields))

abbrev an_answer : Fields
an_answer = field "summary" (text "Escaneo") (
    field "confidence" (number (pos 250))
      (field "recommendations" (items (item (object a_step) no_items)) no_fields))

abbrev loads : List ℕ → Loaded
loads s = if same (codes "{1}") s then loaded (object an_answer) else value_error

-- An infinite confidence is not caught.
infinite_test :
    normalize_fields decimal none (field "confidence" (fraction false infinite) no_fields) ≡ none
unfolding normalize_fields coerce_confidence get_or in_texts collect
infinite_test = refl

-- Neither is a list in place of a severity.
unhashable_test :
    normalize_fields decimal none (field "severity_suggested" (items no_items) no_fields) ≡ none
unfolding normalize_fields get_or in_texts
unhashable_test = refl

an_answer-IsTame : IsTame an_answer
unfolding get_or is_finite is_hashable
an_answer-IsTame = record {
  severity = refl;
  percent = refl;
  hypotheses = tt;
  recommendations = (refl, tt);
  iocs = tt;
}

abbrev raw : List ℕ
raw = codes "```json {1} ```"

read_test : parse_json loads decimal none raw ≡ some (some an_answer)
unfolding parse_json same is_lower is_upper
read_test = refl

fields_injective : {a b : Fields} → some a ≡ some b → a ≡ b
fields_injective {a} {b} h = cc

normalize_llm_output-IsSome_example : IsSome (normalize_llm_output loads decimal none (some raw))
normalize_llm_output-IsSome_example =
    normalize_llm_output-IsSome loads decimal none raw
      (some an_answer, read_test, λ fs h. subst IsTame (fields_injective h) an_answer-IsTame)

-- The confidence is brought down to 100, the unknown priority is replaced.
abbrev a_recommendation : Recommendation
a_recommendation = record {
  statement = codes "bloquear";
  priority = "media";
  action_type = "bloquear_ip";
}

abbrev an_analysis : Analysis
an_analysis = record empty_analysis {
  summary = codes "Escaneo";
  confidence = 100;
  recommendations = a_recommendation ∷ [];
}
