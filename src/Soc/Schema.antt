-- ===== src/Soc/Schema.antt =====
-- app/soc/schema.py: what the console keeps of a language model's answer. Texts are lists of code
-- points. `json.loads` and the value of a digit are parameters.
pub mod Salvage
pub mod Normal
pub mod Parts
pub mod Total
pub mod Answers
mod Tests
use wardnode.Base.{
  ℕ, suc, ◌+◌, ◌*◌, min, max, String, Bool, true, false, ◌&&◌, ◌||◌, Option, none, some, is_some,
  List, [], ◌∷◌, map, take, any, length, ltb, ◌=?◌, ◌==◌, if◌then◌else◌,
}
use wardnode.Base.Options.{◌>>=◌}
use wardnode.Text.{
  codes, int, clamp, trim, trim_left, trim_right, has_prefix, is_lower, is_upper, PyInt, pos,
  negsuc,
}
use wardnode.Json.{
  Json, Items, Fields, Truncated, truncated, not_a_number, infinite, null, flag, number, fraction,
  text, items, object, get_or, list_of, in_texts,
}
use wardnode.Soc.MitreCti.{Row, is_technique_id, lookup_technique, is_table_empty}

abbrev pub severities : List String
severities = "critical" ∷ "high" ∷ "medium" ∷ "low" ∷ []

abbrev pub priorities : List String
priorities = "alta" ∷ "media" ∷ "baja" ∷ []

abbrev pub action_types : List String
action_types = "bloquear_ip" ∷ "ajustar_regla" ∷ "investigar" ∷ "monitorear" ∷ []

abbrev pub ioc_types : List String
ioc_types = "ip" ∷ "domain" ∷ "url" ∷ "path" ∷ "user_agent" ∷ "hash" ∷ []

pub record Hypothesis : Type 0 where
  pub statement : List ℕ
  pub confidence : ℕ

pub record Recommendation : Type 0 where
  pub statement : List ℕ
  pub priority : String
  pub action_type : String

pub record Technique : Type 0 where
  pub id : String
  pub name : List ℕ
  pub tactic : List ℕ

pub record Ioc : Type 0 where
  pub kind : String
  pub value : List ℕ

pub record Analysis : Type 0 where
  pub summary : List ℕ
  pub explanation : List ℕ
  pub severity_suggested : String
  pub confidence : ℕ
  pub hypotheses : List Hypothesis
  pub recommendations : List Recommendation
  pub mitre_techniques : List Technique
  pub iocs : List Ioc

-- `EMPTY_ANALYSIS`
abbrev pub empty_analysis : Analysis
empty_analysis = record {
  summary = [];
  explanation = [];
  severity_suggested = "medium";
  confidence = 0;
  hypotheses = [];
  recommendations = [];
  mitre_techniques = [];
  iocs = [];
}

-- `_coerce_str`
abbrev pub coerce_str : Json → ℕ → List ℕ
coerce_str (text s) n = take n (codes s)
coerce_str _ n = []

-- `_coerce_confidence`: `int` of an infinite number raises `OverflowError`, which is not caught.
abbrev pub int_or_zero : Option PyInt → ℕ
int_or_zero none = 0
int_or_zero (some n) = clamp 0 100 n

unfoldable pub coerce_confidence : Json → Option ℕ
unfolding int
coerce_confidence (number n) = some (clamp 0 100 n)
coerce_confidence (flag b) = some (if b then 1 else 0)
coerce_confidence (fraction z (truncated n)) = some (clamp 0 100 n)
coerce_confidence (fraction z not_a_number) = some 0
coerce_confidence (fraction z infinite) = none
coerce_confidence (text s) = some (int_or_zero (int s))
coerce_confidence _ = some 0

-- The first ten elements of a list; what is no list has none.
abbrev pub elements : Json → List Json
elements (items js) = take 10 (list_of js)
elements _ = []

-- The loops: what is made of each dictionary is kept if there is something; `none` is an exception.
abbrev pub prepend_some {ℓ} : {A : Type ℓ} → Option A → List A → List A
prepend_some none rest = rest
prepend_some (some a) rest = a ∷ rest

unfoldable pub collect {ℓ} :
    {A : Type ℓ} → (Fields → Option (Option A)) → List Json → Option (List A)
collect f [] = some []
collect f (object fs ∷ js) = do a ← f fs; rest ← collect f js; some (prepend_some a rest)
collect f (_ ∷ js) = collect f js

-- The value of a field that is one of some texts, or else the default.
abbrev pub text_or : Bool → Json → String → String
text_or true (text s) default = s
text_or _ _ default = default

abbrev pub one_of : List String → Json → String → Option String
one_of names j default = do found ← in_texts names j; some (text_or found j default)

-- `_coerce_hypotheses`
abbrev pub hypothesis : Fields → Option (Option Hypothesis)
hypothesis fs =
    let statement = coerce_str (get_or fs "text" null) 1000 in
    if length statement =? 0 then some none else (do
      confidence ← coerce_confidence (get_or fs "confidence" null)
      some (some (record { statement = statement; confidence = confidence })))

abbrev pub coerce_hypotheses : Json → Option (List Hypothesis)
coerce_hypotheses j = collect hypothesis (elements j)

-- `_coerce_recommendations`
abbrev pub recommendation : Fields → Option (Option Recommendation)
recommendation fs =
    let statement = coerce_str (get_or fs "text" null) 1000 in
    if length statement =? 0 then some none else (do
      priority ← one_of priorities (get_or fs "priority" null) "media"
      action_type ← one_of action_types (get_or fs "action_type" null) "investigar"
      some
          (some (record { statement = statement; priority = priority; action_type = action_type })))

abbrev pub coerce_recommendations : Json → Option (List Recommendation)
coerce_recommendations j = collect recommendation (elements j)

-- `_coerce_iocs`: the value is looked at only if the type is one of the six.
abbrev pub ioc_of : Bool → Json → List ℕ → Option Ioc
ioc_of true (text kind) value =
    if length value =? 0 then none else some (record { kind = kind; value = value })
ioc_of _ _ value = none

abbrev pub ioc : Fields → Option (Option Ioc)
ioc fs = do
  found ← in_texts ioc_types (get_or fs "type" null)
  some (ioc_of found (get_or fs "type" null) (coerce_str (get_or fs "value" null) 500))

abbrev pub coerce_iocs : Json → Option (List Ioc)
coerce_iocs j = collect ioc (elements j)

-- `_coerce_mitre`. Without the table, that is where asking for it raised, or with an empty one, the
-- name is the model's.
abbrev pub known_technique : String → Option Row → Option Technique
known_technique id none = none
known_technique id (some row) = some (record { id = id; name = row.name; tactic = row.tactic })

abbrev pub own_technique : Fields → String → Technique
own_technique fs id = record {
  id = id;
  name = coerce_str (get_or fs "name" null) 1000;
  tactic = [];
}

abbrev pub named_technique : Option (List Row) → Fields → String → Option Technique
named_technique none fs id = some (own_technique fs id)
named_technique (some table) fs id =
    if is_table_empty table
    then some (own_technique fs id)
    else known_technique id (lookup_technique table id)

abbrev pub is_decimal : (ℕ → Option ℕ) → ℕ → Bool
is_decimal decimal c = is_some (decimal c)

module _ (decimal : ℕ → Option ℕ) (rows : Option (List Row)) where
  abbrev pub technique_of : Fields → Json → Option Technique
  technique_of fs (text id) =
      if is_technique_id (is_decimal decimal) id then named_technique rows fs id else none
  technique_of fs _ = none

  abbrev pub technique : Fields → Option (Option Technique)
  technique fs = some (technique_of fs (get_or fs "id" null))

  abbrev pub coerce_mitre : Json → Option (List Technique)
  coerce_mitre j = collect technique (elements j)

  -- The dictionary that `normalize_llm_output` makes of what was read.
  unfoldable pub normalize_fields : Fields → Option Analysis
  unfolding collect coerce_confidence
  normalize_fields fs = do
    severity ← one_of severities (get_or fs "severity_suggested" null) "medium"
    confidence ← coerce_confidence (get_or fs "confidence" null)
    hypotheses ← coerce_hypotheses (get_or fs "hypotheses" null)
    recommendations ← coerce_recommendations (get_or fs "recommendations" null)
    techniques ← coerce_mitre (get_or fs "mitre_techniques" null)
    iocs ← coerce_iocs (get_or fs "iocs" null)
    some (record {
      summary = coerce_str (get_or fs "summary" null) 1000;
      explanation = coerce_str (get_or fs "explanation" null) 5000;
      severity_suggested = severity;
      confidence = confidence;
      hypotheses = hypotheses;
      recommendations = recommendations;
      mitre_techniques = techniques;
      iocs = iocs;
    })
