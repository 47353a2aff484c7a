-- ===== src/Soc/Schema/Salvage.antt =====
-- The text around the JSON: fences, a first block in braces, and the fields of a broken one.
use wardnode.Base.{
  ℕ, suc, ◌+◌, ◌*◌, min, String, Bool, ◌&&◌, ◌||◌, Option, none, some, List, [], ◌∷◌, ◌++◌, take,
  drop, length, ltb, ◌=?◌, if◌then◌else◌,
}
use wardnode.Base.Options.{◌>>=◌}
use wardnode.Text.{same, codes, trim, trim_left, trim_right, has_prefix, is_lower, is_upper}
use wardnode.Json.{Json, Fields, object}
use wardnode.Soc.MitreCti.{Row}
use wardnode.Soc.Schema.{Analysis, empty_analysis, severities, coerce_str, normalize_fields}

-- What `json.loads` does: a value, `ValueError`, or another exception, as for a text that is nested
-- too deep.
pub data Loaded : Type 0 where
  loaded : Json → Loaded
  value_error other_error : Loaded

-- `_strip_fences`
abbrev pub is_letter : ℕ → Bool
is_letter c = is_lower c || is_upper c

unfoldable pub drop_letters : List ℕ → List ℕ
drop_letters [] = []
drop_letters (c ∷ s) = let rest = drop_letters s in if is_letter c then rest else c ∷ s

-- The text without three backticks at its end and the white space before them.
unfoldable pub drop_fence : List ℕ → List ℕ
drop_fence (a ∷ b ∷ c ∷ []) = if a =? b'`' && b =? b'`' && c =? b'`' then [] else a ∷ b ∷ c ∷ []
drop_fence [] = []
drop_fence (a ∷ s) = a ∷ drop_fence s

abbrev pub ends_in_fence : List ℕ → List ℕ → Bool
ends_in_fence s t = ltb (length t) (length s)

abbrev pub without_fence : List ℕ → List ℕ
without_fence s = if ends_in_fence s (drop_fence s) then trim_right (drop_fence s) else s

unfoldable pub strip_fences : List ℕ → List ℕ
unfolding drop_letters drop_fence trim trim_left trim_right has_prefix
strip_fences raw =
    let body = trim raw in
    if has_prefix (codes "```") body
    then trim (without_fence (trim_left (drop_letters (drop 3 body))))
    else body

-- The part from the first opening brace to the last closing one.
unfoldable pub from_open : List ℕ → List ℕ
from_open [] = []
from_open (c ∷ s) = let rest = from_open s in if c =? b'{' then c ∷ s else rest

unfoldable pub to_close : List ℕ → Option (List ℕ)
to_close [] = none
to_close (c ∷ s) =
    let rest = to_close s in
    elim rest [ some t ↦ some (c ∷ t) | none ↦ if c =? b'}' then some (c ∷ []) else none ]

-- White space, a colon and white space after the name of a field in quotes, wherever that stands
-- first with a value that `value` reads.
abbrev pub after_colon : List ℕ → Option (List ℕ)
after_colon [] = none
after_colon (c ∷ s) = if c =? b':' then some (trim_left s) else none

abbrev pub quoted : String → List ℕ
quoted name = b'"' ∷ (codes name ++ (b'"' ∷ []))

abbrev pub field_at {ℓ} : {A : Type ℓ} → String → (List ℕ → Option A) → List ℕ → Option A
field_at name value s =
    if has_prefix (quoted name) s
    then after_colon (trim_left (drop (length (quoted name)) s)) >>= value
    else none

abbrev pub first_of {ℓ} : {A : Type ℓ} → Option A → Option A → Option A
first_of (some a) o = some a
first_of none o = o

unfoldable pub search_field {ℓ} : {A : Type ℓ} → String → (List ℕ → Option A) → List ℕ → Option A
search_field name value [] = field_at name value []
search_field name value (c ∷ s) = first_of (field_at name value (c ∷ s)) (search_field name value s)

-- `(?:\\.|[^"\\])*"`, what is left of a text in quotes; a dot is no line feed.
abbrev pub put_first : ℕ → Option (List ℕ) → Option (List ℕ)
put_first c none = none
put_first c (some s) = some (c ∷ s)

unfoldable pub literal_rest : List ℕ → Option (List ℕ)
literal_rest [] = none
literal_rest (c ∷ []) = if c =? b'"' then some (c ∷ []) else none
literal_rest (c ∷ d ∷ s) =
    let escaped = put_first c (put_first d (literal_rest s)) in
    let plain = put_first c (literal_rest (d ∷ s)) in
    if c =? b'"'
    then some (c ∷ [])
    else (if c =? b'\\' then (if d =? 10 then none else escaped) else plain)

abbrev pub literal : List ℕ → Option (List ℕ)
literal [] = none
literal (c ∷ s) = if c =? b'"' then put_first c (literal_rest s) else none

-- `"([^"]+)"`
unfoldable pub to_quote : List ℕ → Option (List ℕ)
to_quote [] = none
to_quote (c ∷ s) = let rest = to_quote s in if c =? b'"' then some [] else put_first c rest

abbrev pub not_empty : List ℕ → Option (List ℕ)
not_empty [] = none
not_empty (c ∷ s) = some (c ∷ s)

abbrev pub plain_value : List ℕ → Option (List ℕ)
plain_value [] = none
plain_value (c ∷ s) = if c =? b'"' then to_quote s >>= not_empty else none

module _ (decimal : ℕ → Option ℕ) where
  -- `(\d+)`, as its value with its length; `int` refuses more than 4300 digits.
  abbrev pub add_digit : ℕ × ℕ → Option ℕ → (ℕ × ℕ → ℕ × ℕ) → ℕ × ℕ
  add_digit acc none go = acc
  add_digit acc (some d) go = go (acc.0 * 10 + d, suc acc.1)

  unfoldable pub digits : List ℕ → ℕ × ℕ → ℕ × ℕ
  digits [] acc = acc
  digits (c ∷ s) acc = add_digit acc (decimal c) (digits s)

  abbrev pub number_value : List ℕ → Option (ℕ × ℕ)
  number_value s = let found = digits s (0, 0) in if found.1 =? 0 then none else some found

abbrev pub confidence_of : Option (ℕ × ℕ) → ℕ
confidence_of none = 0
confidence_of (some found) = if ltb 4300 found.1 then 0 else min 100 found.0

-- The severity if it is one of the four.
unfoldable pub severity_of : List String → Option (List ℕ) → String
severity_of names none = "medium"
severity_of [] (some s) = "medium"
severity_of (n ∷ names) (some s) =
    let rest = severity_of names (some s) in if same (codes n) s then n else rest

module _ (loads : List ℕ → Loaded) (decimal : ℕ → Option ℕ) (rows : Option (List Row)) where
  -- A text that `json.loads` reads in turn; any exception leaves the field empty.
  abbrev pub text_of : Loaded → ℕ → List ℕ
  text_of (loaded j) n = coerce_str j n
  text_of _ n = []

  abbrev pub literal_text : Option (List ℕ) → ℕ → List ℕ
  literal_text none n = []
  literal_text (some s) n = text_of (loads s) n

  -- `_salvage_partial`
  unfoldable pub salvage_partial : List ℕ → Analysis
  unfolding strip_fences search_field literal_rest to_quote digits severity_of has_prefix
  salvage_partial raw =
      let body = strip_fences raw in
      if has_prefix (codes "{") body
      then record empty_analysis {
        summary = literal_text (search_field "summary" literal body) 1000;
        explanation = literal_text (search_field "explanation" literal body) 5000;
        severity_suggested =
            severity_of severities (search_field "severity_suggested" plain_value body);
        confidence = confidence_of (search_field "confidence" (number_value decimal) body);
      }
      else record empty_analysis { summary = take 1000 body }

  -- `_parse_json`: an exception, nothing, or a dictionary
  abbrev pub dictionary : Json → Option (Option Fields)
  dictionary (object fs) = some (some fs)
  dictionary _ = some none

  abbrev pub block_fields : Loaded → Option (Option Fields)
  block_fields (loaded j) = dictionary j
  block_fields value_error = some none
  block_fields other_error = none

  abbrev pub second_try : Option (List ℕ) → Option (Option Fields)
  second_try none = some none
  second_try (some block) = block_fields (loads block)

  abbrev pub first_try : List ℕ → Loaded → Option (Option Fields)
  first_try body (loaded j) = dictionary j
  first_try body value_error = second_try (to_close (from_open body))
  first_try body other_error = none

  unfoldable pub parse_json : List ℕ → Option (Option Fields)
  unfolding strip_fences from_open to_close
  parse_json raw = first_try (strip_fences raw) (loads (strip_fences raw))

  -- `normalize_llm_output` of a text, or of a value that is none; `none` is an exception.
  abbrev pub analysis_of : List ℕ → Option Fields → Option Analysis
  analysis_of raw none = some (salvage_partial raw)
  analysis_of raw (some fs) = normalize_fields decimal rows fs

  unfoldable pub normalize_llm_output : Option (List ℕ) → Option Analysis
  unfolding parse_json
  normalize_llm_output none = some empty_analysis
  normalize_llm_output (some raw) = parse_json raw >>= analysis_of raw
