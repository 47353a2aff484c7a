-- ===== src/Proxy/CustomRules/Rule.antt =====
-- `validate_custom_rule`: the errors of a custom rule, in the order in which they are reported.
use wardnode.Base.{
  ℕ, suc, ◌%◌, String, Bool, true, false, not, ◌||◌, Option, none, some, List, [], ◌∷◌, ◌++◌, map,
  ltb, ◌=?◌, any, length, if◌then◌else◌,
}
use wardnode.Text.{codes, has_prefix, contains, to_lower}
use wardnode.Proxy.CustomRules.{
  custom_rule_id_min, custom_rule_id_max, max_rule_text_length, disallowed_rule_tokens, statements,
  has_ctl, rule_id,
}

pub data RuleError : Type 0 where
  no_name long_name no_text long_text single_quotes ctl_action no_statements duplicate_ids :
      RuleError
  disallowed_token : String → RuleError
  not_directive unbalanced_double unbalanced_single no_id : ℕ → RuleError
  foreign_id : ℕ → ℕ → RuleError

-- `if test: errors.append(error)`
abbrev pub report : Bool → RuleError → List RuleError
report false e = []
report true e = e ∷ []

-- `text.count(char)`
unfoldable pub count : ℕ → List ℕ → ℕ
count c [] = 0
count c (d ∷ s) = if d =? c then suc (count c s) else count c s

abbrev pub is_directive : List ℕ → Bool
is_directive s = has_prefix (codes "SecRule ") s || has_prefix (codes "SecAction ") s

abbrev pub is_foreign : ℕ → Bool
is_foreign n = ltb n custom_rule_id_min || ltb custom_rule_id_max n

abbrev pub id_errors : ℕ → Option ℕ → List RuleError
id_errors index none = no_id index ∷ []
id_errors index (some n) = report (is_foreign n) (foreign_id index n)

unfoldable pub statement_errors : ℕ → List ℕ → List RuleError
statement_errors index s =
    report (not (is_directive s)) (not_directive index)
    ++ (report (not (count b'"' s % 2 =? 0)) (unbalanced_double index)
        ++ (report (not (count b'\'' s % 2 =? 0)) (unbalanced_single index)
            ++ id_errors index (rule_id false s)))

unfoldable pub all_errors : ℕ → List (List ℕ) → List RuleError
all_errors index [] = []
all_errors index (s ∷ rest) = statement_errors index s ++ all_errors (suc index) rest

abbrev pub with_id : Option ℕ → List ℕ → List ℕ
with_id none ids = ids
with_id (some n) ids = n ∷ ids

unfoldable pub ids_of : List (List ℕ) → List ℕ
ids_of [] = []
ids_of (s ∷ rest) = with_id (rule_id false s) (ids_of rest)

-- `len(ids) != len(set(ids))`
unfoldable pub has_duplicates : List ℕ → Bool
has_duplicates [] = false
has_duplicates (n ∷ ns) = any (λ m. m =? n) ns || has_duplicates ns

unfoldable pub token_errors : List String → List ℕ → List RuleError
token_errors [] lowered = []
token_errors (t ∷ ts) lowered =
    report (contains (codes t) lowered) (disallowed_token t) ++ token_errors ts lowered

abbrev pub statements_errors : List (List ℕ) → List RuleError
statements_errors [] = no_statements ∷ []
statements_errors (s ∷ rest) =
    all_errors 1 (s ∷ rest) ++ report (has_duplicates (ids_of (s ∷ rest))) duplicate_ids

abbrev pub text_errors : List ℕ → List RuleError
text_errors text =
    report (ltb max_rule_text_length (length text)) long_text
    ++ (report (any (λ c. c =? b'\'') text) single_quotes
        ++ (token_errors disallowed_rule_tokens (map to_lower text)
            ++ (report (has_ctl false (map to_lower text)) ctl_action
                ++ statements_errors (statements text))))

-- `validate_custom_rule`
unfoldable pub validate_custom_rule : List ℕ → List ℕ → List RuleError
validate_custom_rule name text =
    report (length name =? 0) no_name
    ++ (report (ltb 160 (length name)) long_name
        ++ (if length text =? 0 then no_text ∷ [] else text_errors text))
