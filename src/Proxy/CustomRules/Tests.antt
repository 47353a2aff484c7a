-- ===== src/Proxy/CustomRules/Tests.antt =====
-- Rules and exclusions of samples, and the theorems at those inputs.
use wardnode.Base.{ℕ, ◌≡◌, ◌↔◌, refl, List, [], ◌∷◌, any}
use wardnode.Text.{
  trim_left, trim_right, trim, codes, strip, lstrip, rstrip, is_space, all_digits, decimal,
  is_digit, has_prefix, contains, to_lower, is_upper,
}
use wardnode.Proxy.CustomRules.{
  statements, collect, split_lines, is_break, join, continuation, has_ctl, rule_id, found_at,
  after_word, digits_value,
}
use wardnode.Proxy.CustomRules.Rule.{
  disallowed_token, foreign_id, count, statement_errors, all_errors, ids_of, has_duplicates,
  token_errors, validate_custom_rule,
}
use wardnode.Proxy.CustomRules.Exclusions.{
  excluded, rejected, critical_id, is_critical, validate_rule_exclusion, IsExcludable,
  validate_rule_exclusion_iff,
}

abbrev rule : List ℕ
rule = codes "SecRule ARGS \"@rx x\" \\\n  \"ID : '1000001',deny\"\n# end"

joined : statements rule ≡ codes "SecRule ARGS \"@rx x\" \"ID : '1000001',deny\"" ∷ []
unfolding statements collect split_lines is_break trim trim_left trim_right is_space join
    continuation
joined = refl

abbrev plain_rule : List ℕ
plain_rule = codes "SecAction \"id:1000001,deny\""

refused :
    validate_custom_rule (codes "x") (codes "SecAction \"exec:y,id:5\"")
    ≡ disallowed_token "exec:" ∷ foreign_id 1 5 ∷ []
unfolding validate_custom_rule statements collect split_lines is_break trim trim_left trim_right
    is_space join continuation has_ctl rule_id found_at after_word digits_value is_digit count
    statement_errors all_errors ids_of has_duplicates token_errors has_prefix contains to_lower
    is_upper any
refused = refl

-- The first `id:` of the text counts, though it stands in the operator and the action is id 5.
operator_id :
    validate_custom_rule (codes "x") (codes "SecRule ARGS \"id:1000001\" \"id:5,deny\"") ≡ []
unfolding validate_custom_rule statements collect split_lines is_break trim trim_left trim_right
    is_space join continuation has_ctl rule_id found_at after_word digits_value is_digit count
    statement_errors all_errors ids_of has_duplicates token_errors has_prefix contains to_lower
    is_upper any
operator_id = refl

critical : validate_rule_exclusion "949110" 0 ≡ rejected critical_id
unfolding validate_rule_exclusion strip lstrip rstrip is_space all_digits is_digit decimal
    is_critical any
critical = refl

allowed : validate_rule_exclusion " 942100 " 12 ≡ excluded 942100
unfolding validate_rule_exclusion strip lstrip rstrip is_space all_digits is_digit decimal
    is_critical any
allowed = refl

validate_rule_exclusion_iff_example :
    (validate_rule_exclusion " 942100 " 12 ≡ excluded 942100)
    ↔ IsExcludable (strip " 942100 ") 12 942100
validate_rule_exclusion_iff_example = validate_rule_exclusion_iff " 942100 " 12 942100
