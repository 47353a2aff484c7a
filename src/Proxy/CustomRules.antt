-- ===== src/Proxy/CustomRules.antt =====
-- app/proxy/custom_rules.py: what is accepted as a custom rule and as an exclusion of a core rule.
-- The texts are lists of code points; the errors are values in place of the messages.
pub mod Rule
pub mod Shown
pub mod Accepted
pub mod Exclusions
mod Tests
use wardnode.Base.{
  ℕ, zero, suc, ◌+◌, ◌-◌, ◌*◌, ◌%◌, String, Bool, true, false, not, ◌&&◌, ◌||◌, Option, none, some,
  List, [], ◌∷◌, ◌++◌, ltb, leb, ◌=?◌, any, length, if◌then◌else◌,
}
use wardnode.Text.{
  trim_left, trim_right, trim, codes, is_space, has_prefix, contains, is_digit, to_lower, strip,
  all_digits, decimal,
}

abbrev pub custom_rule_id_min : ℕ
custom_rule_id_min = 1_000_000

abbrev pub custom_rule_id_max : ℕ
custom_rule_id_max = 1_999_999

abbrev pub max_rule_text_length : ℕ
max_rule_text_length = 6000

-- `DISALLOWED_RULE_TOKENS`
abbrev pub disallowed_rule_tokens : List String
disallowed_rule_tokens = "include" ∷ "exec:" ∷ "lua:" ∷ []

abbrev pub crs_rule_id_min : ℕ
crs_rule_id_min = 900_000

abbrev pub crs_rule_id_max : ℕ
crs_rule_id_max = 999_999

abbrev pub critical_crs_rule_ids : List ℕ
critical_crs_rule_ids =
    901001 ∷ 901100 ∷ 901120 ∷ 901130 ∷ 901140 ∷ 901150 ∷ 901160 ∷ 901170 ∷ 901180 ∷ 901190 ∷ 901200
    ∷ 901210 ∷ 901220 ∷ 901230 ∷ 901240 ∷ 901250 ∷ 901260 ∷ 901270 ∷ 901300 ∷ 901310 ∷ 901320
    ∷ 901330 ∷ 901340 ∷ 901350 ∷ 901360 ∷ 901370 ∷ 901380 ∷ 901390 ∷ 901400 ∷ 901410 ∷ 901420
    ∷ 949110 ∷ 949111 ∷ 959100 ∷ 980130 ∷ 980140 ∷ 980170 ∷ []

abbrev pub max_exclusion_comment_length : ℕ
max_exclusion_comment_length = 200

-- `str.splitlines`; a CR and the LF after it are one break.
unfoldable pub is_break : ℕ → Bool
is_break c =
    (leb 10 c && leb c 13) || (leb 28 c && leb c 30) || c =? 0x85 || c =? 0x2028 || c =? 0x2029

abbrev prepend : ℕ → List (List ℕ) → List (List ℕ)
prepend c [] = (c ∷ []) ∷ []
prepend c (p ∷ ps) = (c ∷ p) ∷ ps

unfoldable pub split_lines : Bool → List ℕ → List (List ℕ)
unfolding is_break
split_lines after_cr [] = []
split_lines after_cr (c ∷ s) =
    let rest = split_lines (c =? 13) s in
    if after_cr && c =? 10 then rest else if is_break c then [] ∷ rest else prepend c rest

-- A line of the rule: nothing, a part that a backslash continues, or the end of a statement.
pub data Line : Type 0 where
  skipped : Line
  continued complete : List ℕ → Line

-- The line without its last character, if that is a backslash.
abbrev without_last : ℕ → Option (List ℕ) → List ℕ → Option (List ℕ)
without_last c none [] = if c =? b'\\' then some [] else none
without_last c none (d ∷ s) = none
without_last c (some t) s = some (c ∷ t)

unfoldable continuation : List ℕ → Option (List ℕ)
continuation [] = none
continuation (c ∷ s) = without_last c (continuation s) s

abbrev line_of : List ℕ → Line
line_of [] = skipped
line_of (c ∷ s) =
    if c =? b'#'
    then skipped
    else elim (continuation (c ∷ s)) [ none ↦ complete (c ∷ s) | some t ↦ continued (trim_right t) ]

-- `" ".join(parts)`
unfoldable pub join : List (List ℕ) → List ℕ
join [] = []
join (p ∷ []) = p
join (p ∷ q ∷ ps) = p ++ (32 ∷ join (q ∷ ps))

abbrev flush : List (List ℕ) → List (List ℕ)
flush [] = []
flush (p ∷ ps) = trim (join (p ∷ ps)) ∷ []

unfoldable collect : List (List ℕ) → List (List ℕ) → List (List ℕ)
unfolding continuation
collect [] current = flush current
collect (raw ∷ lines) current = elim (line_of (trim raw)) [
  | skipped ↦ collect lines current
  | continued part ↦ collect lines (current ++ (part ∷ []))
  | complete line ↦ trim (join (current ++ (line ∷ []))) ∷ collect lines []
]

-- `_statements`
unfoldable pub statements : List ℕ → List (List ℕ)
unfolding collect
statements text = collect (split_lines false text) []

-- `\w` on ASCII
abbrev pub is_word : ℕ → Bool
is_word c = is_digit c || (leb b'A' c && leb c b'Z') || (leb b'a' c && leb c b'z') || c =? b'_'

-- What follows a word that the text starts with, in any case.
unfoldable pub after_word : List ℕ → List ℕ → Option (List ℕ)
after_word [] s = some s
after_word (p ∷ ps) [] = none
after_word (p ∷ ps) (c ∷ s) = if to_lower c =? p then after_word ps s else none

-- What follows `\s*:`.
abbrev pub after_colon : List ℕ → Option (List ℕ)
after_colon [] = none
after_colon (c ∷ s) = if c =? b':' then some s else none

-- A word, white space and a colon, at a word boundary, as `re.search` finds them: what follows.
unfoldable pub found_at : List ℕ → Bool → List ℕ → Option (List ℕ)
unfolding after_word trim_left is_space is_digit to_lower
found_at word after s =
    if after
    then none
    else elim (after_word word s) [ none ↦ none | some t ↦ after_colon (trim_left t) ]

-- `_CTL_RE.search`
unfoldable pub has_ctl : Bool → List ℕ → Bool
unfolding found_at is_digit
has_ctl after [] = false
has_ctl after (c ∷ s) =
    let rest = has_ctl (is_word c) s in
    elim (found_at (codes "ctl") after (c ∷ s)) [ none ↦ rest | some t ↦ true ]

-- `(\d+)`, the longest run
unfoldable pub digits_value : ℕ → List ℕ → ℕ
unfolding is_digit
digits_value n [] = n
digits_value n (c ∷ s) = if is_digit c then digits_value (n * 10 + (c - b'0')) s else n

abbrev pub number_at : List ℕ → Option ℕ
number_at [] = none
number_at (c ∷ s) = if is_digit c then some (digits_value 0 (c ∷ s)) else none

abbrev pub without_quote : List ℕ → List ℕ
without_quote [] = []
without_quote (c ∷ s) = if c =? b'\'' then s else c ∷ s

-- `RULE_ID_RE.search`, and `int` of its group
abbrev pub id_at : Option (List ℕ) → Option ℕ
id_at none = none
id_at (some t) = number_at (without_quote (trim_left t))

unfoldable pub rule_id : Bool → List ℕ → Option ℕ
unfolding found_at trim_left is_space is_digit digits_value
rule_id after [] = none
rule_id after (c ∷ s) =
    let rest = rule_id (is_word c) s in
    elim (id_at (found_at (codes "id") after (c ∷ s))) [ none ↦ rest | some n ↦ some n ]
