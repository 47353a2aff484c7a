-- ===== src/Proxy/CustomRules/Exclusions.antt =====
-- `validate_rule_exclusion`: which core rule may be switched off for a site.
use wardnode.Base.{
  ℕ, ◌≤◌, ◌≡◌, ◌↔◌, refl, String, Bool, true, false, not, ◌&&◌, ◌==◌, ltb, leb, ◌=?◌, any,
  if◌then◌else◌, arith, subst,
}
use wardnode.Text.{strip, all_digits, decimal}
use wardnode.Proxy.CustomRules.{
  custom_rule_id_min, custom_rule_id_max, crs_rule_id_min, crs_rule_id_max, critical_crs_rule_ids,
  max_exclusion_comment_length,
}

pub data ExclusionError : Type 0 where
  no_id not_a_number custom_id outside_crs critical_id long_comment : ExclusionError

pub data Exclusion : Type 0 where
  excluded : ℕ → Exclusion
  rejected : ExclusionError → Exclusion

-- `rule_id in CRITICAL_CRS_RULE_IDS`
unfoldable pub is_critical : ℕ → Bool
is_critical rule_id = any (λ n. n =? rule_id) critical_crs_rule_ids

-- The checks of an id that was read.
abbrev pub check_id : Bool → ℕ → ℕ → Exclusion
check_id critical rule_id comment_length =
    if leb custom_rule_id_min rule_id && leb rule_id custom_rule_id_max
    then rejected custom_id
    else if not (leb crs_rule_id_min rule_id && leb rule_id crs_rule_id_max)
    then rejected outside_crs
    else if critical
    then rejected critical_id
    else if ltb max_exclusion_comment_length comment_length
    then rejected long_comment
    else excluded rule_id

abbrev pub check_raw : String → ℕ → Exclusion
check_raw raw comment_length =
    if raw == ""
    then rejected no_id
    else if not (all_digits raw)
    then rejected not_a_number
    else check_id (is_critical (decimal 0 raw)) (decimal 0 raw) comment_length

-- `validate_rule_exclusion`, with the comment's length
unfoldable pub validate_rule_exclusion : String → ℕ → Exclusion
validate_rule_exclusion raw comment_length = check_raw (strip raw) comment_length

-- What an exclusion must be: decimal digits of a core rule that is not critical.
pub record IsExcludable (raw : String) (comment_length id : ℕ) : Type 0 where
  pub filled : (raw == "") ≡ false
  pub digits : all_digits raw ≡ true
  pub value : decimal 0 raw ≡ id
  pub from_min : 900_000 ≤ id
  pub to_max : id ≤ 999_999
  pub uncritical : is_critical id ≡ false
  pub comment : comment_length ≤ 200

check_id-excluded :
    (b : Bool) (n k id : ℕ)
    → check_id b n k ≡ excluded id
    → (n ≡ id) × (900_000 ≤ n) × (n ≤ 999_999) × (b ≡ false) × (k ≤ 200)
check_id-excluded b n k id h =
    (ground (arith, h), ground (arith, h), ground (arith, h), ground (arith, h), ground (arith, h))

check_id-accepts :
    (b : Bool) (n k : ℕ)
    → 900_000 ≤ n
    → n ≤ 999_999
    → b ≡ false
    → k ≤ 200
    → check_id b n k ≡ excluded n
check_id-accepts b n k lo hi e short = ground (arith, lo, hi, e, short)

module _ (raw : String) (k id : ℕ) where
  check_raw_cases :
      (e d : Bool)
      → (raw == "") ≡ e
      → all_digits raw ≡ d
      → (if e
          then rejected no_id
          else if not d
          then rejected not_a_number
          else check_id (is_critical (decimal 0 raw)) (decimal 0 raw) k)
        ≡ excluded id
      → IsExcludable raw k id
  check_raw_cases true d p q h = cc
  check_raw_cases false false p q h = cc
  check_raw_cases false true p q h =
      let c = check_id-excluded (is_critical (decimal 0 raw)) (decimal 0 raw) k id h in
      record {
        filled = p;
        digits = q;
        value = c.0;
        from_min = omega (arith, c.0, c.1);
        to_max = omega (arith, c.0, c.2);
        uncritical = subst (λ n. is_critical n ≡ false) c.0 c.3;
        comment = c.4;
      }

  check_raw_sound : check_raw raw k ≡ excluded id → IsExcludable raw k id
  check_raw_sound h = check_raw_cases (raw == "") (all_digits raw) refl refl h

  check_raw_complete : IsExcludable raw k id → check_raw raw k ≡ excluded id
  check_raw_complete h =
      rw (h.filled, h.digits, h.value)
        (check_id-accepts (is_critical id) id k h.from_min h.to_max h.uncritical h.comment)

-- An exclusion is accepted, with an id, exactly if the stripped text is that id in ASCII decimal
-- digits, the id is from 900000 to 999999 and not one of the critical rules, and the comment has
-- at most 200 characters.
pub validate_rule_exclusion_iff :
    (raw : String) (comment_length id : ℕ)
    → (validate_rule_exclusion raw comment_length ≡ excluded id)
      ↔ IsExcludable (strip raw) comment_length id
unfolding validate_rule_exclusion
validate_rule_exclusion_iff raw comment_length id = (
  check_raw_sound (strip raw) comment_length id,
  check_raw_complete (strip raw) comment_length id,
)
