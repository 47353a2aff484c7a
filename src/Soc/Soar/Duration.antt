-- ===== src/Soc/Soar/Duration.antt =====
-- app/soc/soar.py: the duration of a ban, its regular expression and the expiry that it gives.
-- Times are microseconds since the first day that a `datetime` has.
use Prim.Native.Char.{code}
use wardnode.Base.{
  ℕ, suc, ◌+◌, ◌-◌, ◌*◌, String, Bool, true, false, ◌&&◌, ◌||◌, Option, none, some, List, [], ◌∷◌,
  ltb, ◌=?◌, if◌then◌else◌,
}
use wardnode.Text.{codes, is_digit, PyInt, int}

abbrev pub hour : ℕ
hour = 3_600_000_000

-- `datetime.max`, and the largest number of days of a `timedelta`.
abbrev pub max_datetime : ℕ
max_datetime = 315_537_897_599_999_999

abbrev pub max_days : ℕ
max_days = 999_999_999

-- `^\d+[smhd]$`; the flag says that a digit has been read.
is_unit : ℕ → Bool
is_unit c = c =? b's' || c =? b'm' || c =? b'h' || c =? b'd'

duration_tail : List ℕ → Bool
duration_tail [] = true
duration_tail (c ∷ []) = c =? 10
duration_tail (c ∷ d ∷ s) = false

duration_from : Bool → List ℕ → Bool
unfolding is_digit is_unit duration_tail
duration_from after [] = false
duration_from after (c ∷ s) =
    let longer = duration_from true s in
    if is_digit c then longer else after && is_unit c && duration_tail s

unfoldable pub is_duration : String → Bool
unfolding duration_from
is_duration s = duration_from false (codes s)

-- `duration[:-1]` and `duration[-1]`; `none` is the `IndexError` of an empty text.
split_last : String → Option (String × ℕ)
split_last String.[] = none
split_last (String.◌∷◌ c s) = elim (split_last s) [
  | none ↦ some (String.[], code c)
  | some (front, last) ↦ some (String.◌∷◌ c front, last)
]

-- `_parse_duration_to_dt`: the expiry, nothing, or the `OverflowError` that its handler lets out.
-- All four `timedelta`s are built, the one of days first to overflow.
pub data Expiry : Type 0 where
  until : ℕ → Expiry
  unknown : Expiry
  overflow : Expiry

unit_length : ℕ → Option ℕ
unit_length c =
    if c =? b's'
    then some 1_000_000
    else if c =? b'm'
    then some 60_000_000
    else if c =? b'h'
    then some hour
    else if c =? b'd'
    then some (24 * hour)
    else none

-- A delta of zero is false, so `now + delta if delta else None` gives nothing for it.
abbrev add_delta : ℕ → ℕ → Option ℕ → Expiry
add_delta now value none = unknown
add_delta now value (some length) =
    if value =? 0
    then unknown
    else if ltb max_datetime (now + value * length)
    then overflow
    else until (now + value * length)

abbrev subtract_delta : ℕ → ℕ → Option ℕ → Expiry
subtract_delta now value none = unknown
subtract_delta now value (some length) =
    if ltb now (value * length) then overflow else until (now - value * length)

abbrev expiry_of : ℕ → ℕ → Option PyInt → Expiry
expiry_of now unit (some (PyInt.pos value)) =
    if ltb max_days value then overflow else add_delta now value (unit_length unit)
expiry_of now unit (some (PyInt.negsuc n)) =
    if ltb max_days (suc n) then overflow else subtract_delta now (suc n) (unit_length unit)
expiry_of now unit none = unknown

abbrev parse_parts : ℕ → Option (String × ℕ) → Expiry
parse_parts now none = unknown
parse_parts now (some (front, last)) = expiry_of now last (int front)

unfoldable pub parse_duration_to_dt : ℕ → String → Expiry
unfolding split_last unit_length
parse_duration_to_dt now duration = parse_parts now (split_last duration)
