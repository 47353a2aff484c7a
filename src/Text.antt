-- ===== src/Text.antt =====
-- Python's text operations, over the native strings: those that the modelled code calls.
-- `str.strip`, `str.split` at one character, `str.splitlines`, `startswith`, `endswith`,
-- `in`, `count`, `int`. Letters outside ASCII are left as they are by `lower`, and `int` reads
-- ASCII digits.
pub mod Laws
use Prim.Native.Char.{Char, code}
use mathlib.Core.Option
use wardnode.Base.{
  ℕ, zero, suc, ◌+◌, ◌-◌, ◌*◌, min, max, String, Bool, true, false, ◌&&◌, ◌||◌, Option, none, some,
  List, [], ◌∷◌, leb, ◌=?◌, if◌then◌else◌,
}

abbrev pub codes : String → List ℕ
codes String.[] = []
codes (String.◌∷◌ c s) = code c ∷ codes s

-- The white space of `str.strip` and `str.isspace`.
unfoldable pub is_space : ℕ → Bool
is_space c =
    (leb 9 c && leb c 13)
    || (leb 28 c && leb c 32)
    || c =? 0x85
    || c =? 0xa0
    || c =? 0x1680
    || (leb 0x2000 c && leb c 0x200a)
    || c =? 0x2028
    || c =? 0x2029
    || c =? 0x202f
    || c =? 0x205f
    || c =? 0x3000

unfoldable pub lstrip : String → String
lstrip String.[] = String.[]
lstrip (String.◌∷◌ c s) = let rest = lstrip s in if is_space (code c) then rest else String.◌∷◌ c s

is_blank : String → Bool
is_blank String.[] = true
is_blank (String.◌∷◌ c s) = false

unfoldable pub rstrip : String → String
unfolding is_blank
rstrip String.[] = String.[]
rstrip (String.◌∷◌ c s) =
    let rest = rstrip s in
    if is_space (code c) && is_blank rest then String.[] else String.◌∷◌ c rest

unfoldable pub strip : String → String
unfolding lstrip rstrip is_space
strip s = lstrip (rstrip s)

-- `s.split(sep)` at one character: the pieces between the separators, the empty ones too.
prepend : Char → List String → List String
prepend c [] = (String.◌∷◌ c String.[]) ∷ []
prepend c (p ∷ ps) = (String.◌∷◌ c p) ∷ ps

unfoldable pub split : ℕ → String → List String
unfolding prepend
split sep String.[] = String.[] ∷ []
split sep (String.◌∷◌ c s) =
    let rest = split sep s in if code c =? sep then String.[] ∷ rest else prepend c rest

-- `s.startswith(prefix)`, on code points.
unfoldable pub has_prefix : List ℕ → List ℕ → Bool
has_prefix [] s = true
has_prefix (p ∷ ps) [] = false
has_prefix (p ∷ ps) (c ∷ s) = p =? c && has_prefix ps s

-- `sub in s`, on code points.
unfoldable pub contains : List ℕ → List ℕ → Bool
unfolding has_prefix
contains sub [] = has_prefix sub []
contains sub (c ∷ s) = has_prefix sub (c ∷ s) || contains sub s

unfoldable pub is_digit : ℕ → Bool
is_digit c = leb b'0' c && leb c b'9'

unfoldable pub is_upper : ℕ → Bool
is_upper c = leb b'A' c && leb c b'Z'

unfoldable pub is_lower : ℕ → Bool
is_lower c = leb b'a' c && leb c b'z'

unfoldable pub to_lower : ℕ → ℕ
unfolding is_upper
to_lower c = if is_upper c then c + 32 else c

-- `str.isascii() and str.isdecimal()` of a text that is not empty: every character is 0 to 9.
unfoldable pub all_digits : String → Bool
unfolding is_digit
all_digits String.[] = true
all_digits (String.◌∷◌ c s) = is_digit (code c) && all_digits s

-- The value of a run of digits.
unfoldable pub decimal : ℕ → String → ℕ
decimal n String.[] = n
decimal n (String.◌∷◌ c s) = decimal (n * 10 + (code c - b'0')) s

-- `int(s)` for a text of ASCII digits with a sign, white space around it and single underscores
-- between digits; `none` is `ValueError`.
pub data PyInt : Type 0 where
  pos : ℕ → PyInt
  negsuc : ℕ → PyInt

abbrev pub negate : ℕ → PyInt
negate zero = pos 0
negate (suc n) = negsuc n

-- The flag says that the last character was a digit.
int_digits : ℕ → Bool → String → Option ℕ
unfolding is_digit
int_digits n after String.[] = if after then some n else none
int_digits n after (String.◌∷◌ c s) = elim (is_digit (code c)) [
  | true ↦ int_digits (n * 10 + (code c - b'0')) true s
  | false ↦ elim (code c =? b'_' && after) [ true ↦ int_digits n false s | false ↦ none ]
]

int_signed : String → Option PyInt
unfolding int_digits
int_signed String.[] = none
int_signed (String.◌∷◌ c s) =
    if code c =? b'-'
    then Option.map negate (int_digits 0 false s)
    else if code c =? b'+'
    then Option.map pos (int_digits 0 false s)
    else Option.map pos (int_digits 0 false (String.◌∷◌ c s))

unfoldable pub int : String → Option PyInt
unfolding strip int_signed
int s = int_signed (strip s)

-- `max(lo, min(hi, n))` for bounds that are not negative.
abbrev pub clamp : ℕ → ℕ → PyInt → ℕ
clamp lo hi (pos n) = max lo (min hi n)
clamp lo hi (negsuc n) = lo

-- `str.strip` on code points.
unfoldable pub trim_left : List ℕ → List ℕ
trim_left [] = []
trim_left (c ∷ s) = let rest = trim_left s in if is_space c then rest else c ∷ s

abbrev kept_char : ℕ → List ℕ → List ℕ
kept_char c [] = if is_space c then [] else c ∷ []
kept_char c (d ∷ s) = c ∷ d ∷ s

unfoldable pub trim_right : List ℕ → List ℕ
unfolding is_space
trim_right [] = []
trim_right (c ∷ s) = kept_char c (trim_right s)

unfoldable pub trim : List ℕ → List ℕ
unfolding trim_left trim_right is_space
trim s = trim_left (trim_right s)

-- Equality of texts as code points.
unfoldable pub same : List ℕ → List ℕ → Bool
same [] [] = true
same [] (d ∷ t) = false
same (c ∷ s) [] = false
same (c ∷ s) (d ∷ t) = c =? d && same s t
