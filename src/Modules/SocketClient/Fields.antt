-- ===== src/Modules/SocketClient/Fields.antt =====
-- `valid_port`, `valid_proto` and `valid_rule_num`: the fields of a firewall rule, on code points.
-- The `$` of the expressions also stands before a line feed at the end, which `int` then strips.
use wardnode.Base.{
  ℕ, ◌+◌, ◌-◌, ◌*◌, String, Bool, true, false, ◌&&◌, ◌||◌, List, [], ◌∷◌, map, all, length, leb,
  ◌=?◌, ◌==◌, if◌then◌else◌, ◌≡◌, refl,
}
use wardnode.Text.{codes, is_digit}

abbrev shortened : ℕ → List ℕ → List ℕ
shortened c [] = if c =? 10 then [] else c ∷ []
shortened c (d ∷ s) = c ∷ d ∷ s

-- The text without a line feed at its end.
unfoldable pub without_newline : List ℕ → List ℕ
without_newline [] = []
without_newline (c ∷ []) = shortened c []
without_newline (c ∷ d ∷ s) = c ∷ without_newline (d ∷ s)

-- `^\d{1,n}$`
unfoldable pub is_number : ℕ → List ℕ → Bool
unfolding without_newline is_digit all
is_number n s =
    let digits = without_newline s in
    leb 1 (length digits) && leb (length digits) n && all is_digit digits

unfoldable pub value : ℕ → List ℕ → ℕ
unfolding is_digit
value n [] = n
value n (c ∷ s) = value (n * 10 + (c - b'0')) s

unfoldable pub valid_port : List ℕ → Bool
unfolding is_number value
valid_port p = let n = value 0 (without_newline p) in is_number 5 p && leb 1 n && leb n 65535

unfoldable valid_proto : String → Bool
valid_proto p = p == "tcp" || p == "udp" || p == "any"

unfoldable pub valid_rule_num : List ℕ → Bool
unfolding is_number
valid_rule_num n = is_number 3 n

ports :
    map valid_port
      (codes "443" ∷ codes "0" ∷ codes "65536" ∷ codes "22\n" ∷ codes "123456" ∷ codes "8a" ∷ [])
    ≡ true ∷ false ∷ false ∷ true ∷ false ∷ false ∷ []
unfolding valid_port without_newline
ports = refl

protocols :
    (map valid_proto ("tcp" ∷ "any" ∷ "icmp" ∷ []) ≡ true ∷ true ∷ false ∷ [])
    × (map valid_rule_num (codes "12" ∷ codes "" ∷ codes "1234" ∷ []) ≡ true ∷ false ∷ false ∷ [])
unfolding valid_proto valid_rule_num
protocols = (refl, refl)
