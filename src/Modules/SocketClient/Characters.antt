-- ===== src/Modules/SocketClient/Characters.antt =====
-- Which characters an accepted field can hold.
use wardnode.Base.{
  ℕ, ◌+◌, ◌-◌, ◌*◌, ◌≡◌, refl, Bool, true, ◌&&◌, ◌||◌, ◌∙◌, List, [], ◌∷◌, leb, ◌=?◌, all, All,
  Bool-cases, inl, inr, arith,
}
use wardnode.Text.{is_digit}
use wardnode.Modules.SocketClient.{
  at_end, prefix_length, Match, no_match, matched, also, octets, is_hex_or_colon, short_prefix,
  v6_tail, matches_v6, decide, is_address,
}
use wardnode.Modules.SocketClient.Fields.{without_newline, is_number, valid_port, valid_rule_num}

-- A hexadecimal digit, a colon, a dot, a slash or a line feed.
unfoldable pub is_plain : ℕ → Bool
unfolding is_hex_or_colon is_digit
is_plain c = is_hex_or_colon c || c =? b'.' || c =? b'/' || c =? 10

abbrev pub IsPlain : List ℕ → Type 0
IsPlain s = All (λ c. is_plain c ≡ true) s

at_end-IsPlain : (s : List ℕ) → at_end s ≡ true → IsPlain s
unfolding is_plain
at_end-IsPlain [] h = tt
at_end-IsPlain (c ∷ []) h = ground (arith, h)
at_end-IsPlain (c ∷ d ∷ s) h = ground (arith, h)

prefix_length-IsPlain : (s : List ℕ) → prefix_length s ≡ true → IsPlain s
unfolding is_plain is_digit
prefix_length-IsPlain [] h = tt
prefix_length-IsPlain (a ∷ []) h = ground (arith, h)
prefix_length-IsPlain (a ∷ d ∷ []) h = ground (arith, h)
prefix_length-IsPlain (a ∷ d ∷ e ∷ t) h =
    ground (arith, h, at_end-IsPlain (e ∷ t), at_end-IsPlain t)

is_digit-plain : (c : ℕ) → is_digit c ≡ true → is_plain c ≡ true
unfolding is_plain is_digit
is_digit-plain c h = ground (arith, h)

also-matched :
    (ok : Bool) (m : Match) (b : Bool) → also ok m ≡ matched b → (r : Bool) × (m ≡ matched r)
unfolding also
also-matched ok no_match b h = cc
also-matched ok (matched r) b h = (r, refl)

no_match≢matched : (b : Bool) → no_match ≡ matched b → ⊥
no_match≢matched b h = cc

dot-plain : (c : ℕ) → (c =? b'.') ≡ true → is_plain c ≡ true
unfolding is_plain
dot-plain c h = ground (arith, h)

hex-plain : (c : ℕ) → is_hex_or_colon c ≡ true → is_plain c ≡ true
unfolding is_plain
hex-plain c h = ground (arith, h)

and_last : (a b c : Bool) → (a && b && c) ≡ true → c ≡ true
and_last a b c h = ground (arith, h)

octets-IsPlain :
    (dots width octet : ℕ) (s : List ℕ) (b : Bool)
    → octets dots width octet s ≡ matched b
    → IsPlain s
unfolding octets
octets-IsPlain dots width octet [] b h = tt
octets-IsPlain dots width octet (c ∷ s) b h = elim (Bool-cases (is_digit c)) [
  | inl d ↦ elim (Bool-cases (leb 3 width)) [
    | inl wide ↦ absurd (no_match≢matched b (rw (octets, d, wide) at h))
    | inr narrow ↦ (
      is_digit-plain c d,
      octets-IsPlain dots (width + 1) (octet * 10 + (c - b'0')) s b (rw (octets, d, narrow) at h),
    )
  ]
  | inr d ↦ elim (Bool-cases (c =? b'.' && leb 1 width && leb 1 dots)) [
    | inl dot ↦
        let rest =
          also-matched (leb octet 255) (octets (dots - 1) 0 0 s) b (rw (octets, d, dot) at h) in
        (dot-plain c (ground (arith, dot)), octets-IsPlain (dots - 1) 0 0 s rest.0 rest.1)
    | inr other ↦ elim (Bool-cases (dots =? 0 && leb 1 width && prefix_length (c ∷ s))) [
      | inl tail ↦
          prefix_length-IsPlain (c ∷ s)
            (and_last (dots =? 0) (leb 1 width) (prefix_length (c ∷ s)) tail)
      | inr none ↦ absurd (no_match≢matched b (rw (octets, d, other, none) at h))
    ]
  ]
]

short_prefix-IsPlain : (s : List ℕ) → short_prefix s ≡ true → IsPlain s
unfolding short_prefix is_plain is_digit
short_prefix-IsPlain [] h = tt
short_prefix-IsPlain (a ∷ []) h = ground (arith, h)
short_prefix-IsPlain (a ∷ b ∷ []) h = ground (arith, h)
short_prefix-IsPlain (a ∷ b ∷ c ∷ []) h = ground (arith, h)
short_prefix-IsPlain (a ∷ b ∷ c ∷ d ∷ s) h =
    ground (arith, h, at_end-IsPlain s, at_end-IsPlain (d ∷ s))

v6_tail-IsPlain : (s : List ℕ) → v6_tail s ≡ true → IsPlain s
unfolding v6_tail
v6_tail-IsPlain [] h = tt
v6_tail-IsPlain (c ∷ s) h = elim (Bool-cases (is_hex_or_colon c)) [
  | inl e ↦ (hex-plain c e, v6_tail-IsPlain s (rw (v6_tail, e) at h))
  | inr e ↦ short_prefix-IsPlain (c ∷ s) (rw (v6_tail, e) at h)
]

matches_v6-IsPlain : (s : List ℕ) → matches_v6 s ≡ true → IsPlain s
unfolding matches_v6
matches_v6-IsPlain [] h = tt
matches_v6-IsPlain (c ∷ s) h =
    (hex-plain c (ground (arith, h)), v6_tail-IsPlain s (ground (arith, h)))

is_address_cases :
    (m : Match) (v6 : Bool) (s : List ℕ)
    → octets 3 0 0 s ≡ m
    → matches_v6 s ≡ v6
    → decide m v6 ≡ true
    → IsPlain s
is_address_cases no_match v6 s p q h = matches_v6-IsPlain s (q ∙ h)
is_address_cases (matched r) v6 s p q h = octets-IsPlain 3 0 0 s r p

pub is_address-IsPlain : (s : List ℕ) → is_address s ≡ true → IsPlain s
unfolding is_address
is_address-IsPlain s h = is_address_cases (octets 3 0 0 s) (matches_v6 s) s refl refl h

without_newline-IsPlain : (s : List ℕ) → all is_digit (without_newline s) ≡ true → IsPlain s
unfolding without_newline all is_plain is_digit is_hex_or_colon
without_newline-IsPlain [] h = tt
without_newline-IsPlain (c ∷ []) h = ground (arith, h)
without_newline-IsPlain (c ∷ d ∷ s) h = ground (arith, h, without_newline-IsPlain (d ∷ s))

pub is_number-IsPlain : (n : ℕ) (s : List ℕ) → is_number n s ≡ true → IsPlain s
unfolding is_number
is_number-IsPlain n s h = without_newline-IsPlain s (ground (arith, h))

pub valid_port-IsPlain : (s : List ℕ) → valid_port s ≡ true → IsPlain s
unfolding valid_port
valid_port-IsPlain s h = is_number-IsPlain 5 s (ground (arith, h))

pub valid_rule_num-IsPlain : (s : List ℕ) → valid_rule_num s ≡ true → IsPlain s
unfolding valid_rule_num
valid_rule_num-IsPlain s h = is_number-IsPlain 3 s h
