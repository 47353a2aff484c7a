-- ===== src/HostAgent/Harmless.antt =====
-- Which checked fields are harmless.
use wardnode.Base.{true, ◌≡◌, refl, subst, ◌∷◌, All, All-append, Bool-cases, inl, inr}
use wardnode.Text.{same, codes, is_digit}
use wardnode.Modules.SocketClient.{is_hex_or_colon}
use wardnode.Modules.SocketClient.Fields.{valid_port}
use wardnode.Modules.SocketClient.Characters.{is_plain, valid_port-IsPlain}
use wardnode.HostAgent.{Arg}
use wardnode.Text.Laws.{same_sound}
use wardnode.HostAgent.Handle.{is_proto, port_rule, rule_text}
use wardnode.HostAgent.Commands.{is_harmless, IsPlain-harmless}

abbrev pub IsHarmless : Arg → Type 0
IsHarmless s = All (λ c. is_harmless c ≡ true) s

pub valid_port-IsHarmless : (s : Arg) → valid_port s ≡ true → IsHarmless s
valid_port-IsHarmless s h = IsPlain-harmless s (valid_port-IsPlain s h)

pub tcp-IsHarmless : IsHarmless (codes "tcp")
unfolding is_harmless is_plain is_hex_or_colon is_digit
tcp-IsHarmless = (refl, (refl, (refl, tt)))

pub is_proto-IsHarmless : (p : Arg) → is_proto p ≡ true → IsHarmless p
unfolding is_harmless is_plain is_hex_or_colon is_digit
is_proto-IsHarmless p h = elim (Bool-cases (same (codes "tcp") p)) [
  | inl e ↦ subst IsHarmless (same_sound (codes "tcp") p e) (refl, (refl, (refl, tt)))
  | inr a ↦ elim (Bool-cases (same (codes "udp") p)) [
    | inl e ↦ subst IsHarmless (same_sound (codes "udp") p e) (refl, (refl, (refl, tt)))
    | inr b ↦
        subst IsHarmless (same_sound (codes "any") p (rw (a, b) at h)) (refl, (refl, (refl, tt)))
  ]
]

pub port_rule-IsHarmless :
    (port proto : Arg) → IsHarmless port → IsHarmless proto → IsHarmless (port_rule port proto)
unfolding is_harmless is_plain is_hex_or_colon is_digit
port_rule-IsHarmless port proto h k =
    All-append (λ c. is_harmless c ≡ true) port (b'/' ∷ proto) h (refl, k)

pub rule_text-IsHarmless :
    (port proto : Arg) → IsHarmless port → IsHarmless proto → IsHarmless (rule_text port proto)
rule_text-IsHarmless port proto h k = elim (Bool-cases (same (codes "any") proto)) [
  | inl e ↦ rw e h
  | inr e ↦ rw e (port_rule-IsHarmless port proto h k)
]
