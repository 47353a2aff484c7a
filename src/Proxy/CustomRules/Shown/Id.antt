-- ===== src/Proxy/CustomRules/Shown/Id.antt =====
-- The search for `id:` finds what stands in the text.
use wardnode.Base.{
  ℕ, Bool, false, ◌≡◌, inl, inr, refl, ap, ◌∙◌, Option, none, some, List, [], ◌∷◌, ◌++◌,
  Option-cases,
}
use wardnode.Text.{codes}
use wardnode.Proxy.CustomRules.{is_word, found_at, id_at, rule_id}
use wardnode.Proxy.CustomRules.Shown.{IsShown, OpenFrom, OpenFrom-IsOpen}
use wardnode.Proxy.CustomRules.Shown.Label.{numbers_injective, IsLabel, found_at-IsLabel}
use wardnode.Proxy.CustomRules.Shown.Numeral.{IsNumbered, id_at-IsNumbered}

-- The same as `IsShown`, with what stands before the text.
record ShowsFrom (after : Bool) (s : List ℕ) (n : ℕ) : Type 0 where
  before : List ℕ
  label : List ℕ
  tail : List ℕ
  parts : s ≡ before ++ label
  open_before : OpenFrom after before
  labelled : IsLabel label tail
  numbered : IsNumbered tail n

id_at_label :
    (after : Bool) (s : List ℕ) (o : Option (List ℕ)) (n : ℕ)
    → found_at (codes "id") after s ≡ o
    → id_at o ≡ some n
    → ShowsFrom after s n
id_at_label after s none n e h = cc
id_at_label after s (some t) n e h =
    let l = found_at-IsLabel after s t e in
    record {
      before = [];
      label = s;
      tail = t;
      parts = refl;
      open_before = l.0;
      labelled = l.1;
      numbered = id_at-IsNumbered t n h;
    }

rule_id-ShowsFrom :
    (after : Bool) (s : List ℕ) (n : ℕ) → rule_id after s ≡ some n → ShowsFrom after s n
unfolding rule_id
rule_id-ShowsFrom after [] n h = cc
rule_id-ShowsFrom after (c ∷ s) n h =
    elim (Option-cases (id_at (found_at (codes "id") after (c ∷ s)))) [
      | inr (m, e) ↦
          let same : m ≡ n = numbers_injective (rw (rule_id, e) at h) in
          id_at_label after (c ∷ s) (found_at (codes "id") after (c ∷ s)) n refl (e ∙ ap some same)
      | inl e ↦
          let later = rule_id-ShowsFrom (is_word c) s n (rw (rule_id, e) at h) in
          record {
            before = c ∷ later.before;
            label = later.label;
            tail = later.tail;
            parts = ap (λ u. c ∷ u) later.parts;
            open_before = later.open_before;
            labelled = later.labelled;
            numbered = later.numbered;
          }
    ]

pub rule_id-IsShown : (s : List ℕ) (n : ℕ) → rule_id false s ≡ some n → IsShown s n
rule_id-IsShown s n h =
    let f = rule_id-ShowsFrom false s n h in
    let l = f.labelled in
    let m = f.numbered in
    record {
      before = f.before;
      i = l.i;
      d = l.d;
      spaces = l.spaces;
      more_spaces = m.spaces;
      quote = m.quote;
      first = m.first;
      digits = m.digits;
      rest = m.rest;
      parts =
          f.parts
          ∙ (ap (λ x. f.before ++ x) l.parts
              ∙ ap (λ x. f.before ++ (l.i ∷ l.d ∷ (l.spaces ++ (b':' ∷ x)))) m.parts);
      open_before = OpenFrom-IsOpen false f.before f.open_before;
      letters = l.letters;
      blank = (l.blank, m.blank);
      quoted = m.quoted;
      numeral = m.numeral;
      number = m.number;
      ended = m.ended;
    }
