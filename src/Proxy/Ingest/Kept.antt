-- ===== src/Proxy/Ingest/Kept.antt =====
-- Which words an event can hold.
use wardnode.Base.{
  ℕ, String, Bool, true, false, ◌&&◌, ◌≡◌, refl, subst, Option, none, some, List, [], ◌∷◌, map,
  take, any, all, leb, length, ◌=?◌, ◌==◌, if◌then◌else◌, Bool-cases, inl, inr, All, arith,
}
use wardnode.Base.Options.{◌>>=◌, bind_some}
use wardnode.Text.{same, codes, trim, to_lower, is_upper}
use wardnode.Json.{
  Json, Fields, Truncated, null, flag, number, fraction, text, items, object, no_fields, no_items,
  truthy, get_or, or_else_json, fields_of,
}
use wardnode.Proxy.Ingest.{
  to_upper, Words, word_of, severity_map, tag_to_category, prefix_to_category, or_word, tags_of,
  tag_or, first_tag, segment, prefix_word, first_word, category_from_rule_ids, details_of, with_id,
  tagged, categorize, Parsed, is_forbidden, before_colon, domain_of, first_message, messages_list,
  parse_messages, parse_transaction, parse_line,
}

-- The categories, for an unknown one too.
abbrev pub categories : List String
categories =
    "sql-injection" ∷ "xss" ∷ "rce" ∷ "lfi" ∷ "rfi" ∷ "scanner" ∷ "brute-force"
    ∷ "command-injection" ∷ "php-injection" ∷ "java-injection" ∷ "session-fixation"
    ∷ "protocol-violation" ∷ "protocol-anomaly" ∷ "injection-generic" ∷ "data-leakage" ∷ "dos"
    ∷ "unknown" ∷ []

abbrev pub grades : List String
grades = "critical" ∷ "high" ∷ "medium" ∷ "low" ∷ []

unfoldable pub is_one : List String → String → Bool
unfolding any
is_one names s = any (λ n. n == s) names

abbrev pub IsOne : List String → String → Type 0
IsOne names s = is_one names s ≡ true

abbrev Gives : List String → Option String → Type 0
Gives names none = Unit
Gives names (some w) = IsOne names w

abbrev Table : List String → Words → Type 0
Table names t = all (λ kv. is_one names kv.1) t ≡ true

both : (a b : Bool) → (a && b) ≡ true → (a ≡ true) × (b ≡ true)
both a b h = (ground (arith, h), ground (arith, h))

word_of-Gives :
    (names : List String) (t : Words) (s : List ℕ) → Table names t → Gives names (word_of t s)
unfolding word_of all
word_of-Gives names [] s h = tt
word_of-Gives names ((k, v) ∷ rest) s h =
    let parts = both (is_one names v) (all (λ kv. is_one names kv.1) rest) h in
    elim (Bool-cases (same (codes k) s)) [
      | inl e ↦ rw e parts.0
      | inr e ↦ rw e (word_of-Gives names rest s parts.1)
    ]

or_word-IsOne :
    (names : List String) (o : Option String) (d : String)
    → Gives names o
    → IsOne names d
    → IsOne names (or_word o d)
or_word-IsOne names none d h k = k
or_word-IsOne names (some w) d h k = h

severity_table : Table grades severity_map
unfolding all is_one any
severity_table = refl

tag_table : Table categories tag_to_category
unfolding all is_one any
tag_table = refl

prefix_table : Table categories prefix_to_category
unfolding all is_one any
prefix_table = refl

-- What a loop over tags gives.
abbrev Tagged : Option (Option String) → Type 0
Tagged none = Unit
Tagged (some o) = Gives categories o

tag_or-Tagged :
    (o : Option String) (later : Option (Option String))
    → Gives categories o
    → Tagged later
    → Tagged (tag_or o later)
tag_or-Tagged none later h k = k
tag_or-Tagged (some w) later h k = h

first_tag-Tagged : (tags : List Json) → Tagged (first_tag tags)
unfolding first_tag
first_tag-Tagged [] = tt
first_tag-Tagged (text s ∷ rest) =
    tag_or-Tagged (word_of tag_to_category (segment (codes s))) (first_tag rest)
      (word_of-Gives categories tag_to_category (segment (codes s)) tag_table)
      (first_tag-Tagged rest)
first_tag-Tagged (null ∷ rest) = tt
first_tag-Tagged (flag b ∷ rest) = tt
first_tag-Tagged (number n ∷ rest) = tt
first_tag-Tagged (fraction z n ∷ rest) = tt
first_tag-Tagged (items l ∷ rest) = tt
first_tag-Tagged (object o ∷ rest) = tt

module _ (str : Json → List ℕ) (is_whole : Truncated → Bool) where
  first_word-Gives :
      (a b : Option String)
      → Gives categories a
      → Gives categories b
      → Gives categories (first_word str is_whole a b)
  first_word-Gives none b h k = k
  first_word-Gives (some w) b h k = h

  prefix_word-Gives : (id : Json) → Gives categories (prefix_word str is_whole id)
  prefix_word-Gives id = elim (Bool-cases (truthy id && leb 3 (length (str id)))) [
    | inl e ↦ rw e (word_of-Gives categories prefix_to_category (take 3 (str id)) prefix_table)
    | inr e ↦ rw e tt
  ]

  category_from_rule_ids-Gives :
      (ids : List Json) → Gives categories (category_from_rule_ids str is_whole ids)
  unfolding category_from_rule_ids
  category_from_rule_ids-Gives [] = tt
  category_from_rule_ids-Gives (id ∷ ids) =
      first_word-Gives (prefix_word str is_whole id) (category_from_rule_ids str is_whole ids)
        (prefix_word-Gives id) (category_from_rule_ids-Gives ids)

  tagged-Gives :
      (a b : Option String)
      → Gives categories a
      → Gives categories b
      → Gives categories (tagged str is_whole a b)
  tagged-Gives none b h k = k
  tagged-Gives (some w) b h k = h

  bind-Gives :
      {A : Type 0} (o : Option A) (f : A → Option String)
      → ((a : A) → o ≡ some a → Gives categories (f a))
      → Gives categories (o >>= f)
  bind-Gives none f k = tt
  bind-Gives (some a) f k = k a refl

  categorize-Gives : (ids msgs : List Json) → Gives categories (categorize str is_whole ids msgs)
  unfolding categorize is_one any
  categorize-Gives ids [] =
      or_word-IsOne categories (category_from_rule_ids str is_whole ids) "unknown"
        (category_from_rule_ids-Gives ids) refl
  categorize-Gives ids (msg ∷ rest) = bind-Gives (details_of str is_whole msg) _ (λ details d.
      bind-Gives (tags_of (get_or details "tags" (items no_items))) _ (λ tags t.
        bind-Gives (first_tag tags) _ (λ tag f.
          tagged-Gives tag
            (categorize str is_whole (with_id str is_whole (get_or details "ruleId" null) ids) rest)
            (subst Tagged f (first_tag-Tagged tags))
            (categorize-Gives (with_id str is_whole (get_or details "ruleId" null) ids) rest))))

  -- A host name without its port, in small letters.
  abbrev pub IsDomain : List ℕ → Type 0
  IsDomain s = All (λ c. ((c =? b':') ≡ false) × (is_upper c ≡ false)) s

  before_colon-IsDomain : (s : List ℕ) → IsDomain (map to_lower (before_colon str is_whole s))
  unfolding before_colon to_lower is_upper
  before_colon-IsDomain [] = tt
  before_colon-IsDomain (c ∷ s) = elim (Bool-cases (c =? b':')) [
    | inl e ↦ rw e tt
    | inr e ↦ rw e ((ground (arith, e), ground (arith, e)), before_colon-IsDomain s)
  ]

  pub record IsKept (p : Parsed str is_whole) : Type 0 where
    pub severity : IsOne grades p.severity
    pub category : IsOne categories p.category
    pub domain : IsDomain p.domain
    pub action : p.action ≡ (if is_forbidden str is_whole p.status_code then "block" else "detect")

  abbrev Makes : Option (Parsed str is_whole) → Type 0
  Makes none = Unit
  Makes (some p) = IsKept p

  bind-Makes :
      {A : Type 0} (o : Option A) (f : A → Option (Parsed str is_whole))
      → ((a : A) → o ≡ some a → Makes (f a))
      → Makes (o >>= f)
  bind-Makes none f k = tt
  bind-Makes (some a) f k = k a refl

  -- What the reading of a host gives.
  abbrev Domains : Option (List ℕ) → Type 0
  Domains none = Unit
  Domains (some d) = IsDomain d

  domain_of-Domains : (host : Json) → Domains (domain_of str is_whole host)
  domain_of-Domains (text s) = before_colon-IsDomain (codes s)
  domain_of-Domains null = tt
  domain_of-Domains (flag b) = tt
  domain_of-Domains (number n) = tt
  domain_of-Domains (fraction z n) = tt
  domain_of-Domains (items js) = tt
  domain_of-Domains (object fs) = tt

  parse_messages-Makes :
      (txn : Fields) (messages : Json) → Makes (parse_messages str is_whole txn messages)
  unfolding is_one any
  parse_messages-Makes txn messages =
      bind-Makes (fields_of (get_or txn "request" (object no_fields))) _ (λ req a.
        bind-Makes (fields_of (get_or txn "response" (object no_fields))) _ (λ resp b.
          bind-Makes (first_message str is_whole messages) _ (λ msg0 c.
            bind-Makes (fields_of (get_or msg0 "details" (object no_fields))) _ (λ details d.
              bind-Makes (fields_of (get_or req "headers" (object no_fields))) _ (λ headers e.
                let host =
                  or_else_json (get_or headers "Host" null)
                    (or_else_json (get_or headers "host" null) (text "unknown")) in
                bind-Makes (domain_of str is_whole host) _ (λ domain f.
                  bind-Makes (categorize str is_whole [] (messages_list str is_whole messages)) _
                    (λ category g.
                      let level = map to_upper (trim (str (get_or details "severity" (text "")))) in
                      record {
                        severity =
                            or_word-IsOne grades (word_of severity_map level) "medium"
                              (word_of-Gives grades severity_map level severity_table) refl;
                        category =
                            subst (Gives categories) g
                              (categorize-Gives [] (messages_list str is_whole messages));
                        domain = subst Domains f (domain_of-Domains host);
                        action = refl;
                      })))))))

  nothing : (p : Parsed str is_whole) → some none ≡ some (some p) → ⊥
  nothing p h = cc

  twice_injective : {p q : Parsed str is_whole} → some (some p) ≡ some (some q) → p ≡ q
  twice_injective {p} {q} h = cc

  transaction-IsKept :
      (txn : Fields) (p : Parsed str is_whole)
      → parse_transaction str is_whole txn ≡ some (some p)
      → IsKept p
  transaction-IsKept txn p h = elim (Bool-cases (truthy (get_or txn "messages" (items no_items)))) [
    | inl e ↦
        let messages = get_or txn "messages" (items no_items) in
        let a = bind_some (parse_messages str is_whole txn messages) _ (some p) (rw e at h) in
        subst IsKept (twice_injective a.1.1) (subst Makes a.1.0 (parse_messages-Makes txn messages))
    | inr e ↦ absurd (nothing p (rw e at h))
  ]

  -- What is kept of a dictionary of the audit log, if anything: its severity is one of the four, its
  -- category one of the seventeen, its domain has no colon and no capital A to Z, and its action is a
  -- block exactly if the status is 403.
  pub parse_line-IsKept :
      (fields : Fields) (p : Parsed str is_whole)
      → parse_line str is_whole fields ≡ some (some p)
      → IsKept p
  unfolding parse_line
  parse_line-IsKept fields p h =
      elim (Bool-cases (truthy (get_or fields "transaction" (object no_fields)))) [
        | inl e ↦
            let a =
              bind_some (fields_of (get_or fields "transaction" (object no_fields))) _ (some p)
                (rw e at h) in
            transaction-IsKept a.0 p a.1.1
        | inr e ↦ absurd (nothing p (rw e at h))
      ]
