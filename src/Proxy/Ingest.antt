-- ===== src/Proxy/Ingest.antt =====
-- app/proxy/ingest.py: what the console keeps of a line of the firewall's audit log. Texts are lists
-- of code points. `str` of a JSON value, and whether a number that is no integer equals the integer
-- that `int` makes of it, are parameters.
pub mod Kept
mod Tests
use wardnode.Base.{
  ℕ, ◌-◌, String, Bool, true, false, not, ◌&&◌, ◌||◌, Option, none, some, List, [], ◌∷◌, ◌++◌, map,
  take, leb, length, ◌=?◌, ◌==◌, if◌then◌else◌,
}
use wardnode.Base.Options.{◌>>=◌}
use wardnode.Text.{same, codes, trim, is_lower, to_lower, PyInt, pos}
use wardnode.Json.{
  Json, Items, Fields, Truncated, truncated, null, flag, number, fraction, text, items, object,
  no_fields, field, no_items, item, truthy, get_or, or_else_json, list_of, fields_of,
}

-- `str.upper` and the part of a tag after its last slash
abbrev pub to_upper : ℕ → ℕ
to_upper c = if is_lower c then c - 32 else c

unfoldable pub last_part : List ℕ → Option (List ℕ)
last_part [] = none
last_part (c ∷ s) =
    let later = last_part s in
    elim later [ some t ↦ some t | none ↦ if c =? b'/' then some s else none ]

abbrev pub part_or : Option (List ℕ) → List ℕ → List ℕ
part_or none s = s
part_or (some t) s = t

unfoldable pub segment : List ℕ → List ℕ
unfolding last_part is_lower
segment tag = map to_upper (part_or (last_part tag) tag)

-- A table from texts to words.
abbrev pub Words : Type 0
Words = List (String × String)

unfoldable pub word_of : Words → List ℕ → Option String
unfolding same
word_of [] s = none
word_of ((k, v) ∷ rest) s = let later = word_of rest s in if same (codes k) s then some v else later

-- `_SEVERITY_MAP`
abbrev pub severity_map : Words
severity_map =
    ("EMERGENCY", "critical")
    ∷ ("ALERT", "critical")
    ∷ ("CRITICAL", "critical")
    ∷ ("ERROR", "high")
    ∷ ("WARNING", "medium")
    ∷ ("NOTICE", "low")
    ∷ ("INFO", "low")
    ∷ ("DEBUG", "low")
    ∷ ("0", "critical")
    ∷ ("1", "critical")
    ∷ ("2", "critical")
    ∷ ("3", "high")
    ∷ ("4", "medium")
    ∷ ("5", "low")
    ∷ ("6", "low")
    ∷ ("7", "low")
    ∷ []

-- `_TAG_TO_CATEGORY`
abbrev pub tag_to_category : Words
tag_to_category =
    ("SQL_INJECTION", "sql-injection")
    ∷ ("XSS", "xss")
    ∷ ("RCE", "rce")
    ∷ ("LFI", "lfi")
    ∷ ("RFI", "rfi")
    ∷ ("SCANNER", "scanner")
    ∷ ("BRUTE_FORCE", "brute-force")
    ∷ ("COMMAND_INJECTION", "command-injection")
    ∷ ("PHP_INJECTION", "php-injection")
    ∷ ("JAVA_INJECTION", "java-injection")
    ∷ ("SESSION_FIXATION", "session-fixation")
    ∷ ("PROTOCOL_VIOLATION", "protocol-violation")
    ∷ ("PROTOCOL_ANOMALY", "protocol-anomaly")
    ∷ ("ATTACK-SQLI", "sql-injection")
    ∷ ("ATTACK-XSS", "xss")
    ∷ ("ATTACK-RCE", "rce")
    ∷ ("ATTACK-LFI", "lfi")
    ∷ ("ATTACK-RFI", "rfi")
    ∷ ("ATTACK-PROTOCOL", "protocol-violation")
    ∷ ("ATTACK-PROTOCOL-ANOMALY", "protocol-anomaly")
    ∷ ("ATTACK-INJECTION-PHP", "php-injection")
    ∷ ("ATTACK-INJECTION-JAVA", "java-injection")
    ∷ ("ATTACK-INJECTION-GENERIC", "injection-generic")
    ∷ ("ATTACK-REPUTATION-SCANNER", "scanner")
    ∷ ("ATTACK-REPUTATION-CRAWLER", "scanner")
    ∷ ("ATTACK-REPUTATION-SCRIPTING", "scanner")
    ∷ ("ATTACK-FIXATION", "session-fixation")
    ∷ ("ATTACK-DISCLOSURE", "data-leakage")
    ∷ ("ATTACK-DOS", "dos")
    ∷ ("ATTACK-SCANNER", "scanner")
    ∷ ("ATTACK-COMMAND-INJECTION", "command-injection")
    ∷ ("ATTACK-PHP-INJECTION", "php-injection")
    ∷ ("ATTACK-JAVA-INJECTION", "java-injection")
    ∷ ("ATTACK-SESSION-FIXATION", "session-fixation")
    ∷ []

-- `_RULE_ID_PREFIX_TO_CATEGORY`
abbrev pub prefix_to_category : Words
prefix_to_category =
    ("913", "scanner")
    ∷ ("920", "protocol-violation")
    ∷ ("921", "protocol-violation")
    ∷ ("930", "lfi")
    ∷ ("931", "rfi")
    ∷ ("932", "rce")
    ∷ ("933", "php-injection")
    ∷ ("941", "xss")
    ∷ ("942", "sql-injection")
    ∷ ("943", "session-fixation")
    ∷ ("944", "java-injection")
    ∷ []

abbrev pub or_word : Option String → String → String
or_word none default = default
or_word (some w) default = w

-- The tags of a message: a loop over a dictionary goes through its keys, one over a text through
-- characters, of which none is a known tag. `none` is an exception.
unfoldable pub keys_of : Fields → List Json
keys_of no_fields = []
keys_of (field k v fs) = text k ∷ keys_of fs

abbrev pub tags_of : Json → Option (List Json)
tags_of (items js) = some (list_of js)
tags_of (object fs) = some (keys_of fs)
tags_of (text s) = some []
tags_of j = if truthy j then none else some []

-- The first known tag, if any; a tag that is no text raises.
abbrev pub tag_or : Option String → Option (Option String) → Option (Option String)
tag_or (some w) later = some (some w)
tag_or none later = later

unfoldable pub first_tag : List Json → Option (Option String)
unfolding word_of segment
first_tag [] = some none
first_tag (text s ∷ rest) = tag_or (word_of tag_to_category (segment (codes s))) (first_tag rest)
first_tag (_ ∷ rest) = none

module _ (str : Json → List ℕ) (is_whole : Truncated → Bool) where
  -- `_category_from_rule_ids`
  abbrev pub prefix_word : Json → Option String
  prefix_word id =
      if truthy id && leb 3 (length (str id))
      then word_of prefix_to_category (take 3 (str id))
      else none

  abbrev pub first_word : Option String → Option String → Option String
  first_word (some w) later = some w
  first_word none later = later

  unfoldable pub category_from_rule_ids : List Json → Option String
  unfolding word_of
  category_from_rule_ids [] = none
  category_from_rule_ids (id ∷ ids) = first_word (prefix_word id) (category_from_rule_ids ids)

  -- `_categorize`: the details of a message that is no dictionary are empty.
  abbrev pub details_of : Json → Option Fields
  details_of (object msg) = fields_of (get_or msg "details" (object no_fields))
  details_of _ = some no_fields

  abbrev pub with_id : Json → List Json → List Json
  with_id null ids = ids
  with_id id ids = ids ++ (id ∷ [])

  abbrev pub tagged : Option String → Option String → Option String
  tagged (some w) later = some w
  tagged none later = later

  unfoldable pub categorize : List Json → List Json → Option String
  unfolding first_tag category_from_rule_ids
  categorize ids [] = some (or_word (category_from_rule_ids ids) "unknown")
  categorize ids (msg ∷ rest) = do
    details ← details_of msg
    tags ← tags_of (get_or details "tags" (items no_items))
    tag ← first_tag tags
    tagged tag (categorize (with_id (get_or details "ruleId" null) ids) rest)

  -- `_parse_line` of a dictionary.
  pub record Parsed : Type 0 where
    pub transaction_id : Json
    pub domain : List ℕ
    pub source_ip : Json
    pub method : Json
    pub path : Json
    pub status_code : Json
    pub action : String
    pub rule_id : Option (List ℕ)
    pub severity : String
    pub message : Json
    pub category : String

  abbrev pub is_forbidden : Json → Bool
  is_forbidden (number (pos n)) = n =? 403
  is_forbidden (fraction z (truncated (pos n))) = n =? 403 && is_whole (truncated (pos n))
  is_forbidden _ = false

  -- `host.split(":")[0].lower()`
  unfoldable pub before_colon : List ℕ → List ℕ
  before_colon [] = []
  before_colon (c ∷ s) = let rest = before_colon s in if c =? b':' then [] else c ∷ rest

  abbrev pub domain_of : Json → Option (List ℕ)
  domain_of (text s) = some (map to_lower (before_colon (codes s)))
  domain_of _ = none

  abbrev pub id_text : Json → Option (List ℕ)
  id_text null = none
  id_text id = some (str id)

  -- The first message: `messages[0].get`.
  abbrev pub first_message : Json → Option Fields
  first_message (items (item m ms)) = fields_of m
  first_message _ = none

  abbrev pub messages_list : Json → List Json
  messages_list (items js) = list_of js
  messages_list _ = []

  abbrev pub parse_messages : Fields → Json → Option Parsed
  parse_messages txn messages = do
    req ← fields_of (get_or txn "request" (object no_fields))
    resp ← fields_of (get_or txn "response" (object no_fields))
    msg0 ← first_message messages
    details ← fields_of (get_or msg0 "details" (object no_fields))
    headers ← fields_of (get_or req "headers" (object no_fields))
    domain ← domain_of (
        or_else_json (get_or headers "Host" null)
          (or_else_json (get_or headers "host" null) (text "unknown")))
    category ← categorize [] (messages_list messages)
    some (record {
      transaction_id = or_else_json (get_or txn "id" null) (get_or txn "unique_id" null);
      domain = domain;
      source_ip = or_else_json (get_or req "remote_address" null) (
          or_else_json (get_or txn "client_ip" null)
            (or_else_json (get_or txn "clientIp" null) (text "")));
      method = get_or req "method" (text "GET");
      path = get_or req "uri" (text "/");
      status_code = get_or resp "http_code" (number (pos 403));
      action =
          if is_forbidden (get_or resp "http_code" (number (pos 403))) then "block" else "detect";
      rule_id = id_text (get_or details "ruleId" null);
      severity =
          or_word
            (word_of severity_map (map to_upper (trim (str (get_or details "severity" (text ""))))))
            "medium";
      message = get_or msg0 "message" (text "");
      category = category;
    })

  abbrev pub parse_transaction : Fields → Option (Option Parsed)
  parse_transaction txn =
      if truthy (get_or txn "messages" (items no_items))
      then (do p ← parse_messages txn (get_or txn "messages" (items no_items)); some (some p))
      else some none

  -- An exception, nothing, or an event.
  unfoldable pub parse_line : Fields → Option (Option Parsed)
  unfolding categorize word_of before_colon get_or
  parse_line fields =
      if truthy (get_or fields "transaction" (object no_fields))
      then fields_of (get_or fields "transaction" (object no_fields)) >>= parse_transaction
      else some none
