-- ===== src/Proxy/Ingest/Tests.antt =====
-- An injection, as the audit log has it.
use wardnode.Base.{ℕ, Bool, false, ◌≡◌, refl, some, List, []}
use wardnode.Text.{
  codes, same, trim, trim_left, trim_right, is_space, is_lower, is_upper, to_lower, pos,
}
use wardnode.Json.{
  Json, Fields, Truncated, field, no_fields, item, no_items, number, text, items, object, get_or,
}
use wardnode.Proxy.Ingest.{
  Parsed, parse_line, categorize, first_tag, segment, last_part, word_of, category_from_rule_ids,
  before_colon,
}
use wardnode.Proxy.Ingest.Kept.{IsKept, parse_line-IsKept}

abbrev str : Json → List ℕ
str (text s) = codes s
str _ = []

abbrev is_whole : Truncated → Bool
is_whole n = false

abbrev details : Fields
details = field "severity" (text "2") (
    field "ruleId" (text "942100")
      (field "tags" (items (item (text "attack-sqli") no_items)) no_fields))

abbrev message : Json
message = object (field "message" (text "SQL") (field "details" (object details) no_fields))

abbrev request : Json
request =
    object (field "headers" (object (field "Host" (text "Shop.example:443") no_fields)) no_fields)

abbrev transaction : Json
transaction =
    object (field "request" request (field "messages" (items (item message no_items)) no_fields))

abbrev a_line : Fields
a_line = field "transaction" transaction no_fields

abbrev event : Parsed str is_whole
event = record {
  transaction_id = Json.null;
  domain = codes "shop.example";
  source_ip = text "";
  method = text "GET";
  path = text "/";
  status_code = number (pos 403);
  action = "block";
  rule_id = some (codes "942100");
  severity = "critical";
  message = text "SQL";
  category = "sql-injection";
}

a_line-parsed : parse_line str is_whole a_line ≡ some (some event)
unfolding parse_line categorize first_tag segment last_part word_of category_from_rule_ids
    before_colon get_or same trim trim_left trim_right is_space is_lower is_upper to_lower
a_line-parsed = refl

parse_line-IsKept_example : IsKept str is_whole event
parse_line-IsKept_example = parse_line-IsKept str is_whole a_line event a_line-parsed
