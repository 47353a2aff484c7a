-- ===== src/Json.antt =====
-- JSON values as `json.loads` returns them, and what Python makes of them.
use wardnode.Base.{
  zero, String, Bool, true, false, Option, none, some, List, [], ◌∷◌, any, ◌==◌, if◌then◌else◌,
}
use wardnode.Text.{PyInt, pos, int}

-- What `int` makes of a float; that of the last two raises `ValueError` and `OverflowError`.
pub data Truncated : Type 0 where
  truncated : PyInt → Truncated
  not_a_number infinite : Truncated

-- What `json.loads` returns. A fraction says whether it is zero and what `int` makes of it.
mutual
  pub data Json : Type 0 where
    null : Json
    flag : Bool → Json
    number : PyInt → Json
    fraction : Bool → Truncated → Json
    text : String → Json
    items : Items → Json
    object : Fields → Json

  pub data Items : Type 0 where
    no_items : Items
    item : Json → Items → Items

  pub data Fields : Type 0 where
    no_fields : Fields
    field : String → Json → Fields → Fields

-- `bool(value)`
abbrev pub truthy : Json → Bool
truthy null = false
truthy (flag b) = b
truthy (number (pos zero)) = false
truthy (number _) = true
truthy (fraction is_zero n) = if is_zero then false else true
truthy (text s) = if s == "" then false else true
truthy (items no_items) = false
truthy (items (item j js)) = true
truthy (object no_fields) = false
truthy (object (field k v fs)) = true

-- `fields.get(key, default)`
unfoldable pub get_or : Fields → String → Json → Json
get_or no_fields key default = default
get_or (field k v fs) key default = if k == key then v else get_or fs key default

-- `value or default`
abbrev pub or_else_json : Json → Json → Json
or_else_json value default = if truthy value then value else default

-- `int(value)`; `none` is an exception.
abbrev pub int_of : Json → Option PyInt
int_of (number n) = some n
int_of (flag b) = some (if b then pos 1 else pos 0)
int_of (fraction is_zero (truncated n)) = some n
int_of (text s) = int s
int_of _ = none

-- `value.get`, which only a dictionary has
abbrev pub fields_of : Json → Option Fields
fields_of (object fs) = some fs
fields_of _ = none

abbrev pub list_of : Items → List Json
list_of no_items = []
list_of (item j js) = j ∷ list_of js

-- `value in {...}` for a set of texts; `none` is the `TypeError` of a list or a dictionary, which
-- has no hash.
unfoldable pub in_texts : List String → Json → Option Bool
unfolding any
in_texts names (text s) = some (any (λ n. n == s) names)
in_texts names (items js) = none
in_texts names (object fs) = none
in_texts names _ = some false
