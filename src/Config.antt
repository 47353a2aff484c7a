-- ===== src/Config.antt =====
-- app/models.py, `AppConfig`: the key-value table of settings, one row for each key.
pub mod Laws
use wardnode.Base.{
  String, Bool, true, false, Option, none, some, List, [], ◌∷◌, ◌==◌, if◌then◌else◌,
}

pub record Row : Type 0 where
  pub key : String
  pub value : Option String
  pub encrypted : Bool

abbrev pub Table : Type 0
Table = List Row

-- `select(cls).filter_by(key=key)`, of which there is at most one row.
unfoldable pub find : Table → String → Option Row
find [] key = none
find (r ∷ t) key = if r.key == key then some r else find t key

abbrev value_of : Option Row → Option String
value_of none = none
value_of (some r) = r.value

-- `AppConfig.get`
unfoldable pub get : Table → String → Option String
unfolding find
get t key = value_of (find t key)

-- `AppConfig.get_secret`, with `decrypt_secret` as a parameter; it may raise.
pub data Secret : Type 0 where
  plain : Option String → Secret
  not_configured : Secret

abbrev reveal : (Option String → Secret) → Option Row → Secret
reveal decrypt_secret none = plain none
reveal decrypt_secret (some r) = if r.encrypted then decrypt_secret r.value else plain r.value

unfoldable pub get_secret : (Option String → Secret) → Table → String → Secret
unfolding find
get_secret decrypt_secret t key = reveal decrypt_secret (find t key)

-- `AppConfig.set`: the row is made when it is missing, and written in place otherwise.
unfoldable pub put : Table → String → Option String → Bool → Table
put [] key value encrypted = record { key = key; value = value; encrypted = encrypted } ∷ []
put (r ∷ t) key value encrypted =
    if r.key == key
    then record r { value = value; encrypted = encrypted } ∷ t
    else r ∷ put t key value encrypted

-- `AppConfig.get(key) or default`: a missing, null or empty value gives the default.
abbrev present : Option String → Option String
present none = none
present (some v) = if v == "" then none else some v

unfoldable pub setting : Table → String → Option String
unfolding get
setting t key = present (get t key)

-- `AppConfig.get(key) == "1"`
unfoldable pub is_on : Table → String → Bool
unfolding get
is_on t key = elim (get t key) [ none ↦ false | some v ↦ v == "1" ]
