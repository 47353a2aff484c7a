-- ===== src/Soc/MitreCti.antt =====
-- app/soc/mitre_cti.py: the table of ATT&CK techniques, its reads, and the synchronisation with the
-- official data. Which characters `\d` takes, what a download gives, and whether a commit succeeds
-- are parameters.
pub mod Form
pub mod Table
pub mod Sync
mod Tests
use wardnode.Base.{
  ℕ, suc, ◌+◌, ◌-◌, ◌*◌, ◌%◌, String, Bool, true, false, not, ◌&&◌, ◌||◌, Option, none, some,
  is_some, List, [], ◌∷◌, ◌++◌, take, map, any, all, keep, length, leb, ◌=?◌, ◌==◌, if◌then◌else◌,
}
use wardnode.Base.Options.{◌>>=◌}
use wardnode.Text.{codes, trim}
use wardnode.Json.{
  Json, Items, Fields, null, flag, number, fraction, text, items, object, truthy, get_or, list_of,
}

-- The columns of `MitreAttackTechnique`.
pub record Row : Type 0 where
  pub technique_id : String
  pub name : List ℕ
  pub tactic : List ℕ
  pub is_subtechnique : Bool
  pub synced_at : ℕ

abbrev pub day : ℕ
day = 86400000000

-- `is_table_empty`
abbrev pub is_table_empty : List Row → Bool
is_table_empty [] = true
is_table_empty (r ∷ rs) = false

-- `query.filter_by(technique_id=...).first()`
unfoldable pub find_row : String → List Row → Option Row
find_row id [] = none
find_row id (r ∷ rs) = if r.technique_id == id then some r else find_row id rs

-- `lookup_technique`
unfoldable pub lookup_technique : List Row → String → Option Row
unfolding find_row
lookup_technique rows id = if id == "" then none else find_row id rows

-- `get_technique_name`
abbrev pub name_or : Option Row → List ℕ → List ℕ
name_or none fallback = fallback
name_or (some r) fallback = r.name

unfoldable pub get_technique_name : List Row → String → List ℕ → List ℕ
unfolding lookup_technique
get_technique_name rows id fallback = name_or (lookup_technique rows id) fallback

-- `get_techniques_context`
unfoldable pub get_techniques_context : List Row → List String → List Row
unfolding keep any
get_techniques_context rows ids = keep (λ r. any (λ id. r.technique_id == id) ids) rows

-- `_is_fresh`: the latest synchronisation is less than seven days ago.
unfoldable pub is_fresh : ℕ → List Row → Bool
unfolding any
is_fresh now rows = any (λ r. leb now (r.synced_at + 7 * day)) rows

-- `obj.get("external_references") or []`, and the reference that counts. `none` is an exception:
-- what a loop cannot go through, and what has no `get`.
abbrev pub references_of : Json → Option (List Json)
references_of (items js) = some (list_of js)
references_of j = if truthy j then none else some []

unfoldable pub mitre_reference : List Json → Option Json
unfolding get_or
mitre_reference [] = some null
mitre_reference (object ref ∷ rest) = elim (get_or ref "source_name" null) [
  | text s ↦
      if s == "mitre-attack" then some (get_or ref "external_id" null) else mitre_reference rest
  | _ ↦ mitre_reference rest
]
mitre_reference (_ ∷ rest) = none

-- `",".join(...)` over the phases that have a name; a name that is no text raises `TypeError`.
abbrev pub add_name : Json → List (List ℕ) → Option (List (List ℕ))
add_name (text s) later = some (codes s ∷ later)
add_name _ later = none

unfoldable pub phase_names : List Json → Option (List (List ℕ))
unfolding get_or
phase_names [] = some []
phase_names (object kc ∷ rest) = do
  later ← phase_names rest
  if truthy (get_or kc "phase_name" (text ""))
      then add_name (get_or kc "phase_name" (text "")) later
      else some later
phase_names (_ ∷ rest) = phase_names rest

unfoldable pub commas : List (List ℕ) → List ℕ
commas [] = []
commas (p ∷ []) = p
commas (p ∷ q ∷ ps) = p ++ (b',' ∷ commas (q ∷ ps))

-- `obj.get("kill_chain_phases") or []`: no element of a text or of a dictionary's keys is a
-- dictionary.
abbrev pub phases_of : Json → Option (List Json)
phases_of (items js) = some (list_of js)
phases_of (text s) = some []
phases_of (object fs) = some []
phases_of j = if truthy j then none else some []

pub record Extracted : Type 0 where
  pub technique_id : String
  pub name : List ℕ
  pub tactic : List ℕ
  pub is_subtechnique : Bool

-- The query and the update or insertion of one technique.
abbrev pub row_of : ℕ → Extracted → Row
row_of now e = record {
  technique_id = e.technique_id;
  name = e.name;
  tactic = e.tactic;
  is_subtechnique = e.is_subtechnique;
  synced_at = now;
}

unfoldable pub upsert : ℕ → Extracted → List Row → List Row
upsert now e [] = row_of now e ∷ []
upsert now e (r ∷ rs) =
    let rest = upsert now e rs in
    if r.technique_id == e.technique_id then row_of now e ∷ rs else r ∷ rest

-- The session: the rows that were committed, those with the changes since, and how many
-- techniques were written. A commit may fail.
pub record Session : Type 0 where
  pub committed : List Row
  pub rows : List Row
  pub upserted : ℕ

pub data Outcome : Type 0 where
  ok : ℕ → Outcome
  recent download_failed unexpected not_stored crashed : Outcome

-- `_TECHNIQUE_ID_RE` and `_MITRE_ID_RE`; the end may stand before a line feed.
abbrev pub id_end : List ℕ → Bool
id_end [] = true
id_end (c ∷ []) = c =? 10
id_end (c ∷ d ∷ s) = false

module _ (digit : ℕ → Bool) where
  abbrev pub id_tail : List ℕ → Bool
  id_tail (p ∷ a ∷ b ∷ c ∷ s) =
      (p =? b'.' && digit a && digit b && digit c && id_end s) || id_end (p ∷ a ∷ b ∷ c ∷ s)
  id_tail s = id_end s

  abbrev pub matches_id : List ℕ → Bool
  matches_id (t ∷ a ∷ b ∷ c ∷ d ∷ s) =
      t =? b'T' && digit a && digit b && digit c && digit d && id_tail s
  matches_id _ = false

  unfoldable pub is_technique_id : String → Bool
  is_technique_id s = matches_id (codes s)

  -- `_extract_technique`: an exception, nothing, or a technique
  abbrev pub with_name : Fields → String → Json → Option (Option Extracted)
  with_name obj id (text n) = if length (trim (codes n)) =? 0 then some none else do
    phases ← phases_of (get_or obj "kill_chain_phases" null)
    names ← phase_names phases
    some (
        some (record {
          technique_id = id;
          name = take 255 (trim (codes n));
          tactic = take 255 (commas names);
          is_subtechnique = truthy (get_or obj "x_mitre_is_subtechnique" null);
        }))
  with_name obj id _ = some none

  abbrev pub with_id : Fields → Json → Option (Option Extracted)
  with_id obj (text id) =
      if is_technique_id id then with_name obj id (get_or obj "name" null) else some none
  with_id obj _ = some none

  unfoldable pub extract_technique : Fields → Option (Option Extracted)
  unfolding mitre_reference is_technique_id phase_names commas get_or trim
  extract_technique obj =
      if truthy (get_or obj "x_mitre_deprecated" null) || truthy (get_or obj "revoked" null)
      then some none
      else do
        references ← references_of (get_or obj "external_references" null)
        id ← mitre_reference references
        with_id obj id

  module _ (now : ℕ) (commits : ℕ → Bool) where
    -- `db.session.commit()`; `none` is an exception.
    abbrev pub commit : Session → Option Session
    commit s = if commits s.upserted then some (record s { committed = s.rows }) else none

    abbrev pub store : Option Extracted → Session → Option Session
    store none s = some s
    store (some e) s =
        let after = record s { rows = upsert now e s.rows; upserted = s.upserted + 1 } in
        if (s.upserted + 1) % 50 =? 0 then commit after else some after

    abbrev pub is_attack_pattern : Json → Bool
    is_attack_pattern (text s) = s == "attack-pattern"
    is_attack_pattern _ = false

    -- One object of the download, and the loop; an exception leaves what was committed before it.
    abbrev pub sync_object : Json → Session → Option Session
    sync_object (object obj) s =
        if is_attack_pattern (get_or obj "type" null)
        then (do e ← extract_technique obj; store e s)
        else some s
    sync_object _ s = some s

    abbrev pub finish : Session → Option Session → Outcome × List Row
    finish s none = (not_stored, s.committed)
    finish s (some after) = (ok after.upserted, after.committed)

    abbrev pub next : Session → (Session → Outcome × List Row) → Option Session → Outcome × List Row
    next s go none = (not_stored, s.committed)
    next s go (some t) = go t

    unfoldable pub sync_objects : List Json → Session → Outcome × List Row
    unfolding extract_technique upsert
    sync_objects [] s = finish s (commit s)
    sync_objects (j ∷ js) s = next s (sync_objects js) (sync_object j s)

    -- `sync_mitre_attack`: a download that is no dictionary has no `get`, outside the handlers.
    abbrev pub sync_list : Json → List Row → Outcome × List Row
    sync_list (items js) rows =
        sync_objects (list_of js) (record { committed = rows; rows = rows; upserted = 0 })
    sync_list _ rows = (unexpected, rows)

    abbrev pub sync_data : Option Json → List Row → Outcome × List Row
    sync_data none rows = (download_failed, rows)
    sync_data (some (object fields)) rows = sync_list (get_or fields "objects" null) rows
    sync_data (some _) rows = (crashed, rows)

    unfoldable pub sync_mitre_attack : Bool → Option Json → List Row → Outcome × List Row
    unfolding sync_objects is_fresh
    sync_mitre_attack force download rows =
        if not force && is_fresh now rows then (recent, rows) else sync_data download rows
