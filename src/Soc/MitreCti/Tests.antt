-- ===== src/Soc/MitreCti/Tests.antt =====
-- A synchronisation of two objects.
use wardnode.Base.{true, false, ◌≡◌, refl, some, List, [], ◌∷◌, any}
use wardnode.Text.{codes, is_digit, trim, trim_left, trim_right, is_space}
use wardnode.Json.{Json, Fields, field, no_fields, item, no_items, text, items, object, get_or}
use wardnode.Soc.MitreCti.{
  Row, ok, is_fresh, is_technique_id, sync_mitre_attack, sync_objects, extract_technique, upsert,
  mitre_reference, phase_names, commas,
}
use wardnode.Soc.MitreCti.Table.{IsValid, IsDistinct, has_row}
use wardnode.Soc.MitreCti.Sync.{sync_mitre_attack-IsTable}

abbrev reference : Fields
reference = field "source_name" (text "mitre-attack") (field "external_id" (text "T1110") no_fields)

abbrev phase : Fields
phase = field "phase_name" (text "credential-access") no_fields

abbrev pattern_object : Fields
pattern_object = field "type" (text "attack-pattern") (
    field "external_references" (items (item (object reference) no_items)) (
      field "name" (text " Brute Force ")
        (field "kill_chain_phases" (items (item (object phase) no_items)) no_fields)))

abbrev download : Json
download = object (
    field "objects" (items (item (object pattern_object) (item (object pattern_object) no_items)))
      no_fields)

abbrev old_rows : List Row
old_rows =
    record {
      technique_id = "T1046";
      name = codes "Scan";
      tactic = [];
      is_subtechnique = false;
      synced_at = 0;
    }
    ∷ []

sync_test :
    (sync_mitre_attack is_digit 700000000000 (λ n. true) false (some download) old_rows).0 ≡ ok 2
unfolding sync_mitre_attack sync_objects extract_technique upsert mitre_reference phase_names commas
    get_or is_fresh is_technique_id trim trim_left trim_right is_space is_digit
sync_test = refl

old_rows-IsTable : IsValid is_digit old_rows × IsDistinct old_rows
unfolding is_technique_id is_digit has_row any
old_rows-IsTable = ((refl, tt), (refl, tt))

sync_mitre_attack-IsTable_example :
    IsValid is_digit
      (sync_mitre_attack is_digit 700000000000 (λ n. true) false (some download) old_rows).1
    × IsDistinct
        (sync_mitre_attack is_digit 700000000000 (λ n. true) false (some download) old_rows).1
sync_mitre_attack-IsTable_example =
    sync_mitre_attack-IsTable is_digit 700000000000 (λ n. true) false (some download) old_rows
      old_rows-IsTable
