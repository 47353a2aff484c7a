-- ===== src/Backup/Tests.antt =====
-- An archive that passes, one that escapes its directory, and the theorem at the first.
use wardnode.Base.{
  ℕ, String, true, false, Option, none, some, List, [], ◌∷◌, ◌≡◌, refl, any, if◌then◌else◌, ◌==◌,
}
use wardnode.Text.{same, codes, has_prefix, contains, split, int}
use wardnode.Backup.{
  entry_allowed, is_directory, Info, passed, refused, forbidden_entry, check_entries, Manifest,
  Flags, Read, content, key_error, Code, version_flags, Archive, check_checksums,
  validate_backup_zip,
}
use wardnode.Backup.Validated.{IsValidated, validate_backup_zip-IsValidated}

abbrev manifest : Manifest
manifest = record {
  format_version = some 1;
  app = some "wardnode";
  checksums = (codes "db/d", "x") ∷ [];
  alembic_head = some "b";
  pg_server_version = none;
}

-- The content is its own digest, and the text `m` is the manifest.
abbrev loads : String → Option Manifest
loads c = if c == "m" then some manifest else none

abbrev digest : String → String
digest c = c

abbrev code : Code
code = record { code_head = some "c"; known = "b" ∷ "c" ∷ []; local_pg = some "16.2" }

abbrev read : List ℕ → Read String
read name =
    if same (codes "manifest.json") name
    then content "m"
    else if same (codes "db/d") name
    then content "x"
    else key_error

abbrev entry : String → Info
entry name = record { filename = codes name; file_size = 100; compress_size = 50 }

abbrev archive : Archive String loads digest
archive = record {
  size = some 400;
  infos = some (entry "db/" ∷ entry "manifest.json" ∷ entry "db/d" ∷ []);
  read = read;
}

abbrev flags : Flags
flags = record { needs_upgrade = true; pg_version_warning = false }

passes : validate_backup_zip String loads digest code archive ≡ passed (manifest, flags)
unfolding validate_backup_zip check_entries is_directory entry_allowed any same has_prefix contains
    check_checksums version_flags split int
passes = refl

escapes :
    validate_backup_zip String loads digest code
      (record archive { infos = some (entry "db/../../etc/x" ∷ []) })
    ≡ refused forbidden_entry
unfolding validate_backup_zip check_entries is_directory entry_allowed any same has_prefix contains
    check_checksums version_flags split int
escapes = refl

validate_backup_zip-IsValidated_example : IsValidated String loads digest archive manifest
validate_backup_zip-IsValidated_example =
    validate_backup_zip-IsValidated String loads digest code archive manifest flags passes
