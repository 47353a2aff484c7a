-- ===== src/Backup.antt =====
-- app/backup/service.py: the check of an uploaded backup and the names that a restore
-- then unpacks. The archive is what pyzipper reads from it:
-- the entries, and the content of one by its name; JSON and SHA-256 are functions. Names are lists
-- of code points. A ratio is compared in whole numbers, as the float division of sizes below 2^53
-- divided by less than 2^44 orders them.
pub mod Validated
pub mod Schedule
mod Tests
use mathlib.Core.Option
use wardnode.Base.{
  ℕ, ◌+◌, ◌*◌, max, String, Bool, true, false, not, ◌&&◌, ◌||◌, Option, none, some, List, [], ◌∷◌,
  ltb, leb, ◌=?◌, any, drop, length, ◌==◌, if◌then◌else◌,
}
use wardnode.Text.{same, PyInt, pos, negsuc, codes, has_prefix, contains, split, int}

-- `_ALLOWED_PREFIXES`
abbrev pub allowed_prefixes : List String
allowed_prefixes = "db/" ∷ "tls/" ∷ "host/" ∷ []

-- `_ALLOWED_FILES`
abbrev pub allowed_files : List String
allowed_files = "manifest.json" ∷ "README-RESTORE.md" ∷ []

abbrev pub max_zip_bytes : ℕ
max_zip_bytes = 2 * 1_073_741_824

abbrev pub max_uncompressed_bytes : ℕ
max_uncompressed_bytes = 4 * 1_073_741_824

abbrev pub max_compression_ratio : ℕ
max_compression_ratio = 200

-- `_entry_allowed`
unfoldable pub entry_allowed : List ℕ → Bool
entry_allowed name =
    any (λ f. same (codes f) name) allowed_files
    || any
        (λ p.
          has_prefix (codes p) name
          && not (contains (codes "..") name)
          && not (has_prefix (codes "/") name))
        allowed_prefixes

-- `arcname.endswith("/")`
unfoldable pub is_directory : List ℕ → Bool
is_directory [] = false
is_directory (c ∷ []) = c =? b'/'
is_directory (c ∷ d ∷ s) = is_directory (d ∷ s)

pub record Info : Type 0 where
  pub filename : List ℕ
  pub file_size : ℕ
  pub compress_size : ℕ

pub data Refusal : Type 0 where
  unreadable too_large forbidden_entry bomb_ratio bomb_total no_manifest wrong_password
        bad_manifest :
      Refusal
  bad_version bad_app forbidden_checksum missing_entry bad_checksum newer_code : Refusal

-- The exception, or the value.
pub data Checked (A : Type 0) : Type 0 where
  passed : A → Checked A
  refused : Refusal → Checked A

-- The loop over the entries: the total of their sizes.
abbrev pub is_bomb : Info → Bool
is_bomb i = ltb (max_compression_ratio * max 1 i.compress_size) i.file_size

unfoldable pub check_entries : ℕ → List Info → Checked ℕ
check_entries total [] = passed total
check_entries total (i ∷ rest) = elim (is_directory i.filename) [
  | true ↦ check_entries total rest
  | false ↦ elim (entry_allowed i.filename) [
    | false ↦ refused forbidden_entry
    | true ↦ elim (is_bomb i) [
      | true ↦ refused bomb_ratio
      | false ↦ check_entries (total + i.file_size) rest
    ]
  ]
]

abbrev pub within_total : Checked ℕ → Checked ℕ
within_total (refused r) = refused r
within_total (passed n) = if ltb max_uncompressed_bytes n then refused bomb_total else passed n

pub record Manifest : Type 0 where
  pub format_version : Option ℕ
  pub app : Option String
  pub checksums : List (List ℕ × String)
  pub alembic_head : Option String
  pub pg_server_version : Option String

-- `zf.read(name)`: the content, `KeyError` or `RuntimeError`
pub data Read (Content : Type 0) : Type 0 where
  content : Content → Read Content
  key_error runtime_error : Read Content

-- `manifest.get(...)` compared with what this version writes
abbrev pub is_format : Option ℕ → Bool
is_format none = false
is_format (some v) = v =? 1

abbrev pub is_wardnode : Option String → Bool
is_wardnode none = false
is_wardnode (some a) = a == "wardnode"

abbrev pub judged : Bool → Bool → Manifest → Checked Manifest
judged false own m = refused bad_version
judged true false m = refused bad_app
judged true true m = passed m

abbrev pub check_manifest : Manifest → Checked Manifest
check_manifest m = judged (is_format m.format_version) (is_wardnode m.app) m

pub record Flags : Type 0 where
  pub needs_upgrade : Bool
  pub pg_version_warning : Bool

-- `_code_revisions`: the head and the known migrations
pub record Code : Type 0 where
  pub code_head : Option String
  pub known : List String
  pub local_pg : Option String

abbrev major : Option String → Option PyInt
major none = none
major (some v) = elim (split b'.' v) [ [] ↦ none | ◌∷◌ p ps ↦ int p ]

abbrev above : Option PyInt → Option PyInt → Bool
above (some (pos m)) (some (pos n)) = ltb n m
above (some (pos m)) (some (negsuc n)) = true
above (some (negsuc m)) (some (negsuc n)) = ltb m n
above _ _ = false

abbrev filled : Option String → Option String
filled none = none
filled (some s) = if s == "" then none else some s

abbrev pub check_head : Code → Bool → Option String → Checked Flags
check_head code warning none =
    passed (record { needs_upgrade = false; pg_version_warning = warning })
check_head code warning (some head) =
    if length code.known =? 0
    then passed (record { needs_upgrade = false; pg_version_warning = warning })
    else if not (any (λ k. k == head) code.known)
    then refused newer_code
    else passed (record {
      needs_upgrade = not (elim code.code_head [ none ↦ false | some h ↦ h == head ]);
      pg_version_warning = warning;
    })

unfoldable pub version_flags : Code → Manifest → Checked Flags
unfolding int split
version_flags code m =
    check_head code (above (major (filled m.pg_server_version)) (major (filled code.local_pg)))
      (filled m.alembic_head)

module _ (Content : Type 0) (loads : Content → Option Manifest) (sha256 : Content → String) where
  pub record Archive : Type 0 where
    pub size : Option ℕ
    pub infos : Option (List Info)
    pub read : List ℕ → Read Content

  unfoldable pub check_checksums : (List ℕ → Read Content) → List (List ℕ × String) → Checked Unit
  check_checksums read [] = passed tt
  check_checksums read ((name, expected) ∷ rest) = elim (entry_allowed name) [
    | false ↦ refused forbidden_checksum
    | true ↦ elim (read name) [
      | key_error ↦ refused missing_entry
      | runtime_error ↦ refused wrong_password
      | content c ↦ elim (sha256 c == expected) [
        | false ↦ refused bad_checksum
        | true ↦ check_checksums read rest
      ]
    ]
  ]

  abbrev pub check_loaded : Option Manifest → Checked Manifest
  check_loaded none = refused bad_manifest
  check_loaded (some m) = check_manifest m

  abbrev pub read_manifest : Read Content → Checked Manifest
  read_manifest key_error = refused no_manifest
  read_manifest runtime_error = refused wrong_password
  read_manifest (content c) = check_loaded (loads c)

  abbrev pub with_flags : Manifest → Checked Flags → Checked (Manifest × Flags)
  with_flags m (refused r) = refused r
  with_flags m (passed f) = passed (m, f)

  abbrev pub check_rest : Code → Manifest → Checked Unit → Checked (Manifest × Flags)
  check_rest code m (refused r) = refused r
  check_rest code m (passed u) = with_flags m (version_flags code m)

  abbrev pub check_content : Code → Archive → Checked Manifest → Checked (Manifest × Flags)
  check_content code a (refused r) = refused r
  check_content code a (passed m) = check_rest code m (check_checksums a.read m.checksums)

  abbrev pub check_infos : Code → Archive → Checked ℕ → Checked (Manifest × Flags)
  check_infos code a (refused r) = refused r
  check_infos code a (passed total) =
      check_content code a (read_manifest (a.read (codes "manifest.json")))

  abbrev pub check_archive : Code → Archive → Option (List Info) → Checked (Manifest × Flags)
  check_archive code a none = refused unreadable
  check_archive code a (some infos) = check_infos code a (within_total (check_entries 0 infos))

  abbrev pub check_size :
      Code → Archive → Option ℕ → Option (List Info) → Checked (Manifest × Flags)
  check_size code a none infos = refused unreadable
  check_size code a (some n) infos =
      if ltb max_zip_bytes n then refused too_large else check_archive code a infos

  -- `validate_backup_zip`
  unfoldable pub validate_backup_zip : Code → Archive → Checked (Manifest × Flags)
  validate_backup_zip code a = check_size code a a.size a.infos
