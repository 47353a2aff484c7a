-- ===== src/Backup/Validated.antt =====
-- What a backup that passes the check is.
use wardnode.Base.{
  ℕ, ◌+◌, ◌*◌, ◌≤◌, max, String, Bool, true, false, ◌≡◌, ◌⊎◌, inl, inr, refl, Option, none, some,
  List, [], ◌∷◌, ltb, any, ◌==◌, eq_iff, if◌then◌else◌, All, Bool-cases, arith, ap, subst,
}
use wardnode.Text.{same, codes, has_prefix, contains}
use wardnode.Backup.{
  max_zip_bytes, max_uncompressed_bytes, entry_allowed, is_directory, Info, Refusal, Checked,
  passed, refused, is_bomb, check_entries, within_total, Manifest, Read, content, key_error,
  runtime_error, judged, is_format, is_wardnode, check_loaded, check_size, Flags, Code,
  version_flags, Archive, check_checksums, read_manifest, with_flags, check_rest, check_content,
  check_infos, check_archive, validate_backup_zip,
}

-- The name stays below the directory that it is unpacked in.
pub record IsInside (name : List ℕ) : Type 0 where
  pub allowed : entry_allowed name ≡ true
  pub place :
      (same (codes "manifest.json") name ≡ true)
      ⊎ (same (codes "README-RESTORE.md") name ≡ true)
      ⊎ ((contains (codes "..") name ≡ false) × (has_prefix (codes "/") name ≡ false))

entry_allowed-IsInside : (name : List ℕ) → entry_allowed name ≡ true → IsInside name
unfolding entry_allowed any
entry_allowed-IsInside name h = record { allowed = h; place = ground (arith, h) }

pub data IsPermitted (i : Info) : Type 0 where
  directory : is_directory i.filename ≡ true → IsPermitted i
  file :
      is_directory i.filename ≡ false
      → IsInside i.filename
      → i.file_size ≤ 200 * max 1 i.compress_size
      → IsPermitted i

-- The sizes of the entries that are files.
unfoldable pub total_size : List Info → ℕ
total_size [] = 0
total_size (i ∷ rest) =
    let n = total_size rest in if is_directory i.filename then n else i.file_size + n

refused≢passed : {A : Type 0} (r : Refusal) (a : A) → refused r ≡ passed a → ⊥
refused≢passed r a h = cc

check_entries_lem :
    (total n : ℕ) (infos : List Info)
    → check_entries total infos ≡ passed n
    → All IsPermitted infos × (n ≡ total + total_size infos)
unfolding check_entries total_size
check_entries_lem total n [] h = (tt, ground (arith, h))
check_entries_lem total n (i ∷ rest) h = elim (Bool-cases (is_directory i.filename)) [
  | inl d ↦
      let later = check_entries_lem total n rest (rw (check_entries, d) at h) in
      ((directory d, later.0), rw d later.1)
  | inr f ↦ elim (Bool-cases (entry_allowed i.filename)) [
    | inr bad ↦ absurd (refused≢passed Refusal.forbidden_entry n (rw (check_entries, f, bad) at h))
    | inl ok ↦ elim (Bool-cases (is_bomb i)) [
      | inl bad ↦ absurd (refused≢passed Refusal.bomb_ratio n (rw (check_entries, f, ok, bad) at h))
      | inr fine ↦
          let later =
            check_entries_lem (total + i.file_size) n rest (rw (check_entries, f, ok, fine) at h) in
          (
            (file f (entry_allowed-IsInside i.filename ok) (ground (arith, fine)), later.0),
            rw f (omega (arith, later.1)),
          )
    ]
  ]
]

Read-cases :
    (Content : Type 0) (r : Read Content)
    → ((c : Content) × (r ≡ content c)) ⊎ ((r ≡ key_error) ⊎ (r ≡ runtime_error))
Read-cases Content (content c) = inl (c, refl)
Read-cases Content key_error = inr (inl refl)
Read-cases Content runtime_error = inr (inr refl)

module _ (Content : Type 0) (loads : Content → Option Manifest) (sha256 : Content → String) where
  -- A checksum of the manifest: its entry may be unpacked, is there and has that digest.
  pub record IsVerified (read : List ℕ → Read Content) (c : List ℕ × String) : Type 0 where
    pub inside : IsInside c.0
    pub data_read : Content
    pub present : read c.0 ≡ content data_read
    pub digest : sha256 data_read ≡ c.1

  check_checksums_lem :
      (read : List ℕ → Read Content) (cs : List (List ℕ × String))
      → check_checksums Content loads sha256 read cs ≡ passed tt
      → All (IsVerified read) cs
  unfolding check_checksums
  check_checksums_lem read [] h = tt
  check_checksums_lem read ((name, expected) ∷ rest) h = elim (Bool-cases (entry_allowed name)) [
    | inr bad ↦
        absurd (refused≢passed Refusal.forbidden_checksum tt (rw (check_checksums, bad) at h))
    | inl ok ↦ elim (Read-cases Content (read name)) [
      | inl (c, e) ↦ elim (Bool-cases (sha256 c == expected)) [
        | inr bad ↦
            absurd (refused≢passed Refusal.bad_checksum tt (rw (check_checksums, ok, e, bad) at h))
        | inl good ↦ (
          record {
            inside = entry_allowed-IsInside name ok;
            data_read = c;
            present = e;
            digest = (eq_iff (sha256 c) expected).0 good;
          },
          check_checksums_lem read rest (rw (check_checksums, ok, e, good) at h),
        )
      ]
      | inr (inl e) ↦
          absurd (refused≢passed Refusal.missing_entry tt (rw (check_checksums, ok, e) at h))
      | inr (inr e) ↦
          absurd (refused≢passed Refusal.wrong_password tt (rw (check_checksums, ok, e) at h))
    ]
  ]

  -- What the restore may rely on.
  pub record IsValidated (a : Archive Content loads sha256) (m : Manifest) : Type 0 where
    pub size_read : ℕ
    pub sized : a.size ≡ some size_read
    pub size_bound : size_read ≤ max_zip_bytes
    pub entries : List Info
    pub listed : a.infos ≡ some entries
    pub permitted : All IsPermitted entries
    pub total_bound : total_size entries ≤ max_uncompressed_bytes
    pub own_format : m.format_version ≡ some 1
    pub own_app : m.app ≡ some "wardnode"
    pub verified : All (IsVerified a.read) m.checksums

  module _ (code : Code) (a : Archive Content loads sha256) (m : Manifest) (flags : Flags) where
    own_version : (o : Option ℕ) → is_format o ≡ true → o ≡ some 1
    own_version none h = cc
    own_version (some v) h = ap (λ n. some n) (ground (arith, h))

    own_name : (o : Option String) → is_wardnode o ≡ true → o ≡ some "wardnode"
    own_name none h = cc
    own_name (some s) h = ap (λ n. some n) ((eq_iff s "wardnode").0 h)

    with_flags_lem :
        (k : Manifest) (f : Checked Flags)
        → with_flags Content loads sha256 k f ≡ passed (m, flags)
        → k ≡ m
    with_flags_lem k (refused r) h = cc
    with_flags_lem k (passed f) h = ground (arith, h)

    check_rest_lem :
        (k : Manifest) (u : Checked Unit)
        → check_rest Content loads sha256 code k u ≡ passed (m, flags)
        → (u ≡ passed tt) × (k ≡ m)
    check_rest_lem k (refused r) h = cc
    check_rest_lem k (passed tt) h = (refl, with_flags_lem k (version_flags code k) h)

    check_content_lem :
        (o : Checked Manifest)
        → check_content Content loads sha256 code a o ≡ passed (m, flags)
        → (o ≡ passed m) × (check_checksums Content loads sha256 a.read m.checksums ≡ passed tt)
    check_content_lem (refused r) h = cc
    check_content_lem (passed k) h =
        let both = check_rest_lem k (check_checksums Content loads sha256 a.read k.checksums) h in
        (
          ap (λ j. passed j) both.1,
          subst
              (λ (j : Manifest).
                check_checksums Content loads sha256 a.read j.checksums ≡ passed tt)
              both.1 both.0,
        )

    judged_lem :
        (x y : Bool) (k : Manifest) → judged x y k ≡ passed m → (x ≡ true) × (y ≡ true) × (k ≡ m)
    judged_lem false y k h = cc
    judged_lem true false k h = cc
    judged_lem true true k h = (refl, refl, ground (arith, h))

    check_loaded_lem :
        (o : Option Manifest)
        → check_loaded Content loads sha256 o ≡ passed m
        → (m.format_version ≡ some 1) × (m.app ≡ some "wardnode")
    check_loaded_lem none h = cc
    check_loaded_lem (some k) h =
        let all = judged_lem (is_format k.format_version) (is_wardnode k.app) k h in
        subst (λ (j : Manifest). (j.format_version ≡ some 1) × (j.app ≡ some "wardnode")) all.2
          (own_version k.format_version all.0, own_name k.app all.1)

    read_manifest_lem :
        (r : Read Content)
        → read_manifest Content loads sha256 r ≡ passed m
        → (m.format_version ≡ some 1) × (m.app ≡ some "wardnode")
    read_manifest_lem key_error h = cc
    read_manifest_lem runtime_error h = cc
    read_manifest_lem (content c) h = check_loaded_lem (loads c) h

    within_total_lem :
        (o : Checked ℕ) (n : ℕ)
        → within_total o ≡ passed n
        → (o ≡ passed n) × (n ≤ max_uncompressed_bytes)
    within_total_lem (refused r) n h = cc
    within_total_lem (passed k) n h = (ground (arith, h), ground (arith, h))

    check_infos_lem :
        (infos : List Info) (o : Checked ℕ)
        → within_total (check_entries 0 infos) ≡ o
        → check_infos Content loads sha256 code a o ≡ passed (m, flags)
        → All IsPermitted infos
          × (total_size infos ≤ max_uncompressed_bytes)
          × ((m.format_version ≡ some 1) × (m.app ≡ some "wardnode"))
          × All (IsVerified a.read) m.checksums
    check_infos_lem infos (refused r) e h = cc
    check_infos_lem infos (passed n) e h =
        let total = within_total_lem (check_entries 0 infos) n e in
        let entries = check_entries_lem 0 n infos total.0 in
        let rest =
          check_content_lem (read_manifest Content loads sha256 (a.read (codes "manifest.json")))
            h in
        (
          entries.0,
          omega (arith, entries.1, total.1),
          read_manifest_lem (a.read (codes "manifest.json")) rest.0,
          check_checksums_lem a.read m.checksums rest.1,
        )

    listed_archive :
        (n : ℕ) (infos : Option (List Info))
        → a.size ≡ some n
        → a.infos ≡ infos
        → n ≤ max_zip_bytes
        → check_archive Content loads sha256 code a infos ≡ passed (m, flags)
        → IsValidated a m
    listed_archive n none p q fits h = cc
    listed_archive n (some infos) p q fits h =
        let all = check_infos_lem infos (within_total (check_entries 0 infos)) refl h in
        record {
          size_read = n;
          sized = p;
          size_bound = fits;
          entries = infos;
          listed = q;
          permitted = all.0;
          total_bound = all.1;
          own_format = all.2.0;
          own_app = all.2.1;
          verified = all.3;
        }

    sized_archive :
        (o : Option ℕ) (infos : Option (List Info))
        → a.size ≡ o
        → a.infos ≡ infos
        → check_size Content loads sha256 code a o infos ≡ passed (m, flags)
        → IsValidated a m
    sized_archive none infos p q h = cc
    sized_archive (some n) infos p q h = elim (Bool-cases (ltb max_zip_bytes n)) [
      | inl large ↦ absurd (refused≢passed Refusal.too_large (m, flags) (rw large at h))
      | inr fits ↦ listed_archive n infos p q (ground (arith, fits)) (rw fits at h)
    ]

    -- A backup passes only if: it has at most 2 GB; each of its entries is a directory or a file
    -- of an allowed name, whose size is at most 200 times its compressed size; the files have at
    -- most 4 GB together; the manifest is of this application and format; and each checksum of
    -- the manifest, which are the entries that a restore unpacks, has an allowed name, which is
    -- one of the two files or neither absolute nor with a `..`, and an entry of that digest.
    pub validate_backup_zip-IsValidated :
        validate_backup_zip Content loads sha256 code a ≡ passed (m, flags) → IsValidated a m
    unfolding validate_backup_zip
    validate_backup_zip-IsValidated h = sized_archive a.size a.infos refl refl h
