-- ===== src/Soc/MitreCti/Table.antt =====
-- Reads of the table after the writes of the synchronisation.
use wardnode.Base.{
  ℕ, String, Bool, true, false, ◌||◌, ◌≡◌, refl, sym, ap, ◌∙◌, Option, none, some, List, [], ◌∷◌,
  length, any, ◌=?◌, ◌==◌, eq_iff, if◌then◌else◌, Bool-cases, inl, inr, All, arith,
}
use wardnode.Base.Options.{◌>>=◌}
use wardnode.Text.{codes, trim}
use wardnode.Json.{Json, Fields, text, get_or, truthy}
use wardnode.Soc.MitreCti.{
  Row, find_row, Extracted, row_of, upsert, is_technique_id, extract_technique, with_name, with_id,
  references_of, mitre_reference, phases_of, phase_names,
}

module _ (now : ℕ) (e : Extracted) where
  -- The written technique is found with what was written, any other as before.
  pub find-upsert :
      (id : String) (rows : List Row)
      → find_row id (upsert now e rows)
        ≡ (if e.technique_id == id then some (row_of now e) else find_row id rows)
  unfolding find_row upsert
  find-upsert id [] = refl
  find-upsert id (r ∷ rs) = ground (
    arith,
    find-upsert id rs,
    eq_iff r.technique_id e.technique_id,
    eq_iff r.technique_id id,
    eq_iff e.technique_id id,
  )

-- Every row has an id of this form.
abbrev pub IsValid : (ℕ → Bool) → List Row → Type 0
IsValid digit rows = All (λ r. is_technique_id digit r.technique_id ≡ true) rows

-- No two rows have the same id.
unfoldable pub has_row : String → List Row → Bool
unfolding any
has_row id rows = any (λ r. r.technique_id == id) rows

abbrev pub IsDistinct : List Row → Type 0
IsDistinct [] = Unit
IsDistinct (r ∷ rs) = (has_row r.technique_id rs ≡ false) × IsDistinct rs

module _ (now : ℕ) (e : Extracted) where
  has_row-upsert :
      (id : String) (rows : List Row)
      → has_row id (upsert now e rows) ≡ (e.technique_id == id || has_row id rows)
  unfolding has_row any upsert
  has_row-upsert id [] = refl
  has_row-upsert id (r ∷ rs) = ground (
    arith,
    has_row-upsert id rs,
    eq_iff r.technique_id e.technique_id,
    eq_iff r.technique_id id,
    eq_iff e.technique_id id,
  )

  pub IsDistinct-upsert : (rows : List Row) → IsDistinct rows → IsDistinct (upsert now e rows)
  unfolding upsert has_row any
  IsDistinct-upsert [] h = (refl, tt)
  IsDistinct-upsert (r ∷ rs) h = elim (Bool-cases (r.technique_id == e.technique_id)) [
    | inl q ↦
        rw q (ap (λ i. has_row i rs) (sym ((eq_iff r.technique_id e.technique_id).0 q)) ∙ h.0, h.1)
    | inr q ↦ rw q (
      ground (
        arith,
        has_row-upsert r.technique_id rs,
        h.0,
        q,
        eq_iff r.technique_id e.technique_id,
        eq_iff e.technique_id r.technique_id,
      ),
      IsDistinct-upsert rs h.1,
    )
  ]

  pub IsValid-upsert :
      (digit : ℕ → Bool) (rows : List Row)
      → is_technique_id digit e.technique_id ≡ true
      → IsValid digit rows
      → IsValid digit (upsert now e rows)
  unfolding upsert
  IsValid-upsert digit [] v h = (v, tt)
  IsValid-upsert digit (r ∷ rs) v h = elim (Bool-cases (r.technique_id == e.technique_id)) [
    | inl q ↦ rw q (v, h.1)
    | inr q ↦ rw q (h.0, IsValid-upsert digit rs v h.1)
  ]

-- What an object of the download gives, if anything.
module _ (digit : ℕ → Bool) where
  abbrev pub Gives : Option (Option Extracted) → Type 0
  Gives (some (some e)) = is_technique_id digit e.technique_id ≡ true
  Gives _ = Unit

  bind-Gives :
      {A : Type 0} (o : Option A) (f : A → Option (Option Extracted))
      → ((a : A) → Gives (f a))
      → Gives (o >>= f)
  bind-Gives none f h = tt
  bind-Gives (some a) f h = h a

  with_name-Gives :
      (obj : Fields) (id : String) (j : Json)
      → is_technique_id digit id ≡ true
      → Gives (with_name digit obj id j)
  with_name-Gives obj id (text n) h = elim (Bool-cases (length (trim (codes n)) =? 0)) [
    | inl e ↦ rw e tt
    | inr e ↦ rw e (
        bind-Gives (phases_of (get_or obj "kill_chain_phases" Json.null)) _
          (λ phases. bind-Gives (phase_names phases) _ (λ names. h)))
  ]
  with_name-Gives obj id _ h = tt

  with_id-Gives : (obj : Fields) (j : Json) → Gives (with_id digit obj j)
  with_id-Gives obj (text id) = elim (Bool-cases (is_technique_id digit id)) [
    | inl e ↦ rw e (with_name-Gives obj id (get_or obj "name" Json.null) e)
    | inr e ↦ rw e tt
  ]
  with_id-Gives obj _ = tt

  pub extract_technique-Gives : (obj : Fields) → Gives (extract_technique digit obj)
  unfolding extract_technique
  extract_technique-Gives obj =
      elim (Bool-cases (
        truthy (get_or obj "x_mitre_deprecated" Json.null)
        || truthy (get_or obj "revoked" Json.null))) [
          | inl e ↦ rw e tt
          | inr e ↦ rw e (
              bind-Gives (references_of (get_or obj "external_references" Json.null)) _
                (λ references.
                  bind-Gives (mitre_reference references) _ (λ id. with_id-Gives obj id)))
        ]
