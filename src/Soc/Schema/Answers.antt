-- ===== src/Soc/Schema/Answers.antt =====
-- What becomes of every answer of a model: a dictionary, a broken one, or prose.
use wardnode.Base.{ℕ, ◌≡◌, refl, Option, none, some, List}
use wardnode.Json.{Fields}
use wardnode.Soc.MitreCti.{Row}
use wardnode.Soc.Schema.Salvage.{
  Loaded, salvage_partial, parse_json, analysis_of, normalize_llm_output,
}
use wardnode.Soc.Schema.Total.{IsTame, IsSome, normalize_fields-IsSome}

module _ (loads : List ℕ → Loaded) (decimal : ℕ → Option ℕ) (rows : Option (List Row)) where
  -- What is read of a text: no exception but `ValueError`, and if a dictionary, a tame one.
  abbrev pub IsReadable : List ℕ → Type 0
  IsReadable raw =
      (o : Option Fields) × (parse_json loads decimal rows raw ≡ some o)
      × ((fs : Fields) → o ≡ some fs → IsTame fs)

  analysis_of-IsSome :
      (raw : List ℕ) (o : Option Fields)
      → ((fs : Fields) → o ≡ some fs → IsTame fs)
      → IsSome (analysis_of loads decimal rows raw o)
  analysis_of-IsSome raw none h = (salvage_partial loads decimal rows raw, refl)
  analysis_of-IsSome raw (some fs) h = normalize_fields-IsSome decimal rows fs (h fs refl)

  -- An analysis is returned for a text if reading it raises `ValueError` at most and the dictionary
  -- that is read, if one is, has no infinite confidence, and no list or dictionary in place of a
  -- severity, priority, type of action or type of indicator. So it is without a dictionary at all.
  pub normalize_llm_output-IsSome :
      (raw : List ℕ) → IsReadable raw → IsSome (normalize_llm_output loads decimal rows (some raw))
  unfolding normalize_llm_output
  normalize_llm_output-IsSome raw h = rw h.1 (analysis_of-IsSome raw h.0 h.2)
