-- ===== src/Soc/MitreCti/Sync.antt =====
-- The synchronisation as a whole, in every outcome.
use wardnode.Base.{
  ℕ, ◌+◌, ◌%◌, Bool, not, ◌&&◌, Option, none, some, List, [], ◌∷◌, ◌=?◌, Bool-cases, inl, inr,
}
use wardnode.Base.Options.{◌>>=◌}
use wardnode.Json.{Json, null, get_or, object, items, list_of}
use wardnode.Soc.MitreCti.{
  Row, Extracted, Session, Outcome, extract_technique, upsert, commit, store, is_attack_pattern,
  sync_object, finish, next, sync_objects, sync_list, sync_data, is_fresh, sync_mitre_attack,
}
use wardnode.Soc.MitreCti.Table.{
  IsValid, IsDistinct, IsDistinct-upsert, IsValid-upsert, Gives, extract_technique-Gives,
}

module _ (digit : ℕ → Bool) where
  abbrev IsTable : List Row → Type 0
  IsTable rows = IsValid digit rows × IsDistinct rows

  abbrev IsGood : Session → Type 0
  IsGood s = IsTable s.committed × IsTable s.rows

  abbrev Goes : Option Session → Type 0
  Goes none = Unit
  Goes (some s) = IsGood s

  module _ (now : ℕ) (commits : ℕ → Bool) where
    commit-Goes : (s : Session) → IsGood s → Goes (commit digit now commits s)
    commit-Goes s h = elim (Bool-cases (commits s.upserted)) [
      | inl e ↦ rw e (h.1, h.1)
      | inr e ↦ rw e tt
    ]

    store-Goes :
        (e : Option (Option Extracted)) (s : Session)
        → Gives digit e
        → IsGood s
        → Goes (e >>= λ x. store digit now commits x s)
    store-Goes none s g h = tt
    store-Goes (some none) s g h = h
    store-Goes (some (some e)) s g h =
        let good : IsTable (upsert now e s.rows) =
          (IsValid-upsert now e digit s.rows g h.1.0, IsDistinct-upsert now e s.rows h.1.1) in
        elim (Bool-cases ((s.upserted + 1) % 50 =? 0)) [
          | inl q ↦ rw q (
              commit-Goes (record s { rows = upsert now e s.rows; upserted = s.upserted + 1 })
                (h.0, good))
          | inr q ↦ rw q (h.0, good)
        ]

    sync_object-Goes :
        (j : Json) (s : Session) → IsGood s → Goes (sync_object digit now commits j s)
    sync_object-Goes (object obj) s h =
        elim (Bool-cases (is_attack_pattern digit now commits (get_or obj "type" null))) [
          | inl e ↦
              rw e
                (store-Goes (extract_technique digit obj) s (extract_technique-Gives digit obj) h)
          | inr e ↦ rw e h
        ]
    sync_object-Goes _ s h = h

    finish-IsTable :
        (s : Session) (o : Option Session)
        → IsGood s
        → Goes o
        → IsTable (finish digit now commits s o).1
    finish-IsTable s none h g = h.0
    finish-IsTable s (some after) h g = g.0

    next-IsTable :
        (s : Session) (go : Session → Outcome × List Row) (o : Option Session)
        → IsGood s
        → Goes o
        → ((t : Session) → IsGood t → IsTable (go t).1)
        → IsTable (next digit now commits s go o).1
    next-IsTable s go none h g k = h.0
    next-IsTable s go (some t) h g k = k t g

    sync_objects-IsTable :
        (js : List Json) (s : Session) → IsGood s → IsTable (sync_objects digit now commits js s).1
    unfolding sync_objects
    sync_objects-IsTable [] s h = finish-IsTable s (commit digit now commits s) h (commit-Goes s h)
    sync_objects-IsTable (j ∷ js) s h =
        next-IsTable s (sync_objects digit now commits js) (sync_object digit now commits j s) h
          (sync_object-Goes j s h) (λ t g. sync_objects-IsTable js t g)

    sync_list-IsTable :
        (j : Json) (rows : List Row) → IsTable rows → IsTable (sync_list digit now commits j rows).1
    sync_list-IsTable (items js) rows h =
        sync_objects-IsTable (list_of js) (record { committed = rows; rows = rows; upserted = 0 })
          (h, h)
    sync_list-IsTable _ rows h = h

    sync_data-IsTable :
        (download : Option Json) (rows : List Row)
        → IsTable rows
        → IsTable (sync_data digit now commits download rows).1
    sync_data-IsTable none rows h = h
    sync_data-IsTable (some (object fields)) rows h =
        sync_list-IsTable (get_or fields "objects" null) rows h
    sync_data-IsTable (some _) rows h = h

    -- Whatever is downloaded, whichever commits succeed and however the synchronisation ends, in a
    -- table in which every row has an id of the form T1234 or T1234.567, with a line feed after it at
    -- most, and no two rows have the same id, this is so afterwards.
    pub sync_mitre_attack-IsTable :
        (force : Bool) (download : Option Json) (rows : List Row)
        → IsValid digit rows × IsDistinct rows
        → IsValid digit (sync_mitre_attack digit now commits force download rows).1
          × IsDistinct (sync_mitre_attack digit now commits force download rows).1
    unfolding sync_mitre_attack
    sync_mitre_attack-IsTable force download rows h =
        elim (Bool-cases (not force && is_fresh now rows)) [
          | inl e ↦ rw e h
          | inr e ↦ rw e (sync_data-IsTable download rows h)
        ]
