-- ===== src/Soc/Detect/Severity.antt =====
-- The thresholds in force are always ordered, and the severity follows the score.
use wardnode.Base.{
  ℕ, ◌≤◌, ◌<◌, String, ◌≡◌, inl, inr, refl, true, Option, some, arith, if◌then◌else◌, Option-cases,
  Bool-cases,
}
use wardnode.Text.{PyInt, pos, int, clamp}
use wardnode.Config.{Table, setting}
use wardnode.Float.{FloatLibrary}
use wardnode.Soc.Detect.{
  sev_order, Thresholds, bounded_setting, gather, coherent, resolve_severity_thresholds,
  severity_for_score,
}

pub record IsOrdered (t : Thresholds) : Type 0 where
  pub at_least_one : 1 ≤ t.med
  pub medium_below_high : t.med < t.high
  pub high_below_critical : t.high < t.crit
  pub at_most_hundred : t.crit ≤ 100

clamp_bounds : (z : PyInt) → (1 ≤ clamp 1 100 z) × (clamp 1 100 z ≤ 100)
clamp_bounds (pos n) = omega arith
clamp_bounds (PyInt.negsuc n) = omega arith

bounded_setting_bounds :
    (config : Table) (key : String) (d n : ℕ)
    → bounded_setting config key d ≡ some n
    → (1 ≤ n) × (n ≤ 100)
unfolding bounded_setting
bounded_setting_bounds config key d n h = elim (Option-cases (setting config key)) [
  | inl e ↦ ground (arith, e, clamp_bounds (pos d))
  | inr (v, e) ↦ elim (Option-cases (int v)) [
    | inl bad ↦ ground (arith, e, bad)
    | inr (z, good) ↦ ground (arith, e, good, clamp_bounds z)
  ]
]

coherent-gather-IsOrdered :
    (c h m : Option ℕ)
    → ((n : ℕ) → c ≡ some n → (1 ≤ n) × (n ≤ 100))
    → ((n : ℕ) → m ≡ some n → (1 ≤ n) × (n ≤ 100))
    → IsOrdered (coherent (gather c h m))
coherent-gather-IsOrdered (some c) (some h) (some m) bc bm = ground (arith, bc c refl, bm m refl)
coherent-gather-IsOrdered _ _ _ bc bm = omega arith

-- Whatever is stored in the three settings, the thresholds in force are strictly ordered and lie
-- between 1 and 100.
pub resolve_severity_thresholds-IsOrdered :
    (config : Table) → IsOrdered (resolve_severity_thresholds config)
unfolding resolve_severity_thresholds
resolve_severity_thresholds-IsOrdered config =
    coherent-gather-IsOrdered (bounded_setting config "soc_sev_critical" 80)
      (bounded_setting config "soc_sev_high" 60) (bounded_setting config "soc_sev_medium" 40)
      (bounded_setting_bounds config "soc_sev_critical" 80)
      (bounded_setting_bounds config "soc_sev_medium" 40)

module _ (lib : FloatLibrary) where
  open lib use {Float, of_int, le, le_trans, of_int_mono}

  -- The rank of the severity is the number of thresholds that the score reaches, if they are
  -- reached in order.
  abbrev rank_of : Thresholds → Float → ℕ
  rank_of t x =
      if le (of_int t.crit) x
      then 3
      else if le (of_int t.high) x
      then 2
      else if le (of_int t.med) x
      then 1
      else 0

  pub sev_order-severity_for_score :
      (t : Thresholds) (x : Float) → sev_order (severity_for_score lib x t) 0 ≡ rank_of t x
  unfolding severity_for_score sev_order
  sev_order-severity_for_score t x = elim (Bool-cases (le (of_int t.crit) x)) [
    | inl c ↦ rw c refl
    | inr c ↦ elim (Bool-cases (le (of_int t.high) x)) [
      | inl h ↦ rw (c, h) refl
      | inr h ↦ elim (Bool-cases (le (of_int t.med) x)) [
        | inl m ↦ rw (c, h, m) refl
        | inr m ↦ rw (c, h, m) refl
      ]
    ]
  ]

  -- With ordered thresholds a higher score never has a lower severity.
  pub severity_for_score_mono :
      (t : Thresholds) (x y : Float)
      → IsOrdered t
      → le x y ≡ true
      → sev_order (severity_for_score lib x t) 0 ≤ sev_order (severity_for_score lib y t) 0
  severity_for_score_mono t x y o h = ground (
    arith,
    sev_order-severity_for_score t x,
    sev_order-severity_for_score t y,
    le_trans (of_int t.crit) x y,
    le_trans (of_int t.high) x y,
    le_trans (of_int t.med) x y,
    of_int_mono t.high t.crit,
    of_int_mono t.med t.high,
  )
