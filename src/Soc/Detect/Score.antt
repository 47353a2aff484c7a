-- ===== src/Soc/Detect/Score.antt =====
-- The score lies between 0 and 100, and grows with what makes an attack worse.
use wardnode.Base.{ℕ, ◌+◌, ◌*◌, ◌≤◌, ◌<◌, ◌^◌, max, ◌≡◌, true, arith, ◌=?◌, inl, inr, Bool-cases}
use wardnode.Float.{FloatLibrary, float_min}
use wardnode.Soc.Detect.{Candidate, block_ratio, score_candidate}

module _ (lib : FloatLibrary) where
  open lib use {
    Float, of_int, add, mul, div, round1, le, le_refl, le_trans, le_total, of_int_mono, add-of_int,
    mul-of_int, round1-of_int, add_mono, mul_mono, div_mono, div_self, zero_div, round1_mono,
  }

  -- `lo ≤ x ≤ hi` for whole numbers.
  abbrev Within : ℕ → ℕ → Float → Type 0
  Within lo hi x = (le (of_int lo) x ≡ true) × (le x (of_int hi) ≡ true)

  float_min-Within :
      (n : ℕ) (x : Float) → le (of_int 0) x ≡ true → Within 0 n (float_min lib (of_int n) x)
  unfolding float_min
  float_min-Within n x h =
      ground (arith, of_int_mono 0 n, le_refl (of_int n), le_total (of_int n) x)

  float_min_mono :
      (n : ℕ) (x y : Float)
      → le x y ≡ true
      → le (float_min lib (of_int n) x) (float_min lib (of_int n) y) ≡ true
  unfolding float_min
  float_min_mono n x y h =
      ground (arith, le_refl (of_int n), le_total (of_int n) x, le_trans (of_int n) x y)

  add-Within :
      (a b c d : ℕ) (x y : Float)
      → a + c ≤ 2 ^ 53
      → b + d ≤ 2 ^ 53
      → Within a b x
      → Within c d y
      → Within (a + c) (b + d) (add x y)
  add-Within a b c d x y h k p q =
      rw (← add-of_int a c h, ← add-of_int b d k)
        (add_mono (of_int a) x (of_int c) y p.0 q.0, add_mono x (of_int b) y (of_int d) p.1 q.1)

  round1-Within : (n : ℕ) (x : Float) → n ≤ 2 ^ 53 → Within 0 n x → Within 0 n (round1 x)
  round1-Within n x h p = ground (
    arith,
    round1-of_int 0,
    round1-of_int n h,
    round1_mono (of_int 0) x p.0,
    round1_mono x (of_int n) p.1,
  )

  mul-nonneg :
      (n : ℕ) (x : Float) → le (of_int 0) x ≡ true → le (of_int 0) (mul (of_int n) x) ≡ true
  mul-nonneg n x h = ground (arith, mul_mono n (of_int 0) x h, mul-of_int n 0)

  div-nonneg :
      (m : ℕ) (x : Float) → 0 < m → le (of_int 0) x ≡ true → le (of_int 0) (div x (of_int m)) ≡ true
  div-nonneg m x h p = ground (arith, div_mono (of_int 0) x m h p, zero_div m h)

  block_ratio-Within : (c : Candidate) → c.blocks ≤ c.event_count → Within 0 20 (block_ratio lib c)
  block_ratio-Within c h = elim (Bool-cases (c.event_count =? 0)) [
    | inl e ↦ rw e (le_refl (of_int 0), of_int_mono 0 20 (omega arith))
    | inr e ↦
        let some_events : 0 < c.event_count = ground (arith, e) in
        let ratio = div (of_int c.blocks) (of_int c.event_count) in
        let at_most_one =
          div_mono (of_int c.blocks) (of_int c.event_count) c.event_count some_events
            (of_int_mono c.blocks c.event_count h) in
        rw e (
          mul-nonneg 20 ratio (
              div-nonneg c.event_count (of_int c.blocks) some_events
                (of_int_mono 0 c.blocks (omega arith))),
          ground (
            arith,
            at_most_one,
            div_self c.event_count some_events,
            mul_mono 20 ratio (of_int 1),
            mul-of_int 20 1,
          ),
        )
  ]

  -- With no more blocks than events the score lies between 0 and 100.
  pub score_candidate_bounds :
      (c : Candidate)
      → c.blocks ≤ c.event_count
      → (le (of_int 0) (score_candidate lib c) ≡ true)
        × (le (score_candidate lib c) (of_int 100) ≡ true)
  unfolding score_candidate
  score_candidate_bounds c h =
      let whole = λ (n : ℕ). of_int_mono 0 n (omega arith) in
      let volume =
        float_min-Within 40
          (div (mul (of_int 40) (of_int c.event_count)) (of_int (2 * max 1 c.min_events)))
          (div-nonneg (2 * max 1 c.min_events) (mul (of_int 40) (of_int c.event_count))
            (omega arith) (mul-nonneg 40 (of_int c.event_count) (whole c.event_count))) in
      let diversity =
        float_min-Within 20 (mul (of_int 5) (of_int c.cat_diversity))
          (mul-nonneg 5 (of_int c.cat_diversity) (whole c.cat_diversity)) in
      let fanout =
        float_min-Within 20 (mul (of_int 2) (of_int c.path_fanout))
          (mul-nonneg 2 (of_int c.path_fanout) (whole c.path_fanout)) in
      round1-Within 100 _ (omega arith) (
        add-Within 0 80 0 20 _ _ (omega arith) (omega arith)
          (add-Within 0 60 0 20 _ _ (omega arith) (omega arith)
            (add-Within 0 40 0 20 _ _ (omega arith) (omega arith) volume diversity)
            (block_ratio-Within c h))
          fanout)

  block_ratio_mono :
      (c : Candidate) (b : ℕ)
      → c.blocks ≤ b
      → le (block_ratio lib c) (block_ratio lib (record c { blocks = b })) ≡ true
  block_ratio_mono c b h = elim (Bool-cases (c.event_count =? 0)) [
    | inl e ↦ rw e (le_refl (of_int 0))
    | inr e ↦ rw e (
        mul_mono 20 (div (of_int c.blocks) (of_int c.event_count))
          (div (of_int b) (of_int c.event_count))
          (div_mono (of_int c.blocks) (of_int b) c.event_count (ground (arith, e))
            (of_int_mono c.blocks b h)))
  ]

  -- More attack categories, more paths and more blocks never lower the score.
  pub score_candidate_mono :
      (c : Candidate) (categories paths blocks : ℕ)
      → c.cat_diversity ≤ categories
      → c.path_fanout ≤ paths
      → c.blocks ≤ blocks
      → le (score_candidate lib c) (
          score_candidate lib
            (record c { cat_diversity = categories; path_fanout = paths; blocks = blocks }))
        ≡ true
  unfolding score_candidate
  score_candidate_mono c categories paths blocks hc hp hb =
      let scaled =
        λ (n a b : ℕ) (h : a ≤ b). mul_mono n (of_int a) (of_int b) (of_int_mono a b h) in
      round1_mono _ _ (
        add_mono _ _ _ _
          (add_mono _ _ _ _
            (add_mono _ _ _ _ (le_refl _) (
              float_min_mono 20 (mul (of_int 5) (of_int c.cat_diversity))
                (mul (of_int 5) (of_int categories)) (scaled 5 c.cat_diversity categories hc)))
            (block_ratio_mono c blocks hb))
          (float_min_mono 20 (mul (of_int 2) (of_int c.path_fanout)) (mul (of_int 2) (of_int paths))
            (scaled 2 c.path_fanout paths hp)))
