-- ===== src/Float.antt =====
-- Python's `float`, as far as the scores use it: the operations, their order, and the laws of
-- rounding to nearest that the program relies on. `Float/Samples.antt` is an implementation.
pub mod Samples
use wardnode.Base.{ℕ, ◌+◌, ◌*◌, ◌≤◌, ◌<◌, ◌^◌, ◌≡◌, ◌⊎◌, Bool, true, not}

pub record FloatLibrary : Type 1 where
  pub Float : Type 0
  pub of_int : ℕ → Float
  pub add : Float → Float → Float
  pub mul : Float → Float → Float
  pub div : Float → Float → Float
  -- `round(x, 1)`
  pub round1 : Float → Float
  pub le : Float → Float → Bool
  pub le_refl : (x : Float) → le x x ≡ true
  pub le_trans : (x y z : Float) → le x y ≡ true → le y z ≡ true → le x z ≡ true
  pub le_total : (x y : Float) → (le x y ≡ true) ⊎ (le y x ≡ true)
  -- Integers of this size are exact, and so are their sums and products.
  pub of_int_mono : (m n : ℕ) → m ≤ n → le (of_int m) (of_int n) ≡ true
  pub add-of_int : (m n : ℕ) → m + n ≤ 2 ^ 53 → add (of_int m) (of_int n) ≡ of_int (m + n)
  pub mul-of_int : (m n : ℕ) → m * n ≤ 2 ^ 53 → mul (of_int m) (of_int n) ≡ of_int (m * n)
  pub round1-of_int : (n : ℕ) → n ≤ 2 ^ 53 → round1 (of_int n) ≡ of_int n
  -- Rounding to nearest keeps the order, so the operations on values that are not negative are
  -- monotone.
  pub add_mono : (x y u v : Float) → le x y ≡ true → le u v ≡ true → le (add x u) (add y v) ≡ true
  pub mul_mono :
      (n : ℕ) (x y : Float) → le x y ≡ true → le (mul (of_int n) x) (mul (of_int n) y) ≡ true
  pub div_mono :
      (x y : Float) (n : ℕ)
      → 0 < n
      → le x y ≡ true
      → le (div x (of_int n)) (div y (of_int n)) ≡ true
  pub div_self : (n : ℕ) → 0 < n → div (of_int n) (of_int n) ≡ of_int 1
  pub zero_div : (n : ℕ) → 0 < n → div (of_int 0) (of_int n) ≡ of_int 0
  pub round1_mono : (x y : Float) → le x y ≡ true → le (round1 x) (round1 y) ≡ true

module _ (lib : FloatLibrary) where
  open lib use {Float, le}

  abbrev pick {ℓ} : {A : Type ℓ} → Bool → A → A → A
  pick Bool.true a b = a
  pick Bool.false a b = b

  -- Python's `min(a, b)` and `max(a, b)` keep the first of two equal values.
  unfoldable pub float_min : Float → Float → Float
  float_min a b = pick (le a b) a b

  unfoldable pub float_max : Float → Float → Float
  float_max a b = pick (le b a) a b
