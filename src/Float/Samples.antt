-- ===== src/Float/Samples.antt =====
-- The natural numbers as an implementation of the float interface: exact, with division rounded
-- down. The theorems on scores are evaluated on it.
use native.Mathlib.Nat.{div_self}
use wardnode.Base.{ℕ, ◌+◌, ◌*◌, ◌/◌, ◌≤◌, ◌<◌, ◌≡◌, refl, ◌⊎◌, true, arith, leb, leb→le, le→leb}
use wardnode.Float.{FloatLibrary}

pub leb_refl : (x : ℕ) → leb x x ≡ true
leb_refl x = ground arith

pub leb_trans : (x y z : ℕ) → leb x y ≡ true → leb y z ≡ true → leb x z ≡ true
leb_trans x y z p q = ground arith

pub leb_total : (x y : ℕ) → (leb x y ≡ true) ⊎ (leb y x ≡ true)
leb_total x y = ground arith

pub leb-add : (x y u v : ℕ) → leb x y ≡ true → leb u v ≡ true → leb (x + u) (y + v) ≡ true
leb-add x y u v p q = ground arith

mul_mono_le : (n x y : ℕ) → x ≤ y → n * x ≤ n * y
mul_mono_le n x y h = grind arith

div_mono_le : (x y n : ℕ) → 0 < n → x ≤ y → x / n ≤ y / n
div_mono_le x y n h p = grind arith

pub leb-mul : (n x y : ℕ) → leb x y ≡ true → leb (n * x) (n * y) ≡ true
leb-mul n x y p = le→leb _ _ (mul_mono_le n x y (leb→le x y p))

pub leb-div : (x y n : ℕ) → 0 < n → leb x y ≡ true → leb (x / n) (y / n) ≡ true
leb-div x y n h p = le→leb _ _ (div_mono_le x y n h (leb→le x y p))

pub div_one : (n : ℕ) → 0 < n → n / n ≡ 1
div_one n h = div_self h

pub zero_over : (n : ℕ) → 0 < n → 0 / n ≡ 0
zero_over n h = omega arith

abbrev pub whole : FloatLibrary
whole = record {
  Float = ℕ;
  of_int = λ n. n;
  add = ◌+◌;
  mul = ◌*◌;
  div = ◌/◌;
  round1 = λ n. n;
  le = leb;
  le_refl = leb_refl;
  le_trans = leb_trans;
  le_total = leb_total;
  of_int_mono = le→leb;
  add-of_int = λ m n h. refl;
  mul-of_int = λ m n h. refl;
  round1-of_int = λ n h. refl;
  add_mono = leb-add;
  mul_mono = leb-mul;
  div_mono = leb-div;
  div_self = div_one;
  zero_div = zero_over;
  round1_mono = λ x y h. h;
}
