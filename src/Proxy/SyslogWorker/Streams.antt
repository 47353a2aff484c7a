-- ===== src/Proxy/SyslogWorker/Streams.antt =====
-- What the batches of a table in the order of its ids contain.
use wardnode.Base.{
  ℕ, zero, suc, ◌≤◌, ◌<◌, Bool, true, false, List, [], ◌∷◌, ◌++◌, ◌≡◌, refl, ◌||◌, arith, keep,
  take, All, All-append, Bool-cases, inl, inr, ◌=?◌, subst,
}
use wardnode.Proxy.SyslogWorker.{last_of, max_id}

-- The id occurs in the list.
unfoldable pub holds : ℕ → List ℕ → Bool
holds id [] = false
holds id (j ∷ ids) = j =? id || holds id ids

abbrev pub IsSorted : List ℕ → Type 0
IsSorted [] = Unit
IsSorted (j ∷ ids) = All (λ k. j < k) ids × IsSorted ids

pub holds-append : (id : ℕ) (xs ys : List ℕ) → holds id (xs ++ ys) ≡ (holds id xs || holds id ys)
unfolding holds
holds-append id [] ys = refl
holds-append id (x ∷ xs) ys = ground (arith, holds-append id xs ys)

pub holds-keep :
    (p : ℕ → Bool) (id : ℕ) (xs : List ℕ)
    → p id ≡ true
    → holds id xs ≡ true
    → holds id (keep p xs) ≡ true
unfolding holds keep
holds-keep p id [] h k = k
holds-keep p id (x ∷ xs) h k = elim (Bool-cases (x =? id)) [
  | inl e ↦ let same : x ≡ id = ground (arith, e) in rw (same, h) (ground arith)
  | inr e ↦ ground (arith, e, holds-keep p id xs h)
]

pub holds-keep_only :
    (p : ℕ → Bool) (id : ℕ) (xs : List ℕ) → holds id (keep p xs) ≡ true → holds id xs ≡ true
unfolding holds keep
holds-keep_only p id [] k = k
holds-keep_only p id (x ∷ xs) k = ground (arith, holds-keep_only p id xs)

pub holds-All : (P : ℕ → Type 0) (id : ℕ) (xs : List ℕ) → All P xs → holds id xs ≡ true → P id
unfolding holds
holds-All P id [] h k = ground (arith, k)
holds-All P id (x ∷ xs) h k = elim (Bool-cases (x =? id)) [
  | inl e ↦ let same : x ≡ id = ground (arith, e) in subst P same h.0
  | inr e ↦ holds-All P id xs h.1 (ground (arith, e, k))
]

pub All-keep_any : (P : ℕ → Type 0) (p : ℕ → Bool) (xs : List ℕ) → All P xs → All P (keep p xs)
unfolding keep
All-keep_any P p [] h = tt
All-keep_any P p (x ∷ xs) h = ground (arith, All-keep_any P p xs h.1)

pub IsSorted-keep : (p : ℕ → Bool) (xs : List ℕ) → IsSorted xs → IsSorted (keep p xs)
unfolding keep
IsSorted-keep p [] h = tt
IsSorted-keep p (x ∷ xs) h = elim (Bool-cases (p x)) [
  | inl e ↦ rw e (All-keep_any (λ j. x < j) p xs h.0, IsSorted-keep p xs h.1)
  | inr e ↦ rw e (IsSorted-keep p xs h.1)
]

pub IsSorted-snoc :
    (xs : List ℕ) (id : ℕ) → IsSorted xs → All (λ k. k < id) xs → IsSorted (xs ++ (id ∷ []))
IsSorted-snoc [] id h k = (tt, tt)
IsSorted-snoc (x ∷ xs) id h k =
    (All-append (λ j. x < j) xs (id ∷ []) h.0 (k.0, tt), IsSorted-snoc xs id h.1 k.1)

-- An id up to the last one of a prefix of the table stands in that prefix.
pub take-holds :
    (n id x : ℕ) (xs : List ℕ)
    → IsSorted (x ∷ xs)
    → holds id (x ∷ xs) ≡ true
    → id ≤ last_of x (take n xs)
    → holds id (x ∷ take n xs) ≡ true
unfolding holds last_of
take-holds zero id x xs h k l = elim (Bool-cases (x =? id)) [
  | inl e ↦ ground (arith, e)
  | inr e ↦
      let inside : holds id xs ≡ true = ground (arith, e, k) in
      let above : x < id = holds-All (λ j. x < j) id xs h.0 inside in ground arith
]
take-holds (suc n) id x [] h k l = k
take-holds (suc n) id x (y ∷ ys) h k l = elim (Bool-cases (x =? id)) [
  | inl e ↦ ground (arith, e)
  | inr e ↦ ground (arith, e, k, take-holds n id y ys h.1)
]

pub last_of-All : (P : ℕ → Type 0) (id : ℕ) (xs : List ℕ) → P id → All P xs → P (last_of id xs)
unfolding last_of
last_of-All P id [] h k = h
last_of-All P id (x ∷ xs) h k = last_of-All P x xs k.0 k.1

pub max_id-All : (n : ℕ) (xs : List ℕ) → All (λ k. k ≤ n) xs → max_id xs ≤ n
unfolding max_id
max_id-All n [] h = omega arith
max_id-All n (x ∷ xs) h = omega (arith, h.0, max_id-All n xs h.1)

abbrev pub final : List ℕ → ℕ
final [] = 0
final (x ∷ xs) = last_of x xs

pub holds-take :
    (n id : ℕ) (xs : List ℕ)
    → IsSorted xs
    → holds id xs ≡ true
    → id ≤ final (take (suc n) xs)
    → holds id (take (suc n) xs) ≡ true
holds-take n id [] h k l = k
holds-take n id (x ∷ xs) h k l = take-holds n id x xs h k l
