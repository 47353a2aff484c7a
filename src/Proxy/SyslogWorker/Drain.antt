-- ===== src/Proxy/SyslogWorker/Drain.antt =====
-- Progress: a first tick starts at the end of the table, and ticks that no send fails empty it.
use wardnode.Base.{
  ℕ, zero, suc, ◌*◌, ◌≤◌, ◌<◌, true, false, some, List, [], ◌∷◌, ◌≡◌, refl, arith, keep, take, drop,
  length, length-drop, All, All-take, All-map, All-keep, Bool-cases, inl, inr, ltb, subst, sym, ◌∙◌,
  ap,
}
use wardnode.Text.{pos}
use wardnode.Proxy.SyslogWorker.{
  batch_size, Stream, sent, get_cursor, set_cursor, bootstrap_cursor, initialised, pending,
  next_batch, send_each, last_of, settle, forward_rows, forward, max_id,
}
use wardnode.Proxy.SyslogWorker.Streams.{
  holds, holds-keep, IsSorted, IsSorted-keep, max_id-All, last_of-All,
}
use wardnode.Proxy.SyslogWorker.Delivery.{IsCovered, forward-IsCovered}

all_sent : (ids : List ℕ) → send_each (λ id. sent) ids ≡ (ids, sent)
unfolding send_each
all_sent [] = refl
all_sent (id ∷ ids) = rw (all_sent ids) refl

-- Without a cursor the stream is covered from the largest id of the table on.
pub bootstrap_cursor-IsCovered :
    (s : Stream)
    → All (λ k. k ≤ s.issued) s.rows
    → IsSorted s.rows
    → IsCovered (max_id s.rows) (bootstrap_cursor s)
unfolding bootstrap_cursor set_cursor
bootstrap_cursor-IsCovered s h k = record {
  reached = max_id s.rows;
  reads = refl;
  from_start = omega arith;
  to_issued = max_id-All s.issued s.rows h;
  rows_issued = h;
  sorted = k;
  covered = λ id a b c. ground arith;
}

keep-ltb_id : (c : ℕ) (xs : List ℕ) → All (λ k. c < k) xs → keep (ltb c) xs ≡ xs
unfolding keep
keep-ltb_id c [] h = refl
keep-ltb_id c (x ∷ xs) h = ground (arith, h.0, keep-ltb_id c xs h.1)

keep-keep : (a b : ℕ) (xs : List ℕ) → a ≤ b → keep (ltb b) (keep (ltb a) xs) ≡ keep (ltb b) xs
unfolding keep
keep-keep a b [] h = refl
keep-keep a b (x ∷ xs) h = ground (arith, keep-keep a b xs h)

le-last_of : (c n : ℕ) (xs : List ℕ) → All (λ k. c < k) xs → c ≤ last_of c (take n xs)
le-last_of c n xs h =
    last_of-All (λ k. c ≤ k) c (take n xs) (omega arith)
      (All-take (λ k. c ≤ k) n xs
        (All-map (λ k. c < k) (λ k. c ≤ k) (λ k l. omega (arith, l)) xs h))

-- What comes after the last id of a prefix is the rest.
keep-last :
    (c n : ℕ) (xs : List ℕ)
    → IsSorted xs
    → All (λ k. c < k) xs
    → keep (ltb (last_of c (take n xs))) xs ≡ drop n xs
unfolding keep last_of
keep-last c zero xs h k = keep-ltb_id c xs k
keep-last c (suc n) [] h k = refl
keep-last c (suc n) (x ∷ xs) h k =
    let out : ltb (last_of x (take n xs)) x ≡ false = ground (arith, le-last_of x n xs h.0) in
    rw out (keep-last x n xs h.1 h.0)

nothing_left : {A : Type 0} (n : ℕ) (xs : List A) → take (suc n) xs ≡ [] → drop (suc n) xs ≡ xs
nothing_left n [] h = refl
nothing_left n (x ∷ xs) h = ground (arith, h)

module _ (s : Stream) (c : ℕ) (e : s.cursor ≡ some (pos c)) (sorted : IsSorted s.rows) where
  pending_lem : pending s ≡ keep (ltb c) s.rows
  unfolding pending get_cursor
  pending_lem = rw e refl

  after_batch :
      keep (ltb (last_of c (take batch_size (keep (ltb c) s.rows)))) s.rows
      ≡ drop batch_size (keep (ltb c) s.rows)
  after_batch =
      let above : All (λ k. c < k) (keep (ltb c) s.rows) =
        All-map (λ k. ltb c k ≡ true) (λ k. c < k) (λ k t. ground (arith, t)) (keep (ltb c) s.rows)
          (All-keep (ltb c) s.rows) in
      sym (
        keep-keep c (last_of c (take batch_size (keep (ltb c) s.rows))) s.rows
          (le-last_of c batch_size (keep (ltb c) s.rows) above))
      ∙ keep-last c batch_size (keep (ltb c) s.rows) (IsSorted-keep (ltb c) s.rows sorted) above

  settle-pending :
      (id : ℕ) (ids now : List ℕ)
      → take batch_size (keep (ltb c) s.rows) ≡ id ∷ ids
      → pending (settle s id ids (now, sent)).stream ≡ drop batch_size (keep (ltb c) s.rows)
  unfolding pending get_cursor set_cursor last_of
  settle-pending id ids now h =
      subst (λ ys. keep (ltb (last_of c ys)) s.rows ≡ drop batch_size (keep (ltb c) s.rows)) h
        after_batch

  forward_rows-pending :
      (ids : List ℕ)
      → next_batch s ≡ ids
      → pending (forward_rows (λ id. sent) s ids).stream ≡ drop batch_size (pending s)
  unfolding next_batch
  forward_rows-pending [] h = sym (nothing_left 499 (pending s) h)
  forward_rows-pending (id ∷ ids) h = rw (all_sent (id ∷ ids)) (
      settle-pending id ids (id ∷ ids) (ap (take batch_size) (sym pending_lem) ∙ h)
      ∙ ap (drop batch_size) (sym pending_lem))

  forward-pending : pending (forward (λ id. sent) s).stream ≡ drop batch_size (pending s)
  unfolding forward get_cursor
  forward-pending =
      let ready : initialised (get_cursor s) s ≡ s = rw e refl in
      rw ready (forward_rows-pending (next_batch s) refl)

  forward_rows-rows : (ids : List ℕ) → (forward_rows (λ id. sent) s ids).stream.rows ≡ s.rows
  unfolding set_cursor
  forward_rows-rows [] = refl
  forward_rows-rows (id ∷ ids) = rw (all_sent (id ∷ ids)) refl

  forward-rows : (forward (λ id. sent) s).stream.rows ≡ s.rows
  unfolding forward get_cursor
  forward-rows =
      let ready : initialised (get_cursor s) s ≡ s = rw e refl in
      rw ready (forward_rows-rows (next_batch s))

-- Ticks of one source that no send fails.
unfoldable pub drain : ℕ → Stream → Stream
drain zero s = s
drain (suc n) s = drain n (forward (λ id. sent) s).stream

empty_of_length : (xs : List ℕ) → length xs ≤ 0 → xs ≡ []
empty_of_length [] h = refl
empty_of_length (x ∷ xs) h = ground (arith, h)

none_left :
    (start : ℕ) (s : Stream)
    → IsCovered start s
    → pending s ≡ []
    → (id : ℕ) → holds id s.rows ≡ true
    → start < id
    → holds id s.delivered ≡ true
unfolding holds
none_left start s h e id k l = elim (Bool-cases (ltb h.reached id)) [
  | inl after ↦
      let absurd : holds id [] ≡ true =
        subst (λ ys. holds id ys ≡ true) (sym (pending_lem s h.reached h.reads h.sorted) ∙ e)
          (holds-keep (ltb h.reached) id s.rows after k) in
      ground (arith, absurd)
  | inr before ↦ h.covered id k l (ground (arith, before))
]

-- A stream that is covered from a start: after as many ticks as its pending rows need, each of
-- at most 500 rows and none with a failing send, every row of the table after the start was sent.
pub drain-delivered :
    (n start : ℕ) (s : Stream) (id : ℕ)
    → IsCovered start s
    → length (pending s) ≤ n * batch_size
    → holds id s.rows ≡ true
    → start < id
    → holds id (drain n s).delivered ≡ true
unfolding drain
drain-delivered zero start s id h few k l =
    none_left start s h (empty_of_length (pending s) few) id k l
drain-delivered (suc n) start s id h few k l =
    drain-delivered n start (forward (λ i. sent) s).stream id
      (forward-IsCovered start s h (λ i. sent))
      (rw (forward-pending s h.reached h.reads h.sorted)
        (omega (arith, few, length-drop batch_size (pending s))))
      (rw (forward-rows s h.reached h.reads h.sorted) k) l
