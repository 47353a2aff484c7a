-- ===== src/Modules/SocketClient/Frames/Received.antt =====
-- A frame arrives as it was sent.
use wardnode.Base.{
  ℕ, zero, suc, ◌-◌, ◌≤◌, ◌<◌, min, false, ◌≡◌, refl, sym, ap, ◌∙◌, some, List, [], ◌∷◌, ◌++◌,
  append_assoc, append-nil, take, drop, length, ltb, ◌=?◌, All, Bool-cases, inl, inr, length-append,
  length-take, take-append-drop, arith,
}
use wardnode.Modules.SocketClient.Frames.{
  Connection, max_resp, to_bytes, from_bytes, frame, rest_of, recv, gather, receive, reply_after,
  receive_reply,
}

-- The bytes that a connection delivers.
unfoldable pub joined : Connection → List ℕ
joined [] = []
joined (chunk ∷ later) = chunk ++ joined later

-- No chunk is empty: an empty read is the end of the connection.
abbrev pub IsFlowing : Connection → Type 0
IsFlowing chunks = All (λ c. 1 ≤ length c) chunks

pub from_bytes-to_bytes : (n : ℕ) → n < 4294967296 → from_bytes (to_bytes n) ≡ n
from_bytes-to_bytes n h = omega (arith, h)

joined-rest : (s : List ℕ) (later : Connection) → joined (rest_of s later) ≡ s ++ joined later
unfolding joined
joined-rest [] later = refl
joined-rest (b ∷ bs) later = refl

rest-IsFlowing : (s : List ℕ) (later : Connection) → IsFlowing later → IsFlowing (rest_of s later)
rest-IsFlowing [] later h = h
rest-IsFlowing (b ∷ bs) later h = (omega arith, h)

recv-joined :
    (n : ℕ) (chunks : Connection) → (recv n chunks).0 ++ joined (recv n chunks).1 ≡ joined chunks
unfolding joined
recv-joined n [] = refl
recv-joined n (c ∷ later) =
    ap (λ r. take n c ++ r) (joined-rest (drop n c) later)
    ∙ (sym (append_assoc (take n c) (drop n c) (joined later))
        ∙ ap (λ r. r ++ joined later) (take-append-drop n c))

recv-IsFlowing : (n : ℕ) (chunks : Connection) → IsFlowing chunks → IsFlowing (recv n chunks).1
recv-IsFlowing n [] h = tt
recv-IsFlowing n (c ∷ later) h = rest-IsFlowing (drop n c) later h.1

take-append : (n : ℕ) (a b : List ℕ) → length a ≤ n → take n (a ++ b) ≡ a ++ take (n - length a) b
take-append n [] b h = ap (λ k. take k b) (omega arith)
take-append zero (x ∷ a) b h = absurd (omega (arith, h))
take-append (suc n) (x ∷ a) b h =
    ap (λ r. x ∷ r) (take-append n a b (omega (arith, h)) ∙ ap (λ k. a ++ take k b) (omega arith))

take_all : (a b : List ℕ) → take (length a) (a ++ b) ≡ a
take_all [] b = refl
take_all (x ∷ a) b = ap (λ r. x ∷ r) (take_all a b)

take_none : (n : ℕ) (s : List ℕ) → n ≡ 0 → take n s ≡ []
take_none zero s h = refl
take_none (suc n) s h = absurd (omega (arith, h))

gather_lem :
    (fuel n : ℕ) (r : List ℕ × Connection)
    → 1 ≤ length r.0
    → length r.0 ≤ n
    → ((m : ℕ) → m ≤ n - length r.0 → n - length r.0 ≤ m → receive fuel m r.1 ≡ take m (joined r.1))
    → gather (receive fuel) n r ≡ take n (r.0 ++ joined r.1)
gather_lem fuel n ([], later) p q k = absurd (omega (arith, p))
gather_lem fuel n (b ∷ bs, later) p q k =
    ap (λ s. (b ∷ bs) ++ s) (k (n - length (b ∷ bs)) (omega arith) (omega arith))
    ∙ sym (take-append n (b ∷ bs) (joined later) q)

recv_some :
    (n : ℕ) (chunks : Connection)
    → 1 ≤ n
    → 1 ≤ length (joined chunks)
    → IsFlowing chunks
    → (1 ≤ length (recv n chunks).0) × (length (recv n chunks).0 ≤ n)
unfolding joined
recv_some n [] p q h = absurd (omega (arith, q))
recv_some n (c ∷ later) p q h =
    (omega (arith, p, h.0, length-take n c), omega (arith, length-take n c))

-- Enough reads give exactly the bytes that are wanted, in whatever chunks they arrive.
receive_lem :
    (fuel n : ℕ) (chunks : Connection)
    → n ≤ fuel
    → n ≤ length (joined chunks)
    → IsFlowing chunks
    → receive fuel n chunks ≡ take n (joined chunks)
unfolding receive
receive_lem zero n chunks p q h = sym (take_none n (joined chunks) (omega (arith, p)))
receive_lem (suc fuel) n chunks p q h = elim (Bool-cases (n =? 0)) [
  | inl e ↦ rw e (sym (take_none n (joined chunks) (ground (arith, e))))
  | inr e ↦
      let positive : 1 ≤ n = ground (arith, e) in
      let r = recv (min 4096 n) chunks in
      let some_bytes =
        recv_some (min 4096 n) chunks (omega (arith, positive)) (omega (arith, positive, q)) h in
      let whole = recv-joined (min 4096 n) chunks in
      rw e (
        gather_lem fuel n r some_bytes.0 (omega (arith, some_bytes.1)) (λ m low high.
          receive_lem fuel m r.1 (omega (arith, low, p, some_bytes.0))
            (omega (arith, low, q, ap length whole, length-append r.0 (joined r.1)))
            (recv-IsFlowing (min 4096 n) chunks h))
        ∙ ap (take n) whole)
]

-- The first four bytes that are read from a frame, and what is left of it.
head_lem :
    (payload head rest : List ℕ)
    → length head ≡ 4
    → (head ++ rest) ≡ frame payload
    → (head ≡ to_bytes (length payload)) × (rest ≡ payload)
head_lem payload [] rest h e = absurd (omega (arith, h))
head_lem payload (a ∷ []) rest h e = absurd (omega (arith, h))
head_lem payload (a ∷ b ∷ []) rest h e = absurd (omega (arith, h))
head_lem payload (a ∷ b ∷ c ∷ []) rest h e = absurd (omega (arith, h))
head_lem payload (a ∷ b ∷ c ∷ d ∷ []) rest h e = (ap (take 4) e, ap (drop 4) e)
head_lem payload (a ∷ b ∷ c ∷ d ∷ f ∷ s) rest h e = absurd (omega (arith, h))

reply_after_lem :
    (reply head : List ℕ) (later : Connection)
    → length reply ≤ max_resp
    → length head ≡ 4
    → head ≡ to_bytes (length reply)
    → joined later ≡ reply
    → IsFlowing later
    → reply_after (head, later) ≡ some reply
reply_after_lem reply head later p h e j f =
    let size : from_bytes head ≡ length reply =
      ap from_bytes e ∙ from_bytes-to_bytes (length reply) (omega (arith, p)) in
    let wanted : min (from_bytes head) max_resp ≡ length reply = omega (arith, p, size) in
    let long : ltb (length head) 4 ≡ false = ground (arith, h) in
    let n = min (from_bytes head) max_resp in
    rw long (
      ap some (
        receive_lem n n later (omega arith) (omega (arith, wanted, ap length j)) f
        ∙ (ap (λ k. take k (joined later)) wanted
            ∙ (ap (take (length reply)) (j ∙ sym (append-nil reply)) ∙ take_all reply []))))

-- A reply of at most 4 MB that the agent sends as a frame is what the client reads, in whatever
-- chunks it arrives, if the first read gives the four bytes of its length: the client's loop ends
-- with the whole of it.
pub receive_reply-frame :
    (reply : List ℕ) (chunks : Connection)
    → length reply ≤ max_resp
    → joined chunks ≡ frame reply
    → IsFlowing chunks
    → length (recv 4 chunks).0 ≡ 4
    → receive_reply chunks ≡ some reply
unfolding receive_reply
receive_reply-frame reply chunks p e f h =
    let parts =
      head_lem reply (recv 4 chunks).0 (joined (recv 4 chunks).1) h (recv-joined 4 chunks ∙ e) in
    reply_after_lem reply (recv 4 chunks).0 (recv 4 chunks).1 p h parts.0 parts.1
      (recv-IsFlowing 4 chunks f)
