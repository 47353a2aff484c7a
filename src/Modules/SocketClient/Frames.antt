-- ===== src/Modules/SocketClient/Frames.antt =====
-- app/modules/socket_client.py, `send_command`, and the loop of `serve` in
-- host-agent/wardnode-wf-agent.py: the frames that the two exchange. Bytes are natural numbers. A
-- connection is the list of the chunks that it will deliver; a read takes from the first of them.
pub mod Received
mod Tests
use wardnode.Base.{
  ℕ, zero, suc, ◌+◌, ◌-◌, ◌*◌, ◌/◌, ◌%◌, min, Bool, true, false, Option, none, some, List, [], ◌∷◌,
  ◌++◌, take, drop, length, ltb, leb, ◌=?◌, if◌then◌else◌,
}

abbrev pub Connection : Type 0
Connection = List (List ℕ)

abbrev pub max_payload : ℕ
max_payload = 4096

abbrev pub max_resp : ℕ
max_resp = 4194304

-- `n.to_bytes(4, "big")`, and `int.from_bytes(..., "big")` of four bytes.
abbrev pub to_bytes : ℕ → List ℕ
to_bytes n = n / 16777216 % 256 ∷ n / 65536 % 256 ∷ n / 256 % 256 ∷ n % 256 ∷ []

abbrev pub from_bytes : List ℕ → ℕ
from_bytes [] = 0
from_bytes (b ∷ bs) = from_bytes_rest b bs
  where
    from_bytes_rest : ℕ → List ℕ → ℕ
    from_bytes_rest n [] = n
    from_bytes_rest n (c ∷ cs) = from_bytes_rest (n * 256 + c) cs

-- A frame: the length in four bytes, and the payload.
abbrev pub frame : List ℕ → List ℕ
frame payload = to_bytes (length payload) ++ payload

-- `recv(n)`: at most n bytes of what has arrived; none once the connection is closed.
abbrev pub rest_of : List ℕ → Connection → Connection
rest_of [] later = later
rest_of (b ∷ bs) later = (b ∷ bs) ∷ later

abbrev pub recv : ℕ → Connection → List ℕ × Connection
recv n [] = ([], [])
recv n (chunk ∷ later) = (take n chunk, rest_of (drop n chunk) later)

-- The loop of the client: reads until it has so many bytes or a read gives none.
abbrev pub gather : (ℕ → Connection → List ℕ) → ℕ → List ℕ × Connection → List ℕ
gather go wanted ([], later) = []
gather go wanted (b ∷ bs, later) = (b ∷ bs) ++ go (wanted - length (b ∷ bs)) later

unfoldable pub receive : ℕ → ℕ → Connection → List ℕ
receive zero wanted chunks = []
receive (suc fuel) wanted chunks =
    let more = gather (receive fuel) wanted (recv (min 4096 wanted) chunks) in
    if wanted =? 0 then [] else more

-- What the client hands to `json.loads`; `none` is the reply that is cut off.
abbrev pub reply_after : List ℕ × Connection → Option (List ℕ)
reply_after (head, later) =
    if ltb (length head) 4
    then none
    else some (receive (min (from_bytes head) max_resp) (min (from_bytes head) max_resp) later)

unfoldable pub receive_reply : Connection → Option (List ℕ)
unfolding receive
receive_reply chunks = reply_after (recv 4 chunks)

-- What the agent hands to `json.loads`: one read of the payload; a frame that is cut off, or longer
-- than the agent takes, is dropped without a reply.
abbrev pub command_after : List ℕ × Connection → Option (List ℕ)
command_after (head, later) =
    if ltb (length head) 4
    then none
    else (if ltb max_payload (from_bytes head)
        then none
        else some ((recv (from_bytes head) later).0))

unfoldable pub receive_command : Connection → Option (List ℕ)
receive_command chunks = command_after (recv 4 chunks)
