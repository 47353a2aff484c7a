-- ===== src/Modules/SocketClient/Frames/Tests.antt =====
-- A reply in three chunks.
use wardnode.Base.{ℕ, ◌≡◌, refl, some, List, [], ◌∷◌, arith}
use wardnode.Text.{codes}
use wardnode.Modules.SocketClient.Frames.{
  Connection, to_bytes, frame, receive, receive_reply, receive_command,
}
use wardnode.Modules.SocketClient.Frames.Received.{joined, receive_reply-frame}

abbrev a_reply : List ℕ
a_reply = codes "{\"ok\": true}"

abbrev chunks : Connection
chunks = to_bytes 12 ∷ codes "{\"ok\"" ∷ codes ": true}" ∷ []

reply_test : receive_reply chunks ≡ some a_reply
unfolding receive_reply receive
reply_test = refl

-- The agent reads a payload once: one that arrives in two chunks is cut off.
command_test : receive_command chunks ≡ some (codes "{\"ok\"")
unfolding receive_command
command_test = refl

chunks-joined : joined chunks ≡ frame a_reply
unfolding joined
chunks-joined = refl

receive_reply-frame_example : receive_reply chunks ≡ some a_reply
receive_reply-frame_example =
    receive_reply-frame a_reply chunks (omega arith) chunks-joined
      (omega arith, (omega arith, (omega arith, tt))) refl
