-- ===== src/Tests/Wire.antt =====
-- The message "hey", cut into pieces by both kernels.
use client_shared_lib.Base.{ℕ, ◌≡◌, refl, true, false, some, List, [], ◌∷◌, arith}
use client_shared_lib.Base.Int.{pos}
use client_shared_lib.Mem.{ok}
use client_shared_lib.Mem.Returns.{Returns}
use client_shared_lib.Wire.{
  SendAnswer, sent, would_block, failed, got, error, Inbound, outbound, send_to_fd, receive_from_fd,
}
use client_shared_lib.Wire.Send.{settles, Outcome, send_to_fd-Outcome}
use client_shared_lib.Wire.Recv.{Brings, done, piece, retried, Heads, whole, part, interrupted}
use client_shared_lib.Wire.RoundTrip.{
  Takes, taken, some_bytes, waits, send_message-wire, send_message-receive,
}

abbrev hey : List ℕ
hey = b'h' ∷ b'e' ∷ b'y' ∷ []

abbrev second_answers : List SendAnswer
second_answers = would_block ∷ sent 2 ∷ sent 1 ∷ []

abbrev answers : List SendAnswer
answers = sent 3 ∷ sent 1 ∷ second_answers

four-Takes : Takes second_answers answers 4
four-Takes = some_bytes 2 refl (some_bytes 0 refl taken)

three-Takes : Takes [] second_answers 3
three-Takes = waits (some_bytes 1 refl (some_bytes 0 refl taken))

abbrev body_in : Inbound
body_in = got (b'h' ∷ []) false ∷ error true ∷ got (b'e' ∷ b'y' ∷ []) false ∷ []

abbrev hey_in : Inbound
hey_in = error true ∷ got (b'0' ∷ b'0' ∷ []) true ∷ got (b'0' ∷ b'3' ∷ []) false ∷ body_in

hey-Heads : Heads body_in hey_in (b'0' ∷ b'0' ∷ b'0' ∷ b'3' ∷ [])
hey-Heads = interrupted (part (b'0' ∷ b'0' ∷ []) (whole (b'0' ∷ b'3' ∷ []) false))

hey-Brings : Brings [] body_in hey
hey-Brings = piece b'h' [] false (retried true (piece b'e' (b'y' ∷ []) false done))

send_to_fd-Outcome_example :
    Returns (Outcome hey 3 (1 ∷ [])) (send_to_fd hey 3 (outbound (sent 2 ∷ failed ∷ []) (1 ∷ [])))
unfolding settles
send_to_fd-Outcome_example =
    send_to_fd-Outcome hey 3 (outbound (sent 2 ∷ failed ∷ []) (1 ∷ [])) (omega arith) refl

send_message-receive_example :
    receive_from_fd hey_in ≡ ok (record { message = some hey; ret = some (pos 3) }) []
send_message-receive_example =
    send_message-receive true hey answers hey_in (b'0' ∷ b'0' ∷ b'0' ∷ b'3' ∷ []) hey (omega arith)
      four-Takes three-Takes
      (send_message-wire true hey (outbound answers []) (omega arith) four-Takes three-Takes)
      hey-Heads refl hey-Brings refl
