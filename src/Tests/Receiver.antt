-- ===== src/Tests/Receiver.antt =====
-- Two rounds of a receiver: a response, and the same response again.
use client_shared_lib.Base.{ℕ, ◌≡◌, refl, true, false, List, [], ◌∷◌, arith, drop, str_eq}
use client_shared_lib.Base.Int.{pos}
use client_shared_lib.Mem.Returns.{Returns, returns}
use client_shared_lib.Types.{Globals}
use client_shared_lib.IdQueue.Entries.{find, erase}
use client_shared_lib.Wire.{Inbound, got, error}
use client_shared_lib.Wire.Recv.{whole, part, interrupted, done, piece, retried}
use client_shared_lib.Receiver.{Round, recv_rounds}
use client_shared_lib.Receiver.Stream.{Carries, over, message, last_rc}
use client_shared_lib.Receiver.Answers.{
  Answered, finished, known, stray, Left, recv_rounds-Answered,
}
use client_shared_lib.Tests.Sample.{id_a, time, entry_a, ids, id_store-IsQueue, globals, con}
use client_shared_lib.Tests.Dispatch.{api, answer_text, answer_a-IsResponse}
use client_shared_lib.Tests.Connect.{peers}

abbrev rounds : List Round
rounds = record { dials = []; curr = time 125 } ∷ record { dials = []; curr = time 126 } ∷ []

abbrev bodies : List (List ℕ)
bodies = answer_text id_a ∷ answer_text id_a ∷ []

-- the length in two pieces and in one, the response in one piece and after an error
abbrev stream : Inbound
stream =
    got (b'0' ∷ b'0' ∷ []) true
    ∷ got (b'5' ∷ b'2' ∷ []) false
    ∷ got (answer_text id_a) false
    ∷ error true
    ∷ got (b'0' ∷ b'0' ∷ b'5' ∷ b'2' ∷ []) false
    ∷ error false
    ∷ got (answer_text id_a) false
    ∷ error false
    ∷ []

stream-Carries : Carries (error false ∷ []) stream bodies
stream-Carries =
    message (omega arith) (omega arith) (part (b'0' ∷ b'0' ∷ []) (whole (b'5' ∷ b'2' ∷ []) false))
      (piece b'<' (drop 1 (answer_text id_a)) false done)
      (message (omega arith) (omega arith)
        (interrupted (whole (b'0' ∷ b'0' ∷ b'5' ∷ b'2' ∷ []) false))
        (retried false (piece b'<' (drop 1 (answer_text id_a)) false done)) over)

rounds-Answered : Answered api rounds bodies ids (erase id_a ids)
unfolding find erase str_eq
rounds-Answered =
    known entry_a answer_a-IsResponse refl refl refl
      (λ g. returns (record { ids = refl; conns = refl; msgs = refl }))
      (stray answer_a-IsResponse refl refl finished)

abbrev live : Globals
live = record globals { conns = con 0 1 ∷ con 1 1 ∷ [] }

recv_rounds-Answered_example :
    Returns
      (λ rc' s.
        (rc' ≡ last_rc (pos 0) bodies)
        × (s.inbound ≡ error false ∷ [])
        × Left live (erase id_a ids) s.globals)
      (recv_rounds api 3 peers 0 rounds
        (pos 0)
        (record { globals = live; inbound = stream; calls = [] }))
recv_rounds-Answered_example =
    recv_rounds-Answered api 3 peers 0 (pos 0) [] live (con 0 1, refl, refl) id_store-IsQueue
      (omega arith) stream-Carries rounds-Answered
