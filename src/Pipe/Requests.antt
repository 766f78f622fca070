-- ===== src/Pipe/Requests.antt =====
-- A request whose address comes through the pipe is queued.
use client_shared_lib.Base.{
  ℕ, suc, ◌+◌, ◌/◌, ◌%◌, ◌<◌, ◌≡◌, refl, inl, inr, false, Option, some, List, [], ◌∷◌, arith, ◌==◌,
  ltb, length, length-append, Bool-cases,
}
use client_shared_lib.Mem.{Ptr, null, pure, ◌>>◌}
use client_shared_lib.Types.{TimeVal, Request, Globals}
use client_shared_lib.Wire.{number}
use client_shared_lib.MsgQueue.{push_to_msgq}
use client_shared_lib.Pipe.{pbuf, request_at, pipe_args, push_request, pipe_round}
use client_shared_lib.Pipe.Addresses.{ten_to, decimal, number-pbuf-decimal}

decimal-nonempty : (k a : ℕ) → 0 < length (decimal (suc k) a)
unfolding decimal
decimal-nonempty k a = elim (Bool-cases (ltb a 10)) [
  | inl small ↦ rw small (omega arith)
  | inr large ↦ rw large (omega (arith, length-append (decimal k (a / 10)) ((b'0' + a % 10) ∷ [])))
]

module _ (requests : Ptr → Option Request) (k spin : ℕ) (temp ktemp : Ptr) (now : TimeVal)
    (g : Globals) where
  pipe_round-some :
      (bytes : List ℕ)
      → 0 < length bytes
      → pipe_round requests k spin temp ktemp now (some bytes) g
        ≡ (push_request k spin temp ktemp now (request_at requests (number (pbuf bytes)))
              >> pure false)
            g
  unfolding pipe_round
  pipe_round-some [] some_there = absurd (omega arith)
  pipe_round-some (c ∷ bytes) some_there = refl

  -- If a request stands at an address that is not NULL and below 100000000, and the digits of
  -- that address come through the pipe, then a round of rcv_pipe_thread does what push_to_msgq
  -- does with that request and no callback, and goes on reading.
  pub pipe_round-request :
      (a : Ptr) {req : Request}
      → (a == null) ≡ false
      → a < ten_to 8
      → requests a ≡ some req
      → pipe_round requests k spin temp ktemp now (some (decimal 8 a)) g
        ≡ (push_to_msgq k spin temp ktemp now (pipe_args req) >> pure false) g
  pipe_round-request a some_a small there =
      rw
        (
          pipe_round-some (decimal 8 a) (decimal-nonempty 7 a),
          number-pbuf-decimal a small,
          some_a,
          there,
        )
        refl
