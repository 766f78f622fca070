-- ===== src/Receiver/Stream.antt =====
-- The receive worker over a stream of messages: it dispatches them one after another.
use client_shared_lib.Base.{ℕ, ◌<◌, ◌≡◌, refl, false, some, List, [], ◌∷◌, arith, length, ◌==◌}
use client_shared_lib.Base.Int.{ℤ, pos}
use client_shared_lib.Mem.{ok}
use client_shared_lib.Types.{Globals}
use client_shared_lib.Peers.RoundRobin.{IsUp}
use client_shared_lib.Wire.{Inbound}
use client_shared_lib.Wire.Header.{header}
use client_shared_lib.Wire.Recv.{Heads, Brings, receive_from_fd-message}
use client_shared_lib.Connect.{EndPeer, Call}
use client_shared_lib.Connect.Repair.{reconnect-up}
use client_shared_lib.Dispatch.{Callbacks, Incoming, received, dispatch}
use client_shared_lib.Receiver.{Round, recv_round, recv_rounds}

-- a message as `receive_from_fd` gives it to the thread
abbrev pub incoming : List ℕ → Incoming
incoming body = record { message = some body; rc = pos (length body) }

-- The answers up to `rest` bring these messages, each behind its length; each has at least one byte
-- and less than 10000.
pub data Carries (rest : Inbound) : Inbound → List (List ℕ) → Type 0 where
  over : Carries rest rest []
  message :
      {answers between after : Inbound} {body : List ℕ} {bodies : List (List ℕ)}
      → 0 < length body
      → length body < 10000
      → Heads between answers (header (length body))
      → Brings after between body
      → Carries rest after bodies
      → Carries rest answers (body ∷ bodies)

-- Dispatching these messages, each in its round and on a connection that is up, leads from one
-- state to the other.
pub data Dispatched (api : Callbacks) (k i : ℕ)
    : List Round → List (List ℕ) → Globals → Globals → Type 0 where
  finished : {g : Globals} → Dispatched api k i [] [] g g
  step :
      {t : Round} {ts : List Round} {body : List ℕ} {bodies : List (List ℕ)} {g g' g'' : Globals}
      → IsUp g.conns i
      → dispatch api k t.curr (incoming body) g ≡ ok tt g'
      → Dispatched api k i ts bodies g' g''
      → Dispatched api k i (t ∷ ts) (body ∷ bodies) g g''

-- the length of the last message
abbrev pub last_rc : ℤ → List (List ℕ) → ℤ
last_rc rc [] = rc
last_rc rc (body ∷ bodies) = last_rc (pos (length body)) bodies

module _ (api : Callbacks) (k : ℕ) (peers : List EndPeer) (i : ℕ) where
  recv_round-dispatch :
      (t : Round) (rc : ℤ) (g g' : Globals) (calls : List Call) (body : List ℕ)
      {answers between after : Inbound}
      → IsUp g.conns i
      → 0 < length body
      → length body < 10000
      → Heads between answers (header (length body))
      → Brings after between body
      → dispatch api k t.curr (incoming body) g ≡ ok tt g'
      → recv_round api k peers i t rc (record { globals = g; inbound = answers; calls = calls })
        ≡ ok (pos (length body)) (record { globals = g'; inbound = after; calls = calls })
  unfolding recv_round received
  recv_round-dispatch t rc g g' calls body {answers} {between} live some_byte small heads brings
        done =
      let nonzero : (length body == 0) ≡ false = ground arith in
      rw
        (
          reconnect-up i peers (t.dials) (record { conns = g.conns; calls = calls }) live,
          receive_from_fd-message answers body small heads brings,
          nonzero,
          done,
        )
        refl

  -- Over a stream of messages whose dispatching, one after another and on a connection that is up,
  -- leads from one state to another, the rounds of the receiver do just that.
  pub recv_rounds-Dispatched :
      {rest : Inbound} {ts : List Round} {bodies : List (List ℕ)} {g g' : Globals}
      {answers : Inbound} (rc : ℤ) (calls : List Call)
      → Carries rest answers bodies
      → Dispatched api k i ts bodies g g'
      → recv_rounds api k peers i ts rc (record { globals = g; inbound = answers; calls = calls })
        ≡ ok (last_rc rc bodies) (record { globals = g'; inbound = rest; calls = calls })
  unfolding recv_rounds
  recv_rounds-Dispatched rc calls over finished = refl
  recv_rounds-Dispatched rc calls (message {body} some_byte small heads brings more)
        (step {t} {g} {g'} live one next) =
      rw (recv_round-dispatch t rc g g' calls body live some_byte small heads brings one)
        (recv_rounds-Dispatched (pos (length body)) calls more next)
