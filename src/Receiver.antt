-- ===== src/Receiver.antt =====
-- The whole of a round of `recv_worker_thread` in mod_tcpclient/src/work.c: it waits for its
-- connection, receives a message and dispatches it.
pub mod Stream
pub mod Answers
use client_shared_lib.Base.{ℕ, List, [], ◌∷◌}
use client_shared_lib.Base.Int.{ℤ}
use client_shared_lib.Mem.{Run, Cmd, ok, fault, out_of_fuel, pure, ◌>>=◌, ◌>>◌}
use client_shared_lib.Types.{TimeVal, Globals}
use client_shared_lib.Wire.{Inbound, receive_from_fd}
use client_shared_lib.Connect.{EndPeer, Call, Net, Dial, reconnect}
use client_shared_lib.Dispatch.{Callbacks, received}

-- The state of a receiver: the globals, what its socket brings, and what it has asked of the kernel.
pub record Receiver : Type 0 where
  pub globals : Globals
  pub inbound : Inbound
  pub calls : List Call

module _ {A : Type 0} where
  abbrev pub put_globals : Receiver → Run Globals A → Run Receiver A
  put_globals s (ok a g) = ok a (record s { globals = g })
  put_globals s fault = fault
  put_globals s out_of_fuel = out_of_fuel

  abbrev pub put_inbound : Receiver → Run Inbound A → Run Receiver A
  put_inbound s (ok a answers) = ok a (record s { inbound = answers })
  put_inbound s fault = fault
  put_inbound s out_of_fuel = out_of_fuel

  abbrev pub put_net : Receiver → Run Net A → Run Receiver A
  put_net s (ok a n) =
      ok a (record s { globals = record (s.globals) { conns = n.conns }; calls = n.calls })
  put_net s fault = fault
  put_net s out_of_fuel = out_of_fuel

-- What the kernel answers in a round: to the attempts to restore the connection, and the time.
pub record Round : Type 0 where
  pub dials : List Dial
  pub curr : TimeVal

-- One round for the connection `i`, whose `rc` is that of the round before; the result is the new
-- one. `goto reconn` is the next round: what it skips is set anew before it is read.
unfoldable pub recv_round :
    Callbacks → (k : ℕ) → List EndPeer → (i : ℕ) → Round → (rc : ℤ) → Cmd Receiver ℤ
recv_round api k peers i t rc = do
  (λ s.
      put_net s (reconnect i peers (t.dials) (record { conns = s.globals.conns; calls = s.calls })))
  r ← (λ s. put_inbound s (receive_from_fd s.inbound))
  (λ s. put_globals s (received api k (t.curr) i rc r s.globals))

unfoldable pub recv_rounds :
    Callbacks → (k : ℕ) → List EndPeer → (i : ℕ) → List Round → (rc : ℤ) → Cmd Receiver ℤ
recv_rounds api k peers i [] rc = pure rc
recv_rounds api k peers i (t ∷ ts) rc = do
  rc' ← recv_round api k peers i t rc
  recv_rounds api k peers i ts rc'
