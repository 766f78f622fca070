-- ===== src/System.antt =====
-- The two queues and the table of connections together, as the threads of the library use them:
-- `ready_to_send`, `send_worker_thread`, `recv_worker_thread` and `qmanager_thread` of
-- mod_tcpclient/src/work.c. Each operation holds `qtex` and is one step, so that a sequence of
-- operations stands for an interleaving of the threads.
pub mod Achieved
pub mod Invariant
pub mod Kept
pub mod Safety
pub mod Queueing
pub mod Order
pub mod Refinement
pub mod Send
pub mod Service
pub mod Take
pub mod Transaction
use client_shared_lib.Base.{ℕ, List, [], Option, none, some, ◌==◌, if◌then◌else◌}
use client_shared_lib.Base.Int.{ℤ}
use client_shared_lib.Mem.{
  Ptr, null, Run, Cmd, ok, fault, out_of_fuel, pure, ◌>>=◌, ◌>>◌, free, load,
}
use client_shared_lib.Types.{CString, TimeVal, Msg, Globals, on_ids, on_msgs}
use client_shared_lib.IdQueue.{rem_id, list_expired}
use client_shared_lib.MsgQueue.{PushArgs, push_to_msgq, pop_from_msgq}
use client_shared_lib.Connect.{EndPeer, Net, Dial, recreate_conn}
use client_shared_lib.Dispatch.{set_down}

-- What a thread does; the first number of an operation on a queue is its fuel.
pub data Op : Type 0 where
  -- `ready_to_send`: a client queues a message
  send : (k spin : ℕ) (temp ktemp : Ptr) → TimeVal → PushArgs → Op
  -- `recv_worker_thread`: a transaction has been answered
  answer : ℕ → CString → Op
  -- `qmanager_thread`
  expire : ℕ → (ℕ → TimeVal) → Op
  -- `send_worker_thread`: a message for the connection is taken and given back
  take : ℕ → ℤ → Op
  -- `c->state = 0`
  drop : ℕ → Op
  -- `recreate_conn`
  restore : ℕ → List EndPeer → Dial → Op

-- The message in the node that `pop_from_msgq` returns, which is freed once it has been sent.
unfoldable pub take_message : ℕ → ℤ → Cmd Globals (Option Msg)
take_message k con = do
  p ← on_msgs (pop_from_msgq k con)
  if p == null then pure none else do n ← on_msgs (load p); on_msgs (free p); pure (some n.item)

module _ {A : Type 0} where
  abbrev pub put_conns : Globals → Run Net A → Run Globals A
  put_conns g (ok a n) = ok a (record g { conns = n.conns })
  put_conns g fault = fault
  put_conns g out_of_fuel = out_of_fuel

unfoldable pub perform : Op → Cmd Globals (Unit {0})
unfolding take_message
perform (send k spin temp ktemp now a) = push_to_msgq k spin temp ktemp now a
perform (answer k tid) = on_ids (rem_id k tid)
perform (expire k clock) = on_ids (list_expired k clock)
perform (take k con) = take_message k con >> pure tt
perform (drop i) = set_down i
perform (restore pid peers d) =
    λ g. put_conns g (recreate_conn pid peers d (record { conns = g.conns; calls = [] }))
