-- ===== src/Sender.antt =====
-- Sending: `ready_to_send` of mod_tcpclient/src/work.c, which `sl_send_buf` of src/module.c calls, and
-- a round of `send_worker_thread` after its wait. A queue operation holds `qtex` and is one step;
-- `between` is what the other threads do while `ready_to_send` holds no lock.
pub mod Ready
pub mod Round
pub mod Next
pub mod Drain
use client_shared_lib.Base.{
  ℕ, Bool, true, false, not, Option, none, some, List, [], ◌∷◌, ◌==◌, get_elem?, if◌then◌else◌,
}
use client_shared_lib.Base.Int.{ℤ, pos}
use client_shared_lib.Mem.{
  Ptr, null, Run, Cmd, ok, fault, out_of_fuel, pure, ◌>>=◌, ◌>>◌, load, get_head, free,
}
use client_shared_lib.Types.{TimeVal, Con, Globals, on_msgs}
use client_shared_lib.MsgQueue.{PushArgs, push_to_msgq, pop_from_msgq}
use client_shared_lib.Wire.{Outbound, send_message}
use client_shared_lib.Connect.{EndPeer, Call, Net, Dial, recreate_conn}
use client_shared_lib.Dispatch.{set_down}

-- The result says whether a sender is woken up: the function itself returns 1.
unfoldable pub ready_to_send :
    (between : Cmd Globals (Unit {0}))
    → (k spin : ℕ) → (temp ktemp : Ptr) → TimeVal
    → PushArgs
    → Cmd Globals Bool
ready_to_send between k spin temp ktemp now a = do
  push_to_msgq k spin temp ktemp now a
  between
  gmsgq ← on_msgs get_head
  n ← on_msgs (load gmsgq)
  pure (n.next == null)

-- The state of a sender: the globals, its socket, and what it has asked of the kernel.
pub record Sender : Type 0 where
  pub globals : Globals
  pub out : Outbound
  pub calls : List Call

module _ {A : Type 0} where
  abbrev pub put_globals : Sender → Run Globals A → Run Sender A
  put_globals s (ok a g) = ok a (record s { globals = g })
  put_globals s fault = fault
  put_globals s out_of_fuel = out_of_fuel

  abbrev pub on_globals : Cmd Globals A → Cmd Sender A
  on_globals c s = put_globals s (c s.globals)

  abbrev pub put_out : Sender → Run Outbound A → Run Sender A
  put_out s (ok a o) = ok a (record s { out = o })
  put_out s fault = fault
  put_out s out_of_fuel = out_of_fuel

  abbrev pub on_out : Cmd Outbound A → Cmd Sender A
  on_out c s = put_out s (c s.out)

  abbrev pub put_net : Sender → Run Net A → Run Sender A
  put_net s (ok a n) =
      ok a (record s { globals = record (s.globals) { conns = n.conns }; calls = n.calls })
  put_net s fault = fault
  put_net s out_of_fuel = out_of_fuel

  abbrev pub on_net : Cmd Net A → Cmd Sender A
  on_net c s = put_net s (c (record { conns = s.globals.conns; calls = s.calls }))

abbrev pub found_con : Option Con → Cmd Sender Con
found_con none = λ _. fault
found_con (some c) = pure c

-- `*c`, for the connection `i`
unfoldable pub my_con : ℕ → Cmd Sender Con
my_con i s = found_con (get_elem? s.globals.conns i) s

-- The message that was popped is sent, and given back.
unfoldable pub send_node : ℕ → Ptr → Cmd Sender (Unit {0})
send_node i p = do
  n ← on_globals (on_msgs (load p))
  alive ← on_out (send_message true n.item.data_req.req_buf n.item.len)
  (if alive then pure tt else on_globals (set_down i))
  on_globals (on_msgs (free p))

-- One round for the connection `i`; the kernel answers `d` to an attempt to restore the connection.
unfoldable pub send_round : (k : ℕ) → List EndPeer → ℕ → Dial → Cmd Sender (Unit {0})
unfolding my_con send_node
send_round k peers i d = do
  c ← my_con i
  (if c.state == 1 then pure tt else on_net (recreate_conn c.peer_id peers d))
  p ← on_globals (on_msgs (pop_from_msgq k (pos c.peer_id)))
  if p == null then pure tt else send_node i p

-- The loop of the thread, without its waits: one round for each attempt that the kernel would answer.
unfoldable pub send_rounds : (k : ℕ) → List EndPeer → ℕ → List Dial → Cmd Sender (Unit {0})
send_rounds k peers i [] = pure tt
send_rounds k peers i (d ∷ ds) = do send_round k peers i d; send_rounds k peers i ds
