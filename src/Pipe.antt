-- ===== src/Pipe.antt =====
-- Requests that come in through a pipe: a round of `rcv_pipe_thread`, and generic_receive_from_fd, of
-- mod_tcpclient/src/work.c. The pipe carries the address of a request, in decimal.
pub mod Addresses
pub mod Requests
use client_shared_lib.Base.{
  ℕ, Bool, true, false, Option, none, some, List, [], ◌∷◌, ◌==◌, take, if◌then◌else◌,
}
use client_shared_lib.Base.Int.{ℤ, pos, negsuc}
use client_shared_lib.Types.{TimeVal, Request, Globals}
use client_shared_lib.Mem.{Ptr, null, Cmd, ok, fault, pure, ◌>>=◌, ◌>>◌}
use client_shared_lib.Wire.{number}
use client_shared_lib.MsgQueue.{PushArgs, push_to_msgq}

-- What `read(fd, pbuf, 8)` brings of the bytes that are there; a byte 0 ends the string.
abbrev pub pbuf : List ℕ → List ℕ
pbuf bytes = take 8 bytes

-- `*ret` of the caller stays as it is, since `ret` is made to point to a local variable.
-- Without a result of `read`, which has failed, the buffer is empty.
unfoldable pub generic_receive : Option (List ℕ) → (ret : ℤ) → Option ℤ × ℤ
generic_receive none ret = (some (number []), ret)
generic_receive (some []) ret = (none, ret)
generic_receive (some (c ∷ bytes)) ret = (some (number (pbuf (c ∷ bytes))), ret)

-- `req`, of which the fields are read
abbrev pub request_at : (Ptr → Option Request) → ℤ → Option Request
request_at requests (pos p) = if p == null then none else requests p
request_at requests (negsuc n) = none

abbrev pub pipe_args : Request → PushArgs
pipe_args req = record {
  tid = req.id;
  len = req.msg_len;
  req = req;
  callback_f = null;
  callback_param = null;
}

abbrev pub push_request :
    (k spin : ℕ) (temp ktemp : Ptr) → TimeVal → Option Request → Cmd Globals (Unit {0})
push_request k spin temp ktemp now none = λ _. fault
push_request k spin temp ktemp now (some req) = push_to_msgq k spin temp ktemp now (pipe_args req)

-- One round; the result says whether the pipe is opened again. The sender is not woken.
unfoldable pub pipe_round :
    (requests : Ptr → Option Request)
    → (k spin : ℕ) (temp ktemp : Ptr) → TimeVal
    → Option (List ℕ)
    → Cmd Globals Bool
pipe_round requests k spin temp ktemp now none =
    push_request k spin temp ktemp now (request_at requests (number [])) >> pure false
pipe_round requests k spin temp ktemp now (some []) = pure true
pipe_round requests k spin temp ktemp now (some (c ∷ bytes)) =
    push_request k spin temp ktemp now (request_at requests (number (pbuf (c ∷ bytes))))
    >> pure false
