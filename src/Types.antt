-- ===== src/Types.antt =====
-- The structures and constants of mod_tcpclient/include/module.h and task.h, and the library's
-- global variables of src/task.c, src/module.c and src/work.c.
pub mod Lift
use client_shared_lib.Base.{ℕ, Bool, true, false, List, [], ◌∷◌}
use client_shared_lib.Base.Int.{ℤ, pos}
use client_shared_lib.Mem.{Ptr, null, Store, Run, ok, fault, out_of_fuel, Cmd}

-- A C string is the list of its bytes before the terminating NUL.
abbrev pub CString : Type 0
CString = List ℕ

abbrev pub key_size : ℕ
key_size = 256

abbrev pub expiry : ℕ
expiry = 30

-- `struct timeval`
pub record TimeVal : Type 0 where
  pub sec : ℕ
  pub usec : ℕ

-- `con_t`
pub record Con : Type 0 where
  pub fd : ℤ
  pub state : ℕ
  pub peer_id : ℕ

-- `request_t`; `data` of a message points to one, which the message owns
pub record Request : Type 0 where
  pub req_buf : List ℕ
  pub msg_len : ℕ
  pub picked_up : Bool
  pub no_transaction : Bool
  pub id : CString

-- `tsidque_t` without its links
pub record IdEntry : Type 0 where
  pub id : CString
  pub conn : ℕ
  pub is_expired : Bool
  pub a_time : TimeVal
  pub e_time : TimeVal
  pub callback_f : Ptr
  pub callback_param : Ptr

-- `msgque_t` without its links
pub record Msg : Type 0 where
  pub data_req : Request
  pub id : CString
  pub len : ℕ
  pub conn : ℤ

pub record Globals : Type 0 where
  pub ids : Store IdEntry
  pub msgs : Store Msg
  pub conns : List Con
  pub num_peers : ℕ
  pub rr : ℕ

-- A command on one of the global variables, run on all of them.
module _ {A : Type 0} where
  abbrev pub put_ids : Globals → Run (Store IdEntry) A → Run Globals A
  put_ids g (ok a s) = ok a (record g { ids = s })
  put_ids g fault = fault
  put_ids g out_of_fuel = out_of_fuel

  abbrev pub on_ids : Cmd (Store IdEntry) A → Cmd Globals A
  on_ids c g = put_ids g (c g.ids)

  abbrev pub put_msgs : Globals → Run (Store Msg) A → Run Globals A
  put_msgs g (ok a s) = ok a (record g { msgs = s })
  put_msgs g fault = fault
  put_msgs g out_of_fuel = out_of_fuel

  abbrev pub on_msgs : Cmd (Store Msg) A → Cmd Globals A
  on_msgs c g = put_msgs g (c g.msgs)

  abbrev pub put_rr : Globals → Run ℕ A → Run Globals A
  put_rr g (ok a n) = ok a (record g { rr = n })
  put_rr g fault = fault
  put_rr g out_of_fuel = out_of_fuel

  abbrev pub on_rr : (Globals → Cmd ℕ A) → Cmd Globals A
  on_rr c g = put_rr g (c g g.rr)

abbrev pub is_empty : CString → Bool
is_empty [] = true
is_empty (c ∷ s) = false

-- `calloc` fills the node with zero bytes.
abbrev pub blank_entry : IdEntry
blank_entry = record {
  id = [];
  conn = 0;
  is_expired = false;
  a_time = record { sec = 0; usec = 0 };
  e_time = record { sec = 0; usec = 0 };
  callback_f = null;
  callback_param = null;
}

abbrev pub blank_msg : Msg
blank_msg = record {
  data_req = record {
    req_buf = [];
    msg_len = 0;
    picked_up = false;
    no_transaction = false;
    id = [];
  };
  id = [];
  len = 0;
  conn = pos 0;
}
