-- ===== src/Api.antt =====
-- What the library offers its client, and what it does by itself: `register_req_cb` and `sl_send_buf`
-- of mod_tcpclient/src/module.c with the functions of src/work.c that they call, and the loop of
-- `qmanager_thread`. A function of the client stands at an address; NULL is none.
pub mod Registered
pub mod Managed
use client_shared_lib.Base.{ℕ, Bool, List, [], ◌∷◌, ◌==◌, if◌then◌else◌}
use client_shared_lib.Base.Int.{ℤ}
use client_shared_lib.Mem.{Ptr, null, Cmd, ok, fault, pure, ◌>>=◌, ◌>>◌}
use client_shared_lib.Types.{TimeVal, Request, Globals, on_ids}
use client_shared_lib.IdQueue.{list_expired}
use client_shared_lib.MsgQueue.{PushArgs}
use client_shared_lib.Connect.{EndPeer, Net, Health, monitor_sock_conn}
use client_shared_lib.Dispatch.{Callbacks, Response}
use client_shared_lib.Sender.{ready_to_send}

-- `req_cb` and `res_cb`
pub record Registry : Type 0 where
  pub reg_req_cb : Ptr
  pub reg_res_cb : Ptr
  pub callback_param : Ptr

unfoldable pub register_callback_request : Ptr → Cmd Registry ℕ
register_callback_request callback_f r = ok 1 (record r { reg_req_cb = callback_f })

-- Nothing calls this function, and nothing reads what it stores.
unfoldable pub register_callback_responses : Ptr → Ptr → Cmd Registry ℕ
register_callback_responses callback_f param r =
    ok 1 (record r { reg_res_cb = callback_f; callback_param = param })

unfoldable pub register_req_cb : Ptr → Cmd Registry ℕ
unfolding register_callback_request
register_req_cb callback_f = register_callback_request callback_f

-- what the client's functions do, by their addresses
pub record Code : Type 0 where
  pub on_request :
      Ptr → (is_timeout : Bool) → Request → (elapsed_msecs : ℤ) → Cmd Globals (Unit {0})
  pub on_response :
      Ptr
      → (is_timeout : Bool) → (param : Ptr) → Response
      → (elapsed_msecs : ℤ) → Cmd Globals (Unit {0})

abbrev pub request_callback :
    Code → Ptr → (is_timeout : Bool) → Request → (elapsed_msecs : ℤ) → Cmd Globals (Unit {0})
request_callback code f is_timeout req elapsed_msecs =
    if f == null then (λ _. fault) else code.on_request f is_timeout req elapsed_msecs

-- `req_cb.reg_req_cb(...)`, which does not ask whether a function has been registered
abbrev pub callbacks : Code → Registry → Callbacks
callbacks code r = record {
  reg_req_cb = request_callback code (r.reg_req_cb);
  callback_f = code.on_response;
}

-- what `ready_to_send` hands on to `push_to_msgq`
abbrev pub send_args : Request → (callback_f callback_param : Ptr) → PushArgs
send_args req callback_f callback_param = record {
  tid = req.id;
  len = req.msg_len;
  req = req;
  callback_f = callback_f;
  callback_param = callback_param;
}

-- The result is 1, whatever has become of the message.
unfoldable pub sl_send_buf :
    (between : Cmd Globals (Unit {0}))
    → (k spin : ℕ) → (temp ktemp : Ptr) → TimeVal
    → Request
    → (callback_f callback_param : Ptr) → Cmd Globals ℕ
sl_send_buf between k spin temp ktemp now req callback_f callback_param = do
  wakes ← ready_to_send between k spin temp ktemp now (send_args req callback_f callback_param)
  pure 1

-- The rounds of `qmanager_thread`, each with the clock that it reads.
unfoldable pub qmanager_thread : ℕ → List (ℕ → TimeVal) → Cmd Globals (Unit {0})
qmanager_thread k [] = pure tt
qmanager_thread k (clock ∷ clocks) = do on_ids (list_expired k clock); qmanager_thread k clocks

-- The rounds of `monitor_thread`, each with the health that it finds.
unfoldable pub monitor_thread : List EndPeer → List (ℕ → Health) → Cmd Net (Unit {0})
monitor_thread peers [] = pure tt
monitor_thread peers (health ∷ healths) = do
  monitor_sock_conn peers health
  monitor_thread peers healths

-- The sets that a `select` would look at.
pub record FdSets : Type 0 where
  pub read_fds : List ℤ
  pub write_fds : List ℤ
  pub except_fds : List ℤ

-- Nothing calls this function.
unfoldable pub build_fd_sets : ℤ → Cmd FdSets ℕ
build_fd_sets fd s = ok 0 (record { read_fds = fd ∷ []; write_fds = fd ∷ []; except_fds = fd ∷ [] })
