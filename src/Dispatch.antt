-- ===== src/Dispatch.antt =====
-- The receive worker: what `recv_worker_thread` of mod_tcpclient/src/work.c does with the result of
-- one `receive_from_fd`. The callbacks are the client's code. The copies of attributes that the
-- thread makes and frees, or forgets to free, are values here.
pub mod Requests
pub mod Responses
pub mod Rounds
use client_shared_lib.Base.{
  ℕ, ◌+◌, Bool, true, false, Option, none, some, List, [], ◌∷◌, ◌++◌, ◌==◌, ltb, take, drop, set,
  get_elem?, if◌then◌else◌,
}
use client_shared_lib.Base.Int.{ℤ, pos, pos_part, ◌==ℤ◌}
use client_shared_lib.Mem.{Ptr, null, Cmd, ok, fault, pure, ◌>>=◌, ◌>>◌}
use client_shared_lib.Types.{CString, TimeVal, Con, Request, Globals, on_ids}
use client_shared_lib.IdQueue.{Found, lookup_id, rem_id}
use client_shared_lib.MsgQueue.{fits_key}
use client_shared_lib.Xml.{Parsed, parse_xml_attribute}
use client_shared_lib.Wire.{atoi, Received}

-- `response_t`
pub record Response : Type 0 where
  pub id : CString
  pub retcode : ℤ
  pub query_res : List ℕ

-- The client's functions: `req_cb.reg_req_cb`, and the function at the address that an entry holds.
pub record Callbacks : Type 0 where
  pub reg_req_cb : (is_timeout : Bool) → Request → (elapsed_msecs : ℤ) → Cmd Globals (Unit {0})
  pub callback_f :
      Ptr
      → (is_timeout : Bool) → (param : Ptr) → Response
      → (elapsed_msecs : ℤ) → Cmd Globals (Unit {0})

-- `<NAME>` and `</NAME>`
abbrev pub open_tag : List ℕ → List ℕ
open_tag name = b'<' ∷ name ++ b'>' ∷ []

abbrev pub close_tag : List ℕ → List ℕ
close_tag name = b'<' ∷ b'/' ∷ name ++ b'>' ∷ []

abbrev pub event_name : List ℕ
event_name = b'E' ∷ b'V' ∷ b'E' ∷ b'N' ∷ b'T' ∷ []

abbrev pub type_name : List ℕ
type_name = b'T' ∷ b'Y' ∷ b'P' ∷ b'E' ∷ []

abbrev pub tid_name : List ℕ
tid_name = b'T' ∷ b'I' ∷ b'D' ∷ []

abbrev pub sid_name : List ℕ
sid_name = b'S' ∷ b'I' ∷ b'D' ∷ []

abbrev pub reply_code_name : List ℕ
reply_code_name = b'R' ∷ b'E' ∷ b'P' ∷ b'L' ∷ b'Y' ∷ b'_' ∷ b'C' ∷ b'O' ∷ b'D' ∷ b'E' ∷ []

-- `message` and `rc`; no message is NULL.
pub record Incoming : Type 0 where
  pub message : Option (List ℕ)
  pub rc : ℤ

abbrev pub text : Option (List ℕ) → List ℕ
text none = []
text (some message) = message

abbrev pub attribute : Incoming → List ℕ → Parsed
attribute m name = parse_xml_attribute m.message (pos_part m.rc) (open_tag name) (close_tag name)

-- `out.len > 0`
unfoldable pub has_attribute : Incoming → List ℕ → Bool
has_attribute m name = ltb 0 (attribute m name).len

-- the bytes before the first NUL
abbrev pub c_string : List ℕ → CString
c_string [] = []
c_string (c ∷ s) = if c == 0 then [] else c ∷ c_string s

abbrev pub copied : List ℕ → Option ℕ → ℕ → CString
copied message none len = []
copied message (some s) len = c_string (take len (drop s message))

-- `x = calloc(out.len + 1, 1); memcpy(x, out.s, out.len)`
unfoldable pub copy_attribute : Incoming → List ℕ → CString
copy_attribute m name = copied (text m.message) (attribute m name).s (attribute m name).len

-- the request that is handed to the client
abbrev pub incoming_request : Incoming → (no_transaction picked_up : Bool) → Request
incoming_request m no_transaction picked_up = record {
  req_buf = text m.message;
  msg_len = pos_part m.rc;
  picked_up = picked_up;
  no_transaction = no_transaction;
  id = [];
}

abbrev pub response : Incoming → CString → ℤ → Response
response m tid retcode = record { id = tid; retcode = retcode; query_res = text m.message }

module _ (api : Callbacks) (k : ℕ) (curr : TimeVal) (m : Incoming) where
  -- a response for the entry that was looked up; a call through NULL is a fault
  unfoldable pub complete : CString → Response → Option Found → Cmd Globals (Unit {0})
  complete tid res none = pure tt
  complete tid res (some n) = if n.callback_f == null then (λ _. fault) else do
    api.callback_f n.callback_f n.is_expired n.callback_param res n.elapsed_msecs
    on_ids (rem_id k tid)

  -- The end of the branches for responses, which the source has twice: `strcpy(res->id, tid)` writes
  -- past `id[KEY_SIZE]` unless the NUL has room too.
  unfoldable pub respond : CString → ℤ → Cmd Globals (Unit {0})
  unfolding complete
  respond tid retcode = do
    lookup ← on_ids (lookup_id k curr tid)
    if fits_key tid then complete tid (response m tid retcode) lookup else (λ _. fault)

  unfoldable pub event_request : Option Found → Cmd Globals (Unit {0})
  event_request (some n) = api.reg_req_cb true (incoming_request m true true) n.elapsed_msecs
  event_request none = api.reg_req_cb false (incoming_request m false false) (pos 0)

  unfoldable pub session_request : Cmd Globals (Unit {0})
  session_request = api.reg_req_cb false (incoming_request m false true) (pos 0)

  abbrev pub is_request : Bool
  is_request = atoi (copy_attribute m type_name) ==ℤ pos 1

  abbrev pub reply : Cmd Globals (Unit {0})
  reply = respond (copy_attribute m tid_name) (atoi (copy_attribute m reply_code_name))

  unfoldable pub event : Cmd Globals (Unit {0})
  event =
      if is_request
      then (do lookup ← on_ids (lookup_id k curr (copy_attribute m tid_name)); event_request lookup)
      else reply

  unfoldable pub session : Cmd Globals (Unit {0})
  session =
      if is_request
      then (if has_attribute m sid_name then session_request else pure tt)
      else (if has_attribute m sid_name then session_request else reply)

  -- `default:`
  unfoldable pub dispatch : Cmd Globals (Unit {0})
  dispatch =
      if has_attribute m event_name
      then (if has_attribute m type_name then event else pure tt)
      else (if has_attribute m type_name then session else pure tt)

-- `c->state = 0`
unfoldable pub set_down : ℕ → Cmd Globals (Unit {0})
set_down i g = elim (get_elem? g.conns i) [
  | none ↦ fault
  | some c ↦ ok tt (record g { conns = set (g.conns) i (record c { state = 0 }) })
]

-- `rc` after `receive_from_fd`, which does not always write it
abbrev pub stored : Option ℤ → ℤ → ℤ
stored none rc = rc
stored (some n) rc = n

-- The `switch`, for the worker of connection `i` whose `rc` is that of the round before. The result
-- is the new `rc`. `close` is left to the kernel.
unfoldable pub received : Callbacks → ℕ → TimeVal → (i : ℕ) → (rc : ℤ) → Received → Cmd Globals ℤ
unfolding set_down
received api k curr i rc r =
    let rc' = stored r.ret rc in
    (if rc' ==ℤ pos 0
      then set_down i
      else dispatch api k curr (record { message = r.message; rc = rc' }))
    >> pure rc'
