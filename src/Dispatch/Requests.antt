-- ===== src/Dispatch/Requests.antt =====
-- A request reaches the client, and changes nothing by itself.
use client_shared_lib.Base.{ℕ, ◌<◌, ◌≡◌, refl, Bool, true, false, Option, none, some, arith, length}
use client_shared_lib.Base.Int.{ℤ, pos, ◌==ℤ◌}
use client_shared_lib.Mem.Seg.{Cells, IsQueue, Loose}
use client_shared_lib.Types.{CString, TimeVal, IdEntry, Globals}
use client_shared_lib.IdQueue.{time_elapsed}
use client_shared_lib.IdQueue.Lookup.{search_id, found_of, lookup_id-find}
use client_shared_lib.Wire.{atoi}
use client_shared_lib.Dispatch.{
  Callbacks, Incoming, incoming_request, has_attribute, copy_attribute, event_request, event,
  dispatch, event_name, type_name, tid_name, session, session_request, sid_name,
}

abbrev pub is_known : Option IdEntry → Bool
is_known none = false
is_known (some e) = true

-- how long the transaction has been waiting, 0 if there is none
abbrev pub waited : TimeVal → Option IdEntry → ℤ
waited curr none = pos 0
waited curr (some e) = time_elapsed curr e.a_time

module _ (api : Callbacks) (k : ℕ) (curr : TimeVal) (m : Incoming) (g : Globals) where
  asked :
      (o : Option IdEntry)
      → event_request api k curr m (found_of curr o) g
        ≡ api.reg_req_cb
            (is_known o)
            (incoming_request m (is_known o) (is_known o))
            (waited curr o)
            g
  unfolding event_request
  asked none = refl
  asked (some e) = refl

  -- An event request on a whole queue is handed to the registered function, once and with nothing
  -- else done: it is marked as picked up, as without a transaction and as timed out exactly if an
  -- entry has its id, and the time is the age of that entry, else 0.
  pub dispatch-event :
      (tid : CString) {xs : Cells IdEntry}
      → IsQueue Loose g.ids xs
      → length xs < k
      → has_attribute m event_name ≡ true
      → has_attribute m type_name ≡ true
      → (atoi (copy_attribute m type_name) ==ℤ pos 1) ≡ true
      → copy_attribute m tid_name ≡ tid
      → dispatch api k curr m g ≡ (
          let known = is_known (search_id tid xs) in
          api.reg_req_cb known (incoming_request m known known) (waited curr (search_id tid xs)) g)
  unfolding dispatch event
  dispatch-event tid {xs} q fuel is_event typed asks of_tid =
      rw (is_event, typed, asks, of_tid, lookup_id-find k curr tid g.ids q fuel)
        (asked (search_id tid xs))

  -- A message that is no event, and has a type and a session id, is handed to the registered
  -- function as a request that was picked up, whatever its type, and nothing else is done.
  pub dispatch-session :
      has_attribute m event_name ≡ false
      → has_attribute m type_name ≡ true
      → has_attribute m sid_name ≡ true
      → dispatch api k curr m g ≡ api.reg_req_cb false (incoming_request m false true) (pos 0) g
  unfolding dispatch session session_request
  dispatch-session plain typed sid = rw (plain, typed, sid) (ground arith)
