-- ===== src/Dispatch/Responses.antt =====
-- A response reaches the callback of its transaction, once.
use client_shared_lib.Base.{
  ℕ, ◌<◌, ◌≡◌, ◌∙◌, true, false, none, some, arith, length, ◌==◌, Bool-cases, inl, inr,
}
use client_shared_lib.Base.Int.{ℤ, pos, ◌==ℤ◌}
use client_shared_lib.Mem.{null, ok, fault}
use client_shared_lib.Mem.Returns
use client_shared_lib.Mem.Returns.{Returns, returns}
use client_shared_lib.Mem.Seg.{Cells, IsQueue, Loose}
use client_shared_lib.Types.Lift.{put_ids-Returns}
use client_shared_lib.Types.{CString, TimeVal, IdEntry, Globals}
use client_shared_lib.IdQueue.{time_elapsed}
use client_shared_lib.IdQueue.Entries.{erase, IsDistinct, length-erase, find-erase}
use client_shared_lib.IdQueue.Lookup.{search_id, lookup_id-find}
use client_shared_lib.IdQueue.Remove.{rem_id-erase}
use client_shared_lib.MsgQueue.{fits_key}
use client_shared_lib.Wire.{atoi}
use client_shared_lib.Dispatch.{
  Callbacks, Incoming, response, has_attribute, copy_attribute, complete, respond, event, session,
  dispatch, event_name, type_name, sid_name, tid_name, reply_code_name,
}

-- A response to the transaction `tid`: a type that is not 1, and no session id unless it is an event.
pub record IsResponse (m : Incoming) (tid : CString) : Type 0 where
  pub typed : has_attribute m type_name ≡ true
  pub answers : (atoi (copy_attribute m type_name) ==ℤ pos 1) ≡ false
  pub plain : has_attribute m event_name ≡ false → has_attribute m sid_name ≡ false
  pub of_tid : copy_attribute m tid_name ≡ tid

abbrev pub retcode : Incoming → ℤ
retcode m = atoi (copy_attribute m reply_code_name)

module _ (api : Callbacks) (k : ℕ) (curr : TimeVal) (m : Incoming) (tid : CString) where
  pub dispatch-reply :
      (g : Globals)
      → IsResponse m tid
      → dispatch api k curr m g ≡ respond api k curr m tid (retcode m) g
  unfolding dispatch event session
  dispatch-reply g r = elim (Bool-cases (has_attribute m event_name)) [
    | inl e ↦ rw (e, r.typed, r.answers, r.of_tid)
    | inr e ↦ rw (e, r.typed, r.answers, r.plain e, r.of_tid)
  ]

  module _ (g : Globals) {xs : Cells IdEntry} (q : IsQueue Loose g.ids xs) (fuel : length xs < k)
      (r : IsResponse m tid) where
    -- unknown
    pub dispatch-unknown :
        fits_key tid ≡ true → search_id tid xs ≡ none → dispatch api k curr m g ≡ ok tt g
    unfolding respond complete
    dispatch-unknown fits e =
        dispatch-reply g r ∙ rw (lookup_id-find k curr tid g.ids q fuel, fits, e)

    -- A response whose transaction id has 256 bytes or more is written past the end of the
    -- response's id, whether or not the transaction is known.
    pub dispatch-overflow : fits_key tid ≡ false → dispatch api k curr m g ≡ fault
    unfolding respond
    dispatch-overflow long = dispatch-reply g r ∙ rw (lookup_id-find k curr tid g.ids q fuel, long)

    -- A response to a transaction on a whole queue whose callback is set, and whose id fits the
    -- response, calls that callback with its parameter, the entry's mark as the timeout flag, the
    -- reply code and the age of the entry; if the callback returns with some whole queue,
    -- dispatching returns with the first entry of the id dropped from that queue.
    pub dispatch-known :
        {ys : Cells IdEntry} (e : IdEntry)
        → fits_key tid ≡ true
        → search_id tid xs ≡ some e
        → (e.callback_f == null) ≡ false
        → Returns
            (λ _ g'. IsQueue Loose g'.ids ys × (length ys < k))
            (api.callback_f e.callback_f e.is_expired e.callback_param
              (response m tid (retcode m))
              (time_elapsed curr e.a_time)
              g)
        → Returns (λ _ g'. IsQueue Loose g'.ids (erase tid ys)) (dispatch api k curr m g)
    unfolding respond complete
    dispatch-known e fits at_e callable called =
        rw (dispatch-reply g r, lookup_id-find k curr tid g.ids q fuel, fits, at_e, callable)
          (Returns.bind called λ _ g' (q', fuel').
            Returns.mono (put_ids-Returns g' (rem_id-erase tid k (g'.ids) q' fuel'))
              λ _ g'' (s, same, erased). rw same (erased.0))

module _ (api : Callbacks) (k : ℕ) (curr : TimeVal) (m : Incoming) (tid : CString) where
  -- If the callback of a transaction leaves a whole queue whose ids differ, then dispatching a
  -- response to that transaction on a whole queue, with a callback that is set and an id that
  -- fits the response, returns, and the same response that comes in later is dropped and changes
  -- nothing.
  pub dispatch-once :
      (g : Globals) {xs ys : Cells IdEntry} (e : IdEntry) (later : TimeVal)
      → IsQueue Loose g.ids xs
      → length xs < k
      → IsResponse m tid
      → fits_key tid ≡ true
      → search_id tid xs ≡ some e
      → (e.callback_f == null) ≡ false
      → IsDistinct ys
      → Returns
          (λ _ g'. IsQueue Loose g'.ids ys × (length ys < k))
          (api.callback_f e.callback_f e.is_expired e.callback_param
            (response m tid (retcode m))
            (time_elapsed curr e.a_time)
            g)
      → length ys < k
      → Returns (λ _ g'. dispatch api k later m g' ≡ ok tt g') (dispatch api k curr m g)
  dispatch-once g {ys} e later q fuel r fits at_e callable apart called fuel' =
      Returns.mono (dispatch-known api k curr m tid g q fuel r e fits at_e callable called)
        λ _ g' q'.
          dispatch-unknown api k later m tid g' q' (omega (arith, length-erase tid ys)) r fits
            (ground (arith, find-erase tid ys apart))
