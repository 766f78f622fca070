-- ===== src/Receiver/Answers.antt =====
-- The receive worker over a stream of responses: each reaches the callback of its transaction.
use client_shared_lib.Base.{
  ℕ, ◌<◌, ◌≡◌, refl, ◌∙◌, true, false, none, some, List, [], ◌∷◌, arith, length, ◌==◌,
}
use client_shared_lib.Base.Int.{ℤ}
use client_shared_lib.Mem.{null}
use client_shared_lib.Mem.Returns
use client_shared_lib.Mem.Returns.{Returns, returns}
use client_shared_lib.Mem.Seg.{Cells, IsQueue, Loose}
use client_shared_lib.Types.Lift.{put_ids-Returns}
use client_shared_lib.Types.{CString, TimeVal, IdEntry, Globals}
use client_shared_lib.Peers.RoundRobin.{IsUp}
use client_shared_lib.IdQueue.{time_elapsed}
use client_shared_lib.IdQueue.Entries.{erase, length-erase}
use client_shared_lib.IdQueue.Lookup.{search_id, lookup_id-find}
use client_shared_lib.IdQueue.Remove.{rem_id-erase}
use client_shared_lib.MsgQueue.{fits_key}
use client_shared_lib.Wire.{Inbound}
use client_shared_lib.Connect.{EndPeer, Call}
use client_shared_lib.Dispatch.{Callbacks, response, respond, complete, dispatch}
use client_shared_lib.Dispatch.Responses.{IsResponse, retcode, dispatch-reply, dispatch-unknown}
use client_shared_lib.Receiver.{Round, recv_rounds}
use client_shared_lib.Receiver.Stream.{
  incoming, Carries, last_rc, Dispatched, step, recv_rounds-Dispatched,
}

-- the queues and the connections are what they were
pub record Spares (g g' : Globals) : Type 0 where
  pub ids : g'.ids ≡ g.ids
  pub conns : g'.conns ≡ g.conns
  pub msgs : g'.msgs ≡ g.msgs

-- Each message is a response, whose id fits it. `xs` are the transactions before the first, `ys`
-- those that are left: a response that finds its transaction takes the first entry of the id, whose
-- callback is set, and one that finds none takes nothing. Called with what belongs to that entry
-- and that response, the callback leaves queues and connections alone.
pub data Answered (api : Callbacks)
    : List Round → List (List ℕ) → Cells IdEntry → Cells IdEntry → Type 0 where
  finished : {xs : Cells IdEntry} → Answered api [] [] xs xs
  known :
      {t : Round} {ts : List Round} {body : List ℕ} {bodies : List (List ℕ)} {tid : CString}
      {xs ys : Cells IdEntry} (e : IdEntry)
      → IsResponse (incoming body) tid
      → fits_key tid ≡ true
      → search_id tid xs ≡ some e
      → (e.callback_f == null) ≡ false
      → ((g : Globals)
          → Returns
              (λ _. Spares g)
              (api.callback_f e.callback_f e.is_expired e.callback_param
                (response (incoming body) tid (retcode (incoming body)))
                (time_elapsed t.curr e.a_time)
                g))
      → Answered api ts bodies (erase tid xs) ys
      → Answered api (t ∷ ts) (body ∷ bodies) xs ys
  stray :
      {t : Round} {ts : List Round} {body : List ℕ} {bodies : List (List ℕ)} {tid : CString}
      {xs ys : Cells IdEntry}
      → IsResponse (incoming body) tid
      → fits_key tid ≡ true
      → search_id tid xs ≡ none
      → Answered api ts bodies xs ys
      → Answered api (t ∷ ts) (body ∷ bodies) xs ys

-- only the transactions have changed, to these
pub record Left (g : Globals) (xs : Cells IdEntry) (g' : Globals) : Type 0 where
  pub ids : IsQueue Loose g'.ids xs
  pub conns : g'.conns ≡ g.conns
  pub msgs : g'.msgs ≡ g.msgs

module _ (api : Callbacks) (k : ℕ) where
  dispatch-Left :
      (curr : TimeVal) (body : List ℕ) (tid : CString) (g : Globals) {xs : Cells IdEntry}
      (e : IdEntry)
      → IsQueue Loose g.ids xs
      → length xs < k
      → IsResponse (incoming body) tid
      → fits_key tid ≡ true
      → search_id tid xs ≡ some e
      → (e.callback_f == null) ≡ false
      → Returns
          (λ _. Spares g)
          (api.callback_f e.callback_f e.is_expired e.callback_param
            (response (incoming body) tid (retcode (incoming body)))
            (time_elapsed curr e.a_time)
            g)
      → Returns (λ _. Left g (erase tid xs)) (dispatch api k curr (incoming body) g)
  unfolding respond complete
  dispatch-Left curr body tid g e q fuel r fits at_e callable called =
      rw
        (
          dispatch-reply api k curr (incoming body) tid g r,
          lookup_id-find k curr tid g.ids q fuel,
          fits,
          at_e,
          callable,
        )
        (Returns.bind called λ _ g' spared.
          Returns.mono (put_ids-Returns g' (rem_id-erase tid k (g'.ids) (rw (spared.ids) q) fuel))
            λ _ g'' (s, same, erased).
              rw same (record { ids = erased.0; conns = spared.conns; msgs = spared.msgs }))

  Answered-Dispatched :
      (i : ℕ) {ts : List Round} {bodies : List (List ℕ)} {xs ys : Cells IdEntry} (g : Globals)
      → Answered api ts bodies xs ys
      → IsQueue Loose g.ids xs
      → length xs < k
      → IsUp g.conns i
      → (g' : Globals) × Dispatched api k i ts bodies g g' × Left g ys g'
  Answered-Dispatched i g finished q fuel live =
      (g, Dispatched.finished, record { ids = q; conns = refl; msgs = refl })
  Answered-Dispatched i g (known {t} {body} {tid} {xs} e r fits at_e callable quiet more) q fuel
        live =
      let (u, g', done, left) =
        Returns.result (dispatch-Left t.curr body tid g e q fuel r fits at_e callable (quiet g)) in
      let (g'', rest, last) =
        Answered-Dispatched i g' more (left.ids) (omega (arith, fuel, length-erase tid xs))
          (rw (left.conns) live) in
      (
        g'',
        step live done rest,
        record { ids = last.ids; conns = last.conns ∙ left.conns; msgs = last.msgs ∙ left.msgs },
      )
  Answered-Dispatched i g (stray {t} {body} {tid} r fits e more) q fuel live =
      let (g'', rest, last) = Answered-Dispatched i g more q fuel live in
      (
        g'',
        step live (dispatch-unknown api k t.curr (incoming body) tid g q fuel r fits e) rest,
        last,
      )

  -- On a live connection and whole transactions, let a stream bring responses whose ids fit, each
  -- of at least one byte and less than 10000. The four bytes of each length come in one piece, or
  -- in pieces after each but the last of which errno is EINTR, EAGAIN or EWOULDBLOCK, with calls
  -- that fail with one of these in between; the response comes in any pieces, with calls that
  -- fail in between. And let each response either find its transaction, with a callback that is
  -- set and leaves queues and connections alone if it is called with the entry's parameter and
  -- mark, the response and the age of the entry, or find none. Then as many rounds of the
  -- receiver, with fuel above the number of transactions, return and read the stream up to the
  -- end of the last response: the transactions left are those without the first entries of the
  -- ids that were found, and the connections and messages stay.
  pub recv_rounds-Answered :
      (peers : List EndPeer) (i : ℕ) {rest : Inbound} {ts : List Round} {bodies : List (List ℕ)}
      {xs ys : Cells IdEntry} {answers : Inbound} (rc : ℤ) (calls : List Call) (g : Globals)
      → IsUp g.conns i
      → IsQueue Loose g.ids xs
      → length xs < k
      → Carries rest answers bodies
      → Answered api ts bodies xs ys
      → Returns
          (λ rc' s. (rc' ≡ last_rc rc bodies) × (s.inbound ≡ rest) × Left g ys s.globals)
          (recv_rounds api k peers i ts rc
            (record { globals = g; inbound = answers; calls = calls }))
  recv_rounds-Answered peers i rc calls g live q fuel stream all =
      let (g', done, left) = Answered-Dispatched i g all q fuel live in
      rw (recv_rounds-Dispatched api k peers i rc calls stream done) (returns (refl, refl, left))
