-- ===== src/System/Transaction.antt =====
-- One transaction from its message to its answer: `ready_to_send` queues the message, the sender
-- of the chosen connection puts it on the wire, and the receiver calls back when the answer comes.
use client_shared_lib.Base.{
  ℕ, suc, ◌<◌, ◌≤◌, ◌≡◌, ◌∙◌, true, false, none, some, List, [], ◌∷◌, ◌++◌, arith, length, ◌==◌,
  get_elem?, length-append,
}
use client_shared_lib.Base.Int.{ℤ, pos}
use client_shared_lib.Mem.{Ptr, null}
use client_shared_lib.Mem.Returns
use client_shared_lib.Mem.Returns.{Returns, returns}
use client_shared_lib.Mem.Seg.{Cells, IsQueue, Loose, Exact}
use client_shared_lib.Types.{TimeVal, IdEntry, Con, Globals, is_empty}
use client_shared_lib.Peers.RoundRobin.{IsUp}
use client_shared_lib.IdQueue.{time_elapsed}
use client_shared_lib.IdQueue.Entries.{find, find-append_new, erase-append_new}
use client_shared_lib.IdQueue.Add.{HasPeers, entry_at}
use client_shared_lib.MsgQueue.{PushArgs, fits_key, new_msg, push_to_msgq}
use client_shared_lib.MsgQueue.Push.{CanPush, push_to_msgq-new}
use client_shared_lib.Wire.{Inbound, SendAnswer, Outbound, outbound}
use client_shared_lib.Wire.Header.{header}
use client_shared_lib.Wire.RoundTrip.{Takes}
use client_shared_lib.Connect.{EndPeer, Call, Dial}
use client_shared_lib.Dispatch.{Callbacks, response}
use client_shared_lib.Dispatch.Responses.{IsResponse, retcode}
use client_shared_lib.Sender.{send_round}
use client_shared_lib.Sender.Round.{send_round-first}
use client_shared_lib.Receiver.{Round, recv_rounds}
use client_shared_lib.Receiver.Stream.{incoming, Carries}
use client_shared_lib.Receiver.Answers.{Spares, Answered, finished, known, recv_rounds-Answered}

-- The callback of the answer `body`, with what belongs to the transaction of `a` queued at `now`,
-- leaves queues and connections alone.
abbrev pub CallsBack :
    Callbacks → (a : PushArgs) → (now : TimeVal) → Round → (body : List ℕ) → Type 0
CallsBack api a now t body =
    (h : Globals)
    → Returns (λ _. Spares h)
        (api.callback_f a.callback_f false a.callback_param
          (response (incoming body) a.tid (retcode (incoming body))) (time_elapsed t.curr now) h)

module _ (api : Callbacks) (k : ℕ) (end_peers : List EndPeer) (now : TimeVal) (a : PushArgs)
    (t : Round) (body : List ℕ) (callable : (a.callback_f == null) ≡ false)
    (quiet : CallsBack api a now t body) (r : IsResponse (incoming body) a.tid)
    (given : is_empty a.tid ≡ false) (fits : fits_key a.tid ≡ true) where
  -- the answer to the transaction that was added last
  answered :
      {left answers : Inbound} {xs : Cells IdEntry} (ktemp c : ℕ) (rc : ℤ) (calls : List Call)
      (g : Globals)
      → Carries left answers (body ∷ [])
      → find a.tid xs ≡ none
      → IsUp g.conns c
      → IsQueue Loose g.ids (xs ++ (ktemp, entry_at now a.tid a.callback_f a.callback_param c) ∷ [])
      → suc (length xs) < k
      → Returns
          (λ _ s.
            IsQueue Loose s.globals.ids xs
            × (s.globals.msgs ≡ g.msgs)
            × (s.globals.conns ≡ g.conns)
            × (s.inbound ≡ left))
          (recv_rounds api k end_peers c
            (t ∷ [])
            rc
            (record { globals = g; inbound = answers; calls = calls }))
  answered {xs} ktemp c rc calls g stream new live q fuel =
      let e = entry_at now a.tid a.callback_f a.callback_param c in
      let both : Answered api (t ∷ []) (body ∷ []) (xs ++ (ktemp, e) ∷ []) xs =
        known e r fits (rw given (find-append_new ktemp e xs new)) callable quiet
          (rw (erase-append_new ktemp e xs new) finished) in
      Returns.mono
        (recv_rounds-Answered api k end_peers c rc calls g live q
          (omega (arith, fuel, length-append xs ((ktemp, e) ∷ []))) stream both)
        λ rc' s (last, came, left_over). (left_over.ids, left_over.msgs, left_over.conns, came)

-- Each connection is that of the peer with its number.
abbrev pub IsNumbered : List Con → Type 0
IsNumbered conns = (j : ℕ) (c : Con) → get_elem? conns j ≡ some c → c.peer_id ≡ j

module _ (api : Callbacks) (k spin : ℕ) (temp ktemp : Ptr) (now : TimeVal) (a : PushArgs)
    (t : Round) (body : List ℕ) (end_peers : List EndPeer) (d : Dial) (rc : ℤ) (calls : List Call)
    (g : Globals) (out : Outbound) where
  -- On a library with an empty message queue, whole transactions, a table whose entries have
  -- their own numbers, and some peer up, with enough fuel, a message with a new id, fresh nodes
  -- and its announced length below 10000 is queued for a live connection; a round of that
  -- connection's sender, whose kernel takes all of it, then puts it on the wire behind its
  -- length; and when the receiver of that connection is brought a response with the id, whose
  -- callback is set and leaves queues and connections alone if it is called with its parameter,
  -- no timeout and the age of the transaction, a round of the receiver returns: the transactions
  -- and the connections are as before the message, the message queue is empty, and the stream has
  -- been read up to the end of the response.
  pub push_to_msgq-answered :
      {xs : Cells IdEntry} {rest mid : List SendAnswer} {left answers : Inbound} (i : ℕ)
      → CanPush k temp a g xs []
      → find a.tid xs ≡ none
      → (ktemp == null) ≡ false
      → g.ids.heap ktemp ≡ none
      → HasPeers g
      → IsNumbered g.conns
      → i < g.num_peers
      → IsUp g.conns i
      → g.num_peers ≤ spin
      → suc (length xs) < k
      → a.len ≡ length a.req.req_buf
      → a.len < 10000
      → Takes mid out.answers 4
      → Takes rest mid a.len
      → Carries left answers (body ∷ [])
      → IsResponse (incoming body) a.tid
      → (a.callback_f == null) ≡ false
      → CallsBack api a now t body
      → Returns
          (λ _ g'.
            (c : ℕ) × IsUp g.conns c
            × Returns
                (λ _ s.
                  (s.out
                    ≡ outbound rest (out.wire ++ (header (length a.req.req_buf) ++ a.req.req_buf)))
                  × Returns
                      (λ _ v.
                        IsQueue Loose v.globals.ids xs
                        × IsQueue Exact v.globals.msgs []
                        × (v.globals.conns ≡ g.conns)
                        × (v.inbound ≡ left))
                      (recv_rounds api k end_peers c
                        (t ∷ [])
                        rc
                        (record { globals = s.globals; inbound = answers; calls = calls })))
                (send_round k end_peers c d (record { globals = g'; out = out; calls = calls })))
          (push_to_msgq k spin temp ktemp now a g)
  push_to_msgq-answered i can new fresh unused peers own hi up spins fuel whole small first second
        stream r callable quiet =
      Returns.mono
        (push_to_msgq-new k spin temp ktemp now a g can i new fresh unused peers hi up spins)
        λ _ g' (c, (con, at_c, live), ids, msgs, _, same, _). (
          c,
          (con, at_c, live),
          Returns.mono
              (send_round-first k end_peers c c d
                (record { globals = g'; out = out; calls = calls })
                (record { c = con; entry = rw same at_c; live = live; peer = own c con at_c }) temp
                (new_msg a (pos c)) whole small first second msgs (ground arith))
              λ _ s gone. (
                gone.wired,
                Returns.mono
                    (answered api k end_peers now a t body callable quiet r (can.given) (can.fits)
                      ktemp c rc calls (s.globals) stream new
                      (con, rw (gone.conns, same) at_c, live) (rw (gone.ids) ids) fuel)
                    λ _ v (back, kept, table, came).
                      (back, rw kept (gone.queue), table ∙ gone.conns ∙ same, came),
              ),
        )
