-- ===== src/Sender/Ready.antt =====
-- Whether a new message wakes a sender, and what can happen between the two locks.
use client_shared_lib.Base.{
  ℕ, ◌<◌, ◌≤◌, ◌≡◌, refl, sym, ◌∙◌, Bool, true, false, none, [], ◌∷◌, ◌++◌, ◌==◌,
}
use client_shared_lib.Base.Int.{pos}
use client_shared_lib.Mem.{Ptr, null, Heap, Cmd, fault, pure, ◌>>◌, load}
use client_shared_lib.Mem.Points.{load-ok}
use client_shared_lib.Mem.Returns
use client_shared_lib.Mem.Returns.{Returns, returns, and_then_assoc}
use client_shared_lib.Mem.Seg.{Cells, Chain, nil, cons, IsQueue, Exact}
use client_shared_lib.Types.Lift.{put_msgs-Returns}
use client_shared_lib.Types.{TimeVal, IdEntry, Msg, Globals}
use client_shared_lib.Peers.RoundRobin.{IsUp}
use client_shared_lib.IdQueue.Entries.{find}
use client_shared_lib.IdQueue.Add.{HasPeers}
use client_shared_lib.MsgQueue.{PushArgs, new_msg, push_to_msgq}
use client_shared_lib.MsgQueue.Push.{CanPush, push_to_msgq-new}
use client_shared_lib.Sender.{ready_to_send}

-- there was no message before
abbrev pub is_nil : Cells Msg → Bool
is_nil [] = true
is_nil (x ∷ ms) = false

first-exists :
    {h : Heap Msg} {b p : Ptr} (t : Ptr) (m : Msg) (ms : Cells Msg)
    → Chain Exact h null b p (ms ++ (t, m) ∷ [])
    → (p == null) ≡ false
first-exists t m [] (cons e l out ch) = e.not_null
first-exists t m (x ∷ ms) (cons e l out ch) = e.not_null

load-first :
    {h : Heap Msg} {p : Ptr} (t : Ptr) (m : Msg) (ms : Cells Msg)
    → Chain Exact h null null p (ms ++ (t, m) ∷ [])
    → Returns
        (λ n s. (s ≡ record { heap = h; head = p }) × ((n.next == null) ≡ is_nil ms))
        (load p (record { heap = h; head = p }))
load-first {h} {p} t m [] (cons e l out nil) =
    rw (load-ok (record { heap = h; head = p }) e) (returns (refl, refl))
load-first {h} {p} t m (x ∷ ms) (cons e l out ch) =
    rw (load-ok (record { heap = h; head = p }) e) (returns (refl, first-exists t m ms ch))

module _ (k spin : ℕ) (temp ktemp : Ptr) (now : TimeVal) (a : PushArgs) (g : Globals) where
  -- If the other threads empty the message queue after the push and before ready_to_send looks at
  -- it, ready_to_send reads through NULL.
  pub ready_to_send-race :
      (between : Cmd Globals (Unit {0}))
      → Returns (λ _ g'. g'.msgs.head ≡ null) ((push_to_msgq k spin temp ktemp now a >> between) g)
      → ready_to_send between k spin temp ktemp now a g ≡ fault
  unfolding ready_to_send load
  ready_to_send-race between drained =
      sym (and_then_assoc (push_to_msgq k spin temp ktemp now a g) (λ _. between) _)
      ∙ Returns.bind_eq fault drained λ _ g' e. rw e

  -- When no other thread comes between, ready_to_send with a new id, fresh nodes and some peer up
  -- returns with the message at the end of the queue for a live peer, and wakes a sender exactly
  -- if the queue was empty before.
  pub ready_to_send-wakes :
      {xs : Cells IdEntry} {ms : Cells Msg} (i : ℕ)
      → CanPush k temp a g xs ms
      → find a.tid xs ≡ none
      → (ktemp == null) ≡ false
      → g.ids.heap ktemp ≡ none
      → HasPeers g
      → i < g.num_peers
      → IsUp g.conns i
      → g.num_peers ≤ spin
      → Returns
          (λ wakes g'.
            (c : ℕ) × IsUp g.conns c
            × (wakes ≡ is_nil ms)
            × IsQueue Exact g'.msgs (ms ++ (temp, new_msg a (pos c)) ∷ []))
          (ready_to_send (pure tt) k spin temp ktemp now a g)
  unfolding ready_to_send
  ready_to_send-wakes {ms} i can new some_node unused peers hi up spins =
      Returns.bind
        (push_to_msgq-new k spin temp ktemp now a g can i new some_node unused peers hi up spins)
        λ _ g' (c, up', _, queue, _, _, _).
          Returns.bind (put_msgs-Returns g' (load-first temp (new_msg a (pos c)) ms queue))
            λ n s (t, same, (same', wake)). returns (c, up', wake, rw (same, same') queue)
