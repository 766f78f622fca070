-- ===== src/MsgQueue/Dangling.antt =====
-- What follows for the sender when the last message of the queue was not the first: its node has
-- been freed and is still linked.
use client_shared_lib.Base.{
  ℕ, zero, suc, ◌<◌, ◌≡◌, true, false, none, [], ◌∷◌, ◌++◌, arith, length, ◌==◌,
}
use client_shared_lib.Base.Int.{ℤ, ◌==ℤ◌}
use client_shared_lib.Mem.{Ptr, null, node, Heap, write, fault, free, ◌>>◌, ◌>>=◌}
use client_shared_lib.Mem.Points.{Points, load-ok, load-fault, free-ok}
use client_shared_lib.Mem.Returns
use client_shared_lib.Mem.Returns.{Returns, returns}
use client_shared_lib.Mem.Seg.{Cells, Chain, nil, cons, Exact, Loose, IsQueue, frame-write, prefix}
use client_shared_lib.Types.{Msg}
use client_shared_lib.MsgQueue.{MsgStore, pop_loop, pop_from_msgq}
use client_shared_lib.MsgQueue.Unlink.{NoneFor}
use client_shared_lib.MsgQueue.Tail.{pop_from_msgq-last}

module _ (con : ℤ) (r : Ptr) (ne : (r == null) ≡ false) where
  -- The loop runs into the freed node.
  pop_loop-dangling :
      (k : ℕ) (s : MsgStore) {L : Ptr → Ptr → Type 0} {b p : Ptr} {ms : Cells Msg}
      → s.heap r ≡ none
      → Chain L s.heap r b p ms
      → NoneFor con ms
      → length ms < k
      → pop_loop k con p s ≡ fault
  unfolding pop_loop
  pop_loop-dangling zero s freed ch other fuel = absurd (omega arith)
  pop_loop-dangling (suc k) s freed nil other fuel = rw (ne, load-fault s r ne freed)
  pop_loop-dangling (suc k) s freed (cons e l out ch) (miss, other) fuel =
      rw (e.not_null, load-ok s e, miss) (pop_loop-dangling k s freed ch other (omega arith))

  pop_from_msgq-dangling :
      (k : ℕ) (h : Heap Msg) {p y : Ptr} {b : Msg} {ms : Cells Msg}
      → h r ≡ none
      → Chain Loose h r null p ((y, b) ∷ ms)
      → NoneFor con ((y, b) ∷ ms)
      → suc (length ms) < k
      → pop_from_msgq k con (record { heap = h; head = p }) ≡ fault
  unfolding pop_from_msgq
  pop_from_msgq-dangling k h {p} freed (cons e l out ch) (miss, other) fuel =
      let s : MsgStore = record { heap = h; head = p } in
      rw (e.not_null, load-ok s e, miss)
        (pop_loop-dangling k s {b = null} freed (cons e l out ch) (miss, other) fuel)

-- If only the last node of a queue of two or more is for a connection, then popping for it,
-- freeing the result, and popping again for a connection that no other node is for, reads the
-- freed node.
pub pop_from_msgq-use_after_free :
    (con con' : ℤ) (k : ℕ) (s : MsgStore) (pre : Cells Msg) (r : Ptr) (m : Msg) {y : Ptr} {b : Msg}
    → IsQueue Exact s ((y, b) ∷ pre ++ (r, m) ∷ [])
    → NoneFor con ((y, b) ∷ pre)
    → (m.conn ==ℤ con) ≡ true
    → NoneFor con' ((y, b) ∷ pre)
    → suc (length pre) < k
    → (pop_from_msgq k con >>= λ p. free p >> pop_from_msgq k con') s ≡ fault
unfolding write
pop_from_msgq-use_after_free con con' k s pre r m {y} {b} q other hit other' fuel =
    Returns.bind_eq fault (pop_from_msgq-last con pre r m k s q (other.0) (other.1) hit fuel)
      λ ret t (taken, chain).
        let (front, away, ne) = prefix r m [] ((y, b) ∷ pre) chain in
        let at : Points t.heap r (node m null null) = record { not_null = ne; holds = taken.1 } in
        rw (taken.0, free-ok t at)
          (pop_from_msgq-dangling con' r ne k (write t.heap r none) (ground arith)
            (frame-write r none front away) other' fuel)
