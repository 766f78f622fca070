-- ===== src/MsgQueue/Tail.antt =====
-- The last message of the queue, where it is not also the first: `pop_from_msgq` returns its node
-- and leaves it linked, and the sender then frees it. What follows from that for the queue.
use client_shared_lib.Base.{
  ℕ, zero, suc, ◌<◌, ◌≡◌, refl, true, false, some, [], ◌∷◌, ◌++◌, arith, length,
}
use client_shared_lib.Base.Int.{ℤ, ◌==ℤ◌}
use client_shared_lib.Mem.{Ptr, null, node, Heap, write}
use client_shared_lib.Mem.Points.{load-ok, set_next-ok, set_prev-ok, Points-write_self}
use client_shared_lib.Mem.Returns
use client_shared_lib.Mem.Returns.{Returns, returns}
use client_shared_lib.Mem.Seg.{
  Cells, Chain, nil, cons, Exact, Loose, IsQueue, SameOutside, cons-SameOutside, SameOutside-cons,
}
use client_shared_lib.Types.{Msg}
use client_shared_lib.MsgQueue.{MsgStore, unlink, pop_loop, pop_from_msgq}
use client_shared_lib.MsgQueue.Unlink.{NoneFor, Detached, pop_loop-miss}

module _ (con : ℤ) where
  -- The node `q` is the last: it is returned, and the node before still leads to it.
  take_last :
      (k : ℕ) (s : MsgStore) {p q r : Ptr} {m : Msg}
      → Chain Exact s.heap null p q ((r, m) ∷ [])
      → (m.conn ==ℤ con) ≡ true
      → Returns
          (λ ret t.
            Detached r m ret t
            × Chain Loose t.heap null p q ((r, m) ∷ [])
            × (t.head ≡ s.head)
            × SameOutside ((r, m) ∷ []) s.heap t.heap)
          (pop_loop (suc k) con q s)
  unfolding pop_loop unlink write
  take_last k s {q} {m} (cons {c} e l out nil) hit =
      let h1 = write s.heap q (some (node m null null)) in
      let e1 = Points-write_self e (node m null null) in
      rw
        (
          e.not_null,
          load-ok s e,
          hit,
          set_prev-ok s e null,
          set_next-ok (record s { heap = h1 }) e1 null,
        )
        (returns {s = record s { heap = write h1 q (some (node m null null)) }} (
          (refl, ground arith),
          cons (Points-write_self e1 _) tt refl nil,
          refl,
          λ x i. ground arith,
        ))

  take_end :
      (k : ℕ) (s : MsgStore) (pre : Cells Msg) (r : Ptr) (m : Msg) {p q : Ptr}
      → Chain Exact s.heap null p q (pre ++ (r, m) ∷ [])
      → NoneFor con pre
      → (m.conn ==ℤ con) ≡ true
      → length pre < k
      → Returns
          (λ ret t.
            Detached r m ret t
            × Chain Loose t.heap null p q (pre ++ (r, m) ∷ [])
            × (t.head ≡ s.head)
            × SameOutside (pre ++ (r, m) ∷ []) s.heap t.heap)
          (pop_loop k con q s)
  take_end zero s pre r m ch other hit fuel = absurd (omega arith)
  take_end (suc k) s [] r m ch other hit fuel = take_last k s ch hit
  take_end (suc k) s ((y, a) ∷ pre) r m {p} {q} (cons e l out ch) (miss, other) hit fuel =
      rw (pop_loop-miss con k s e miss) (
        Returns.mono (take_end k s pre r m ch other hit (omega arith))
          λ ret t (taken, chain, head, same). (
            taken,
            cons-SameOutside (pre ++ (r, m) ∷ []) e tt out out same chain,
            head,
            SameOutside-cons q a (pre ++ (r, m) ∷ []) same,
          ))

module _ (con : ℤ) (pre : Cells Msg) (r : Ptr) (m : Msg) {y : Ptr} {b : Msg} where
  pop-last-Chain :
      (k : ℕ) {h : Heap Msg} {p : Ptr}
      → Chain Exact h null null p ((y, b) ∷ pre ++ (r, m) ∷ [])
      → (b.conn ==ℤ con) ≡ false
      → NoneFor con pre
      → (m.conn ==ℤ con) ≡ true
      → suc (length pre) < k
      → Returns
          (λ ret t. Detached r m ret t × IsQueue Loose t ((y, b) ∷ pre ++ (r, m) ∷ []))
          (pop_from_msgq k con (record { heap = h; head = p }))
  unfolding pop_from_msgq
  pop-last-Chain k {h} {p} (cons e l out ch) miss other hit fuel =
      let s : MsgStore = record { heap = h; head = p } in
      rw (e.not_null, load-ok s e, miss)
        (Returns.mono
          (take_end con k s ((y, b) ∷ pre) r m (cons e l out ch) (miss, other) hit (omega arith))
          λ ret t (taken, chain, head, same). (taken, rw head chain))

  -- When the first message for a connection is the last node of a queue of two or more, pop
  -- returns its node with both links cleared, and the node still stands at the end of the queue.
  pub pop_from_msgq-last :
      (k : ℕ) (s : MsgStore)
      → IsQueue Exact s ((y, b) ∷ pre ++ (r, m) ∷ [])
      → (b.conn ==ℤ con) ≡ false
      → NoneFor con pre
      → (m.conn ==ℤ con) ≡ true
      → suc (length pre) < k
      → Returns
          (λ ret t. Detached r m ret t × IsQueue Loose t ((y, b) ∷ pre ++ (r, m) ∷ []))
          (pop_from_msgq k con s)
  pop_from_msgq-last k s q miss other hit fuel = pop-last-Chain k q miss other hit fuel
