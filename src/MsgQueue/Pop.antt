-- ===== src/MsgQueue/Pop.antt =====
-- `pop_from_msgq` of mod_tcpclient/src/task.c takes the first message of a connection out of the
-- queue, unless that is the last node and not the first: then it stays (see `Tail`).
use client_shared_lib.Base.{
  ℕ, zero, suc, ◌<◌, ◌≡◌, refl, true, false, some, ◌∷◌, ◌++◌, arith, length,
}
use client_shared_lib.Base.Int.{ℤ, ◌==ℤ◌}
use client_shared_lib.Mem.{Ptr, null, node, Heap, write, ok}
use client_shared_lib.Mem.Points.{
  Points, load-ok, set_next-ok, set_prev-ok, Points-write_self, Points-write_ne,
}
use client_shared_lib.Mem.Returns
use client_shared_lib.Mem.Returns.{Returns, returns}
use client_shared_lib.Mem.Seg.{
  Cells, has, Chain, nil, cons, Exact, IsQueue, SameOutside, frame-write,
}
use client_shared_lib.Types.{Msg}
use client_shared_lib.MsgQueue.{MsgStore, clear_prev, pop_loop, pop_from_msgq}
use client_shared_lib.MsgQueue.Unlink.{NoneFor, Detached, pop_loop-none, pop_loop-miss, take_middle}

module _ (con : ℤ) where
  pop-none-Chain :
      (k : ℕ) {h : Heap Msg} {p : Ptr} {ms : Cells Msg}
      → Chain Exact h null null p ms
      → NoneFor con ms
      → length ms < k
      → pop_from_msgq k con (record { heap = h; head = p })
        ≡ ok null (record { heap = h; head = p })
  unfolding pop_from_msgq
  pop-none-Chain k nil other fuel = refl
  pop-none-Chain k {h} {p} (cons e l out ch) (miss, other) fuel =
      let s : MsgStore = record { heap = h; head = p } in
      rw (e.not_null, load-ok s e, miss)
        (pop_loop-none con k s (cons e l out ch) (miss, other) fuel)

  -- If no message of a whole queue is for the connection, pop returns NULL and the store is as
  -- before.
  pub pop_from_msgq-none :
      (k : ℕ) (s : MsgStore) {ms : Cells Msg}
      → IsQueue Exact s ms
      → NoneFor con ms
      → length ms < k
      → pop_from_msgq k con s ≡ ok null s
  pop_from_msgq-none k s q other fuel = pop-none-Chain k q other fuel

  pop-first-Chain :
      (k : ℕ) {h : Heap Msg} {p r : Ptr} {m : Msg} {post : Cells Msg}
      → Chain Exact h null null p ((r, m) ∷ post)
      → (m.conn ==ℤ con) ≡ true
      → Returns
          (λ ret t.
            Detached r m ret t × IsQueue Exact t post × SameOutside ((r, m) ∷ post) h t.heap)
          (pop_from_msgq k con (record { heap = h; head = p }))
  unfolding pop_from_msgq clear_prev write
  pop-first-Chain k {h} {p} {m} (cons {c} e l out nil) hit =
      let s : MsgStore = record { heap = h; head = null } in
      let h1 = write h p (some (node m null null)) in
      rw
        (
          e.not_null,
          load-ok (record s { head = p }) e,
          hit,
          set_prev-ok s e null,
          set_next-ok (record s { heap = h1 }) (Points-write_self e _) null,
        )
        (returns {s = record s { heap = write h1 p (some (node m null null)) }}
          ((refl, ground arith), nil, λ x i. ground arith))
  pop-first-Chain k {h} {p} {m} (cons {q} e l out (cons {q = z} {a = n} e2 l2 out2 ch)) hit =
      let s : MsgStore = record { heap = h; head = q } in
      let h1 = write h q (some (node n null z)) in
      let e1 = Points-write_ne e q (some (node n null z)) (ground arith) in
      let h2 = write h1 p (some (node m null q)) in
      let e3 = Points-write_self e1 (node m null q) in
      let h3 = write h2 p (some (node m null null)) in
      rw
        (
          e.not_null,
          load-ok (record s { head = p }) e,
          hit,
          e2.not_null,
          set_prev-ok s e2 null,
          set_prev-ok (record s { heap = h1 }) e1 null,
          set_next-ok (record s { heap = h2 }) e3 null,
        )
        (returns {s = record s { heap = h3 }} (
          (refl, ground arith),
          cons
              (Points-write_ne (Points-write_ne (Points-write_self e2 _) p _ (ground arith)) p _
                (ground arith))
              refl out2
              (frame-write p _ (frame-write p _ (frame-write q _ ch out2) (ground arith))
                (ground arith)),
          λ x i. ground arith,
        ))

  -- When the head of the queue is a message for the connection, pop returns its node with both
  -- links cleared, the rest is a doubly linked queue in the same order, and no address outside
  -- the queue changes.
  pub pop_from_msgq-first :
      (k : ℕ) (s : MsgStore) {r : Ptr} {m : Msg} {post : Cells Msg}
      → IsQueue Exact s ((r, m) ∷ post)
      → (m.conn ==ℤ con) ≡ true
      → Returns
          (λ ret t.
            Detached r m ret t × IsQueue Exact t post × SameOutside ((r, m) ∷ post) s.heap t.heap)
          (pop_from_msgq k con s)
  pop_from_msgq-first k s q hit = pop-first-Chain k q hit

  module _ (pre : Cells Msg) (r : Ptr) (m : Msg) (z : Ptr) (n : Msg) (post : Cells Msg) where
    -- the loop begins at the head once more
    pop_loop-head :
        (k : ℕ) (s : MsgStore) {p c q : Ptr} {b : Msg}
        → Points s.heap p (node b c q)
        → Exact null c
        → has p (pre ++ (r, m) ∷ (z, n) ∷ post) ≡ false
        → Chain Exact s.heap null p q (pre ++ (r, m) ∷ (z, n) ∷ post)
        → (b.conn ==ℤ con) ≡ false
        → NoneFor con pre
        → (m.conn ==ℤ con) ≡ true
        → suc (length pre) < k
        → Returns
            (λ ret t.
              Detached r m ret t
              × Chain Exact t.heap null null p ((p, b) ∷ pre ++ (z, n) ∷ post)
              × (t.head ≡ s.head)
              × SameOutside ((p, b) ∷ pre ++ (r, m) ∷ (z, n) ∷ post) s.heap t.heap)
            (pop_loop k con p s)
    pop_loop-head zero s e l out ch miss other hit fuel = absurd (omega arith)
    pop_loop-head (suc k) s e l out ch miss other hit fuel =
        rw (pop_loop-miss con k s e miss)
          (take_middle con k s pre r m z n post e l out ch other hit (omega arith))

    pop-middle-Chain :
        (k : ℕ) {h : Heap Msg} {p y : Ptr} {b : Msg}
        → Chain Exact h null null p ((y, b) ∷ pre ++ (r, m) ∷ (z, n) ∷ post)
        → (b.conn ==ℤ con) ≡ false
        → NoneFor con pre
        → (m.conn ==ℤ con) ≡ true
        → suc (length pre) < k
        → Returns
            (λ ret t.
              Detached r m ret t
              × IsQueue Exact t ((y, b) ∷ pre ++ (z, n) ∷ post)
              × SameOutside ((y, b) ∷ pre ++ (r, m) ∷ (z, n) ∷ post) h t.heap)
            (pop_from_msgq k con (record { heap = h; head = p }))
    unfolding pop_from_msgq
    pop-middle-Chain k {h} {p} (cons e l out ch) miss other hit fuel =
        let s : MsgStore = record { heap = h; head = p } in
        rw (e.not_null, load-ok s e, miss)
          (Returns.mono (pop_loop-head k s e l out ch miss other hit fuel)
            λ ret t (taken, chain, head, same). (taken, rw head chain, same))

    -- When the first message for a connection is neither the head nor the last node of the queue,
    -- pop returns its node with both links cleared, and leaves the other messages in order in a
    -- doubly linked queue; no address outside the queue changes.
    pub pop_from_msgq-middle :
        (k : ℕ) (s : MsgStore) {y : Ptr} {b : Msg}
        → IsQueue Exact s ((y, b) ∷ pre ++ (r, m) ∷ (z, n) ∷ post)
        → (b.conn ==ℤ con) ≡ false
        → NoneFor con pre
        → (m.conn ==ℤ con) ≡ true
        → suc (length pre) < k
        → Returns
            (λ ret t.
              Detached r m ret t
              × IsQueue Exact t ((y, b) ∷ pre ++ (z, n) ∷ post)
              × SameOutside ((y, b) ∷ pre ++ (r, m) ∷ (z, n) ∷ post) s.heap t.heap)
            (pop_from_msgq k con s)
    pop_from_msgq-middle k s q miss other hit fuel = pop-middle-Chain k q miss other hit fuel
