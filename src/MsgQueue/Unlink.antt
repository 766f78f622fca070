-- ===== src/MsgQueue/Unlink.antt =====
-- Taking a message out of the middle of the queue: the loop of `pop_from_msgq` in
-- mod_tcpclient/src/task.c, on a queue in which another message follows.
use mathlib.Core.Path.{subst}
use client_shared_lib.Base.{
  ℕ, zero, suc, ◌<◌, ◌≡◌, refl, ◌∙◌, ◌++◌, true, false, some, [], ◌∷◌, arith, length, ◌==◌,
}
use client_shared_lib.Base.Int.{ℤ, ◌==ℤ◌}
use client_shared_lib.Mem.{Ptr, null, node, Heap, write, ok}
use client_shared_lib.Mem.Points.{
  Points, load-ok, set_next-ok, set_prev-ok, Points-write_self, Points-write_ne,
}
use client_shared_lib.Mem.Returns
use client_shared_lib.Mem.Returns.{Returns, returns}
use client_shared_lib.Mem.Seg.{
  Cells, has, Chain, nil, cons, Exact, SameOutside, frame-write, cons-SameOutside, SameOutside-cons,
}
use client_shared_lib.Types.{Msg}
use client_shared_lib.MsgQueue.{MsgStore, unlink, pop_loop}

-- no message of `ms` is for the connection
abbrev pub NoneFor : ℤ → Cells Msg → Type 0
NoneFor con [] = Unit
NoneFor con ((p, m) ∷ ms) = ((m.conn ==ℤ con) ≡ false) × NoneFor con ms

-- `r` has been returned, and its node is no longer linked to another
abbrev pub Detached : Ptr → Msg → Ptr → MsgStore → Type 0
Detached r m ret t = (ret ≡ r) × (t.heap r ≡ some (node m null null))

module _ (con : ℤ) where
  pub pop_loop-none :
      (k : ℕ) (s : MsgStore) {L : Ptr → Ptr → Type 0} {b p : Ptr} {ms : Cells Msg}
      → Chain L s.heap null b p ms
      → NoneFor con ms
      → length ms < k
      → pop_loop k con p s ≡ ok null s
  unfolding pop_loop
  pop_loop-none zero s ch other fuel = absurd (omega arith)
  pop_loop-none (suc k) s nil other fuel = refl
  pop_loop-none (suc k) s (cons e l out ch) (miss, other) fuel =
      rw (e.not_null, load-ok s e, miss) (pop_loop-none k s ch other (omega arith))

  -- one round of the loop over the message of another connection
  pub pop_loop-miss :
      (k : ℕ) (s : MsgStore) {p c q : Ptr} {m : Msg}
      → Points s.heap p (node m c q)
      → (m.conn ==ℤ con) ≡ false
      → pop_loop (suc k) con p s ≡ pop_loop k con q s
  unfolding pop_loop
  pop_loop-miss k s e miss = rw (e.not_null, load-ok s e, miss)

  -- The message behind the node `p` is taken out, where another message follows it. The address of
  -- the message stands in two indices of the chain, so it has two names.
  take_second :
      (k : ℕ) (s : MsgStore) {before p c q q' r : Ptr} {b m n : Msg} {post : Cells Msg}
      → Points s.heap p (node b c q)
      → Exact before c
      → has p ((q', m) ∷ (r, n) ∷ post) ≡ false
      → Chain Exact s.heap null p q ((q', m) ∷ (r, n) ∷ post)
      → (m.conn ==ℤ con) ≡ true
      → Returns
          (λ ret t.
            Detached q m ret t
            × Chain Exact t.heap null before p ((p, b) ∷ (r, n) ∷ post)
            × (t.head ≡ s.head)
            × SameOutside ((p, b) ∷ (q', m) ∷ (r, n) ∷ post) s.heap t.heap)
          (pop_loop (suc k) con q s)
  unfolding pop_loop unlink write
  take_second k s {p} {c} {q} {r} {b} {m} {n} {post} e l out
        (cons {c = c1} e1 l1 out1 (cons {c = c2} {q = z} e2 l2 out2 ch)) hit =
      rw
        (
          e1.not_null,
          load-ok s e1,
          hit,
          l1,
          e2.not_null,
          set_prev-ok s e2 p,
          set_next-ok (at h1) p1 r,
          set_prev-ok (at h2) q2 null,
          set_next-ok (at h3) q3 null,
        )
        (returns {s = at h4} (
          (refl, ground arith),
          cons p4 l (ground arith) (cons r4 refl out2 rest),
          refl,
          λ x i. ground arith,
        ))
    where
      at : Heap Msg → MsgStore
      at h = record s { heap = h }

      pq : (p == q) ≡ false
      pq = ground arith

      h1 : Heap Msg
      h1 = write s.heap r (some (node n p z))

      p1 : Points h1 p (node b c q)
      p1 = Points-write_ne e r _ (ground arith)

      h2 : Heap Msg
      h2 = write h1 p (some (node b c r))

      q2 : Points h2 q (node m c1 r)
      q2 = Points-write_ne (Points-write_ne e1 r _ (ground arith)) p _ (ground arith)

      h3 : Heap Msg
      h3 = write h2 q (some (node m null r))

      q3 : Points h3 q (node m null r)
      q3 = Points-write_self q2 _

      h4 : Heap Msg
      h4 = write h3 q (some (node m null null))

      p4 : Points h4 p (node b c r)
      p4 = Points-write_ne (Points-write_ne (Points-write_self p1 _) q _ pq) q _ pq

      r4 : Points h4 r (node n p z)
      r4 =
          Points-write_ne
            (Points-write_ne (Points-write_ne (Points-write_self e2 _) p _ (ground arith)) q _
              (ground arith))
            q _ (ground arith)

      rest : Chain Exact h4 null r z post
      rest =
          frame-write q _
            (frame-write q _ (frame-write p _ (frame-write r _ ch out2) (ground arith))
              (ground arith))
            (ground arith)

  pub head_eq :
      {L : Ptr → Ptr → Type 0} {h : Heap Msg} {b q r : Ptr} {m : Msg} {ms : Cells Msg}
      → Chain L h null b q ((r, m) ∷ ms)
      → q ≡ r
  head_eq (cons e l out ch) = refl

  not-has-drop :
      (p : Ptr) (pre : Cells Msg) (x : Ptr × Msg) (post : Cells Msg)
      → has p (pre ++ x ∷ post) ≡ false
      → has p (pre ++ post) ≡ false
  not-has-drop p [] x post out = ground arith
  not-has-drop p (y ∷ pre) x post out = ground (arith, not-has-drop p pre x post)

  -- The same further down the queue.
  pub take_middle :
      (k : ℕ) (s : MsgStore) (pre : Cells Msg) (r : Ptr) (m : Msg) (z : Ptr) (n : Msg)
      (post : Cells Msg) {before p c q : Ptr} {b : Msg}
      → Points s.heap p (node b c q)
      → Exact before c
      → has p (pre ++ (r, m) ∷ (z, n) ∷ post) ≡ false
      → Chain Exact s.heap null p q (pre ++ (r, m) ∷ (z, n) ∷ post)
      → NoneFor con pre
      → (m.conn ==ℤ con) ≡ true
      → length pre < k
      → Returns
          (λ ret t.
            Detached r m ret t
            × Chain Exact t.heap null before p ((p, b) ∷ pre ++ (z, n) ∷ post)
            × (t.head ≡ s.head)
            × SameOutside ((p, b) ∷ pre ++ (r, m) ∷ (z, n) ∷ post) s.heap t.heap)
          (pop_loop k con q s)
  take_middle zero s pre r m z n post e l out ch other hit fuel = absurd (omega arith)
  take_middle (suc k) s [] r m z n post e l out ch other hit fuel =
      let same = head_eq ch in
      Returns.mono (take_second k s e l out ch hit) λ ret t (taken, chain, head, rest). (
        (taken.0 ∙ same, subst (λ a. t.heap a ≡ some (node m null null)) same (taken.1)),
        chain,
        head,
        rest,
      )
  take_middle (suc k) s ((y, a) ∷ pre) r m z n post {p} {b} e l out (cons {q = q1} e1 l1 out1 ch)
        (miss, other) hit fuel =
      rw (pop_loop-miss k s e1 miss) (
        Returns.mono (take_middle k s pre r m z n post e1 l1 out1 ch other hit (omega arith))
          λ ret t (taken, chain, head, same). (
            taken,
            cons-SameOutside ((y, a) ∷ pre ++ (r, m) ∷ (z, n) ∷ post) e l out
                (not-has-drop p ((y, a) ∷ pre) (r, m) ((z, n) ∷ post) out) same chain,
            head,
            SameOutside-cons p b ((y, a) ∷ pre ++ (r, m) ∷ (z, n) ∷ post) same,
          ))
