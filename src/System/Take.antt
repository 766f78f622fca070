-- ===== src/System/Take.antt =====
-- The sender's turn at the queue: the first message for its connection is taken and given back.
use client_shared_lib.Base.{
  ℕ, ◌<◌, ◌≡◌, refl, true, false, Option, none, some, [], ◌∷◌, ◌++◌, arith, ◌==◌, length,
  length-append,
}
use client_shared_lib.Base.Int.{ℤ, ◌==ℤ◌}
use client_shared_lib.Mem.{Ptr, null, write}
use client_shared_lib.Mem.Points.{free-ok, load-ok}
use client_shared_lib.Mem.Returns
use client_shared_lib.Mem.Returns.{Returns, returns}
use client_shared_lib.Mem.Seg.{
  Cells, has, Exact, IsQueue, IsQueue-unique, SameOutside, frame-write, prefix, has-append,
  not-has-behind,
}
use client_shared_lib.Types.Lift.{put_msgs-Returns}
use client_shared_lib.Types.{Msg, Globals}
use client_shared_lib.MsgQueue.{MsgStore, pop_from_msgq}
use client_shared_lib.MsgQueue.Unlink.{NoneFor, Detached}
use client_shared_lib.MsgQueue.Pop.{pop_from_msgq-none, pop_from_msgq-first, pop_from_msgq-middle}
use client_shared_lib.MsgQueue.Routed.{AllRouted, without-AllRouted}
use client_shared_lib.Sender.Round.{first-node}
use client_shared_lib.System.{take_message, take, perform}
use client_shared_lib.System.Invariant.{WellFormed, Takable, idle, at_head, inner}
use client_shared_lib.System.Kept.{with_messages}

-- `ms` without its first message for the connection, if it has one, is `left`.
pub data Removed (con : ℤ) : Cells Msg → Option Msg → Cells Msg → Type 0 where
  none_there : {ms : Cells Msg} → NoneFor con ms → Removed con ms none ms
  one_gone :
      (pre : Cells Msg) (r : Ptr) (m : Msg) (post : Cells Msg)
      → NoneFor con pre
      → (m.conn ==ℤ con) ≡ true
      → Removed con (pre ++ (r, m) ∷ post) (some m) (pre ++ post)

-- Only the message queue has changed, it is whole again, and `got` is the message it has lost.
pub record Left (g : Globals) (con : ℤ) (ms : Cells Msg) (got : Option Msg) (g' : Globals)
    : Type 0 where
  pub store : MsgStore
  pub same : g' ≡ record g { msgs = store }
  pub left : Cells Msg
  pub queue : IsQueue Exact store left
  pub removed : Removed con ms got left

module _ (g : Globals) where
  -- The message that was taken is given back, and the others are a whole queue.
  taken-Left :
      (k : ℕ) (con : ℤ) (r : Ptr) (m : Msg) {ms : Cells Msg} (left : Cells Msg)
      {P : MsgStore → Type 0}
      → Returns
          (λ ret t. Detached r m ret t × IsQueue Exact t left × P t)
          (pop_from_msgq k con g.msgs)
      → (r == null) ≡ false
      → has r left ≡ false
      → Removed con ms (some m) left
      → Returns (Left g con ms) (take_message k con g)
  unfolding take_message
  taken-Left k con r m left popped some_r out gone =
      Returns.bind (put_msgs-Returns g popped) λ p g' (t, same, ((ret, detached), q, _)).
        rw
          (
            same,
            ret,
            some_r,
            load-ok t (record { not_null = some_r; holds = detached }),
            free-ok t (record { not_null = some_r; holds = detached }),
          )
          (returns (record {
            store = record t { heap = write t.heap r none };
            same = refl;
            left = left;
            queue = frame-write r none q out;
            removed = gone;
          }))

  pub take_message-Left :
      (k : ℕ) (con : ℤ) (ms : Cells Msg)
      → IsQueue Exact g.msgs ms
      → length ms < k
      → Takable con ms
      → Returns (Left g con ms) (take_message k con g)
  unfolding take_message
  take_message-Left k con ms q fuel (idle other) =
      rw (take_message, pop_from_msgq-none con k (g.msgs) q other fuel)
        (returns (record {
          store = g.msgs;
          same = refl;
          left = ms;
          queue = q;
          removed = none_there other;
        }))
  take_message-Left k con ms q fuel (at_head {r} {m} {post} mine) =
      let (some_r, out) = first-node q in
      taken-Left k con r m post {P = λ t. SameOutside ((r, m) ∷ post) g.msgs.heap t.heap}
        (pop_from_msgq-first con k (g.msgs) q mine) some_r out (one_gone [] r m post tt mine)
  take_message-Left k con ms q fuel (inner {y} {b} pre r m z n post miss other mine) =
      let (front, out, some_r) = prefix r m ((z, n) ∷ post) ((y, b) ∷ pre) q in
      taken-Left k con r m ((y, b) ∷ pre ++ (z, n) ∷ post)
        {P = λ t. SameOutside ((y, b) ∷ pre ++ (r, m) ∷ (z, n) ∷ post) g.msgs.heap t.heap}
        (pop_from_msgq-middle con pre r m z n post k (g.msgs) q miss other mine
          (omega (arith, length-append pre ((r, m) ∷ (z, n) ∷ post), fuel)))
        some_r
        (rw (has-append r ((y, b) ∷ pre) ((z, n) ∷ post), out)
          (not-has-behind r m ((z, n) ∷ post) ((y, b) ∷ pre) q))
        (one_gone ((y, b) ∷ pre) r m ((z, n) ∷ post) (miss, other) mine)

Removed-AllRouted :
    {con : ℤ} {ms left : Cells Msg} {got : Option Msg} (n : ℕ)
    → Removed con ms got left
    → AllRouted n ms
    → AllRouted n left
Removed-AllRouted n (none_there other) all = all
Removed-AllRouted n (one_gone pre r m post other mine) all = without-AllRouted n pre (r, m) post all

-- A message that is taken and given back keeps the state well formed.
pub take-WellFormed :
    (g : Globals) (w : WellFormed g) (k : ℕ) (con : ℤ) {ms : Cells Msg}
    → IsQueue Exact g.msgs ms
    → length ms < k
    → Takable con ms
    → Returns (λ _. WellFormed) (perform (take k con) g)
unfolding perform
take-WellFormed g w k con {ms} q fuel can =
    let all : AllRouted g.num_peers ms = rw (IsQueue-unique (g.msgs) w.msgs q) at w.routed in
    Returns.bind (take_message-Left g k con ms q fuel can) λ _ g' done. rw (done.same) (
      returns (
        with_messages g w done.store done.left done.queue
          (Removed-AllRouted g.num_peers done.removed all)))
