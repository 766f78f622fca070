-- ===== src/Sender/Round.antt =====
-- A round of the sender puts the first message for its peer on the wire and gives it back.
use client_shared_lib.Base.{
  ℕ, suc, ◌<◌, ◌≡◌, refl, true, false, none, some, List, ◌∷◌, ◌++◌, arith, length, ◌==◌, get_elem?,
}
use client_shared_lib.Base.Int.{pos, ◌==ℤ◌}
use client_shared_lib.Mem.{Ptr, null, node, Run, ok, write, Heap}
use client_shared_lib.Mem.Points.{Points, load-ok, free-ok}
use client_shared_lib.Mem.Returns
use client_shared_lib.Mem.Returns.{Returns, returns}
use client_shared_lib.Mem.Seg.{
  Cells, has, Chain, cons, IsQueue, Exact, SameOutside, frame-write, prefix, has-append,
  not-has-behind,
}
use client_shared_lib.Types.Lift.{put_msgs-Returns}
use client_shared_lib.Types.{Con, Msg, Globals}
use client_shared_lib.MsgQueue.{pop_from_msgq}
use client_shared_lib.MsgQueue.Unlink.{NoneFor, Detached}
use client_shared_lib.MsgQueue.Pop.{pop_from_msgq-first, pop_from_msgq-middle}
use client_shared_lib.Wire.{SendAnswer, outbound, send_message}
use client_shared_lib.Wire.Header.{header}
use client_shared_lib.Wire.RoundTrip.{Takes, send_message-wire}
use client_shared_lib.Connect.{EndPeer, Dial}
use client_shared_lib.Sender.{Sender, put_globals, my_con, send_node, send_round}

-- Connection `i` is up, and is that of the peer `pid`.
pub record Works (i pid : ℕ) (s : Sender) : Type 0 where
  pub c : Con
  pub entry : get_elem? s.globals.conns i ≡ some c
  pub live : c.state ≡ 1
  pub peer : c.peer_id ≡ pid

pub my_con-ok :
    (i : ℕ) (s : Sender) {c : Con} → get_elem? s.globals.conns i ≡ some c → my_con i s ≡ ok c s
unfolding my_con
my_con-ok i s at_c = rw (my_con, at_c)

pub first-node :
    {h : Heap Msg} {b p r : Ptr} {m : Msg} {post : Cells Msg}
    → Chain Exact h null b p ((r, m) ∷ post)
    → ((r == null) ≡ false) × (has r post ≡ false)
first-node (cons e l out ch) = (e.not_null, out)

-- a node counts as one of a queue wherever in it another stands
has-moved :
    (a r : Ptr) (m : Msg) (pre post : Cells Msg)
    → has a ((r, m) ∷ (pre ++ post)) ≡ false
    → has a (pre ++ (r, m) ∷ post) ≡ false
has-moved a r m pre post away =
    ground (arith, has-append a pre post, has-append a pre ((r, m) ∷ post))

-- the state after the message at `r` has gone out
abbrev after_send : Sender → Ptr → List SendAnswer → List ℕ → Sender
after_send s r rest body = record s {
  globals = record (s.globals) {
    msgs = record (s.globals.msgs) { heap = write s.globals.msgs.heap r none };
  };
  out = outbound rest (s.out.wire ++ (header (length body) ++ body));
}

send_node-ok :
    (i : ℕ) (s : Sender) (r : Ptr) (m : Msg) {rest mid : List SendAnswer}
    → Points s.globals.msgs.heap r (node m null null)
    → m.len ≡ length m.data_req.req_buf
    → m.len < 10000
    → Takes mid (s.out.answers) 4
    → Takes rest mid m.len
    → send_node i r s ≡ ok tt (after_send s r rest (m.data_req.req_buf))
unfolding send_node
send_node-ok i s r m {rest} e whole small first second =
    let sent' : send_message true (m.data_req.req_buf) (m.len) (s.out)
        ≡ ok true (
            outbound rest
              (s.out.wire ++ (header (length m.data_req.req_buf) ++ m.data_req.req_buf))) =
      rw whole (
        send_message-wire true (m.data_req.req_buf) (s.out) (rw whole at small) first
          (rw whole at second)) in
    rw (load-ok (s.globals.msgs) e, sent', free-ok (s.globals.msgs) e)

put_globals-Returns :
    {A : Type 0} {P : A → Globals → Type 0} {r : Run Globals A} (s : Sender)
    → Returns P r
    → Returns (λ a s'. (g : Globals) × (s' ≡ record s { globals = g }) × P a g) (put_globals s r)
put_globals-Returns s (returns {s = g} p) = returns (g, refl, p)

-- The message at `r` is on the wire behind its length, and its node is given back; `ms` is left.
pub record Sent (s : Sender) (r : Ptr) (m : Msg) (rest : List SendAnswer) (ms : Cells Msg)
    (_ : Unit {0}) (t : Sender) : Type 0 where
  pub wired :
      t.out
      ≡ outbound rest (s.out.wire ++ (header (length m.data_req.req_buf) ++ m.data_req.req_buf))
  pub queue : IsQueue Exact t.globals.msgs ms
  pub freed : t.globals.msgs.heap r ≡ none
  pub apart : has r ms ≡ false
  pub frame : SameOutside ((r, m) ∷ ms) s.globals.msgs.heap t.globals.msgs.heap
  pub conns : t.globals.conns ≡ s.globals.conns
  pub ids : t.globals.ids ≡ s.globals.ids

module _ (k : ℕ) (peers : List EndPeer) (i pid : ℕ) (d : Dial) (s : Sender) (w : Works i pid s)
    (r : Ptr) (m : Msg) {rest mid : List SendAnswer} (whole : m.len ≡ length m.data_req.req_buf)
    (small : m.len < 10000) (first : Takes mid (s.out.answers) 4)
    (second : Takes rest mid m.len) where
  -- whatever queue the pop has left
  send_round-Sent :
      {ms : Cells Msg}
      → Returns
          (λ ret t.
            Detached r m ret t
            × IsQueue Exact t ms
            × SameOutside ((r, m) ∷ ms) s.globals.msgs.heap t.heap)
          (pop_from_msgq k (pos pid) s.globals.msgs)
      → (r == null) ≡ false
      → has r ms ≡ false
      → Returns (Sent s r m rest ms) (send_round k peers i d s)
  unfolding send_round write
  send_round-Sent {ms} popped some_r out =
      rw (my_con-ok i s w.entry, w.live, w.peer)
        (Returns.bind (put_globals-Returns s (put_msgs-Returns (s.globals) popped))
          λ p s' (g', same, (t, same', ((ret, detached), q, outside))).
            rw (same, same', ret, some_r)
              (rw
                (send_node-ok i (record s { globals = record (s.globals) { msgs = t } }) r m
                  (record { not_null = some_r; holds = detached }) whole small first second)
                (returns (record {
                  wired = refl;
                  queue = frame-write r none q out;
                  freed = let e : (r == r) ≡ true = ground arith in rw (write, e);
                  apart = out;
                  frame = λ a away.
                      let e : (a == r) ≡ false = ground arith in rw (write, e) (outside a away);
                  conns = refl;
                  ids = refl;
                }))))

  -- On a live connection whose kernel takes all of it, a round of the sender puts the message at
  -- the head of the queue, which is for its peer and has its announced length below 10000, on the
  -- wire behind its length, gives the node back, and leaves the rest of the queue, the
  -- connections and the transactions.
  pub send_round-first :
      {post : Cells Msg}
      → IsQueue Exact s.globals.msgs ((r, m) ∷ post)
      → (m.conn ==ℤ pos pid) ≡ true
      → Returns (Sent s r m rest post) (send_round k peers i d s)
  send_round-first {post} q mine =
      let (some_r, out) = first-node q in
      send_round-Sent (pop_from_msgq-first (pos pid) k (s.globals.msgs) q mine) some_r out

  -- On a live connection whose kernel takes all of it, a round of the sender takes the first
  -- message for its peer, which is neither head nor last and has its announced length below
  -- 10000, puts it on the wire behind its length, gives the node back, and leaves the other
  -- messages in order, the connections and the transactions.
  pub send_round-middle :
      (pre : Cells Msg) (z : Ptr) (n : Msg) (post : Cells Msg) {y : Ptr} {b : Msg}
      → IsQueue Exact s.globals.msgs ((y, b) ∷ pre ++ (r, m) ∷ (z, n) ∷ post)
      → (b.conn ==ℤ pos pid) ≡ false
      → NoneFor (pos pid) pre
      → (m.conn ==ℤ pos pid) ≡ true
      → suc (length pre) < k
      → Returns (Sent s r m rest ((y, b) ∷ pre ++ (z, n) ∷ post)) (send_round k peers i d s)
  send_round-middle pre z n post {y} {b} q miss other mine fuel =
      let (front, out, some_r) = prefix r m ((z, n) ∷ post) ((y, b) ∷ pre) q in
      send_round-Sent
        (Returns.mono
          (pop_from_msgq-middle (pos pid) pre r m z n post k (s.globals.msgs) q miss other mine
            fuel)
          λ p t (detached, left, outside). (
            detached,
            left,
            λ a away. outside a (has-moved a r m ((y, b) ∷ pre) ((z, n) ∷ post) away),
          ))
        some_r
        (rw (has-append r ((y, b) ∷ pre) ((z, n) ∷ post), out)
          (not-has-behind r m ((z, n) ∷ post) ((y, b) ∷ pre) q))
