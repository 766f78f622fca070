-- ===== src/Sender/Drain.antt =====
-- Round after round the sender of a connection empties the queue of what is for it: the loop of
-- `send_worker_thread` in mod_tcpclient/src/work.c, between two of its waits.
use client_shared_lib.Base.{
  ℕ, suc, ◌+◌, ◌<◌, ◌≤◌, ◌≡◌, refl, ap, ◌∙◌, true, false, none, inl, inr, Bool-cases, ◌==◌, List,
  [], ◌∷◌, ◌++◌, append_assoc, append-nil, arith, length, length-append, if◌then◌else◌,
}
use client_shared_lib.Base.Int.{pos, ◌==ℤ◌, ℤ}
use client_shared_lib.Mem.{Ptr}
use client_shared_lib.Mem.Returns
use client_shared_lib.Mem.Returns.{Returns, returns}
use client_shared_lib.Mem.Seg.{Cells, has, has-append, not-has_of_none, IsQueue, Exact}
use client_shared_lib.Types.{Msg}
use client_shared_lib.MsgQueue.Unlink.{NoneFor}
use client_shared_lib.Wire.{SendAnswer, Outbound, outbound}
use client_shared_lib.Wire.Header.{header}
use client_shared_lib.Wire.RoundTrip.{Takes}
use client_shared_lib.Connect.{EndPeer, Dial}
use client_shared_lib.Sender.{Sender, send_rounds}
use client_shared_lib.Sender.Next.{send_rounds-idle, send_round-before}
use client_shared_lib.Sender.Round.{Works, Sent}

-- what goes over the wire for the messages of a connection, in the order of the queue
abbrev pub frames : ℤ → Cells Msg → List ℕ
frames con [] = []
frames con ((p, m) ∷ ms) =
    if m.conn ==ℤ con
    then (header (length m.data_req.req_buf) ++ m.data_req.req_buf) ++ frames con ms
    else frames con ms

-- the messages of the other connections
abbrev pub others : ℤ → Cells Msg → Cells Msg
others con [] = []
others con ((p, m) ∷ ms) = if m.conn ==ℤ con then others con ms else (p, m) ∷ others con ms

-- the messages of the connection
abbrev pub own : ℤ → Cells Msg → Cells Msg
own con [] = []
own con ((p, m) ∷ ms) = if m.conn ==ℤ con then (p, m) ∷ own con ms else own con ms

abbrev pub count_for : ℤ → Cells Msg → ℕ
count_for con [] = 0
count_for con ((p, m) ∷ ms) = if m.conn ==ℤ con then suc (count_for con ms) else count_for con ms

-- The kernel's answers up to `rest` take each message for the connection, the four bytes of its
-- length first; each has its announced length below 10000.
pub data Accepts (con : ℤ) (rest : List SendAnswer) : Cells Msg → List SendAnswer → Type 0 where
  accepted : Accepts con rest [] rest
  passes :
      {p : Ptr} {m : Msg} {ms : Cells Msg} {answers : List SendAnswer}
      → (m.conn ==ℤ con) ≡ false
      → Accepts con rest ms answers
      → Accepts con rest ((p, m) ∷ ms) answers
  takes :
      {p : Ptr} {m : Msg} {ms : Cells Msg} {answers mid after : List SendAnswer}
      → (m.conn ==ℤ con) ≡ true
      → m.len ≡ length m.data_req.req_buf
      → m.len < 10000
      → Takes mid answers 4
      → Takes after mid m.len
      → Accepts con rest ms after
      → Accepts con rest ((p, m) ∷ ms) answers

-- `sent` has gone out behind what the wire held, the queue holds `left`, the nodes `gone` have been
-- given back, and the connections and the transactions are what they were.
pub record Drained (s : Sender) (rest : List SendAnswer) (sent : List ℕ) (gone left : Cells Msg)
    (_ : Unit {0}) (t : Sender) : Type 0 where
  pub wired : t.out ≡ outbound rest (s.out.wire ++ sent)
  pub freed : (a : Ptr) → has a gone ≡ true → t.globals.msgs.heap a ≡ none
  pub still : (a : Ptr) → s.globals.msgs.heap a ≡ none → t.globals.msgs.heap a ≡ none
  pub queue : IsQueue Exact t.globals.msgs left
  pub conns : t.globals.conns ≡ s.globals.conns
  pub ids : t.globals.ids ≡ s.globals.ids

NoneFor-append :
    (con : ℤ) (pre : Cells Msg) (p : Ptr) (m : Msg)
    → NoneFor con pre
    → (m.conn ==ℤ con) ≡ false
    → NoneFor con (pre ++ (p, m) ∷ [])
NoneFor-append con [] p m other miss = (miss, tt)
NoneFor-append con ((q, b) ∷ pre) p m (first, other) miss =
    (first, NoneFor-append con pre p m other miss)

not-has-moved :
    (a r : Ptr) (m : Msg) (pre post : Cells Msg)
    → has a (pre ++ (r, m) ∷ post) ≡ false
    → has a ((r, m) ∷ (pre ++ post)) ≡ false
not-has-moved a r m pre post away =
    ground (arith, away, has-append a pre post, has-append a pre ((r, m) ∷ post))

Sent-Works :
    {s t : Sender} {p : Ptr} {m : Msg} {after : List SendAnswer} {left : Cells Msg} {i pid : ℕ}
    → Sent s p m after left tt t
    → Works i pid s
    → Works i pid t
Sent-Works one w = record { c = w.c; entry = rw one.conns (w.entry); live = w.live; peer = w.peer }

-- one message and then the others
Sent-Drained :
    (pre ms post : Cells Msg) {s t : Sender} {p : Ptr} {m : Msg} {after rest : List SendAnswer}
    {bytes : List ℕ} {gone left : Cells Msg} {t' : Sender}
    → IsQueue Exact s.globals.msgs (pre ++ (p, m) ∷ (ms ++ post))
    → Sent s p m after (pre ++ (ms ++ post)) tt t
    → Drained t rest bytes gone left tt t'
    → Drained s rest
        ((header (length m.data_req.req_buf) ++ m.data_req.req_buf) ++ bytes)
        ((p, m) ∷ gone)
        left
        tt
        t'
Sent-Drained pre ms post {s} {t} {p} {m} {rest} {bytes} q one done = record {
  wired =
      done.wired
      ∙ ap (λ xs. outbound rest xs)
          (ap (λ (o : Outbound). o.wire ++ bytes) one.wired
            ∙ append_assoc (s.out.wire) (header (length m.data_req.req_buf) ++ m.data_req.req_buf)
                bytes);
  freed = λ a i. elim (Bool-cases (a == p)) [
    | inl e ↦ let same : a ≡ p = ground arith in done.still a (rw same (one.freed))
    | inr e ↦ done.freed a (rw e at i)
  ];
  still = λ a e.
      done.still a (one.frame a (not-has-moved a p m pre (ms ++ post) (not-has_of_none a q e)) ∙ e);
  queue = done.queue;
  conns = done.conns ∙ one.conns;
  ids = done.ids ∙ one.ids;
}

module _ (k : ℕ) (peers : List EndPeer) (i pid : ℕ) (z : Ptr) (last : Msg)
    (tail : (last.conn ==ℤ pos pid) ≡ false) {rest : List SendAnswer} where
  drain-from :
      (pre ms : Cells Msg) (ds : List Dial) (s : Sender) {answers : List SendAnswer}
      → Accepts (pos pid) rest ms answers
      → s.out.answers ≡ answers
      → Works i pid s
      → IsQueue Exact s.globals.msgs (pre ++ (ms ++ (z, last) ∷ []))
      → NoneFor (pos pid) pre
      → length pre + suc (length ms) < k
      → count_for (pos pid) ms ≤ length ds
      → Returns
          (Drained s rest
            (frames (pos pid) ms)
            (own (pos pid) ms)
            (pre ++ (others (pos pid) ms ++ (z, last) ∷ [])))
          (send_rounds k peers i ds s)
  unfolding send_rounds
  drain-from pre [] ds s accepted same w q other fuel enough =
      rw
        (send_rounds-idle k peers i pid ds s w q (NoneFor-append (pos pid) pre z last other tail)
          (omega (arith, length-append pre ((z, last) ∷ []), fuel)))
        (returns (record {
          wired = rw (append-nil (s.out.wire), ← same) refl;
          freed = λ a i. cc;
          still = λ a e. e;
          queue = q;
          conns = refl;
          ids = refl;
        }))
  drain-from pre ((p, m) ∷ ms) ds s (passes miss more) same w q other fuel enough =
      let shift = λ (xs : Cells Msg). append_assoc pre ((p, m) ∷ []) xs in
      rw (miss, ← shift (others (pos pid) ms ++ (z, last) ∷ []))
        (drain-from (pre ++ (p, m) ∷ []) ms ds s more same w
          (rw (← shift (ms ++ (z, last) ∷ [])) at q) (NoneFor-append (pos pid) pre p m other miss)
          (omega (arith, length-append pre ((p, m) ∷ []), fuel)) (rw miss at enough))
  drain-from pre ((p, m) ∷ ms) [] s (takes mine whole small first second more) same w q other fuel
        enough =
      absurd (omega (arith, rw mine at enough))
  drain-from pre ((p, m) ∷ ms) (d ∷ ds) s (takes {after} mine whole small first second more) same w
        q other fuel enough =
      rw mine (
        Returns.bind
          (send_round-before k peers i pid pre p m ms z last d s w q other mine whole small
            (rw (← same) at first) second (omega arith))
          λ u t gone.
            Returns.mono
              (drain-from pre ms ds t more (ap (λ o. o.answers) gone.wired) (Sent-Works gone w)
                (gone.queue) other (omega (arith, fuel)) (omega (arith, rw mine at enough)))
              λ v t'. Sent-Drained pre ms ((z, last) ∷ []) q gone)

  -- On a live connection whose kernel takes all of its messages, each with its announced length
  -- below 10000, and on a queue whose last message is for another connection, at least as many
  -- rounds of the sender as there are messages for its peer return with fuel above the length of
  -- the queue: all of those messages are on the wire, each behind its length and in the order of
  -- the queue, their nodes have been given back, no unused address holds a node, and the other
  -- messages in order, the connections and the transactions stay.
  pub send_rounds-Drained :
      (ms : Cells Msg) (ds : List Dial) (s : Sender)
      → Accepts (pos pid) rest ms (s.out.answers)
      → Works i pid s
      → IsQueue Exact s.globals.msgs (ms ++ (z, last) ∷ [])
      → suc (length ms) < k
      → count_for (pos pid) ms ≤ length ds
      → Returns
          (Drained s rest
            (frames (pos pid) ms)
            (own (pos pid) ms)
            (others (pos pid) ms ++ (z, last) ∷ []))
          (send_rounds k peers i ds s)
  send_rounds-Drained ms ds s more w q fuel enough =
      drain-from [] ms ds s more refl w q tt (omega (arith, fuel)) enough
