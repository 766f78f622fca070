-- ===== src/Sender/Next.antt =====
-- What a round of the sender does with a queue whose last message is for another connection.
use client_shared_lib.Base.{ℕ, ◌<◌, ◌≡◌, refl, true, List, [], ◌∷◌, ◌++◌, length}
use client_shared_lib.Base.Int.{pos, ◌==ℤ◌}
use client_shared_lib.Mem.{Ptr, ok}
use client_shared_lib.Mem.Returns.{Returns}
use client_shared_lib.Mem.Seg.{Cells, IsQueue, Exact}
use client_shared_lib.Types.{Msg}
use client_shared_lib.MsgQueue.Unlink.{NoneFor}
use client_shared_lib.MsgQueue.Pop.{pop_from_msgq-none}
use client_shared_lib.Wire.{SendAnswer}
use client_shared_lib.Wire.RoundTrip.{Takes}
use client_shared_lib.Connect.{EndPeer, Dial}
use client_shared_lib.Sender.{Sender, send_round, send_rounds}
use client_shared_lib.Sender.Round.{Works, Sent, my_con-ok, send_round-first, send_round-middle}

module _ (k : ℕ) (peers : List EndPeer) (i pid : ℕ) where
  send_round-idle :
      (d : Dial) (s : Sender) {ms : Cells Msg}
      → Works i pid s
      → IsQueue Exact s.globals.msgs ms
      → NoneFor (pos pid) ms
      → length ms < k
      → send_round k peers i d s ≡ ok tt s
  unfolding send_round
  send_round-idle d s w q other fuel =
      rw
        (
          my_con-ok i s w.entry,
          w.live,
          w.peer,
          pop_from_msgq-none (pos pid) k (s.globals.msgs) q other fuel,
        )
        refl

  pub send_rounds-idle :
      (ds : List Dial) (s : Sender) {ms : Cells Msg}
      → Works i pid s
      → IsQueue Exact s.globals.msgs ms
      → NoneFor (pos pid) ms
      → length ms < k
      → send_rounds k peers i ds s ≡ ok tt s
  unfolding send_rounds
  send_rounds-idle [] s w q other fuel = refl
  send_rounds-idle (d ∷ ds) s w q other fuel =
      rw (send_round-idle d s w q other fuel) (send_rounds-idle ds s w q other fuel)

  -- the first message for the connection goes out, at the head or behind others
  send_round-next :
      (pre : Cells Msg) (r : Ptr) (m : Msg) (z : Ptr) (n : Msg) (post : Cells Msg) (d : Dial)
      (s : Sender) {rest mid : List SendAnswer}
      → Works i pid s
      → IsQueue Exact s.globals.msgs (pre ++ (r, m) ∷ (z, n) ∷ post)
      → NoneFor (pos pid) pre
      → (m.conn ==ℤ pos pid) ≡ true
      → m.len ≡ length m.data_req.req_buf
      → m.len < 10000
      → Takes mid (s.out.answers) 4
      → Takes rest mid m.len
      → length pre < k
      → Returns (Sent s r m rest (pre ++ (z, n) ∷ post)) (send_round k peers i d s)
  send_round-next [] r m z n post d s w q other mine whole small first second fuel =
      send_round-first k peers i pid d s w r m whole small first second q mine
  send_round-next ((y, b) ∷ pre) r m z n post d s w q (miss, other) mine whole small first second
        fuel =
      send_round-middle k peers i pid d s w r m whole small first second pre z n post q miss other
        mine fuel

  pub send_round-before :
      (pre : Cells Msg) (r : Ptr) (m : Msg) (ms : Cells Msg) (z : Ptr) (last : Msg) (d : Dial)
      (s : Sender) {rest mid : List SendAnswer}
      → Works i pid s
      → IsQueue Exact s.globals.msgs (pre ++ (r, m) ∷ (ms ++ (z, last) ∷ []))
      → NoneFor (pos pid) pre
      → (m.conn ==ℤ pos pid) ≡ true
      → m.len ≡ length m.data_req.req_buf
      → m.len < 10000
      → Takes mid (s.out.answers) 4
      → Takes rest mid m.len
      → length pre < k
      → Returns (Sent s r m rest (pre ++ (ms ++ (z, last) ∷ []))) (send_round k peers i d s)
  send_round-before pre r m [] z last = send_round-next pre r m z last []
  send_round-before pre r m ((x, b) ∷ ms) z last =
      send_round-next pre r m x b (ms ++ (z, last) ∷ [])
