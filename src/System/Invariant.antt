-- ===== src/System/Invariant.antt =====
-- A state of the library that is well formed, and what an operation may be asked for.
use client_shared_lib.Base.{
  ℕ, ◌<◌, ◌≤◌, ◌≡◌, true, false, none, some, List, ◌∷◌, ◌++◌, ◌==◌, get_elem?, length,
}
use client_shared_lib.Base.Int.{ℤ, ◌==ℤ◌}
use client_shared_lib.Mem.{Ptr, null, ok}
use client_shared_lib.Mem.Seg.{Cells, Loose, Exact, IsQueue}
use client_shared_lib.Types.{CString, TimeVal, IdEntry, Msg, Globals}
use client_shared_lib.Peers.RoundRobin.{IsUp}
use client_shared_lib.IdQueue.Add.{HasPeers}
use client_shared_lib.IdQueue.Entries.{find, IsDistinct}
use client_shared_lib.IdQueue.Whole.{AllServed}
use client_shared_lib.MsgQueue.{PushArgs}
use client_shared_lib.MsgQueue.Push.{CanPush}
use client_shared_lib.MsgQueue.Unlink.{NoneFor}
use client_shared_lib.MsgQueue.Routed.{AllRouted}
use client_shared_lib.Connect.{EndPeer, Dial, fits_sndbuf}
use client_shared_lib.System.{Op, send, answer, expire, take, drop, restore, perform}

-- Both queues are whole, no two transactions have the same id, every transaction and every message
-- belongs to a peer, and the table has an entry for each peer.
pub record WellFormed (g : Globals) : Type 0 where
  pub entries : Cells IdEntry
  pub messages : Cells Msg
  pub ids : IsQueue Loose g.ids entries
  pub msgs : IsQueue Exact g.msgs messages
  pub distinct : IsDistinct entries
  pub served : AllServed g.num_peers entries
  pub routed : AllRouted g.num_peers messages
  pub peers : HasPeers g

-- The first message for the connection is not the last node of a longer queue.
pub data Takable (con : ℤ) : Cells Msg → Type 0 where
  idle : {ms : Cells Msg} → NoneFor con ms → Takable con ms
  at_head :
      {r : Ptr} {m : Msg} {post : Cells Msg} → (m.conn ==ℤ con) ≡ true → Takable con ((r, m) ∷ post)
  inner :
      {y : Ptr} {b : Msg} (pre : Cells Msg) (r : Ptr) (m : Msg) (z : Ptr) (n : Msg)
      (post : Cells Msg)
      → (b.conn ==ℤ con) ≡ false
      → NoneFor con pre
      → (m.conn ==ℤ con) ≡ true
      → Takable con ((y, b) ∷ pre ++ (r, m) ∷ (z, n) ∷ post)

-- a live peer for a new transaction, and a fresh node for its entry
pub record Room (g : Globals) (spin : ℕ) (ktemp : Ptr) : Type 0 where
  pub fresh : (ktemp == null) ≡ false
  pub unused : g.ids.heap ktemp ≡ none
  pub peer : ℕ
  pub in_table : peer < g.num_peers
  pub up : IsUp g.conns peer
  pub spins : g.num_peers ≤ spin

pub data Allowed (g : Globals) : Op → Type 0 where
  can_send :
      {k spin : ℕ} {temp ktemp : Ptr} {now : TimeVal} {a : PushArgs} {xs : Cells IdEntry}
      {ms : Cells Msg}
      → CanPush k temp a g xs ms
      → (find a.tid xs ≡ none → Room g spin ktemp)
      → Allowed g (send k spin temp ktemp now a)
  can_answer :
      {k : ℕ} {tid : CString} {xs : Cells IdEntry}
      → IsQueue Loose g.ids xs
      → length xs < k
      → Allowed g (answer k tid)
  can_expire :
      {k : ℕ} {clock : ℕ → TimeVal} {xs : Cells IdEntry}
      → IsQueue Loose g.ids xs
      → length xs < k
      → Allowed g (expire k clock)
  can_take :
      {k : ℕ} {con : ℤ} {ms : Cells Msg}
      → IsQueue Exact g.msgs ms
      → length ms < k
      → Takable con ms
      → Allowed g (take k con)
  can_drop : {i : ℕ} → i < g.num_peers → Allowed g (drop i)
  can_restore :
      {pid : ℕ} {peers : List EndPeer} {d : Dial} {p : EndPeer}
      → pid < g.num_peers
      → get_elem? peers pid ≡ some p
      → fits_sndbuf p.port ≡ true
      → Allowed g (restore pid peers d)

-- The states that allowed operations lead to.
pub data Reach (g : Globals) : Globals → Type 0 where
  here : Reach g g
  later :
      {h h' : Globals} (op : Op) → Reach g h → Allowed h op → perform op h ≡ ok tt h' → Reach g h'
