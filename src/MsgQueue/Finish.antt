-- ===== src/MsgQueue/Finish.antt =====
-- The end of `push_to_msgq`: the message has its connection, and is linked behind the others.
use client_shared_lib.Base.{ℕ, ◌<◌, ◌≡◌, refl, false, some, [], ◌∷◌, ◌++◌, length}
use client_shared_lib.Base.Int.{ℤ, pos}
use client_shared_lib.Mem.{Ptr, null, node, Heap, write, ◌>>◌, set_item}
use client_shared_lib.Mem.Append.{link_last, link_last-append}
use client_shared_lib.Mem.Points.{Points, set_item-ok, Points-write_self}
use client_shared_lib.Mem.Returns
use client_shared_lib.Mem.Returns.{Returns, returns}
use client_shared_lib.Mem.Seg.{Cells, has, Loose, Exact, IsQueue, frame-write}
use client_shared_lib.Types.Lift.{put_msgs-Returns}
use client_shared_lib.Types.{CString, TimeVal, IdEntry, Msg, Globals, on_msgs}
use client_shared_lib.IdQueue.Entries.{find, refresh}
use client_shared_lib.IdQueue.Update.{updated_in}
use client_shared_lib.MsgQueue.{PushArgs, new_msg}

-- the message has been put at the end, and nothing else has changed
pub record Queued (g : Globals) (ms : Cells Msg) (temp : Ptr) (m : Msg) (g' : Globals)
    : Type 0 where
  pub queue : IsQueue Exact g'.msgs (ms ++ (temp, m) ∷ [])
  pub ids : g'.ids ≡ g.ids
  pub rr : g'.rr ≡ g.rr
  pub conns : g'.conns ≡ g.conns
  pub peers : g'.num_peers ≡ g.num_peers

-- a known id: its entry has been refreshed, and `r` is its connection
pub record Kept (now : TimeVal) (a : PushArgs) (xs : Cells IdEntry) (e : IdEntry) (g : Globals)
    (r : ℤ) (g' : Globals) : Type 0 where
  pub returned : r ≡ pos e.conn
  pub queue : IsQueue Loose g'.ids (refresh now a.tid a.callback_f a.callback_param xs)
  pub msgs : g'.msgs ≡ g.msgs
  pub rr : g'.rr ≡ g.rr
  pub conns : g'.conns ≡ g.conns
  pub peers : g'.num_peers ≡ g.num_peers

pub updated-known :
    (tid : CString) (xs : Cells IdEntry) (e : IdEntry)
    → find tid xs ≡ some e
    → updated_in tid xs ≡ pos e.conn
unfolding find
updated-known tid [] e h = cc
updated-known tid (x ∷ xs) e h = rw h

module _ (k : ℕ) (temp : Ptr) (a : PushArgs) where
  pub finish :
      (g : Globals) (con : ℤ) {m : Msg} {ms : Cells Msg}
      → Points g.msgs.heap temp (node m null null)
      → IsQueue Exact g.msgs ms
      → has temp ms ≡ false
      → length ms < k
      → Returns
          (λ _. Queued g ms temp (new_msg a con))
          ((on_msgs (set_item temp (new_msg a con)) >> on_msgs (link_last k temp)) g)
  finish g con {ms} p q away fuel = rw (set_item-ok (g.msgs) p (new_msg a con)) (
      Returns.mono
        (put_msgs-Returns (record g { msgs = record (g.msgs) { heap = h } })
          (link_last-append (λ b. refl) k temp (Points-write_self p _) (frame-write temp _ q away)
            away fuel))
        λ _ g' (s, same, placed).
          rw same (record { queue = placed.0; ids = refl; rr = refl; conns = refl; peers = refl }))
    where
      h : Heap Msg
      h = write g.msgs.heap temp (some (node (new_msg a con) null null))
