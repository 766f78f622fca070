-- ===== src/IdQueue/Add.antt =====
-- `add_entry_idq` gives a new id a live connection and puts its entry at the end of the queue.
use client_shared_lib.Base.{
  ℕ, ◌<◌, ◌≤◌, ◌≡◌, refl, false, none, some, [], ◌∷◌, ◌++◌, arith, length, ◌==◌, ◌+◌, ◌%◌,
}
use client_shared_lib.Base.Int.{ℤ, pos}
use client_shared_lib.Mem.{Ptr, null, node, Heap, write, alloc, out_of_fuel}
use client_shared_lib.Mem.Append.{link_last-append}
use client_shared_lib.Mem.Points.{Points, set_item-ok, Points-write_self}
use client_shared_lib.Mem.Returns
use client_shared_lib.Mem.Returns.{Returns, returns}
use client_shared_lib.Mem.Seg.{Cells, has, Loose, IsQueue, frame-write, not-has_of_none}
use client_shared_lib.Peers.RoundRobin.{IsUp, IsDown, reassign_conn-spins, reassign_conn-IsUp}
use client_shared_lib.Types.Lift.{put_ids-Returns, put_rr-Returns}
use client_shared_lib.Types.{CString, TimeVal, IdEntry, Globals, is_empty, blank_entry}
use client_shared_lib.IdQueue.{new_entry, add_entry}

abbrev pub entry_at : TimeVal → CString → (f param : Ptr) → ℕ → IdEntry
entry_at now tid f param c = record (new_entry now tid f param) { conn = c }

-- the connection table serves every peer, and the counter stands in it
pub record HasPeers (g : Globals) : Type 0 where
  pub table : g.num_peers ≡ length g.conns
  pub counter : g.rr < g.num_peers

-- what `add_entry_idq` leaves behind when it returns `r`
pub record Added (g : Globals) (xs : Cells IdEntry) (temp : Ptr) (e : ℕ → IdEntry) (r : ℤ)
    (g' : Globals) : Type 0 where
  pub con : ℕ
  pub returned : r ≡ pos con
  pub live : IsUp g.conns con
  pub in_table : con < g.num_peers
  pub queue : IsQueue Loose g'.ids (xs ++ (temp, e con) ∷ [])
  pub next : g'.rr ≡ (con + 1) % g.num_peers
  pub msgs : g'.msgs ≡ g.msgs
  pub conns : g'.conns ≡ g.conns
  pub peers : g'.num_peers ≡ g.num_peers

module _ (k spin : ℕ) (temp : Ptr) (now : TimeVal) (tid : CString) (f param : Ptr)
    (g : Globals) where
  -- With some peer up, a fresh node and a nonempty id, add_entry_idq returns a live peer of the
  -- table and has put an entry for it at the end of a whole transaction queue; the counter is
  -- behind that peer, and the message queue and the connections stay.
  pub add_entry-append :
      {xs : Cells IdEntry} (i : ℕ)
      → IsQueue Loose g.ids xs
      → length xs < k
      → (temp == null) ≡ false
      → g.ids.heap temp ≡ none
      → is_empty tid ≡ false
      → HasPeers g
      → i < g.num_peers
      → IsUp g.conns i
      → g.num_peers ≤ spin
      → Returns
          (Added g xs temp (entry_at now tid f param))
          (add_entry k spin temp now tid f param g)
  unfolding add_entry alloc
  add_entry-append {xs} i q fuel fresh unused given peers hi up spins =
      rw (fresh, given, set_item-ok (record { heap = h1; head = g.ids.head }) p1 e0)
        (Returns.bind
          (put_rr-Returns g2 (
            reassign_conn-IsUp g.conns g.num_peers g.rr i spin peers.table peers.counter hi up
              spins))
          λ c g3 (n, same, got).
            rw (same, set_item-ok (g2.ids) p2 (e c))
              (Returns.bind
                (put_ids-Returns (record g2 { rr = n })
                  (link_last-append (λ b. tt) k temp (p3 c) (q3 c) away fuel))
                λ _ g4 (s, is, placed). returns (
                  rw is (record {
                    con = c;
                    returned = refl;
                    live = got.0;
                    in_table = got.1;
                    queue = placed.0;
                    next = got.2;
                    msgs = refl;
                    conns = refl;
                    peers = refl;
                  }))))
    where
      h1 : Heap IdEntry
      h1 = write g.ids.heap temp (some (node blank_entry null null))

      e0 : IdEntry
      e0 = new_entry now tid f param

      e : ℕ → IdEntry
      e c = record e0 { conn = c }

      p1 : Points h1 temp (node blank_entry null null)
      p1 = unfold write in record { not_null = fresh; holds = ground arith }

      h2 : Heap IdEntry
      h2 = write h1 temp (some (node e0 null null))

      g2 : Globals
      g2 = record g { ids = record (g.ids) { heap = h2 } }

      p2 : Points h2 temp (node e0 null null)
      p2 = Points-write_self p1 _

      away : has temp xs ≡ false
      away = not-has_of_none temp q unused

      h3 : ℕ → Heap IdEntry
      h3 c = write h2 temp (some (node (e c) null null))

      p3 : (c : ℕ) → Points (h3 c) temp (node (e c) null null)
      p3 c = Points-write_self p2 _

      q3 : (c : ℕ) → IsQueue Loose (record { heap = h3 c; head = g.ids.head }) xs
      q3 c = frame-write temp _ (frame-write temp _ (frame-write temp _ q away) away) away

  -- If every peer is down and stays so, and the counter is in range, add_entry_idq with a fresh
  -- node and a nonempty id does not return, however much fuel it is given.
  pub add_entry-spins :
      (temp == null) ≡ false
      → is_empty tid ≡ false
      → g.rr < g.num_peers
      → ((i : ℕ) → i < g.num_peers → IsDown g.conns i)
      → add_entry k spin temp now tid f param g ≡ out_of_fuel
  unfolding add_entry alloc
  add_entry-spins fresh given counter down = rw (
    fresh,
    given,
    set_item-ok (record { heap = h1; head = g.ids.head }) p1 (new_entry now tid f param),
    reassign_conn-spins spin g.conns g.num_peers g.rr counter down,
  )
    where
      h1 : Heap IdEntry
      h1 = write g.ids.heap temp (some (node blank_entry null null))

      p1 : Points h1 temp (node blank_entry null null)
      p1 = unfold write in record { not_null = fresh; holds = ground arith }
