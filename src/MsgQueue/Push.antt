-- ===== src/MsgQueue/Push.antt =====
-- `push_to_msgq` puts a message at the end of the queue, on the connection of its transaction.
use mathlib.Core.Path.{subst}
use client_shared_lib.Base.{
  ℕ, ◌<◌, ◌≤◌, ◌≡◌, refl, ◌∙◌, true, false, none, some, [], ◌∷◌, ◌++◌, arith, length, ◌==◌, ◌+◌,
  ◌%◌,
}
use client_shared_lib.Base.Int.{ℤ, pos, negsuc}
use client_shared_lib.Mem.{Ptr, null, node, Heap, write, alloc}
use client_shared_lib.Mem.Points.{Points, set_item-ok, Points-write_self}
use client_shared_lib.Mem.Returns
use client_shared_lib.Mem.Returns.{Returns, returns}
use client_shared_lib.Mem.Seg.{
  Cells, has, Loose, Exact, IsQueue, IsQueue-of_eq, frame-write, not-has_of_none,
}
use client_shared_lib.Types.Lift.{put_ids-Returns}
use client_shared_lib.Types.{TimeVal, IdEntry, Msg, Globals, is_empty, blank_msg}
use client_shared_lib.Peers.RoundRobin.{IsUp}
use client_shared_lib.IdQueue.Entries.{find, refresh}
use client_shared_lib.IdQueue.Lookup.{conn_of, is_id_present-find}
use client_shared_lib.IdQueue.Update.{update_entry-refresh}
use client_shared_lib.IdQueue.Add.{entry_at, HasPeers, Added, add_entry-append}
use client_shared_lib.MsgQueue.{PushArgs, new_msg, fits_key, route, push_to_msgq}
use client_shared_lib.MsgQueue.Finish.{Queued, Kept, updated-known, finish}

-- what `push_to_msgq` needs: both queues whole, and a fresh node
pub record CanPush (k : ℕ) (temp : Ptr) (a : PushArgs) (g : Globals) (xs : Cells IdEntry)
    (ms : Cells Msg) : Type 0 where
  pub ids : IsQueue Loose g.ids xs
  pub msgs : IsQueue Exact g.msgs ms
  pub ids_fuel : length xs < k
  pub msgs_fuel : length ms < k
  pub fresh : (temp == null) ≡ false
  pub unused : g.msgs.heap temp ≡ none
  pub given : is_empty a.tid ≡ false
  pub fits : fits_key a.tid ≡ true

-- the state in which `push_to_msgq` looks for a connection: the message is filled in, not linked
abbrev staged : Ptr → PushArgs → Globals → Globals
staged temp a g = record g {
  msgs = record (g.msgs) {
    heap =
        write (write g.msgs.heap temp (some (node blank_msg null null))) temp
          (some (node (new_msg a (negsuc 0)) null null));
  };
}

module _ (k spin : ℕ) (temp ktemp : Ptr) (now : TimeVal) (a : PushArgs) (g : Globals) where
  route-known :
      {xs : Cells IdEntry} (e : IdEntry)
      → IsQueue Loose g.ids xs
      → length xs < k
      → find a.tid xs ≡ some e
      → Returns (Kept now a xs e g) (route k spin ktemp now a (some e.conn) g)
  unfolding route
  route-known {xs} e q fuel known =
      Returns.bind
        (put_ids-Returns g
          (update_entry-refresh now a.tid a.callback_f a.callback_param k (g.ids) q fuel))
        λ r g' (s, same, kept).
          rw (same, kept.0, updated-known a.tid xs e known)
            (returns (record {
              returned = refl;
              queue = kept.1;
              msgs = refl;
              rr = refl;
              conns = refl;
              peers = refl;
            }))

  -- The message is linked behind the others once it has a connection.
  push_to_msgq-route :
      (P : ℤ → Globals → Type 0) {xs : Cells IdEntry} {ms : Cells Msg}
      → CanPush k temp a g xs ms
      → Returns P (route k spin ktemp now a (conn_of (find a.tid xs)) (staged temp a g))
      → ((con : ℤ) (g' : Globals) → P con g' → g'.msgs ≡ (staged temp a g).msgs)
      → Returns
          (λ _ g'. (con : ℤ) × (g3 : Globals) × P con g3 × Queued g3 ms temp (new_msg a con) g')
          (push_to_msgq k spin temp ktemp now a g)
  unfolding push_to_msgq alloc
  push_to_msgq-route P {xs} {ms} can routed kept =
      rw
        (
          can.fresh,
          can.given,
          can.fits,
          set_item-ok (record { heap = h1; head = g.msgs.head }) p1 (new_msg a (negsuc 0)),
          is_id_present-find k a.tid (g.ids) (can.ids) (can.ids_fuel),
          can.given,
        )
        (Returns.bind routed λ con g3 p.
          Returns.mono
            (finish k temp a g3 con {m = new_msg a (negsuc 0)}
              (rw (kept con g3 p) (Points-write_self p1 _)) (rw (kept con g3 p) q) away
              (can.msgs_fuel))
            λ _ g' done. (con, g3, p, done))
    where
      h1 : Heap Msg
      h1 = write g.msgs.heap temp (some (node blank_msg null null))

      p1 : Points h1 temp (node blank_msg null null)
      p1 = unfold write in record { not_null = can.fresh; holds = ground arith }

      away : has temp ms ≡ false
      away = not-has_of_none temp (can.msgs) (can.unused)

      q : IsQueue Exact ((staged temp a g).msgs) ms
      q = frame-write temp _ (frame-write temp _ (can.msgs) away) away

module _ (k spin : ℕ) (temp ktemp : Ptr) (now : TimeVal) (a : PushArgs) (g : Globals)
    {xs : Cells IdEntry} {ms : Cells Msg} (can : CanPush k temp a g xs ms) where
  -- Pushing a message with the id of an entry, onto whole queues with a fresh node, refreshes the
  -- first such entry in place and puts the message at the end of the message queue with the
  -- entry's connection, whether or not that connection is up; the connections and the counter
  -- stay.
  pub push_to_msgq-known :
      (e : IdEntry)
      → find a.tid xs ≡ some e
      → Returns
          (λ _ g'.
            IsQueue Loose g'.ids (refresh now a.tid a.callback_f a.callback_param xs)
            × IsQueue Exact g'.msgs (ms ++ (temp, new_msg a (pos e.conn)) ∷ [])
            × (g'.rr ≡ g.rr)
            × (g'.conns ≡ g.conns)
            × (g'.num_peers ≡ g.num_peers))
          (push_to_msgq k spin temp ktemp now a g)
  push_to_msgq-known e known =
      Returns.mono
        (push_to_msgq-route k spin temp ktemp now a g (Kept now a xs e (staged temp a g)) can
          (rw known (
            route-known k spin temp ktemp now a (staged temp a g) e (can.ids) (can.ids_fuel) known))
          (λ con g' p. p.msgs))
        λ _ g' (con, g3, p, done). (
          IsQueue-of_eq (done.ids) (p.queue),
          subst (λ r. IsQueue Exact g'.msgs (ms ++ (temp, new_msg a r) ∷ [])) (p.returned)
              (done.queue),
          done.rr ∙ p.rr,
          done.conns ∙ p.conns,
          done.peers ∙ p.peers,
        )

  -- Pushing a message with an id that no entry has, onto whole queues with fresh nodes and some
  -- peer up, returns: a live peer has been chosen, an entry with that peer, the id and the
  -- callback stands at the end of the transaction queue, the message stands at the end of the
  -- message queue with the same peer, and the counter is behind that peer.
  pub push_to_msgq-new :
      (i : ℕ)
      → find a.tid xs ≡ none
      → (ktemp == null) ≡ false
      → g.ids.heap ktemp ≡ none
      → HasPeers g
      → i < g.num_peers
      → IsUp g.conns i
      → g.num_peers ≤ spin
      → Returns
          (λ _ g'.
            (c : ℕ) × IsUp g.conns c
            × IsQueue Loose g'.ids
                (xs ++ (ktemp, entry_at now a.tid a.callback_f a.callback_param c) ∷ [])
            × IsQueue Exact g'.msgs (ms ++ (temp, new_msg a (pos c)) ∷ [])
            × (g'.rr ≡ (c + 1) % g.num_peers)
            × (g'.conns ≡ g.conns)
            × (g'.num_peers ≡ g.num_peers))
          (push_to_msgq k spin temp ktemp now a g)
  push_to_msgq-new i new fresh unused peers hi up spins =
      Returns.mono
        (push_to_msgq-route k spin temp ktemp now a g
          (Added (staged temp a g) xs ktemp (entry_at now a.tid a.callback_f a.callback_param)) can
          (rw new (
            unfold route in
            add_entry-append k spin ktemp now a.tid a.callback_f a.callback_param (staged temp a g)
              i (can.ids) (can.ids_fuel) fresh unused (can.given)
              (record { table = peers.table; counter = peers.counter }) hi up spins))
          (λ con g' p. p.msgs))
        λ _ g' (con, g3, p, done). (
          p.con,
          p.live,
          IsQueue-of_eq (done.ids) (p.queue),
          subst (λ r. IsQueue Exact g'.msgs (ms ++ (temp, new_msg a r) ∷ [])) (p.returned)
              (done.queue),
          done.rr ∙ p.next,
          done.conns ∙ p.conns,
          done.peers ∙ p.peers,
        )
