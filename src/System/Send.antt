-- ===== src/System/Send.antt =====
-- A message that is queued keeps the state well formed.
use native.Mathlib.Nat.{mod-lt}
use client_shared_lib.Base.{
  ℕ, ◌+◌, ◌<◌, ◌≡◌, refl, sym, ap, ◌∙◌, inl, inr, none, some, Option-cases, [], ◌∷◌, ◌++◌, arith,
  length, get_elem?-lt,
}
use client_shared_lib.Base.Int.{pos}
use client_shared_lib.Mem.{Ptr}
use client_shared_lib.Mem.Returns
use client_shared_lib.Mem.Returns.{Returns, returns}
use client_shared_lib.Mem.Seg.{Cells, IsQueue-unique}
use client_shared_lib.Types.{TimeVal, IdEntry, Msg, Globals}
use client_shared_lib.IdQueue.Add.{entry_at}
use client_shared_lib.IdQueue.Entries.{find, refresh}
use client_shared_lib.IdQueue.Whole
use client_shared_lib.IdQueue.Whole.{AllServed}
use client_shared_lib.MsgQueue.{PushArgs, new_msg, push_to_msgq}
use client_shared_lib.MsgQueue.Push.{CanPush, push_to_msgq-known, push_to_msgq-new}
use client_shared_lib.MsgQueue.Routed.{append-AllRouted}
use client_shared_lib.System.Invariant.{WellFormed, Room}

module _ (g : Globals) (w : WellFormed g) where
  module _ (k spin : ℕ) (temp ktemp : Ptr) (now : TimeVal) (a : PushArgs)
      (can : CanPush k temp a g w.entries w.messages) where
    send_known-WellFormed :
        (e : IdEntry)
        → find a.tid w.entries ≡ some e
        → Returns (λ _. WellFormed) (push_to_msgq k spin temp ktemp now a g)
    send_known-WellFormed e known =
        Returns.mono (push_to_msgq-known k spin temp ktemp now a g can e known)
          λ _ g' (ids, msgs, rr, conns, peers). record {
            entries = refresh now a.tid a.callback_f a.callback_param w.entries;
            messages = w.messages ++ (temp, new_msg a (pos e.conn)) ∷ [];
            ids = ids;
            msgs = msgs;
            distinct =
                Whole.refresh-IsDistinct now a.tid a.callback_f a.callback_param w.entries
                  w.distinct;
            served = rw peers (
                Whole.refresh-AllServed now a.tid a.callback_f a.callback_param g.num_peers
                  w.entries w.served);
            routed = rw peers (
                append-AllRouted g.num_peers w.messages temp (new_msg a (pos e.conn)) e.conn
                  w.routed refl (Whole.served g.num_peers a.tid w.entries w.served known));
            peers = record {
              table = peers ∙ w.peers.table ∙ ap length (sym conns);
              counter = rw (rr, peers) w.peers.counter;
            };
          }

    send_new-WellFormed :
        find a.tid w.entries ≡ none
        → Room g spin ktemp
        → Returns (λ _. WellFormed) (push_to_msgq k spin temp ktemp now a g)
    send_new-WellFormed new room =
        Returns.mono
          (push_to_msgq-new k spin temp ktemp now a g can room.peer new room.fresh room.unused
            w.peers room.in_table room.up room.spins)
          λ _ g' (c, (_, at_c, _), ids, msgs, rr, conns, peers).
            let h : c < g.num_peers = rw w.peers.table (get_elem?-lt (g.conns) c at_c) in
            record {
              entries =
                  w.entries ++ (ktemp, entry_at now a.tid a.callback_f a.callback_param c) ∷ [];
              messages = w.messages ++ (temp, new_msg a (pos c)) ∷ [];
              ids = ids;
              msgs = msgs;
              distinct =
                  Whole.append-IsDistinct w.entries ktemp
                    (entry_at now a.tid a.callback_f a.callback_param c) w.distinct new;
              served = rw peers (
                  Whole.append-AllServed g.num_peers w.entries ktemp
                    (entry_at now a.tid a.callback_f a.callback_param c) w.served h);
              routed = rw peers (
                  append-AllRouted g.num_peers w.messages temp (new_msg a (pos c)) c w.routed refl
                    h);
              peers = record {
                table = peers ∙ w.peers.table ∙ ap length (sym conns);
                counter = rw (rr, peers) (mod-lt (c + 1) (omega (arith, w.peers.counter)));
              };
            }

  pub send-WellFormed :
      (k spin : ℕ) (temp ktemp : Ptr) (now : TimeVal) (a : PushArgs) {xs : Cells IdEntry}
      {ms : Cells Msg}
      → CanPush k temp a g xs ms
      → (find a.tid xs ≡ none → Room g spin ktemp)
      → Returns (λ _. WellFormed) (push_to_msgq k spin temp ktemp now a g)
  send-WellFormed k spin temp ktemp now a {xs} {ms} can room =
      let ids = IsQueue-unique (g.ids) can.ids w.ids in
      let can' : CanPush k temp a g w.entries w.messages =
        rw (ids, IsQueue-unique (g.msgs) can.msgs w.msgs) at can in
      elim (Option-cases (find a.tid w.entries)) [
        | inl new ↦
            send_new-WellFormed k spin temp ktemp now a can' new (room (ap (find a.tid) ids ∙ new))
        | inr (e, known) ↦ send_known-WellFormed k spin temp ktemp now a can' e known
      ]
