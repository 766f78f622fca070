-- ===== src/System/Queueing.antt =====
-- A message that is queued does what the service promises.
use client_shared_lib.Base.{
  ℕ, ◌+◌, ◌≡◌, sym, ap, ◌∙◌, inl, inr, none, some, Option-cases, [], ◌∷◌, ◌++◌, arith, length,
}
use native.Mathlib.Nat.{mod-lt}
use client_shared_lib.Base.Int.{pos}
use client_shared_lib.Mem.{Ptr}
use client_shared_lib.Mem.Returns
use client_shared_lib.Mem.Returns.{Returns, returns}
use client_shared_lib.Mem.Seg.{Cells}
use client_shared_lib.Types.{TimeVal, IdEntry, Msg, Globals}
use client_shared_lib.IdQueue.Add.{entry_at}
use client_shared_lib.IdQueue.Entries.{find, refresh}
use client_shared_lib.MsgQueue.{PushArgs, new_msg, push_to_msgq}
use client_shared_lib.MsgQueue.Push.{CanPush, push_to_msgq-known, push_to_msgq-new}
use client_shared_lib.System.{send}
use client_shared_lib.System.Invariant.{Room}
use client_shared_lib.System.Service.{
  queues_known, queues_new, view, items-append, lookup-items, items-refresh,
}
use client_shared_lib.System.Achieved.{Represents, Achieves}

module _ (g : Globals) {xs : Cells IdEntry} {ms : Cells Msg} (is : Represents g xs ms) where
  module _ (k spin : ℕ) (temp ktemp : Ptr) (now : TimeVal) (a : PushArgs)
      (can : CanPush k temp a g xs ms) where
    send_known-Achieves :
        (e : IdEntry)
        → find a.tid xs ≡ some e
        → Returns
            (λ _. Achieves (view xs ms g) (send k spin temp ktemp now a))
            (push_to_msgq k spin temp ktemp now a g)
    send_known-Achieves e known =
        Returns.mono (push_to_msgq-known k spin temp ktemp now a g can e known)
          λ _ g' (ids, msgs, rr, conns, peers). record {
            entries = refresh now a.tid a.callback_f a.callback_param xs;
            messages = ms ++ (temp, new_msg a (pos e.conn)) ∷ [];
            represents = record {
              ids = ids;
              msgs = msgs;
              peers = record {
                table = peers ∙ is.peers.table ∙ ap length (sym conns);
                counter = rw (rr, peers) is.peers.counter;
              };
            };
            does =
                rw
                  (
                    rr,
                    conns,
                    peers,
                    items-refresh now a.tid a.callback_f a.callback_param xs,
                    items-append ms ((temp, new_msg a (pos e.conn)) ∷ []),
                  )
                  (queues_known e (lookup-items a.tid xs ∙ known));
          }

    send_new-Achieves :
        find a.tid xs ≡ none
        → Room g spin ktemp
        → Returns
            (λ _. Achieves (view xs ms g) (send k spin temp ktemp now a))
            (push_to_msgq k spin temp ktemp now a g)
    send_new-Achieves new room =
        Returns.mono
          (push_to_msgq-new k spin temp ktemp now a g can room.peer new room.fresh room.unused
            is.peers room.in_table room.up room.spins)
          λ _ g' (c, up, ids, msgs, rr, conns, peers).
            let e = entry_at now a.tid a.callback_f a.callback_param c in
            record {
              entries = xs ++ (ktemp, e) ∷ [];
              messages = ms ++ (temp, new_msg a (pos c)) ∷ [];
              represents = record {
                ids = ids;
                msgs = msgs;
                peers = record {
                  table = peers ∙ is.peers.table ∙ ap length (sym conns);
                  counter = rw (rr, peers) (mod-lt (c + 1) (omega (arith, is.peers.counter)));
                };
              };
              does =
                  rw
                    (
                      rr,
                      conns,
                      peers,
                      items-append xs ((ktemp, e) ∷ []),
                      items-append ms ((temp, new_msg a (pos c)) ∷ []),
                    )
                    (queues_new c (lookup-items a.tid xs ∙ new) up);
            }

    pub send-Achieves :
        (find a.tid xs ≡ none → Room g spin ktemp)
        → Returns
            (λ _. Achieves (view xs ms g) (send k spin temp ktemp now a))
            (push_to_msgq k spin temp ktemp now a g)
    send-Achieves room = elim (Option-cases (find a.tid xs)) [
      | inl new ↦ send_new-Achieves new (room new)
      | inr (e, known) ↦ send_known-Achieves e known
    ]
