-- ===== src/System/Refinement.antt =====
-- The library does what the service promises: every run of its operations is one of the service's.
use client_shared_lib.Base.{◌≡◌, refl, List, [], ◌∷◌, ◌++◌, ap, ◌∙◌, length}
use client_shared_lib.Mem.Returns
use client_shared_lib.Mem.Returns.{Returns, returns}
use client_shared_lib.Mem.Seg.{Cells, IsQueue-unique}
use client_shared_lib.Types.{IdEntry, Msg, Globals}
use client_shared_lib.IdQueue.Entries.{find}
use client_shared_lib.MsgQueue.Push.{CanPush}
use client_shared_lib.System.{Op, send, answer, expire, take, drop, restore, perform}
use client_shared_lib.System.Invariant.{
  Allowed, can_send, can_answer, can_expire, can_take, can_drop, can_restore, Reach, here, later,
}
use client_shared_lib.System.Safety.{returned}
use client_shared_lib.System.Service.{Service, Serves, idles, then_does, view}
use client_shared_lib.System.Achieved.{
  Represents, Achieves, answer-Achieves, expire-Achieves, take-Achieves, drop-Achieves,
  restore-Achieves,
}
use client_shared_lib.System.Queueing.{send-Achieves}

pub perform-Achieves :
    (g : Globals) (op : Op) {xs : Cells IdEntry} {ms : Cells Msg}
    → Represents g xs ms
    → Allowed g op
    → Returns (λ _. Achieves (view xs ms g) op) (perform op g)
unfolding perform
perform-Achieves g (send k spin temp ktemp now a) {xs} {ms} is (can_send can room) =
    let ids = IsQueue-unique (g.ids) can.ids is.ids in
    let can' : CanPush k temp a g xs ms =
      rw (ids, IsQueue-unique (g.msgs) can.msgs is.msgs) at can in
    send-Achieves g is k spin temp ktemp now a can' (λ new. room (ap (find a.tid) ids ∙ new))
perform-Achieves g (answer k tid) is (can_answer q fuel) =
    answer-Achieves g is k tid (rw (ap length (IsQueue-unique (g.ids) q is.ids)) at fuel)
perform-Achieves g (expire k clock) is (can_expire q fuel) =
    expire-Achieves g is k clock (rw (ap length (IsQueue-unique (g.ids) q is.ids)) at fuel)
perform-Achieves g (take k con) is (can_take q fuel can) =
    let same = IsQueue-unique (g.msgs) q is.msgs in
    take-Achieves g is k con (rw (ap length same) at fuel) (rw same at can)
perform-Achieves g (drop i) is (can_drop h) = drop-Achieves g is i h
perform-Achieves g (restore pid peers d) is (can_restore h at_p fits) =
    restore-Achieves g is pid peers d h at_p fits

-- The state stands for a service that `s` has led to.
pub record Served (s : Service) (g : Globals) : Type 0 where
  pub entries : Cells IdEntry
  pub messages : Cells Msg
  pub represents : Represents g entries messages
  pub serves : Serves s (view entries messages g)

-- the operations of a run of the library, and of one of the service
abbrev pub performed : {g h : Globals} → Reach g h → List Op
performed here = []
performed (later op r can e) = performed r ++ op ∷ []

abbrev pub operations : {s t : Service} → Serves s t → List Op
operations idles = []
operations (then_does op r d) = operations r ++ op ∷ []

-- An operation leads from such a state to such a state.
unfoldable pub Served-step :
    {s : Service} {g h : Globals} (op : Op) (served : Served s g)
    → Achieves (view served.entries served.messages g) op h
    → Served s h
Served-step op served done = record {
  entries = done.entries;
  messages = done.messages;
  represents = done.represents;
  serves = then_does op served.serves done.does;
}

Reach-operations :
    {g h : Globals} {xs : Cells IdEntry} {ms : Cells Msg}
    → Represents g xs ms
    → (r : Reach g h)
    → (served : Served (view xs ms g) h) × (operations served.serves ≡ performed r)
unfolding Served-step
Reach-operations {xs} {ms} is here =
    (record { entries = xs; messages = ms; represents = is; serves = idles }, refl)
Reach-operations is (later {h = g'} op r can e) =
    let (before, same) = Reach-operations is r in
    let done = returned (perform-Achieves g' op (before.represents) can) e in
    (Served-step op before done, ap (λ ops. ops ++ op ∷ []) same)

-- The library refines a service that has only lists of transactions and messages, the
-- connections, and whose turn it is. From a state that stands for a service, allowed operations
-- in any order lead to states in which any allowed operation returns without a fault, and the
-- result stands for a service that the first one leads to by just these operations and this one,
-- in their order: a message with a known id renews the transaction and goes to its peer, one with
-- a new id gets a transaction with a live peer, which moves the turn behind it, and goes to that
-- peer; an answer removes a transaction; the expired ones are marked; a sender takes the first
-- message for its connection; a connection goes down or is restored. Allowed are: to queue a
-- message with fresh nodes, and some peer up if its id is new; to answer or expire transactions;
-- to take the first message for a connection, unless it is the last node of a longer queue; to
-- mark a connection of the table as down, or to restore one; each with enough fuel.
pub perform-Served :
    {g h : Globals} {xs : Cells IdEntry} {ms : Cells Msg} (op : Op)
    → Represents g xs ms
    → (r : Reach g h) → Allowed h op
    → Returns
        (λ _ h'.
          (served : Served (view xs ms g) h') × (operations served.serves ≡ performed r ++ op ∷ []))
        (perform op h)
unfolding Served-step
perform-Served {h} op is r can =
    let (before, same) = Reach-operations is r in
    Returns.mono (perform-Achieves h op (before.represents) can)
      λ _ h' done. (Served-step op before done, ap (λ ops. ops ++ op ∷ []) same)
