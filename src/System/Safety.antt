-- ===== src/System/Safety.antt =====
-- Any operation, in any order: nothing faults, and the state stays well formed.
use client_shared_lib.Base.{◌≡◌}
use client_shared_lib.Mem.{Run, ok}
use client_shared_lib.Mem.Returns.{Returns, returns}
use client_shared_lib.Types.{Globals}
use client_shared_lib.System.{Op, send, answer, expire, take, drop, restore, perform}
use client_shared_lib.System.Invariant.{
  WellFormed, Allowed, can_send, can_answer, can_expire, can_take, can_drop, can_restore,
}
use client_shared_lib.System.Kept.{
  answer-WellFormed, expire-WellFormed, drop-WellFormed, restore-WellFormed,
}
use client_shared_lib.System.Send.{send-WellFormed}
use client_shared_lib.System.Take.{take-WellFormed}
use client_shared_lib.System.Invariant.{Reach, here, later}

-- Whatever is allowed returns, and keeps the state well formed.
perform-WellFormed :
    (g : Globals) (op : Op) → WellFormed g → Allowed g op → Returns (λ _. WellFormed) (perform op g)
unfolding perform
perform-WellFormed g (send k spin temp ktemp now a) w (can_send can room) =
    send-WellFormed g w k spin temp ktemp now a can room
perform-WellFormed g (answer k tid) w (can_answer q fuel) = answer-WellFormed g w k tid q fuel
perform-WellFormed g (expire k clock) w (can_expire q fuel) = expire-WellFormed g w k clock q fuel
perform-WellFormed g (take k con) w (can_take q fuel can) = take-WellFormed g w k con q fuel can
perform-WellFormed g (drop i) w (can_drop h) = drop-WellFormed g w i h
perform-WellFormed g (restore pid peers d) w (can_restore h at_p fits) =
    restore-WellFormed g w pid peers d h at_p fits

pub returned :
    {S A : Type 0} {P : A → S → Type 0} {r : Run S A} {a : A} {s : S}
    → Returns P r
    → r ≡ ok a s
    → P a s
returned {P} {a} {s} (returns {a = b} {s = t} p) e =
    let same_a : b ≡ a = cc in let same_s : t ≡ s = cc in rw (same_a, same_s) at p

Reach-WellFormed : {g h : Globals} → WellFormed g → Reach g h → WellFormed h
Reach-WellFormed w here = w
Reach-WellFormed w (later {h} op r can e) =
    returned (perform-WellFormed h op (Reach-WellFormed w r) can) e

-- From a well-formed state, in which both queues are whole, no two transactions have the same id,
-- every transaction and message belongs to a peer, and the table has an entry for each peer,
-- allowed operations in any order lead to states in which any allowed operation returns without a
-- fault and leaves the state well formed. Allowed are: to queue a message with fresh nodes, and
-- some peer up if its id is new; to answer or expire transactions; to take the first message for
-- a connection, unless it is the last node of a longer queue; to mark a connection of the table
-- as down, or to restore one; each with enough fuel.
pub Reach-Returns :
    {g h : Globals} (op : Op)
    → WellFormed g
    → Reach g h
    → Allowed h op
    → Returns (λ _. WellFormed) (perform op h)
Reach-Returns {h} op w r can = perform-WellFormed h op (Reach-WellFormed w r) can
