-- ===== src/System/Order.antt =====
-- The messages of each connection leave in the order in which they were queued.
use client_shared_lib.Base.{
  length, Option, none, some, ◌≡◌, refl, sym, ap, ◌∙◌, true, false, List, [], ◌∷◌, ◌++◌,
  append_assoc, append-nil, arith, Bool-cases, inl, inr, if◌then◌else◌,
}
use client_shared_lib.Base.Int.{ℤ, pos, negsuc, ◌==ℤ◌}
use client_shared_lib.Mem.Seg.{Cells, IsQueue-unique}
use client_shared_lib.Types.{IdEntry, Msg, Globals}
use client_shared_lib.MsgQueue.{new_msg}
use client_shared_lib.System.{Op, send, answer, expire, take, drop, restore, take_message}
use client_shared_lib.System.Take.{Removed, none_there, one_gone, Left, take_message-Left}
use client_shared_lib.MsgQueue.Unlink.{NoneFor}
use client_shared_lib.Mem.{Run, ok, fault, out_of_fuel}
use client_shared_lib.Mem.Returns.{Returns, returns}
use client_shared_lib.System.Invariant.{Allowed, can_take, Reach, here, later}
use client_shared_lib.System.Service.{
  Service, without_first, Does, queues_known, queues_new, answers, expires, takes, drops, restores,
  Serves, idles, then_does, items, view,
}
use client_shared_lib.System.Achieved.{Represents}
use client_shared_lib.System.Refinement.{
  Served, Served-step, operations, performed, perform-Achieves,
}
use client_shared_lib.System.Safety.{returned}

-- the messages for a connection
abbrev pub for_con : ℤ → List Msg → List Msg
for_con con [] = []
for_con con (m ∷ ms) = if m.conn ==ℤ con then m ∷ for_con con ms else for_con con ms

-- the first message for a connection, if there is one
abbrev pub first_for : ℤ → List Msg → List Msg
first_for con [] = []
first_for con (m ∷ ms) = if m.conn ==ℤ con then m ∷ [] else first_for con ms

-- what an operation has queued
abbrev pub queued_by : {s t : Service} {op : Op} → Does s op t → List Msg
queued_by (queues_known {a} e known) = new_msg a (pos e.conn) ∷ []
queued_by (queues_new {a} c new up) = new_msg a (pos c) ∷ []
queued_by answers = []
queued_by expires = []
queued_by takes = []
queued_by (drops c at_c) = []
queued_by (restores c at_c) = []

-- what it has taken for the connection `con`
abbrev pub taken_by : (con : ℤ) (s : Service) {t : Service} {op : Op} → Does s op t → List Msg
taken_by con s (queues_known e known) = []
taken_by con s (queues_new c new up) = []
taken_by con s answers = []
taken_by con s expires = []
taken_by con s (takes {con = other}) = if other ==ℤ con then first_for other s.outbox else []
taken_by con s (drops c at_c) = []
taken_by con s (restores c at_c) = []

abbrev pub queued : {s t : Service} → Serves s t → List Msg
queued idles = []
queued (then_does op r d) = queued r ++ queued_by d

abbrev pub taken : (con : ℤ) {s t : Service} → Serves s t → List Msg
taken con idles = []
taken con (then_does {t} op r d) = taken con r ++ taken_by con t d

for_con-append :
    (con : ℤ) (ms ns : List Msg) → for_con con (ms ++ ns) ≡ for_con con ms ++ for_con con ns
for_con-append con [] ns = refl
for_con-append con (m ∷ ms) ns = elim (Bool-cases (m.conn ==ℤ con)) [
  | inl mine ↦ rw mine (ap (λ xs. m ∷ xs) (for_con-append con ms ns))
  | inr other ↦ rw other (for_con-append con ms ns)
]

without_first-own :
    (con : ℤ) (ms : List Msg)
    → first_for con ms ++ for_con con (without_first con ms) ≡ for_con con ms
unfolding without_first
without_first-own con [] = refl
without_first-own con (m ∷ ms) = elim (Bool-cases (m.conn ==ℤ con)) [
  | inl mine ↦ rw mine refl
  | inr other ↦ rw (other, other) (without_first-own con ms)
]

eq_of_same : (a b : ℤ) → (a ==ℤ b) ≡ true → a ≡ b
eq_of_same (pos a) (pos b) e = ap pos (ground arith)
eq_of_same (negsuc a) (negsuc b) e = ap negsuc (ground arith)
eq_of_same (pos a) (negsuc b) e = cc
eq_of_same (negsuc a) (pos b) e = cc

without_first-others :
    (other con : ℤ) (ms : List Msg)
    → (other ==ℤ con) ≡ false
    → for_con con (without_first other ms) ≡ for_con con ms
unfolding without_first
without_first-others other con [] ne = refl
without_first-others other con (m ∷ ms) ne = elim (Bool-cases (m.conn ==ℤ other)) [
  | inl its ↦ elim (Bool-cases (m.conn ==ℤ con)) [
    | inl mine ↦ let both : (other ==ℤ con) ≡ true = rw (eq_of_same m.conn other its) at mine in cc
    | inr apart ↦ rw (its, apart) refl
  ]
  | inr no_its ↦ elim (Bool-cases (m.conn ==ℤ con)) [
    | inl mine ↦ rw (no_its, mine) (ap (λ xs. m ∷ xs) (without_first-others other con ms ne))
    | inr apart ↦ rw (no_its, apart) (without_first-others other con ms ne)
  ]
]

Does-in_order :
    (con : ℤ) (s : Service) {t : Service} {op : Op} (d : Does s op t)
    → taken_by con s d ++ for_con con t.outbox ≡ for_con con (s.outbox ++ queued_by d)
Does-in_order con s (queues_known e known) = refl
Does-in_order con s (queues_new c new up) = refl
Does-in_order con s answers = rw (append-nil (s.outbox)) refl
Does-in_order con s expires = rw (append-nil (s.outbox)) refl
Does-in_order con s (takes {con = other}) = elim (Bool-cases (other ==ℤ con)) [
  | inl same ↦
      rw (same, eq_of_same other con same, append-nil (s.outbox)) (without_first-own con (s.outbox))
  | inr ne ↦ rw (ne, append-nil (s.outbox)) (without_first-others other con (s.outbox) ne)
]
Does-in_order con s (drops c at_c) = rw (append-nil (s.outbox)) refl
Does-in_order con s (restores c at_c) = rw (append-nil (s.outbox)) refl

Serves-in_order :
    (con : ℤ) (s : Service) {t : Service} (r : Serves s t)
    → taken con r ++ for_con con t.outbox ≡ for_con con (s.outbox ++ queued r)
Serves-in_order con s idles = rw (append-nil (s.outbox)) refl
Serves-in_order con s (then_does {t} {u} op r d) =
    append_assoc (taken con r) (taken_by con t d) (for_con con u.outbox)
    ∙ ap (λ xs. taken con r ++ xs)
        (Does-in_order con t d ∙ for_con-append con (t.outbox) (queued_by d))
    ∙ sym (append_assoc (taken con r) (for_con con t.outbox) (for_con con (queued_by d)))
    ∙ ap (λ xs. xs ++ for_con con (queued_by d)) (Serves-in_order con s r)
    ∙ sym (for_con-append con (s.outbox ++ queued r) (queued_by d))
    ∙ ap (for_con con) (append_assoc (s.outbox) (queued r) (queued_by d))

-- the message that a command has returned, if it has
abbrev pub got : Run Globals (Option Msg) → List Msg
got (ok none g) = []
got (ok (some m) g) = m ∷ []
got fault = []
got out_of_fuel = []

-- what an operation takes off the queue for the connection `con`
abbrev pub delivered_by : ℤ → Globals → Op → List Msg
delivered_by con g (take k other) = if other ==ℤ con then got (take_message k other g) else []
delivered_by con g (send k spin temp ktemp now a) = []
delivered_by con g (answer k tid) = []
delivered_by con g (expire k clock) = []
delivered_by con g (drop i) = []
delivered_by con g (restore pid peers d) = []

-- what the operations of a run take off it
abbrev pub delivered : ℤ → {g h : Globals} → Reach g h → List Msg
delivered con here = []
delivered con (later {h} op r can e) = delivered con r ++ delivered_by con h op

abbrev listed : Option Msg → List Msg
listed none = []
listed (some m) = m ∷ []

first_for-none : (con : ℤ) (ms : Cells Msg) → NoneFor con ms → first_for con (items ms) ≡ []
first_for-none con [] other = refl
first_for-none con ((p, m) ∷ ms) (miss, other) = rw miss (first_for-none con ms other)

first_for-Removed :
    {con : ℤ} {ms left : Cells Msg} {o : Option Msg}
    → Removed con ms o left
    → listed o ≡ first_for con (items ms)
first_for-Removed {con} (none_there {ms} other) = sym (first_for-none con ms other)
first_for-Removed (one_gone [] r m post other mine) = rw mine refl
first_for-Removed (one_gone ((p, b) ∷ pre) r m post (miss, other) mine) =
    rw miss (first_for-Removed (one_gone pre r m post other mine))

got-first_for :
    {g : Globals} {con : ℤ} {ms : Cells Msg} {run : Run Globals (Option Msg)}
    → Returns (Left g con ms) run
    → got run ≡ first_for con (items ms)
got-first_for (returns {a = none} done) = first_for-Removed done.removed
got-first_for (returns {a = some m} done) = first_for-Removed done.removed

-- What the operation takes off the queue is what the service takes.
delivered_by-taken_by :
    (con : ℤ) {g : Globals} {xs : Cells IdEntry} {ms : Cells Msg} {op : Op} {t : Service}
    → Represents g xs ms
    → Allowed g op
    → (d : Does (view xs ms g) op t) → delivered_by con g op ≡ taken_by con (view xs ms g) d
delivered_by-taken_by con is can (queues_known e known) = refl
delivered_by-taken_by con is can (queues_new c new up) = refl
delivered_by-taken_by con is can answers = refl
delivered_by-taken_by con is can expires = refl
delivered_by-taken_by con {g} {xs} {ms} is (can_take q fuel can) (takes {k} {con = other}) =
    let same = IsQueue-unique (g.msgs) q is.msgs in
    rw
      (got-first_for
        (take_message-Left g k other ms is.msgs (rw (ap length same) at fuel) (rw same at can)))
      refl
delivered_by-taken_by con is can (drops c at_c) = refl
delivered_by-taken_by con is can (restores c at_c) = refl

Reach-delivered :
    {g h : Globals} {xs : Cells IdEntry} {ms : Cells Msg} (con : ℤ)
    → Represents g xs ms
    → (r : Reach g h)
    → (served : Served (view xs ms g) h) × (operations served.serves ≡ performed r)
      × (delivered con r ≡ taken con served.serves)
unfolding Served-step
Reach-delivered {xs} {ms} con is here =
    (record { entries = xs; messages = ms; represents = is; serves = idles }, refl, refl)
Reach-delivered con is (later {h} op r can e) =
    let (before, same, gone) = Reach-delivered con is r in
    let done = returned (perform-Achieves h op (before.represents) can) e in
    (
      Served-step op before done,
      ap (λ ops. ops ++ op ∷ []) same,
      rw (gone, delivered_by-taken_by con (before.represents) can (done.does)) refl,
    )

-- Allowed operations in any order, from a state that stands for a service, are what the service
-- does in the same operations, and for every connection the messages that the senders have got
-- from the nodes popped for it, followed by those for it in the queue, are those for it that were
-- in the queue and then those that have been queued, in their order: in no interleaving is a
-- message lost, doubled, given to the sender of another connection or overtaken on its own.
pub Reach-in_order :
    {g h : Globals} {xs : Cells IdEntry} {ms : Cells Msg} (con : ℤ)
    → Represents g xs ms
    → (r : Reach g h)
    → (served : Served (view xs ms g) h) × (operations served.serves ≡ performed r)
      × (delivered con r ++ for_con con (items served.messages)
          ≡ for_con con (items ms ++ queued served.serves))
Reach-in_order con is r =
    let (served, same, gone) = Reach-delivered con is r in
    (served, same, rw gone (Serves-in_order con _ (served.serves)))
