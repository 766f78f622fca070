-- ===== src/Wakeup/Stall.antt =====
-- Clients that push before either of them looks: no sender is woken.
use client_shared_lib.Base.{
  ℕ, zero, suc, ◌+◌, ◌<◌, ◌≤◌, ◌≡◌, ◌≢◌, refl, sym, ◌∙◌, true, false, List, [], ◌∷◌, ◌++◌,
  append_assoc, append-nil, length-append, arith, ◌==◌, length, Bool-cases, inl, inr,
}
use client_shared_lib.Wakeup.{
  Phase, testing, holding, waiting, Threads, at, IsFree, SenderStep, sees_none, sleeps, goes_on,
  pops, ClientStep, pushes, looks, signals, signals_none, Step, of_sender, of_client, wakes, Reach,
  here, later, init,
}

-- the steps in which a wait ends without a signal
abbrev pub spurious_of : {n : ℕ} {s t : Threads} → Step n s t → ℕ
spurious_of (of_sender st) = 0
spurious_of (of_client st) = 0
spurious_of (wakes i h e) = 1

abbrev pub spurious : {n : ℕ} {s t : Threads} → Reach n s t → ℕ
spurious here = 0
spurious (later r st) = spurious r + spurious_of st

-- Two messages or more are in the queue, and all senders wait.
pub record IsStalled (n : ℕ) (s : Threads) : Type 0 where
  pub queued : 1 < length s.queue
  pub asleep : (i : ℕ) → i < n → s.phase i ≡ waiting

awake_none :
    {n i : ℕ} {s : Threads} {p : Phase} {A : Type 0}
    → IsStalled n s
    → i < n
    → s.phase i ≡ p
    → p ≢ waiting
    → A
awake_none {i} stalled h e other = absurd (other (sym e ∙ stalled.asleep i h))

SenderStep-none : {n : ℕ} {s t : Threads} {A : Type 0} → SenderStep n s t → IsStalled n s → A
SenderStep-none (sees_none i h e free empty) stalled = awake_none stalled h e (λ x. cc)
SenderStep-none (sleeps i h e) stalled = awake_none stalled h e (λ x. cc)
SenderStep-none (goes_on i h e free full) stalled = awake_none stalled h e (λ x. cc)
SenderStep-none (pops i h e popped) stalled = awake_none stalled h e (λ x. cc)

ClientStep-IsStalled : {n : ℕ} {s t : Threads} → ClientStep n s t → IsStalled n s → IsStalled n t
ClientStep-IsStalled {s} (pushes c h) stalled = record {
  queued = let q = stalled.queued in omega (arith, length-append s.queue (c ∷ []));
  asleep = stalled.asleep;
}
ClientStep-IsStalled (looks e free more) stalled = record {
  queued = stalled.queued;
  asleep = stalled.asleep;
}
ClientStep-IsStalled (signals i e free one h w) stalled =
    absurd (let q = stalled.queued in omega arith)
ClientStep-IsStalled (signals_none e free one none_waits) stalled =
    absurd (let q = stalled.queued in omega arith)

Reach-IsStalled :
    {n : ℕ} {s t : Threads} → IsStalled n s → (r : Reach n s t) → spurious r ≡ 0 → IsStalled n t
Reach-IsStalled stalled here none_wakes = stalled
Reach-IsStalled stalled (later r (of_sender st)) none_wakes =
    SenderStep-none st (Reach-IsStalled stalled r (omega arith))
Reach-IsStalled stalled (later r (of_client st)) none_wakes =
    ClientStep-IsStalled st (Reach-IsStalled stalled r (omega arith))
Reach-IsStalled stalled (later r (wakes i h e)) none_wakes = absurd (omega arith)

-- `m` senders wait, and the others have not begun.
record AreAsleep (n m : ℕ) (s : Threads) : Type 0 where
  reached : Reach n init s
  empty : s.queue ≡ []
  none_looks : s.looking ≡ 0
  asleep : (i : ℕ) → i < m → s.phase i ≡ waiting
  fresh : (i : ℕ) → m ≤ i → s.phase i ≡ testing
  free : (i : ℕ) → s.phase i ≢ holding

-- the next sender finds the queue empty, and waits
one_more : {n m : ℕ} {s : Threads} → m < n → AreAsleep n m s → (t : Threads) × AreAsleep n (suc m) t
one_more {n} {m} {s} h are =
    let self : (m == m) ≡ true = ground arith in
    (
      record s { phase = at (at s.phase m holding) m waiting },
      record {
        reached =
            later
              (later are.reached (
                of_sender
                  (sees_none m h (are.fresh m (omega arith)) (λ i _. are.free i) are.empty)))
              (of_sender (sleeps m h (rw self refl)));
        empty = are.empty;
        none_looks = are.none_looks;
        asleep = λ i lt. elim (Bool-cases (i == m)) [
          | inl same ↦ rw same refl
          | inr other ↦ rw other (are.asleep i (ground arith))
        ];
        fresh = λ i le.
            let other : (i == m) ≡ false = ground arith in rw other (are.fresh i (omega arith));
        free = λ i. elim (Bool-cases (i == m)) [
          | inl same ↦ rw same (λ e. cc)
          | inr other ↦ rw other (are.free i)
        ];
      },
    )

all_asleep : (n m : ℕ) → m ≤ n → (s : Threads) × AreAsleep n m s
all_asleep n zero le = (
  init,
  record {
    reached = here;
    empty = refl;
    none_looks = refl;
    asleep = λ i lt. absurd (omega arith);
    fresh = λ i _. refl;
    free = λ i e. cc;
  },
)
all_asleep n (suc m) le = let (s, are) = all_asleep n m (omega arith) in one_more (omega arith) are

-- the messages are to connections of the senders
abbrev pub AllBelow : ℕ → List ℕ → Type 0
AllBelow n [] = Unit {0}
AllBelow n (c ∷ cs) = (c < n) × AllBelow n cs

-- clients push, and none of them has looked
all_push :
    {n : ℕ} (cs : List ℕ) (s : Threads)
    → AllBelow n cs
    → Reach n init s
    → (t : Threads) × Reach n init t × (t.queue ≡ s.queue ++ cs) × (t.phase ≡ s.phase)
all_push [] s below r = (s, r, sym (append-nil s.queue), refl)
all_push (c ∷ cs) s (h, below) r =
    let (t, r', queue, phase) =
      all_push cs (record s { queue = s.queue ++ c ∷ []; looking = suc s.looking }) below
        (later r (of_client (pushes c h))) in
    (t, r', queue ∙ append_assoc s.queue (c ∷ []) cs, phase)

-- then they look, one after another
all_look :
    {n : ℕ} (k : ℕ) (s : Threads)
    → s.looking ≡ k
    → IsFree n s.phase
    → 1 < length s.queue
    → Reach n init s
    → (t : Threads) × Reach n init t × (t.queue ≡ s.queue) × (t.phase ≡ s.phase) × (t.looking ≡ 0)
all_look zero s e free more r = (s, r, refl, refl, e)
all_look (suc k) s e free more r =
    all_look k (record s { looking = k }) refl free more (later r (of_client (looks e free more)))

-- For any number of senders and any two or more messages to their connections, a state is reached
-- in which the queue holds these messages, every client has returned from ready_to_send and all
-- senders wait, and from then on, as long as no wait ends without a signal, whatever clients
-- come, no sender goes on: the clients pushed before one of them looked, and who finds two
-- messages or more sends no signal.
pub Reach-stalls :
    (n c d : ℕ) (cs : List ℕ)
    → AllBelow n (c ∷ d ∷ cs)
    → (s : Threads) × Reach n init s
      × (s.queue ≡ c ∷ d ∷ cs)
      × (s.looking ≡ 0)
      × IsStalled n s
      × ((t : Threads) → (r : Reach n s t) → spurious r ≡ 0 → IsStalled n t)
Reach-stalls n c d cs below =
    let (s, are) = all_asleep n n (omega arith) in
    let (t, r, pushed, same) = all_push (c ∷ d ∷ cs) s below (are.reached) in
    let queue : t.queue ≡ c ∷ d ∷ cs = rw (are.empty) at pushed in
    let more : 1 < length t.queue = rw queue (omega arith) in
    let free : IsFree n t.phase = rw same (λ i _. are.free i) in
    let (u, r', queue', same', looked) = all_look t.looking t refl free more r in
    let stalled : IsStalled n u = record {
      queued = rw queue' more;
      asleep = rw (same', same) (are.asleep);
    } in
    (u, r', queue' ∙ queue, looked, stalled, λ v w none_wakes. Reach-IsStalled stalled w none_wakes)
