-- ===== src/Wakeup.antt =====
-- The senders of all peers, the clients, the message queue and `condition_cond`: the wait at the
-- head of the loop of `send_worker_thread` and `ready_to_send` of mod_tcpclient/src/work.c. A
-- message is the number of its connection. `ready_to_send` pushes under `qtex`, and looks at the
-- queue later, under `condition_mutex`, which a sender holds from its test of `gmsgq` to its wait.
pub mod Stall
use client_shared_lib.Base.{
  ℕ, suc, ◌+◌, ◌<◌, ◌≡◌, ◌≢◌, false, List, [], ◌∷◌, ◌++◌, ◌==◌, length, if◌then◌else◌,
}

-- Where a sender stands: before the test of `gmsgq`, behind a test that found it NULL and with the
-- mutex, in `pthread_cond_wait`, or before its pop.
pub data Phase : Type 0 where
  testing : Phase
  holding : Phase
  waiting : Phase
  popping : Phase

-- `looking` counts the clients that have pushed and have not looked yet.
pub record Threads : Type 0 where
  pub queue : List ℕ
  pub phase : ℕ → Phase
  pub looking : ℕ

abbrev pub at : (ℕ → Phase) → ℕ → Phase → ℕ → Phase
at phase i p j = if j == i then p else phase j

-- no sender holds `condition_mutex`
abbrev pub IsFree : ℕ → (ℕ → Phase) → Type 0
IsFree n phase = (i : ℕ) → i < n → phase i ≢ holding

abbrev pub NoneFor : ℕ → List ℕ → Type 0
NoneFor i [] = Unit {0}
NoneFor i (c ∷ queue) = ((c == i) ≡ false) × NoneFor i queue

-- What `pop_from_msgq` leaves of the queue. A message that is the last one of a longer queue is left
-- out: it stays linked, and the queue then leads to memory that has been given back.
pub data Pops (i : ℕ) : List ℕ → List ℕ → Type 0 where
  none_there : {queue : List ℕ} → NoneFor i queue → Pops i queue queue
  at_head : {queue : List ℕ} → Pops i (i ∷ queue) queue
  inner :
      (c : ℕ) (before : List ℕ) (d : ℕ) (after : List ℕ)
      → NoneFor i (c ∷ before)
      → Pops i (c ∷ before ++ i ∷ d ∷ after) (c ∷ before ++ d ∷ after)

-- A step of one of `n` senders.
pub data SenderStep (n : ℕ) (s : Threads) : Threads → Type 0 where
  -- `gmsgq == NULL`
  sees_none :
      (i : ℕ)
      → i < n
      → s.phase i ≡ testing
      → IsFree n s.phase
      → s.queue ≡ []
      → SenderStep n s (record s { phase = at s.phase i holding })
  -- `pthread_cond_wait`, which gives the mutex back
  sleeps :
      (i : ℕ)
      → i < n
      → s.phase i ≡ holding
      → SenderStep n s (record s { phase = at s.phase i waiting })
  -- `gmsgq != NULL`
  goes_on :
      (i : ℕ)
      → i < n
      → s.phase i ≡ testing
      → IsFree n s.phase
      → s.queue ≢ []
      → SenderStep n s (record s { phase = at s.phase i popping })
  -- `pop_from_msgq`, and back to the head of the loop, with a message or without
  pops :
      (i : ℕ) {queue : List ℕ}
      → i < n
      → s.phase i ≡ popping
      → Pops i s.queue queue
      → SenderStep n s (record s { queue = queue; phase = at s.phase i testing })

-- A step of a client in `ready_to_send`. Where it looks at an empty queue, it reads through NULL.
pub data ClientStep (n : ℕ) (s : Threads) : Threads → Type 0 where
  pushes :
      (c : ℕ)
      → c < n
      → ClientStep n s (record s { queue = s.queue ++ c ∷ []; looking = suc s.looking })
  -- `gmsgq->next != NULL`
  looks :
      {k : ℕ}
      → s.looking ≡ suc k
      → IsFree n s.phase
      → 1 < length s.queue
      → ClientStep n s (record s { looking = k })
  -- `pthread_cond_signal` wakes one of the senders that wait
  signals :
      {k : ℕ} (i : ℕ)
      → s.looking ≡ suc k
      → IsFree n s.phase
      → length s.queue ≡ 1
      → i < n
      → s.phase i ≡ waiting
      → ClientStep n s (record s { phase = at s.phase i testing; looking = k })
  -- or none of them
  signals_none :
      {k : ℕ}
      → s.looking ≡ suc k
      → IsFree n s.phase
      → length s.queue ≡ 1
      → ((i : ℕ) → i < n → s.phase i ≢ waiting)
      → ClientStep n s (record s { looking = k })

-- One step of one thread.
pub data Step (n : ℕ) (s : Threads) : Threads → Type 0 where
  of_sender : {t : Threads} → SenderStep n s t → Step n s t
  of_client : {t : Threads} → ClientStep n s t → Step n s t
  -- a wait that ends without a signal
  wakes :
      (i : ℕ) → i < n → s.phase i ≡ waiting → Step n s (record s { phase = at s.phase i testing })

pub data Reach (n : ℕ) (s : Threads) : Threads → Type 0 where
  here : Reach n s s
  later : {t u : Threads} → Reach n s t → Step n t u → Reach n s u

-- the senders before their first test
abbrev pub init : Threads
init = record { queue = []; phase = λ i. testing; looking = 0 }
