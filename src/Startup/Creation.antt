-- ===== src/Startup/Creation.antt =====
-- Creating the threads, one after another.
use client_shared_lib.Base.{
  ℕ, zero, suc, ◌+◌, ◌*◌, ◌<◌, ◌≡◌, refl, ◌∙◌, sym, inl, inr, Bool, true, false, ◌&&◌, some, List,
  [], ◌∷◌, ◌++◌, append_assoc, append-nil, arith, set, length, length-set, get_elem?-some,
  if◌then◌else◌, Bool-cases,
}
use client_shared_lib.Base.Int.{ℤ, pos, ◌==ℤ◌}
use client_shared_lib.Mem.{ok}
use client_shared_lib.Mem.Returns
use client_shared_lib.Mem.Returns.{Returns, returns}
use client_shared_lib.Startup.{Thread, receiver, sender, Library, worker_loop, spawn_worker}

-- the workers of `n` peers from `i` on
abbrev pub workers : ℕ → ℕ → List Thread
workers zero i = []
workers (suc n) i = receiver i ∷ sender i ∷ workers n (suc i)

-- the threads up to the first that cannot be created
unfoldable pub created : (ℕ → ℤ) → ℕ → List Thread → List Thread
created rc k [] = []
created rc k (t ∷ ts) = if rc k ==ℤ pos 0 then t ∷ created rc (k + 1) ts else []

unfoldable pub all_created : (ℕ → ℤ) → ℕ → List Thread → Bool
all_created rc k [] = true
all_created rc k (t ∷ ts) = (rc k ==ℤ pos 0) && all_created rc (k + 1) ts

module _ (rc : ℕ → ℤ) where
  -- The threads `ts` have been asked for, from the `k`-th on.
  pub record Spawned (ts : List Thread) (k : ℕ) (s : Library) (good : Bool) (t : Library)
      : Type 0 where
    pub threads : t.threads ≡ s.threads ++ created rc k ts
    pub result : good ≡ all_created rc k ts
    pub gconfig : t.gconfig ≡ s.gconfig
    pub net : t.net ≡ s.net

  -- the state after a worker has been created
  abbrev with_worker : ℕ → Thread → Library → Library
  with_worker j t s = record s {
    threads = s.threads ++ t ∷ [];
    worker_t = set (s.worker_t) j (some t);
  }

  spawn_worker-good :
      (k j : ℕ) (t : Thread) (s : Library)
      → j < length s.worker_t
      → (rc k ==ℤ pos 0) ≡ true
      → spawn_worker rc k j t s ≡ ok true (with_worker j t s)
  spawn_worker-good k j t s inside good =
      let (_, there) = get_elem?-some (s.worker_t) j inside in rw (there, good) refl

  spawn_worker-bad :
      (k j : ℕ) (t : Thread) (s : Library)
      → j < length s.worker_t
      → (rc k ==ℤ pos 0) ≡ false
      → spawn_worker rc k j t s ≡ ok false (record s { worker_t = set (s.worker_t) j (some t) })
  spawn_worker-bad k j t s inside bad =
      let (_, there) = get_elem?-some (s.worker_t) j inside in rw (there, bad) refl

  -- a thread that is created, and those behind it
  pub Spawned-cons :
      {t : Thread} {ts : List Thread} {k : ℕ} {s s' u : Library} {good : Bool}
      → (rc k ==ℤ pos 0) ≡ true
      → s'.threads ≡ s.threads ++ t ∷ []
      → s'.gconfig ≡ s.gconfig
      → s'.net ≡ s.net
      → Spawned ts (k + 1) s' good u
      → Spawned (t ∷ ts) k s good u
  unfolding created all_created
  Spawned-cons {t} {ts} {k} {s} ok_k threads gconfig net rest = record {
    threads =
        rest.threads
        ∙ rw (threads, ok_k) (append_assoc (s.threads) (t ∷ []) (created rc (k + 1) ts));
    result = rw ok_k rest.result;
    gconfig = rest.gconfig ∙ gconfig;
    net = rest.net ∙ net;
  }

  -- a thread that cannot be created
  pub Spawned-fails :
      {t : Thread} {ts : List Thread} {k : ℕ} {s u : Library}
      → (rc k ==ℤ pos 0) ≡ false
      → u.threads ≡ s.threads
      → u.gconfig ≡ s.gconfig
      → u.net ≡ s.net
      → Spawned (t ∷ ts) k s false u
  unfolding created all_created
  Spawned-fails {s} bad threads gconfig net = record {
    threads = rw bad (threads ∙ sym (append-nil (s.threads)));
    result = rw bad refl;
    gconfig = gconfig;
    net = net;
  }

  pub worker_loop-Spawned :
      (n i k j : ℕ) (s : Library)
      → j + n * 2 ≡ length s.worker_t
      → Returns (Spawned (workers n i) k s) (worker_loop rc n i k j s)
  unfolding worker_loop created all_created
  worker_loop-Spawned zero i k j s size =
      returns (record {
        threads = sym (append-nil (s.threads));
        result = refl;
        gconfig = refl;
        net = refl;
      })
  worker_loop-Spawned (suc n) i k j s size = elim (Bool-cases (rc k ==ℤ pos 0)) [
    | inr bad ↦
        rw (spawn_worker-bad k j (receiver i) s (omega arith) bad)
          (returns (Spawned-fails bad refl refl refl))
    | inl good ↦
        let s1 = with_worker j (receiver i) s in
        let size1 = length-set (s.worker_t) j (some (receiver i)) in
        let inside : j + 1 < length s1.worker_t = omega (arith, size1) in
        rw (spawn_worker-good k j (receiver i) s (omega arith) good)
          (elim (Bool-cases (rc (k + 1) ==ℤ pos 0)) [
            | inr bad ↦ rw (spawn_worker-bad (k + 1) (j + 1) (sender i) s1 inside bad) (
                returns
                  (Spawned-cons {s' = s1} good refl refl refl (Spawned-fails bad refl refl refl)))
            | inl good' ↦
                let s2 = with_worker (j + 1) (sender i) s1 in
                let size2 = length-set (s1.worker_t) (j + 1) (some (sender i)) in
                let next : k + 1 + 1 ≡ k + 2 = omega arith in
                rw (spawn_worker-good (k + 1) (j + 1) (sender i) s1 inside good') (
                  Returns.mono
                    (worker_loop-Spawned n (suc i) (k + 2) (j + 2) s2 (omega (arith, size1, size2)))
                    λ r t rest.
                      Spawned-cons {s' = s1} good refl refl refl
                        (Spawned-cons {s' = s2} good' refl refl refl (rw next rest)))
          ])
  ]
