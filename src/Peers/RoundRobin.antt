-- ===== src/Peers/RoundRobin.antt =====
-- The round robin finds a live connection whenever there is one, in cyclic order.
use native.Mathlib.Nat.{mod-eq_of_lt, add-mod_right}
use client_shared_lib.Base.{
  ℕ, zero, suc, ◌+◌, ◌%◌, ◌<◌, ◌≡◌, ◌≢◌, refl, true, false, some, List, arith, get_elem?, length,
  get_elem?-some, Bool-cases, ap, ◌∙◌, inl, inr, ◌-◌, ◌≤◌, leb, ◌==◌, if◌then◌else◌,
}
use client_shared_lib.Mem.{ok, out_of_fuel}
use client_shared_lib.Mem.Returns.{Returns, returns}
use client_shared_lib.Types.{Con}
use client_shared_lib.Peers.{bump, reassign_conn}

-- peer `i` has a connection that is up
abbrev pub IsUp : List Con → ℕ → Type 0
IsUp conns i = (c : Con) × (get_elem? conns i ≡ some c) × (c.state ≡ 1)

abbrev pub IsDown : List Con → ℕ → Type 0
IsDown conns i = (c : Con) × (get_elem? conns i ≡ some c) × (c.state ≢ 1)

pub bump-lt : (n rr : ℕ) → rr < n → bump n rr < n
unfolding bump
bump-lt n rr h = ground arith

-- one step round the table
pub bump-mod : (n rr d : ℕ) → rr < n → (bump n rr + d) % n ≡ (rr + suc d) % n
unfolding bump
bump-mod n rr d h = grind arith

pub bump-eq-mod : (n rr : ℕ) → rr < n → bump n rr ≡ (rr + 1) % n
unfolding bump
bump-eq-mod n rr h = grind arith

-- one round of the loop, when the table has an entry for every peer
round :
    (k : ℕ) (conns : List Con) (n rr : ℕ) {c : Con}
    → rr < n
    → get_elem? conns rr ≡ some c
    → reassign_conn (suc k) conns n rr
      ≡ (if c.state == 1 then ok rr (bump n rr) else reassign_conn k conns n (bump n rr))
unfolding reassign_conn
round k conns n rr {c} h e =
    let m : rr % n ≡ rr = grind arith in
    let z : (n == 0) ≡ false = ground arith in rw (m, z, e) (ground arith)

-- If the d peers from the counter on, in cyclic order, are down and the next one is up, the
-- search takes that one with fuel above d, and the counter moves to the place behind it.
pub reassign_conn-first :
    (d k : ℕ) (conns : List Con) (n rr : ℕ)
    → rr < n
    → ((e : ℕ) → e < d → IsDown conns ((rr + e) % n))
    → IsUp conns ((rr + d) % n)
    → d < k
    → reassign_conn k conns n rr ≡ ok ((rr + d) % n) (((rr + d) % n + 1) % n)
reassign_conn-first zero zero conns n rr h down up fuel = elim fuel [ ]
reassign_conn-first (suc d) zero conns n rr h down up fuel = elim fuel [ ]
reassign_conn-first zero (suc k) conns n rr h down (c, e, up) fuel =
    let m : (rr + 0) % n ≡ rr = grind arith in
    rw (m, round k conns n rr h (rw m at e)) (ground (arith, bump-eq-mod n rr h))
reassign_conn-first (suc d) (suc k) conns n rr h down up fuel =
    let m : (rr + 0) % n ≡ rr = grind arith in
    let (c, e, ne) = down 0 (omega arith) in
    let step = bump-mod n rr d h in
    let rest =
      reassign_conn-first d k conns n (bump n rr) (bump-lt n rr h)
        (λ i hi. rw (bump-mod n rr i h) (down (suc i) (omega arith))) (rw step up) (omega arith) in
    rw (round k conns n rr h (rw m at e)) (ground (arith, rest, step))

abbrev pub Assigned : List Con → ℕ → ℕ → ℕ → Type 0
Assigned conns n c next = IsUp conns c × (c < n) × (next ≡ (c + 1) % n)

reassign_conn-ahead :
    (d k : ℕ) (conns : List Con) (n rr : ℕ)
    → n ≡ length conns
    → rr < n
    → IsUp conns ((rr + d) % n)
    → d < k
    → Returns (Assigned conns n) (reassign_conn k conns n rr)
reassign_conn-ahead zero zero conns n rr len h up fuel = elim fuel [ ]
reassign_conn-ahead (suc d) zero conns n rr len h up fuel = elim fuel [ ]
reassign_conn-ahead zero (suc k) conns n rr len h (c, e, up) fuel =
    let m : (rr + 0) % n ≡ rr = grind arith in
    let one : (c.state == 1) ≡ true = ground arith in
    rw (round k conns n rr h (rw m at e), one) (returns ((c, rw m at e, up), h, bump-eq-mod n rr h))
reassign_conn-ahead (suc d) (suc k) conns n rr len h up fuel =
    let (c, e) = get_elem?-some conns rr (omega arith) in
    let rest =
      reassign_conn-ahead d k conns n (bump n rr) len (bump-lt n rr h) (rw (bump-mod n rr d h) up)
        (omega arith) in
    elim (Bool-cases (c.state == 1)) [
      | inl live ↦
          rw (round k conns n rr h e, live) (returns ((c, e, ground arith), h, bump-eq-mod n rr h))
      | inr dead ↦ rw (round k conns n rr h e, dead) rest
    ]

-- the distance from `rr` on to `i`, round the table
distance : (n rr i : ℕ) → rr < n → i < n → (d : ℕ) × ((rr + d) % n ≡ i) × (d < n)
distance n rr i h hi = elim (Bool-cases (leb rr i)) [
  | inl before ↦ (i - rr, ground (arith, mod-eq_of_lt {n = i} {m = n} hi), ground arith)
  | inr behind ↦ (
    i + n - rr,
    ap (λ x. x % n) (ground arith) ∙ add-mod_right i n ∙ mod-eq_of_lt hi,
    ground arith,
  )
]

-- If the table has an entry for every peer, the counter is in range, and some peer is up, then
-- the search ends within as many rounds as there are peers, on a live peer of the table, with the
-- counter behind it.
pub reassign_conn-IsUp :
    (conns : List Con) (n rr i k : ℕ)
    → n ≡ length conns
    → rr < n
    → i < n
    → IsUp conns i
    → n ≤ k
    → Returns (Assigned conns n) (reassign_conn k conns n rr)
reassign_conn-IsUp conns n rr i k len h hi up fuel =
    let (d, e, lt) = distance n rr i h hi in
    reassign_conn-ahead d k conns n rr len h (rw e up) (omega arith)

-- If every peer is down and the counter is in range, the search does not end, however much fuel
-- it is given.
pub reassign_conn-spins :
    (k : ℕ) (conns : List Con) (n rr : ℕ)
    → rr < n
    → ((i : ℕ) → i < n → IsDown conns i)
    → reassign_conn k conns n rr ≡ out_of_fuel
reassign_conn-spins zero conns n rr h down = unfold reassign_conn in refl
reassign_conn-spins (suc k) conns n rr h down =
    let (c, e, ne) = down rr h in
    rw (round k conns n rr h e)
      (ground (arith, reassign_conn-spins k conns n (bump n rr) (bump-lt n rr h) down))
