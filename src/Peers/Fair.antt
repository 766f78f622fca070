-- ===== src/Peers/Fair.antt =====
-- The round robin gives every live peer its turn: new transactions, one after another.
use native.Mathlib.Nat.{mod-add-mod}
use client_shared_lib.Base.{
  ℕ, zero, suc, ◌+◌, ◌-◌, ◌%◌, ◌<◌, ◌≤◌, ◌≡◌, refl, ◌∙◌, ap, Bool, true, false, Option, none, some,
  List, [], ◌∷◌, arith, get_elem?, get_elem?-some, length, Bool-cases, inl, inr, ◌==◌, leb, ltb,
  if◌then◌else◌,
}
use client_shared_lib.Mem.{Cmd, ok, pure, ◌>>=◌}
use client_shared_lib.Mem.Returns
use client_shared_lib.Mem.Returns.{Returns, returns}
use client_shared_lib.Types.{Con}
use client_shared_lib.Peers.{bump, reassign_conn}
use client_shared_lib.Peers.RoundRobin.{IsDown, bump-lt, bump-eq-mod, reassign_conn-first}

-- the connections of so many new transactions
abbrev pub assignments : ℕ → ℕ → List Con → ℕ → Cmd ℕ (List ℕ)
assignments zero k conns n = pure []
assignments (suc m) k conns n = do
  c ← reassign_conn k conns n
  rest ← assignments m k conns n
  pure (c ∷ rest)

abbrev pub state_up : Option Con → Bool
state_up none = false
state_up (some c) = c.state == 1

-- The live ones of the next `w` places of a table of `n`, from place `i` on and round its end.
unfoldable pub live_from : List Con → (n w i : ℕ) → List ℕ
unfolding bump
live_from conns n zero i = []
live_from conns n (suc w) i =
    let rest = live_from conns n w (bump n i) in
    if state_up (get_elem? conns i) then i ∷ rest else rest

abbrev pub count : ℕ → List ℕ → ℕ
count x [] = 0
count x (y ∷ ys) = if x == y then suc (count x ys) else count x ys

stays : (n rr : ℕ) → rr < n → rr ≡ (rr + 0) % n
stays n rr h = grind arith

bump-ahead : (n rr e : ℕ) → rr < n → (rr + e) % n < n → bump n ((rr + e) % n) ≡ (rr + (e + 1)) % n
bump-ahead n rr e h hi =
    bump-eq-mod n ((rr + e) % n) hi ∙ mod-add-mod (rr + e) n 1 ∙ ap (λ x. x % n) (omega arith)

IsDown-more :
    (conns : List Con) (n rr e i : ℕ)
    → i ≡ (rr + e) % n
    → IsDown conns i
    → ((j : ℕ) → j < e → IsDown conns ((rr + j) % n))
    → (j : ℕ) → j < e + 1
    → IsDown conns ((rr + j) % n)
IsDown-more conns n rr e i at_i here down j below = elim (Bool-cases (j == e)) [
  | inl same ↦ let last : j ≡ e = ground arith in rw (last, ← at_i) here
  | inr other ↦ down j (ground arith)
]

module _ (k : ℕ) (conns : List Con) (n : ℕ) (len : n ≡ length conns) where
  -- `e` places from the counter on are down, and the search has come to place `i`
  assignments-window :
      (w e rr i : ℕ)
      → rr < n
      → i ≡ (rr + e) % n
      → i < n
      → ((j : ℕ) → j < e → IsDown conns ((rr + j) % n))
      → e + w ≤ k
      → Returns
          (λ chosen next. (chosen ≡ live_from conns n w i) × (next < n))
          (assignments (length (live_from conns n w i)) k conns n rr)
  unfolding live_from
  assignments-window zero e rr i h at_i hi down fuel = returns (refl, h)
  assignments-window (suc w) e rr i h at_i hi down fuel =
      let (c, at_c) = get_elem?-some conns i (omega arith) in
      elim (Bool-cases (c.state == 1)) [
        | inl live ↦
            let next : reassign_conn k conns n rr ≡ ok i (bump n i) =
              rw (bump-eq-mod n i hi, at_i)
                (reassign_conn-first e k conns n rr h down (rw (← at_i) (c, at_c, ground arith))
                  (omega (arith, fuel))) in
            rw (at_c, live, next)
              (Returns.bind
                (assignments-window w 0 (bump n i) (bump n i) (bump-lt n i hi)
                  (stays n (bump n i) (bump-lt n i hi)) (bump-lt n i hi)
                  (λ j none_yet. absurd (omega (arith, none_yet))) (omega (arith, fuel)))
                λ rest next' (same, small). returns (ap (λ xs. i ∷ xs) same, small))
        | inr dead ↦
            rw (at_c, dead)
              (assignments-window w (e + 1) rr (bump n i) h
                (ap (bump n) at_i ∙ bump-ahead n rr e h (rw at_i at hi)) (bump-lt n i hi)
                (IsDown-more conns n rr e i at_i (c, at_c, ground arith) down)
                (omega (arith, fuel)))
      ]

-- how far place `i` is ahead of place `s`, round the table
abbrev ahead : ℕ → ℕ → ℕ → ℕ
ahead n s i = if leb s i then i - s else i + n - s

ahead-bump :
    (n s i : ℕ) → s < n → i < n → (i == s) ≡ false → suc (ahead n (bump n s) i) ≡ ahead n s i
unfolding bump
ahead-bump n s i hs hi other = ground arith

ahead-bump_self : (n s : ℕ) → s < n → suc (ahead n (bump n s) s) ≡ n
unfolding bump
ahead-bump_self n s hs = ground arith

count-if_other :
    (here : Bool) (i s : ℕ)
    → (i == s) ≡ false
    → (xs : List ℕ) → count i (if here then s ∷ xs else xs) ≡ count i xs
count-if_other true i s other xs = rw other refl
count-if_other false i s other xs = refl

count-if_self :
    (here : Bool) (s i : ℕ) (xs : List ℕ)
    → (i == s) ≡ true
    → count i xs ≡ 0
    → count i (if here then s ∷ xs else xs) ≡ (if here then 1 else 0)
count-if_self true s i xs same none_left = rw same (ap suc none_left)
count-if_self false s i xs same none_left = none_left

module _ (conns : List Con) (n : ℕ) where
  count-live_from :
      (w s i : ℕ)
      → s < n
      → i < n
      → w ≤ n
      → count i (live_from conns n w s)
        ≡ (if ltb (ahead n s i) w then (if state_up (get_elem? conns i) then 1 else 0) else 0)
  unfolding live_from
  count-live_from zero s i hs hi hw =
      let never : ltb (ahead n s i) 0 ≡ false = ground arith in rw never refl
  count-live_from (suc w) s i hs hi hw =
      let ih = count-live_from w (bump n s) i (bump-lt n s hs) hi (omega (arith, hw)) in
      elim (Bool-cases (i == s)) [
        | inl same ↦
            let here : i ≡ s = ground arith in
            let now : ltb (ahead n s i) (suc w) ≡ true = ground arith in
            let over : ltb (ahead n (bump n s) i) w ≡ false =
              ground (arith, ahead-bump_self n s hs) in
            rw (now, ap (λ x. state_up (get_elem? conns x)) here)
              (count-if_self (state_up (get_elem? conns s)) s i (live_from conns n w (bump n s))
                same (ih ∙ rw over refl))
        | inr other ↦
            let further = ahead-bump n s i hs hi other in
            let later : ltb (ahead n s i) (suc w) ≡ ltb (ahead n (bump n s) i) w = ground arith in
            rw later (
              count-if_other (state_up (get_elem? conns s)) i s other
                (live_from conns n w (bump n s))
              ∙ ih)
      ]

-- If the table has an entry for each of n peers, the counter is in range, and the table does not
-- change, then as many assignments, one after another and each with fuel n, as there are live
-- places in one turn of the table from the counter on return: every live peer has been chosen
-- exactly once and no other at all, and the counter is in range.
pub assignments-fair :
    (k : ℕ) (conns : List Con) (n rr : ℕ)
    → n ≡ length conns
    → rr < n
    → n ≤ k
    → Returns
        (λ chosen next.
          (next < n)
          × ((i : ℕ) → i < n → count i chosen ≡ (if state_up (get_elem? conns i) then 1 else 0)))
        (assignments (length (live_from conns n n rr)) k conns n rr)
assignments-fair k conns n rr len h fuel =
    Returns.mono
      (assignments-window k conns n len n 0 rr rr h (stays n rr h) h
        (λ j none_yet. absurd (omega (arith, none_yet))) (omega (arith, fuel)))
      λ chosen next (same, small). (
        small,
        λ i hi.
            let reached : ltb (ahead n rr i) n ≡ true = ground arith in
            rw same (count-live_from conns n n rr i h hi (omega arith) ∙ rw reached refl),
      )
