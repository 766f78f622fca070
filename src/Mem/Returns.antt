-- ===== src/Mem/Returns.antt =====
-- Total correctness of a run: no fault, enough fuel, and a postcondition.
use client_shared_lib.Base.{◌≡◌, refl}
use client_shared_lib.Mem.{Run, ok, fault, out_of_fuel, Cmd, and_then}

pub data Returns {S A : Type 0} (P : A → S → Type 0) : Run S A → Type 0 where
  returns : {a : A} {s : S} → P a s → Returns P (ok a s)

module _ {S A : Type 0} {P : A → S → Type 0} where
  pub bind :
      {B : Type 0} {Q : B → S → Type 0} {r : Run S A} {k : A → Cmd S B}
      → Returns P r
      → ((a : A) (s : S) → P a s → Returns Q (k a s))
      → Returns Q (and_then r k)
  bind (returns p) next = next _ _ p

  pub mono :
      {Q : A → S → Type 0} {r : Run S A}
      → Returns P r
      → ((a : A) (s : S) → P a s → Q a s)
      → Returns Q r
  mono (returns p) weaken = returns (weaken _ _ p)

  pub result : {r : Run S A} → Returns P r → (a : A) × (s : S) × (r ≡ ok a s) × P a s
  result (returns {a} {s} p) = (a, s, refl, p)

  -- a run that goes on in one way, whatever the result
  pub bind_eq :
      {B : Type 0} {r : Run S A} {k : A → Cmd S B} (next : Run S B)
      → Returns P r
      → ((a : A) (s : S) → P a s → k a s ≡ next)
      → and_then r k ≡ next
  bind_eq next (returns p) same = same _ _ p

-- one command after another, in either grouping
pub and_then_assoc :
    {S A B C : Type 0} (r : Run S A) (k : A → Cmd S B) (l : B → Cmd S C)
    → and_then (and_then r k) l ≡ and_then r (λ a s. and_then (k a s) l)
and_then_assoc (ok a s) k l = refl
and_then_assoc fault k l = refl
and_then_assoc out_of_fuel k l = refl
