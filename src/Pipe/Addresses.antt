-- ===== src/Pipe/Addresses.antt =====
-- Which addresses come through the pipe.
use client_shared_lib.Base.{
  ℕ, zero, suc, ◌+◌, ◌-◌, ◌*◌, ◌/◌, ◌%◌, ◌<◌, ◌≤◌, ◌≡◌, refl, ap, inl, inr, true, false, List, [],
  ◌∷◌, ◌++◌, arith, ◌==◌, ltb, length, length-append, take, if◌then◌else◌, Bool-cases,
}
use client_shared_lib.Base.Int.{pos}
use client_shared_lib.Wire.{number, digits, is_space, is_digit}
use client_shared_lib.Pipe.{pbuf}

abbrev pub ten_to : ℕ → ℕ
ten_to zero = 1
ten_to (suc k) = 10 * ten_to k

-- `a` in decimal, with at most `k` digits
unfoldable pub decimal : ℕ → ℕ → List ℕ
decimal zero a = []
decimal (suc k) a = if ltb a 10 then (b'0' + a) ∷ [] else decimal k (a / 10) ++ (b'0' + a % 10) ∷ []

abbrev pub AllDigits : List ℕ → Type 0
AllDigits [] = Unit {0}
AllDigits (c ∷ s) = (is_digit c ≡ true) × AllDigits s

-- a digit that is read after others
digits-snoc :
    (acc d : ℕ) (s : List ℕ)
    → d < 10
    → AllDigits s
    → digits acc (s ++ (b'0' + d) ∷ []) ≡ digits acc s * 10 + d
digits-snoc acc d [] small all =
    let t : is_digit (b'0' + d) ≡ true = ground arith in rw t (omega arith)
digits-snoc acc d (c ∷ s) small (is, all) =
    rw is (digits-snoc (acc * 10 + (c - b'0')) d s small all)

AllDigits-snoc : (d : ℕ) (s : List ℕ) → d < 10 → AllDigits s → AllDigits (s ++ (b'0' + d) ∷ [])
AllDigits-snoc d [] small all = (ground arith, tt)
AllDigits-snoc d (c ∷ s) small (is, all) = (is, AllDigits-snoc d s small all)

decimal-AllDigits : (k a : ℕ) → AllDigits (decimal k a)
unfolding decimal
decimal-AllDigits zero a = tt
decimal-AllDigits (suc k) a = elim (Bool-cases (ltb a 10)) [
  | inl small ↦ rw small (let h : a < 10 = ground arith in (ground arith, tt))
  | inr large ↦
      rw large
        (AllDigits-snoc (a % 10) (decimal k (a / 10)) (omega arith) (decimal-AllDigits k (a / 10)))
]

digits-decimal : (k a : ℕ) → a < ten_to k → digits 0 (decimal k a) ≡ a
unfolding decimal
digits-decimal zero a h = omega arith
digits-decimal (suc k) a h = elim (Bool-cases (ltb a 10)) [
  | inl small ↦ rw small (
      let low : a < 10 = ground arith in
      let t : is_digit (b'0' + a) ≡ true = ground arith in rw t (omega arith))
  | inr large ↦
      rw
        (
          large,
          digits-snoc 0 (a % 10) (decimal k (a / 10)) (omega arith) (decimal-AllDigits k (a / 10)),
          digits-decimal k (a / 10) (omega arith),
        )
        (omega arith)
]

length-decimal : (k a : ℕ) → length (decimal k a) ≤ k
unfolding decimal
length-decimal zero a = omega arith
length-decimal (suc k) a = elim (Bool-cases (ltb a 10)) [
  | inl small ↦ rw small (omega arith)
  | inr large ↦ rw large (
      omega (
        arith,
        length-append (decimal k (a / 10)) ((b'0' + a % 10) ∷ []),
        length-decimal k (a / 10),
      ))
]

take-all : (n : ℕ) (s : List ℕ) → length s ≤ n → take n s ≡ s
take-all zero [] h = refl
take-all zero (c ∷ s) h = absurd (omega arith)
take-all (suc n) [] h = refl
take-all (suc n) (c ∷ s) h = ap (λ t. c ∷ t) (take-all n s (omega arith))

number-AllDigits : (s : List ℕ) → AllDigits s → number s ≡ pos (digits 0 s)
number-AllDigits [] all = refl
number-AllDigits (c ∷ s) (is, all) =
    let blank : is_space c ≡ false = ground arith in
    let minus : (c == b'-') ≡ false = ground arith in
    let plus : (c == b'+') ≡ false = ground arith in rw (blank, minus, plus) refl

-- an address of at most eight digits
pub number-pbuf-decimal : (a : ℕ) → a < ten_to 8 → number (pbuf (decimal 8 a)) ≡ pos a
number-pbuf-decimal a h =
    rw
      (
        take-all 8 (decimal 8 a) (length-decimal 8 a),
        number-AllDigits (decimal 8 a) (decimal-AllDigits 8 a),
        digits-decimal 8 a h,
      )
      refl
