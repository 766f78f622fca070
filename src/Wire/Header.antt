-- ===== src/Wire/Header.antt =====
-- The length in front of a message is read back.
use client_shared_lib.Base.{
  ℕ, ◌<◌, ◌≡◌, ap, true, false, some, ◌==◌, List, arith, ltb, ◌+◌, ◌/◌, ◌%◌, [], ◌∷◌,
}
use client_shared_lib.Base.Int.{pos}
use client_shared_lib.Wire.{atoi, number, to_int, is_space, is_digit, length_header}

-- the four bytes of a length
abbrev pub header : ℕ → List ℕ
header n = (b'0' + n / 1000) ∷ (b'0' + n / 100 % 10) ∷ (b'0' + n / 10 % 10) ∷ (b'0' + n % 10) ∷ []

pub length_header-header : (n : ℕ) → n < 10000 → length_header n ≡ some (header n)
unfolding length_header
length_header-header n small = let t : ltb n 10000 ≡ true = ground arith in rw t

digit_byte :
    (d : ℕ)
    → d < 10
    → (is_space (b'0' + d) ≡ false)
      × (is_digit (b'0' + d) ≡ true)
      × ((b'0' + d == b'-') ≡ false)
      × ((b'0' + d == b'+') ≡ false)
digit_byte d small = (ground arith, ground arith, ground arith, ground arith)

number-header : (n : ℕ) → n < 10000 → number (header n) ≡ pos n
number-header n small =
    let a = digit_byte (n / 1000) (omega arith) in
    let b = digit_byte (n / 100 % 10) (omega arith) in
    let c = digit_byte (n / 10 % 10) (omega arith) in
    let d = digit_byte (n % 10) (omega arith) in
    rw (a.0, a.2, a.3, a.1, b.1, c.1, d.1) (ap pos (omega arith))

to_int-small : (n : ℕ) → n < 10000 → to_int (pos n) ≡ pos n
unfolding to_int
to_int-small n small = ground arith

-- atoi, which the receiver applies, reads back the length that the sender prints in front of a
-- message, for every length below 10000.
pub atoi-header : (n : ℕ) → n < 10000 → atoi (header n) ≡ pos n
atoi-header n small = rw (number-header n small) (to_int-small n small)
